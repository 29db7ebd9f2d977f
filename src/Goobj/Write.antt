-- ===== src/Goobj/Write.antt =====
-- The records of the object file (internal/goobj/write.go): FuncInfo symbols, references, strings,
-- auxiliary symbols, symbol records and content hashes.
pub mod Object
pub mod Appends
pub mod Strings
pub mod Stores
use goc.Prelude.{
  ℕ, zero, suc, ◌+◌, ◌-◌, ◌%◌, ◌^◌, Bool, true, false, not, ◌&&◌, ◌||◌, ◌==◌, ltb, bytes_eq, codes,
  if◌then◌else◌, bit_or,
}
use goc.Prelude.{Option, none, some, List, [], ◌∷◌, ◌++◌, length, take, drop, map}
use goc.Gocobj.Codec.{Bytes}
use goc.Gometa.{StrMap, find, int_at, Meta}
use goc.Goobj.Le.{le_bytes}
use goc.Goobj.FuncInfo.{FuncInfoData, InlRef, put_func_info}
use goc.Goobj.Link.{
  Kind, Sym, Link, FuncInfo, InlNode, Reloc, LinkError, Fallible, done, failed, panicked, ◌>>=◌,
  or_panic, new_sym, set, alloc,
}
use goc.Goobj.Text.{sorted_files, cut_prefix, has_prefix}
use goc.Goobj.Number.{hash_section, pkg, indexed_as}

-- `symRef`, with the panic on a symbol that has no number.
unfoldable pub sym_ref : Link → Option ℕ → Fallible (ℕ × ℕ)
sym_ref l none = done (0, 0)
sym_ref l (some a) =
    if (l.heap a).indexed then done ((l.heap a).pkg_idx, (l.heap a).sym_idx) else panicked

unfoldable pub inl_refs : Link → List InlNode → Fallible (List InlRef)
inl_refs l [] = done []
inl_refs l (n ∷ ns) = do
  r ← sym_ref l n.func
  rest ← inl_refs l ns
  done (
      record {
        parent = n.parent;
        file = n.file;
        line = n.line;
        func = record { pkg_idx = r.0; sym_idx = r.1 };
        parent_pc = n.parent_pc;
      }
      ∷ rest)

-- The values of the FuncInfo symbol.
unfoldable pub func_info_of : Link → FuncInfo → Fallible FuncInfoData
func_info_of l f = do
  tree ← inl_refs l f.inl_tree
  done (record {
    args = f.args;
    locals = f.locals;
    func_id = f.func_id;
    func_flag = f.func_flag;
    start_line = f.start_line;
    files = sorted_files f.used_files;
    inl_tree = tree;
  })

-- `is`, before its number.
abbrev pub func_info_sym : Bytes → Sym
func_info_sym b = record (new_sym [] 0) { kind = Kind.sdata; p = b; size = length b }

-- idx, out and the link, while the functions are walked.
abbrev pub Indexing : Type 0
Indexing = ℕ × List ℕ × Link

abbrev pub index_self : ℕ → Indexing → Indexing
index_self a (idx, out, l) =
    (idx + 1, out ++ (a ∷ []), set a (indexed_as (pkg l (codes "Self")) idx (l.heap a)) l)

unfoldable pub index_dwarf : Option ℕ → Indexing → Indexing
index_dwarf none st = st
index_dwarf (some a) (idx, out, l) =
    if (l.heap a).size == 0 then (idx, out, l) else index_self a (idx, out, l)

unfoldable pub func_info_text : ℕ → Indexing → Fallible Indexing
func_info_text a (idx, out, l) = do
  f ← or_panic (l.heap a).func
  info ← func_info_of l f
  let new = alloc (func_info_sym (put_func_info l.meta.writer.func_info_start_line info)) l
  let made = index_self new.0 (idx, out, new.1)
  let s = made.2.heap a
  let l' = set a (record s { func = some (record f { func_info_sym = some new.0 }) }) made.2
  done (
      index_dwarf f.dwarf_info
        (index_dwarf f.dwarf_lines (index_dwarf f.dwarf_ranges (made.0, made.1, l'))))

unfoldable pub func_info_texts : List ℕ → Indexing → Fallible Indexing
func_info_texts [] st = done st
func_info_texts (a ∷ syms) st = do st' ← func_info_text a st; func_info_texts syms st'

-- `funcInfoSyms`
unfoldable pub func_info_syms : Link → Fallible Link
func_info_syms l = do
  st ← func_info_texts l.text (length l.defs, [], l)
  done (record st.2 { defs = st.2.defs ++ st.1 })

-- `writer`
pub record Writer : Type 0 where
  pub b : Bytes
  pub strs : StrMap ℕ

abbrev pub put : Bytes → Writer → Writer
put bs w = record w { b = w.b ++ bs }

abbrev pub off : Writer → ℕ
off w = length w.b % 2 ^ 32

abbrev pub put_u32 : ℕ → Writer → Writer
put_u32 v w = put (le_bytes 4 v) w

abbrev pub added_string : Option ℕ → Bytes → Writer → Writer
added_string (some at) s w = w
added_string none s w = record (put s w) { strs = (s, off w) ∷ w.strs }

-- `addString`
unfoldable pub add_string : Bytes → Writer → Writer
add_string s w = added_string (find w.strs s) s w

abbrev pub string_ref_at : Option ℕ → Bytes → Writer → Fallible Writer
string_ref_at (some at) s w = done (put (le_bytes 4 (length s) ++ le_bytes 4 at) w)
string_ref_at none s w = panicked

-- `stringRef`
unfoldable pub string_ref : Bytes → Writer → Fallible Writer
string_ref s w = string_ref_at (find w.strs s) s w

-- `ref`
unfoldable pub put_ref : Link → Option ℕ → Writer → Fallible Writer
put_ref l a w = do r ← sym_ref l a; done (put_u32 r.1 (put_u32 r.0 w))

pub record AuxEnt : Type 0 where
  pub type : ℕ
  pub sym : Option ℕ

-- `nz`
abbrev pub nonzero : Link → ℕ → Option ℕ → List AuxEnt
nonzero l t none = []
nonzero l t (some a) = if (l.heap a).size == 0 then [] else record { type = t; sym = some a } ∷ []

abbrev pub all_of : ℕ → List (Option ℕ) → List AuxEnt
all_of t ds = map (λ d. record { type = t; sym = d }) ds

abbrev pub func_aux : Link → FuncInfo → List AuxEnt
func_aux l f =
    let at = λ (name : Bytes). int_at l.meta.object.aux_types name in
    (record { type = at (codes "FuncInfo"); sym = f.func_info_sym }
      ∷ all_of (at (codes "Funcdata")) f.funcdata)
    ++ (nonzero l (at (codes "DwarfInfo")) f.dwarf_info
        ++ (nonzero l (at (codes "DwarfRanges")) f.dwarf_ranges
            ++ (nonzero l (at (codes "DwarfLines")) f.dwarf_lines
                ++ (nonzero l (at (codes "Pcsp")) f.pcsp
                    ++ (nonzero l (at (codes "Pcfile")) f.pcfile
                        ++ (nonzero l (at (codes "Pcline")) f.pcline
                            ++ (nonzero l (at (codes "Pcinline")) f.pcinline
                                ++ all_of (at (codes "Pcdata")) f.pcdata)))))))

-- `aux`
unfoldable pub aux : Link → ℕ → List AuxEnt
aux l a = elim ((l.heap a).func) [ none ↦ [] | some f ↦ func_aux l f ]

-- `kindName`, by the kind.
abbrev pub kind_name : Kind → Bytes
kind_name Kind.sxxx = codes "Sxxx"
kind_name Kind.sbss = codes "SBSS"
kind_name Kind.sdata = codes "SDATA"
kind_name Kind.snoptrbss = codes "SNOPTRBSS"
kind_name Kind.snoptrdata = codes "SNOPTRDATA"
kind_name Kind.srodata = codes "SRODATA"
kind_name Kind.stext = codes "STEXT"
kind_name Kind.sdwarffcn = codes "SDWARFFCN"
kind_name Kind.sdwarflines = codes "SDWARFLINES"
kind_name Kind.sdwarfrange = codes "SDWARFRANGE"

abbrev pub is_rodata : Kind → Bool
is_rodata Kind.srodata = true
is_rodata k = false

-- `flag |= f` under a test.
abbrev pub or_flag : Bool → ℕ → ℕ → ℕ
or_flag set f flag = if set then bit_or flag f else flag

-- A name behind the type prefix that is not empty and does not begin with a dot.
abbrev pub is_type_rest : Option Bytes → Bool
is_type_rest none = false
is_type_rest (some []) = false
is_type_rest (some (c ∷ rest)) = not (c == 0x2e)

abbrev pub is_dict_rest : Option Bytes → Bool
is_dict_rest none = false
is_dict_rest (some rest) = has_prefix rest (codes ".dict")

unfoldable pub sym_flag : Link → Sym → ℕ
sym_flag l s =
    let f = λ (name : Bytes). int_at l.meta.object.sym_flags name in
    or_flag (is_type_rest (cut_prefix s.name l.meta.writer.type_prefix) && is_rodata s.kind)
      (f (codes "GoType"))
      (or_flag s.no_split (f (codes "NoSplit"))
        (or_flag s.local (f (codes "Local")) (or_flag s.dupok (f (codes "Dupok")) 0)))

unfoldable pub sym_flag2 : Link → Sym → ℕ
sym_flag2 l s =
    let f = λ (name : Bytes). int_at l.meta.object.sym_flags2 name in
    or_flag
      ((l.meta.writer.asm_named_syms_linkname && not (bytes_eq s.name []))
        || bytes_eq s.name (codes "main.main"))
      (f (codes "Linkname"))
      (or_flag (is_dict_rest (cut_prefix s.name (l.pkgpath ++ codes "."))) (f (codes "Dict")) (
        or_flag (has_prefix s.name l.meta.writer.itab_prefix && is_rodata s.kind) (f (codes "Itab"))
          0))

-- The guess of the "heuristic" model for a size that is not 0.
abbrev pub guess_align : Link → ℕ → ℕ
guess_align l size =
    if (size % 8 == 0) && (l.arch.ptr_size == 8)
    then 8
    else if size % 4 == 0
    then 4
    else if size % 2 == 0
    then 2
    else 1

-- uint32 of an int16, which is here its 16 bits.
abbrev pub sign_extended : ℕ → ℕ
sign_extended v = if ltb v (2 ^ 15) then v else v + (2 ^ 32 - 2 ^ 16)

unfoldable pub sym_align : Link → Sym → Bytes → Fallible ℕ
sym_align l s name =
    if bytes_eq l.meta.writer.align (codes "explicit")
    then done (sign_extended s.align)
    else if s.content_addressable && not (s.size == 0)
    then (if bytes_eq name []
        then done (guess_align l s.size)
        else failed LinkError.named_content_addressable)
    else done 0

abbrev pub known_kind : Option ℕ → Fallible ℕ
known_kind none = failed LinkError.no_symbol_kind
known_kind (some k) = done k

-- The record behind the name: uint16(abi), the kind, the flags, the size and the alignment.
abbrev pub put_sym_fields : Link → Sym → ℕ → ℕ → Bytes
put_sym_fields l s kind align =
    le_bytes 2 (if s.static then l.meta.object.sym_abi_static else s.abi)
    ++ (le_bytes 1 kind
        ++ (le_bytes 1 (sym_flag l s)
            ++ (le_bytes 1 (sym_flag2 l s) ++ (le_bytes 4 s.size ++ le_bytes 4 align))))

-- `writeSym`
unfoldable pub write_sym : Link → Sym → Bytes → Writer → Fallible Writer
write_sym l s name w = do
  align ← sym_align l s name
  kind ← known_kind (find l.meta.kinds (kind_name s.kind))
  w' ← string_ref name w
  done (put (put_sym_fields l s kind align) w')

-- bytes.TrimRight(p, "\x00")
unfoldable pub trim_zeros : Bytes → Bytes
trim_zeros [] = []
trim_zeros (c ∷ p) = elim (trim_zeros p) [ [] ↦ if c == 0 then [] else c ∷ [] | d ∷ q ↦ c ∷ d ∷ q ]

abbrev is_nil {ℓ} : {A : Type ℓ} → List A → Bool
is_nil [] = true
is_nil (x ∷ xs) = false

-- The digest by its name; the hash functions are crypto/sha256's and crypto/sha1's.
module _ (sha256 sha1 : Bytes → Bytes) where
  unfoldable pub digest : Bytes → Bytes → Fallible Bytes
  digest name b =
      if bytes_eq name (codes "notsha256")
      then done (map (λ x. 255 - x) (sha256 b))
      else if bytes_eq name (codes "sha256-prefix01")
      then done (sha256 (1 ∷ b))
      else if bytes_eq name (codes "sha1")
      then done (take 32 (sha1 b ++ (0 ∷ 0 ∷ 0 ∷ 0 ∷ 0 ∷ 0 ∷ 0 ∷ 0 ∷ 0 ∷ 0 ∷ 0 ∷ 0 ∷ [])))
      else failed LinkError.content_hash_name

  -- `contentHash`
  unfoldable pub content_hash : Link → Sym → Fallible Bytes
  content_hash l s =
      if not (is_nil s.r)
      then failed LinkError.content_relocs
      else if not s.pcdata
      then failed LinkError.not_a_pc_table
      else digest l.meta.writer.content_hash
          (le_bytes 8 s.size ++ ((hash_section s).0 ∷ trim_zeros s.p))
        >>= λ sum. done (take l.meta.object.hash_size sum)
