-- ===== src/Goobj/Link.antt =====
-- One object under construction (internal/goobj/link.go). A `*Sym` is an address of the heap that the
-- link carries, `none` for nil where nil can stand. An integer of Go's that may be negative is its bit
-- pattern, and a kind's name is one of those that the repository gives a symbol.
pub mod Contents
pub mod Interned
use goc.Prelude.{
  ℕ, zero, suc, ◌+◌, ◌-◌, ◌≤◌, Bool, true, false, not, ◌&&◌, ◌||◌, ◌==◌, ltb, leb, bit_and,
  bytes_eq, codes, if◌then◌else◌,
}
use goc.Prelude.{Option, none, some, List, [], ◌∷◌, ◌++◌, length, take, drop, replicate}
use goc.Gocobj.Codec.{Bytes}
use goc.Gometa.{StrMap, find, int_at, Meta, Arch}
use goc.Goobj.Le.{le_bytes}

pub data Kind : Type 0 where
  sxxx sbss sdata snoptrbss snoptrdata srodata stext sdwarffcn sdwarflines sdwarfrange : Kind

pub record Reloc : Type 0 where
  pub off : ℕ
  pub siz : ℕ
  pub type : Bytes
  pub add : ℕ
  pub sym : Option ℕ

pub record InlNode : Type 0 where
  pub parent : ℕ
  pub file : ℕ
  pub line : ℕ
  pub func : Option ℕ
  pub parent_pc : ℕ

-- The map `funcdata` is an association list without repeated keys; the set `UsedFiles`, its members.
pub record FuncInfo : Type 0 where
  pub args : ℕ
  pub locals : ℕ
  pub func_id : ℕ
  pub func_flag : ℕ
  pub start_line : ℕ
  pub pcsp : Option ℕ
  pub pcfile : Option ℕ
  pub pcline : Option ℕ
  pub pcinline : Option ℕ
  pub pcdata : List (Option ℕ)
  pub funcdata : List (Option ℕ)
  pub used_files : List ℕ
  pub inl_tree : List InlNode
  pub funcdata_progs : List (ℕ × Option ℕ)
  pub pcdata_prog : Bool
  pub dwarf_info : Option ℕ
  pub dwarf_lines : Option ℕ
  pub dwarf_ranges : Option ℕ
  pub func_info_sym : Option ℕ

pub record Sym : Type 0 where
  pub name : Bytes
  pub abi : ℕ
  pub kind : Kind
  pub p : Bytes
  pub size : ℕ
  pub r : List Reloc
  pub dupok : Bool
  pub no_split : Bool
  pub local : Bool
  pub static : Bool
  pub content_addressable : Bool
  pub pcdata : Bool
  pub align : ℕ
  pub func : Option FuncInfo
  pub on_list : Bool
  pub indexed : Bool
  pub pkg_idx : ℕ
  pub sym_idx : ℕ

-- `&Sym{Name: name, ABI: abi}`, with the zero value of every other field.
abbrev pub new_sym : Bytes → ℕ → Sym
new_sym name abi = record {
  name = name;
  abi = abi;
  kind = Kind.sxxx;
  p = [];
  size = 0;
  r = [];
  dupok = false;
  no_split = false;
  local = false;
  static = false;
  content_addressable = false;
  pcdata = false;
  align = 0;
  func = none;
  on_list = false;
  indexed = false;
  pkg_idx = 0;
  sym_idx = 0;
}

pub record Link : Type 0 where
  pub meta : Meta
  pub arch : Arch
  pub pkgpath : Bytes
  pub dw_text_count : ℕ
  pub dwarf5 : Bool
  pub regabi_wrappers : Bool
  pub hash : StrMap ℕ
  pub funchash : StrMap ℕ
  pub text : List ℕ
  pub data_syms : List ℕ
  pub files : List Bytes
  pub file_idx : StrMap ℕ
  pub flushed : Bool
  pub defs : List ℕ
  pub hashed64 : List ℕ
  pub hashed : List ℕ
  pub nonpkgdefs : List ℕ
  pub nonpkgrefs : List ℕ
  pub next : ℕ
  pub heap : ℕ → Sym

pub data LinkError : Type 0 where
  no_facts_for_arch empty_package_path redeclared flush_called_twice : LinkError
  not_a_pc_table undefined_content_addressable write_before_flush block_list : LinkError
  no_reloc_type no_symbol_kind named_content_addressable content_relocs content_hash_name :
      LinkError

pub data Fallible {ℓ} (A : Type ℓ) : Type ℓ where
  done : A → Fallible A
  failed : LinkError → Fallible A
  panicked : Fallible A

infixl 5 ◌>>=◌
abbrev pub ◌>>=◌ {ℓ κ} : {A : Type ℓ} {B : Type κ} → Fallible A → (A → Fallible B) → Fallible B
done a >>= f = f a
failed e >>= f = failed e
panicked >>= f = panicked

abbrev pub or_panic {ℓ} : {A : Type ℓ} → Option A → Fallible A
or_panic none = panicked
or_panic (some a) = done a

-- A write through the pointer.
abbrev pub update : (ℕ → Sym) → ℕ → Sym → ℕ → Sym
update heap a s q = if a == q then s else heap q

abbrev pub set : ℕ → Sym → Link → Link
set a s l = record l { heap = update l.heap a s }

-- A new object, at the next address.
abbrev pub alloc : Sym → Link → ℕ × Link
alloc s l = (l.next, record (set l.next s l) { next = l.next + 1 })

unfoldable pub new_link : Meta → Bytes → Bytes → Fallible Link
new_link m arch pkgpath = elim (find m.arch arch) [
  | none ↦ failed LinkError.no_facts_for_arch
  | some a ↦
      if bytes_eq pkgpath []
      then failed LinkError.empty_package_path
      else done (record {
        meta = m;
        arch = a;
        pkgpath = pkgpath;
        dw_text_count = 0;
        dwarf5 = false;
        regabi_wrappers = true;
        hash = [];
        funchash = [];
        text = [];
        data_syms = [];
        files = [];
        file_idx = [];
        flushed = false;
        defs = [];
        hashed64 = [];
        hashed = [];
        nonpkgdefs = [];
        nonpkgrefs = [];
        next = 0;
        heap = λ _. new_sym [] 0;
      })
]

abbrev pub abi0 : ℕ
abi0 = 0

abbrev pub abi_internal : ℕ
abi_internal = 1

-- Whether `h` is the table of functions.
abbrev pub is_func : ℕ → Bool
is_func abi = abi == abi_internal

-- h[name] = s
abbrev pub intern : Bool → Bytes → ℕ → Link → Link
intern true name a l = record l { funchash = (name, a) ∷ l.funchash }
intern false name a l = record l { hash = (name, a) ∷ l.hash }

abbrev pub names_in : Bool → Link → StrMap ℕ
names_in true l = l.funchash
names_in false l = l.hash

abbrev pub looked_up : Option ℕ → Bytes → ℕ → Link → ℕ × Link
looked_up (some a) name abi l = (a, l)
looked_up none name abi l =
    (l.next, intern (is_func abi) name l.next (alloc (new_sym name abi) l).1)

unfoldable pub lookup_abi : Bytes → ℕ → Link → ℕ × Link
lookup_abi name abi l = looked_up (find (names_in (is_func abi) l) name) name abi l

unfoldable pub lookup : Bytes → Link → ℕ × Link
lookup name l = lookup_abi name abi0 l

abbrev pub added_file : Option ℕ → Bytes → Link → ℕ × Link
added_file (some i) name l = (i, l)
added_file none name l =
    let i = length l.files in
    (i, record l { file_idx = (name, i) ∷ l.file_idx; files = l.files ++ (name ∷ []) })

unfoldable pub add_file : Bytes → Link → ℕ × Link
add_file name l = added_file (find l.file_idx name) name l

abbrev pub has : ℕ → ℕ → Bool
has flag bit = not (bit_and flag bit == 0)

-- DUPOK, RODATA and NOPTR.
abbrev pub dupok_flag : ℕ
dupok_flag = 1

abbrev pub rodata_flag : ℕ
rodata_flag = 2

abbrev pub noptr_flag : ℕ
noptr_flag = 4

-- `if s.Kind == ""`.
abbrev pub bss_kind : Kind → Kind
bss_kind Kind.sxxx = Kind.sbss
bss_kind k = k

abbrev pub noptr_kind : Kind → Kind
noptr_kind Kind.sdata = Kind.snoptrdata
noptr_kind k = Kind.snoptrbss

abbrev pub globl_kind : ℕ → Kind → Kind
globl_kind flag k =
    if has flag rodata_flag
    then Kind.srodata
    else if has flag noptr_flag
    then noptr_kind (bss_kind k)
    else bss_kind k

abbrev pub globl_sym : ℕ → ℕ → Sym → Sym
globl_sym size flag s = record s {
  on_list = true;
  size = size;
  kind = globl_kind flag s.kind;
  dupok = s.dupok || has flag dupok_flag;
}

unfoldable pub globl : ℕ → ℕ → ℕ → Link → Fallible Link
globl a size flag l =
    let s = l.heap a in
    if s.on_list
    then failed LinkError.redeclared
    else done (record (set a (globl_sym size flag s) l) { data_syms = l.data_syms ++ (a ∷ []) })

abbrev pub written_kind : Kind → Kind
written_kind Kind.sxxx = Kind.sdata
written_kind Kind.sbss = Kind.sdata
written_kind Kind.snoptrbss = Kind.snoptrdata
written_kind k = k

-- `append(s.P, make([]byte, ...)...)` to `n` bytes, if they are fewer; ℕ's `-` is 0 otherwise.
abbrev pub grow : ℕ → Bytes → Bytes
grow n p = p ++ replicate (n - length p) 0

-- An offset is not negative.
unfoldable pub prepwrite : ℕ → ℕ → Sym → Sym
prepwrite off siz s =
    let n = off + siz in
    record s {
      kind = written_kind s.kind;
      p = grow n s.p;
      size = if ltb s.size n then n else s.size;
    }

-- copy(p[off:], b) within `p`.
abbrev pub splice : ℕ → Bytes → Bytes → Bytes
splice off b p = take off p ++ (b ++ drop (off + length b) p)

abbrev pub int_size : ℕ → Bool
int_size siz = (siz == 1) || (siz == 2) || (siz == 4) || (siz == 8)

-- `none` is the panic on another size.
unfoldable pub write_int : ℕ → ℕ → ℕ → Sym → Option Sym
write_int off siz v s =
    let s' = prepwrite off siz s in
    if int_size siz then some (record s' { p = splice off (le_bytes siz v) s'.p }) else none

unfoldable pub write_bytes : ℕ → Bytes → Sym → Sym
write_bytes off [] s = s
write_bytes off (b ∷ bs) s =
    let s' = prepwrite off (length (b ∷ bs)) s in record s' { p = splice off (b ∷ bs) s'.p }

unfoldable pub add_rel : Reloc → Sym → Sym
add_rel r s = record s { r = s.r ++ (r ∷ []) }
