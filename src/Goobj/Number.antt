-- ===== src/Goobj/Number.antt =====
-- The traversal of a link's symbols and the numbering of them (`traverse`, `traverseFuncAux`, `number` of
-- internal/goobj/write.go).
pub mod Traverse
pub mod Blocks
mod Builtins
pub mod Resolve
pub mod Listed
use goc.Prelude.{
  ℕ, zero, suc, ◌+◌, ◌≤◌, Bool, true, false, not, ◌&&◌, ◌||◌, ◌==◌, leb, bytes_eq, codes,
  if◌then◌else◌,
}
use goc.Prelude.{Option, none, some, List, [], ◌∷◌, ◌++◌, length, get_elem?}
use goc.Gocobj.Codec.{Bytes}
use goc.Gometa.{Builtin, int_at, Meta}
use goc.Goobj.Link.{
  Kind, Sym, Link, FuncInfo, InlNode, Reloc, LinkError, Fallible, done, failed, panicked, ◌>>=◌,
  or_panic, set, lookup,
}
use goc.Goobj.Text.{sorted_files}

pub record Traversal : Type 0 where
  pub defs : Bool
  pub refs : Bool
  pub aux : Bool
  pub pcdata : Bool

abbrev pub is_text : Kind → Bool
is_text Kind.stext = true
is_text k = false

-- The callback works on the link and on what it captures.
module _ {A : Type 0} (fn : ℕ → Link × A → Fallible (Link × A)) where
  -- `nn`
  abbrev pub visit : Option ℕ → Link × A → Fallible (Link × A)
  visit none st = done st
  visit (some a) st = fn a st

  unfoldable pub visit_all : List (Option ℕ) → Link × A → Fallible (Link × A)
  visit_all [] st = done st
  visit_all (d ∷ ds) st = do st' ← visit d st; visit_all ds st'

  unfoldable pub visit_relocs : List Reloc → Link × A → Fallible (Link × A)
  visit_relocs [] st = done st
  visit_relocs (r ∷ rs) st = do st' ← visit r.sym st; visit_relocs rs st'

  -- The symbol of the name of file `i`.
  unfoldable pub visit_file : ℕ → Link × A → Fallible (Link × A)
  visit_file i (l, acc) = do
    name ← or_panic (get_elem? l.files i)
    let r = lookup name l
    fn r.0 (r.1, acc)

  unfoldable pub visit_files : List ℕ → Link × A → Fallible (Link × A)
  visit_files [] st = done st
  visit_files (i ∷ is) st = do st' ← visit_file i st; visit_files is st'

  unfoldable pub visit_inl_tree : List InlNode → Link × A → Fallible (Link × A)
  visit_inl_tree [] st = done st
  visit_inl_tree (n ∷ ns) st = do
    st' ← visit n.func st
    st'' ← (if st'.0.meta.writer.inl_file_sym_refs then visit_file n.file st' else done st')
    visit_inl_tree ns st''

  unfoldable pub visit_dwarf : Bool → Option ℕ → Link × A → Fallible (Link × A)
  visit_dwarf refs none st = done st
  visit_dwarf refs (some a) (l, acc) =
      if (l.heap a).size == 0
      then done (l, acc)
      else do st' ← fn a (l, acc); (if refs then visit_relocs (st'.0.heap a).r st' else done st')

  unfoldable pub traverse_func_aux : Bool → FuncInfo → Link × A → Fallible (Link × A)
  traverse_func_aux refs f st = do
    st1 ← visit_all f.funcdata st
    st2 ← visit_files (sorted_files f.used_files) st1
    st3 ← visit_inl_tree f.inl_tree st2
    st4 ← visit_dwarf refs f.dwarf_ranges st3
    st5 ← visit_dwarf refs f.dwarf_lines st4
    visit_dwarf refs f.dwarf_info st5

  unfoldable pub visit_pcdata : FuncInfo → Link × A → Fallible (Link × A)
  visit_pcdata f st = visit_all (f.pcsp ∷ f.pcfile ∷ f.pcline ∷ f.pcinline ∷ f.pcdata) st

  -- `s.Func` of a TEXT symbol; nil is a panic.
  abbrev pub with_func :
      ℕ → (FuncInfo → Link × A → Fallible (Link × A)) → Link × A → Fallible (Link × A)
  with_func a k (l, acc) = or_panic (l.heap a).func >>= λ f. k f (l, acc)

  unfoldable pub traverse_sym : Traversal → ℕ → Link × A → Fallible (Link × A)
  traverse_sym flag a st = do
    st1 ← (if flag.defs then fn a st else done st)
    st2 ← (if flag.refs then visit_relocs (st1.0.heap a).r st1 else done st1)
    st3 ←
        (if flag.aux && is_text (st2.0.heap a).kind
          then with_func a (traverse_func_aux flag.refs) st2
          else done st2)
    (if flag.pcdata && is_text (st3.0.heap a).kind then with_func a visit_pcdata st3 else done st3)

  unfoldable pub traverse_list : Traversal → List ℕ → Link × A → Fallible (Link × A)
  traverse_list flag [] st = done st
  traverse_list flag (a ∷ syms) st = do st' ← traverse_sym flag a st; traverse_list flag syms st'

  unfoldable pub traverse : Traversal → Link × A → Fallible (Link × A)
  traverse flag (l, acc) = do
    st ← traverse_list flag l.text (l, acc)
    traverse_list flag l.data_syms st

-- `hashSection`: 'P', or 0 with the error.
abbrev pub hash_section : Sym → ℕ × Option LinkError
hash_section s = if s.pcdata then (0x50, none) else (0, some LinkError.not_a_pc_table)

-- The last entry of the name.
unfoldable pub last_builtin : Bytes → List Builtin → ℕ → Option (ℕ × Builtin) → Option (ℕ × Builtin)
last_builtin name [] i found = found
last_builtin name (b ∷ bs) i found =
    last_builtin name bs (i + 1) (if bytes_eq b.name name then some (i, b) else found)

-- `builtinIdx`; `none` is -1.
unfoldable pub builtin_idx : Link → Bytes → ℕ → Option ℕ
builtin_idx l name abi = elim (last_builtin name l.meta.object.builtins 0 none) [
  | none ↦ none
  | some (i, b) ↦ if l.regabi_wrappers && not (b.abi == abi) then none else some i
]

abbrev pub pkg : Link → Bytes → ℕ
pkg l name = int_at l.meta.object.pkg_idx name

abbrev pub indexed_as : ℕ → ℕ → Sym → Sym
indexed_as p i s = record s { pkg_idx = p; sym_idx = i; indexed = true }

abbrev is_nil {ℓ} : {A : Type ℓ} → List A → Bool
is_nil [] = true
is_nil (x ∷ xs) = false

-- `if e != nil && err == nil { err = e }`
abbrev pub first_error : Option LinkError → Option LinkError → Option LinkError
first_error (some e) new = some e
first_error none new = new

abbrev pub number_hashed64 : ℕ → Link → Link
number_hashed64 a l =
    record (set a (indexed_as (pkg l (codes "Hashed64")) (length l.hashed64) (l.heap a)) l) {
      hashed64 = l.hashed64 ++ (a ∷ []);
    }

abbrev pub number_hashed : ℕ → Link → Link
number_hashed a l =
    record (set a (indexed_as (pkg l (codes "Hashed")) (length l.hashed) (l.heap a)) l) {
      hashed = l.hashed ++ (a ∷ []);
    }

abbrev pub number_nonpkg : ℕ → Link → Link
number_nonpkg a l =
    record (set a (indexed_as (pkg l (codes "None")) (length l.nonpkgdefs) (l.heap a)) l) {
      nonpkgdefs = l.nonpkgdefs ++ (a ∷ []);
    }

abbrev pub number_self : ℕ → Link → Link
number_self a l = record (set a (indexed_as (pkg l (codes "Self")) (length l.defs) (l.heap a)) l) {
  defs = l.defs ++ (a ∷ []);
}

abbrev pub fits_hash64 : Sym → Bool
fits_hash64 s = leb s.size 8 && (is_nil s.r && ((hash_section s).0 == 0))

-- The callback on definitions.
unfoldable pub number_def : ℕ → Link × Option LinkError → Fallible (Link × Option LinkError)
number_def a (l, err) =
    let s = l.heap a in
    if s.content_addressable
    then done (
      (if fits_hash64 s then number_hashed64 a l else number_hashed a l),
      first_error err (hash_section s).1,
    )
    else if not s.static
    then done (number_nonpkg a l, err)
    else done (number_self a l, err)

pub record RefState : Type 0 where
  pub err : Option LinkError
  pub nonpkg : ℕ

-- A reference that has no number, by the index of a builtin of its name.
abbrev pub number_new_ref : Option ℕ → ℕ → Link × RefState → Fallible (Link × RefState)
number_new_ref (some i) a (l, st) =
    done (set a (indexed_as (pkg l (codes "Builtin")) i (l.heap a)) l, st)
number_new_ref none a (l, st) =
    let new =
      if (l.heap a).content_addressable
      then some LinkError.undefined_content_addressable
      else none in
    done (
      record (set a (indexed_as (pkg l (codes "None")) st.nonpkg (l.heap a)) l) {
        nonpkgrefs = l.nonpkgrefs ++ (a ∷ []);
      },
      record { err = first_error st.err new; nonpkg = st.nonpkg + 1 },
    )

-- The callback on references.
unfoldable pub number_ref : ℕ → Link × RefState → Fallible (Link × RefState)
number_ref a (l, st) =
    let s = l.heap a in
    if s.indexed then done (l, st) else number_new_ref (builtin_idx l s.name s.abi) a (l, st)

abbrev pub fail_if {ℓ} : {A : Type ℓ} → Option LinkError → A → Fallible A
fail_if none a = done a
fail_if (some e) a = failed e

abbrev pub def_flags : Traversal
def_flags = record { defs = true; refs = false; aux = false; pcdata = true }

abbrev pub ref_flags : Traversal
ref_flags = record { defs = false; refs = true; aux = true; pcdata = false }

unfoldable pub number : Link → Fallible Link
number l = do
  d ← traverse number_def def_flags (l, none)
  l' ← fail_if d.1 d.0
  r ← traverse number_ref ref_flags (l', record { err = none; nonpkg = length l'.nonpkgdefs })
  fail_if r.1.err r.0
