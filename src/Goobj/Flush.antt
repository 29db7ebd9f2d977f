-- ===== src/Goobj/Flush.antt =====
-- `Flush` of internal/goobj/link.go: the function's slots, its tables and its DWARF symbols.
use goc.Prelude.{
  ℕ, zero, suc, ◌+◌, Bool, true, false, not, ◌&&◌, ◌||◌, ◌==◌, ltb, bytes_eq, codes, if◌then◌else◌,
}
use goc.Prelude.{Option, none, some, List, [], ◌∷◌, ◌++◌, replicate}
use goc.Gocobj.Codec.{Bytes}
use goc.Gometa.{int_at}
use goc.Goobj.Link.{
  Sym, Link, FuncInfo, LinkError, Fallible, done, failed, ◌>>=◌, or_panic, set, lookup, abi0,
}
use goc.Goobj.Dwarf.{dwarf}
use goc.Goobj.Text.{has_prefix, put_slot, has_slot, pcsym, path_to_prefix}

-- `derived`
unfoldable pub derived : Sym → Bytes → Link → Option ℕ × Link
derived s name l = if s.static then (none, l) else let r = lookup name l in (some r.0, r.1)

abbrev pub Slots : Type 0
Slots = List (ℕ × Option ℕ)

-- `if _, ok := fn.funcdata[i]; !ok`
unfoldable pub fill_slot : ℕ → Sym → Bytes → Slots × Link → Slots × Link
fill_slot i s name (slots, l) =
    if has_slot slots i then (slots, l) else let r = derived s name l in (put_slot slots i r.0, r.1)

-- Which functions get the references of an assembler function of the package.
abbrev pub gets_arg_maps : Link → Bytes → Sym → Bool
gets_arg_maps l prefix s =
    l.meta.writer.asm_args_stackmap
    && (has_prefix s.name prefix
        && ((s.abi == abi0) && not (bytes_eq s.name (codes "runtime.addmoduledata"))))

-- `%d` of the ABI is 0 under the test.
unfoldable pub arg_maps : Bytes → Sym → Slots × Link → Slots × Link
arg_maps prefix s (slots, l) =
    if gets_arg_maps l prefix s
    then fill_slot (int_at l.meta.abi.funcdata (codes "ArgInfo")) s (s.name ++ codes ".arginfo0") (
        fill_slot (int_at l.meta.abi.funcdata (codes "ArgsPointerMaps")) s
          (s.name ++ codes ".args_stackmap") (slots, l))
    else (slots, l)

-- One more than the largest key.
unfoldable pub slot_count : Slots → ℕ
slot_count [] = 0
slot_count ((i, d) ∷ slots) = let n = slot_count slots in if ltb n (i + 1) then i + 1 else n

-- ds[i] = d, within the slice.
unfoldable pub assign : ℕ → Option ℕ → List (Option ℕ) → List (Option ℕ)
assign i d [] = []
assign zero d (e ∷ ds) = d ∷ ds
assign (suc i) d (e ∷ ds) = e ∷ assign i d ds

unfoldable pub assign_all : Slots → List (Option ℕ) → List (Option ℕ)
assign_all [] ds = ds
assign_all ((i, d) ∷ slots) ds = assign_all slots (assign i d ds)

-- `make([]*Sym, n)` and the loop over the map.
unfoldable pub slot_list : Slots → List (Option ℕ)
slot_list slots = assign_all slots (replicate (slot_count slots) none)

abbrev is_nil {ℓ} : {A : Type ℓ} → List A → Bool
is_nil [] = true
is_nil (x ∷ xs) = false

unfoldable pub flush_text : Bytes → ℕ → Link → Fallible Link
flush_text prefix a l = do
  fn ← or_panic (l.heap a).func
  let has_progs = not (is_nil fn.funcdata_progs) || fn.pcdata_prog
  let maps = arg_maps prefix (l.heap a) (fn.funcdata_progs, l)
  let table = pcsym (0 ∷ 0 ∷ 0 ∷ []) maps.1
  let fn' : FuncInfo = record fn {
    funcdata_progs = maps.0;
    funcdata = slot_list maps.0;
    used_files = if has_progs then 0 ∷ [] else [];
    pcinline = some table.0;
  }
  debug ← or_panic (dwarf table.1 a fn')
  done (set a (record (debug.1.heap a) { func = some debug.0 }) debug.1)

unfoldable pub flush_texts : Bytes → List ℕ → Link → Fallible Link
flush_texts prefix [] l = done l
flush_texts prefix (a ∷ rest) l = do l' ← flush_text prefix a l; flush_texts prefix rest l'

unfoldable pub flush : Link → Fallible Link
flush l =
    if l.flushed
    then failed LinkError.flush_called_twice
    else flush_texts (path_to_prefix l.pkgpath ++ codes ".") l.text (record l { flushed = true })
