-- ===== src/Gocobj/Verify.antt =====
-- internal/gocobj/verify.go: `Verify` on a parsed file. A violation is a value with the place that the
-- message names; an unsigned sum or product keeps its wrap-around.
pub mod Funcs
pub mod Sound
pub mod Relocs
pub mod Whole
use goc.Prelude.{ℕ, ◌+◌, ◌-◌, ◌*◌, ◌%◌, ◌^◌, Bool, true, false, not, ◌&&◌, ◌||◌, Option, none, some}
use goc.Prelude.{List, [], ◌∷◌, ◌++◌, ltb, leb, ◌==◌, if◌then◌else◌, bytes_eq, codes, bit_and}
use goc.Gocobj.Codec.{Bytes}
use goc.Gocobj.Abi.{Profile, lookup_profile}
use goc.Gocobj.Format.{File, Header, Func, Safepoint, GcMap, Wrapper, Stackmap, Reloc, DataEntry}
use goc.Gocobj.Format.{arch_amd64, arch_arm64, header_stack_checks_in_code, reloc_safepoint}
use goc.Gocobj.Format.RelocKind
use goc.Gocobj.Verify.Funcs.{Violation, bad_if, Place, Fault, check_name, check_func}

abbrev pub arch_name : ℕ → Option Bytes
arch_name a =
    if a == arch_amd64
    then some (codes "amd64")
    else if a == arch_arm64
    then some (codes "arm64")
    else none

unfoldable pub check_arch : Option Bytes → Option Profile → List Violation
check_arch none prof = bad_if true Place.header Fault.unknown_arch
check_arch (some a) none = []
check_arch (some a) (some p) = bad_if (not (bytes_eq p.arch a)) Place.header Fault.arch_mismatch

unfoldable pub check_header : Header → Option Profile → List Violation
check_header h prof =
    bad_if (elim prof [ none ↦ true | some p ↦ false ]) Place.header Fault.unknown_profile
    ++ check_arch (arch_name h.arch) prof

abbrev pub pointer_size : Option Profile → ℕ
pointer_size none = 8
pointer_size (some p) = p.ptr_size

abbrev pub checked_in_code : Header → Option Profile → Bool
checked_in_code h none = false
checked_in_code h (some p) = not (bit_and h.flags header_stack_checks_in_code == 0)

abbrev pub listed : Bytes → List Func → Bool
listed name [] = false
listed name (fn ∷ fns) = bytes_eq fn.name name || listed name fns

-- `before` are the functions that the loop has seen.
unfoldable pub check_funcs : File → ℕ → Bool → List Func → List Func → List Violation
check_funcs f ptr checked before [] = []
check_funcs f ptr checked before (fn ∷ fns) =
    check_func f ptr checked (listed fn.name before) fn
    ++ check_funcs f ptr checked (fn ∷ before) fns

-- The map `funcs` after the loop: the last function of a name.
unfoldable pub find_func : Bytes → List Func → Option Func
find_func name [] = none
find_func name (fn ∷ fns) = elim (find_func name fns) [
  | none ↦ if bytes_eq fn.name name then some fn else none
  | some g ↦ some g
]

unfoldable pub check_wrapper : File → Wrapper → List Violation
check_wrapper f wr =
    let w = Place.wrapper wr.sym in
    elim (find_func wr.sym f.tables.funcs) [
      | none ↦ bad_if true w Fault.no_function
      | some fn ↦ bad_if (not (fn.kind == 1)) w Fault.bad_kind
    ]
    ++ (check_name f w wr.target ++ bad_if (ltb 2 wr.from_abi || ltb 2 wr.to_abi) w Fault.bad_abi)

unfoldable pub check_wrappers : File → List Wrapper → List Violation
check_wrappers f [] = []
check_wrappers f (wr ∷ wrs) = check_wrapper f wr ++ check_wrappers f wrs

unfoldable pub check_stackmaps : File → ℕ → List Stackmap → List Violation
check_stackmaps f i [] = []
check_stackmaps f i (sm ∷ sms) =
    elim (find_func sm.func f.tables.funcs) [
      | none ↦ bad_if true (Place.stackmap i) Fault.no_function
      | some fn ↦ bad_if (leb fn.text_size sm.insn_off) (Place.stackmap i) Fault.past_end
    ]
    ++ check_stackmaps f (i + 1) sms

abbrev pub has_safepoint : ℕ → List Safepoint → Bool
has_safepoint pc [] = false
has_safepoint pc (sp ∷ sps) = (sp.pc == pc) || has_safepoint pc sps

abbrev pub gc_has : ℕ → Option GcMap → Bool
gc_has pc none = false
gc_has pc (some g) = has_safepoint pc g.safepoints

-- r.Offset + uint64(r.Width)
abbrev pub reloc_end : Reloc → ℕ
reloc_end r = (r.offset + r.width) % 2 ^ 64

unfoldable pub check_reloc_place : Place → Reloc → Option Func → List Violation
check_reloc_place w r none = bad_if true w Fault.no_function
check_reloc_place w r (some fn) = bad_if (ltb fn.text_size (reloc_end r)) w Fault.past_end

unfoldable pub check_width : Place → Reloc → List Violation
check_width w r =
    if r.kind == RelocKind.call_indirect_mark
    then bad_if ((r.width == 0) || ltb 15 r.width) w Fault.bad_call_length
    else bad_if (not ((r.width == 1) || ((r.width == 2) || ((r.width == 4) || (r.width == 8))))) w
        Fault.bad_width

unfoldable pub check_elf : Place → Reloc → Option Bytes → List Violation
check_elf w r none = []
check_elf w r (some t) = bad_if (not (bytes_eq t r.target)) w Fault.elf_target

unfoldable pub check_call : Place → Reloc → Option Func → List Violation
check_call w r none = []
check_call w r (some fn) =
    bad_if (not (bit_and r.flags reloc_safepoint == 0) && not (gc_has (reloc_end r) fn.gc)) w
      Fault.no_safepoint

unfoldable pub check_reloc : File → ℕ → Reloc → List Violation
check_reloc f i r =
    let w = Place.reloc i in
    let fn = find_func r.func f.tables.funcs in
    check_reloc_place w r fn
    ++ (check_width w r
        ++ (bad_if ((r.kind == 0) || leb RelocKind.last r.kind) w Fault.unknown_reloc
            ++ ((if r.kind == RelocKind.call_indirect_mark then [] else check_name f w r.target)
                ++ (check_elf w r (f.elf_relocs r.func r.offset) ++ check_call w r fn))))

unfoldable pub check_relocs : File → ℕ → List Reloc → List Violation
check_relocs f i [] = []
check_relocs f i (r ∷ rs) = check_reloc f i r ++ check_relocs f (i + 1) rs

-- d.NBits*ptr > d.Size+ptr-1 in uint64
unfoldable pub check_data_entry : File → ℕ → DataEntry → List Violation
check_data_entry f ptr d =
    let w = Place.data_entry d.name in
    check_name f w d.name
    ++ bad_if (ltb ((d.size + ptr + 2 ^ 64 - 1) % 2 ^ 64) (d.nbits * ptr % 2 ^ 64)) w
        Fault.too_many_bits

unfoldable pub check_data : File → ℕ → List DataEntry → List Violation
check_data f ptr [] = []
check_data f ptr (d ∷ ds) = check_data_entry f ptr d ++ check_data f ptr ds

-- Every violation, in the order of the messages.
unfoldable pub verify : File → List Violation
verify f =
    let t = f.tables in
    let prof = lookup_profile t.header.profile in
    let ptr = pointer_size prof in
    check_header t.header prof
    ++ (check_funcs f ptr (checked_in_code t.header prof) [] t.funcs
        ++ (check_wrappers f t.wrappers
            ++ (check_stackmaps f 0 t.stackmaps
                ++ (check_relocs f 0 t.relocs ++ check_data f ptr t.data_entries))))
