-- ===== src/Gocobj/Verify/Funcs.antt =====
-- The checks of `Verify` on one function.
use goc.Prelude.{ℕ, ◌+◌, ◌-◌, ◌*◌, ◌%◌, ◌^◌, Bool, true, false, not, ◌&&◌, ◌||◌, Option, none, some}
use goc.Prelude.{List, [], ◌∷◌, ◌++◌, length, ltb, leb, ◌==◌, if◌then◌else◌, bit_and}
use goc.Prelude.Int.{ℤ, pos, negsuc, ltb_ℤ, eq_ℤ}
use goc.Gocobj.Codec.{Bytes}
use goc.Gocobj.Format.{File, Func, Symbol, Safepoint, PcEntry, PcTable, InlNode, GcMap}
use goc.Gocobj.Format.PcKind
use goc.Gocobj.Format.{abi_internal, func_needs_stack_check}

pub data Place : Type 0 where
  header : Place
  func wrapper data_entry : Bytes → Place
  stackmap reloc : ℕ → Place

-- What is wrong, one constructor for each message.
pub data Fault : Type 0 where
  unknown_profile unknown_arch arch_mismatch : Fault
  empty_name no_symbol not_unique listed_twice not_defined_function bad_text_size : Fault
  file_range bad_abi bad_pcv_offset bad_gc_offset : Fault
  inl_parent inl_file inl_pc : ℕ → Fault
  row_file row_inl : ℤ → Fault
  unknown_table table_start : ℕ → Fault
  table_order row_outside : ℕ → Fault
  too_many_locals : Fault
  safepoint_outside safepoint_order : ℕ → Fault
  no_stack_check no_function bad_kind : Fault
  past_end bad_call_length bad_width unknown_reloc elf_target no_safepoint : Fault
  too_many_bits : Fault

pub record Violation : Type 0 where
  pub place : Place
  pub fault : Fault

abbrev pub bad_if : Bool → Place → Fault → List Violation
bad_if b w e = if b then record { place = w; fault = e } ∷ [] else []

abbrev pub contains : ℕ → List ℕ → Bool
contains a [] = false
contains a (x ∷ xs) = (x == a) || contains a xs

-- The closure `sym`: the messages about a name; the symbol itself is `f.symbols name`.
unfoldable pub check_name : File → Place → Bytes → List Violation
check_name f w [] = bad_if true w Fault.empty_name
check_name f w (c ∷ cs) = elim (f.symbols (c ∷ cs)) [
  | none ↦ bad_if true w Fault.no_symbol
  | some s ↦ bad_if (ltb 1 s.count) w Fault.not_unique
]

unfoldable pub check_symbol : Place → Func → Option Symbol → List Violation
check_symbol w fn none = []
check_symbol w fn (some s) =
    if not s.func || not s.defined
    then bad_if true w Fault.not_defined_function
    else bad_if (not (s.size == fn.text_size)) w Fault.bad_text_size

unfoldable pub check_file : Place → ℕ → ℕ → List Violation
check_file w nfiles file =
    bad_if ((leb nfiles file && ltb 0 nfiles) || ((nfiles == 0) && not (file == 0))) w
      Fault.file_range

-- fn.pcvOff != 0 && !f.pcvStarts[fn.pcvOff-1]
unfoldable pub check_ref : Place → Fault → List ℕ → ℕ → List Violation
check_ref w e starts off = bad_if (not (off == 0) && not (contains (off - 1) starts)) w e

unfoldable pub check_inl : Place → ℕ → Func → ℕ → List InlNode → List Violation
check_inl w nfiles fn j [] = []
check_inl w nfiles fn j (n ∷ ns) =
    bad_if (ltb_ℤ n.parent (negsuc 0) || not (ltb_ℤ n.parent (pos j))) w (Fault.inl_parent j)
    ++ (bad_if (leb nfiles n.file) w (Fault.inl_file j)
        ++ (bad_if (ltb 0 fn.text_size && leb fn.text_size n.parent_pc) w (Fault.inl_pc j)
            ++ check_inl w nfiles fn (j + 1) ns))

-- The values of FILE and INL_INDEX rows.
unfoldable pub check_values : Place → ℕ → ℕ → ℕ → List PcEntry → List Violation
check_values w nfiles ninl kind [] = []
check_values w nfiles ninl kind (e ∷ es) =
    bad_if ((kind == PcKind.file) && (ltb_ℤ e.value (pos 0) || not (ltb_ℤ e.value (pos nfiles)))) w
      (Fault.row_file e.value)
    ++ (bad_if
          ((kind == PcKind.inl_index)
            && (ltb_ℤ e.value (negsuc 0) || not (ltb_ℤ e.value (pos ninl))))
          w (Fault.row_inl e.value)
        ++ check_values w nfiles ninl kind es)

-- The rows behind the one at `prev`: in order, and inside the function.
unfoldable pub check_rows : Place → ℕ → ℕ → ℕ → List PcEntry → List Violation
check_rows w text_size prev j [] = []
check_rows w text_size prev j (e ∷ es) =
    bad_if (leb e.pc prev) w (Fault.table_order j)
    ++ (bad_if (ltb 0 text_size && leb text_size e.pc) w (Fault.row_outside e.pc)
        ++ check_rows w text_size e.pc (j + 1) es)

unfoldable pub check_order : Place → ℕ → List PcEntry → List Violation
check_order w text_size [] = []
check_order w text_size (e ∷ es) =
    bad_if (not (e.pc == 0)) w (Fault.table_start e.pc)
    ++ (bad_if (ltb 0 text_size && leb text_size e.pc) w (Fault.row_outside e.pc)
        ++ check_rows w text_size e.pc 1 es)

unfoldable pub check_tables : Place → ℕ → ℕ → ℕ → List PcTable → List Violation
check_tables w nfiles ninl text_size [] = []
check_tables w nfiles ninl text_size (t ∷ ts) =
    check_values w nfiles ninl t.kind t.entries
    ++ (bad_if ((t.kind == 0) || leb PcKind.last t.kind) w (Fault.unknown_table t.kind)
        ++ (check_order w text_size t.entries ++ check_tables w nfiles ninl text_size ts))

abbrev pub slice {ℓ} : {A : Type ℓ} → Option (List A) → List A
slice none = []
slice (some xs) = xs

-- The largest SP_DELTA value, if it is above the frame size.
unfoldable pub max_sp_rows : ℕ → List PcEntry → ℕ
max_sp_rows m [] = m
max_sp_rows m (e ∷ es) =
    max_sp_rows (elim e.value [ pos v ↦ if ltb m v then v else m | negsuc v ↦ m ]) es

unfoldable pub max_sp : ℕ → List PcTable → ℕ
max_sp m [] = m
max_sp m (t ∷ ts) = max_sp (if t.kind == PcKind.sp_delta then max_sp_rows m t.entries else m) ts

unfoldable pub check_safepoints : Place → ℕ → Option ℕ → List Safepoint → List Violation
check_safepoints w text_size prev [] = []
check_safepoints w text_size prev (sp ∷ sps) =
    bad_if ((sp.pc == 0) || ltb text_size sp.pc) w (Fault.safepoint_outside sp.pc)
    ++ (bad_if (elim prev [ none ↦ false | some p ↦ leb sp.pc p ]) w (Fault.safepoint_order sp.pc)
        ++ check_safepoints w text_size (some sp.pc) sps)

-- g.NLocals*ptr is a product of uint64s.
unfoldable pub check_gc : Place → ℕ → Func → Option GcMap → List Violation
check_gc w ptr fn none = []
check_gc w ptr fn (some g) =
    bad_if (ltb (max_sp fn.frame_size (slice fn.pc_value)) (g.nlocals * ptr % 2 ^ 64)) w
      Fault.too_many_locals
    ++ check_safepoints w fn.text_size none g.safepoints

-- `hasStackCheck`: the variables `sp` and `up` after the tables.
abbrev first_row : List PcEntry → Option ℤ
first_row [] = none
first_row (e ∷ es) = if e.pc == 0 then some e.value else none

unfoldable pub stack_check_loop : Bool → Bool → List PcTable → Bool
stack_check_loop sp up [] = sp && up
stack_check_loop sp up (t ∷ ts) =
    let sp' : Bool = elim (first_row t.entries) [
      | none ↦ sp
      | some v ↦ if t.kind == PcKind.sp_delta then eq_ℤ v (pos 0) else sp
    ] in
    let up' : Bool = elim (first_row t.entries) [
      | none ↦ up
      | some v ↦ if t.kind == PcKind.unsafe_point then eq_ℤ v (negsuc 1) else up
    ] in
    stack_check_loop sp' up' ts

unfoldable pub has_stack_check : Func → Bool
has_stack_check fn = stack_check_loop false false (slice fn.pc_value)

-- `twice`: the name was listed before. `checked`: the profile is known and the header says that the
-- checks are in the code.
unfoldable pub check_func : File → ℕ → Bool → Bool → Func → List Violation
check_func f ptr checked twice fn =
    let w = Place.func fn.name in
    let nfiles = length f.tables.files in
    bad_if twice w Fault.listed_twice
    ++ (check_name f w fn.name
        ++ (check_symbol w fn (f.symbols fn.name)
            ++ (check_file w nfiles fn.file
                ++ (bad_if (ltb abi_internal fn.abi) w Fault.bad_abi
                    ++ (check_ref w Fault.bad_pcv_offset f.tables.pcv_starts fn.pcv_off
                        ++ (check_ref w Fault.bad_gc_offset f.tables.gc_starts fn.gc_off
                            ++ (check_inl w nfiles fn 0 (slice fn.inl)
                                ++ (check_tables w nfiles (length (slice fn.inl)) fn.text_size
                                      (slice fn.pc_value)
                                    ++ (check_gc w ptr fn fn.gc
                                        ++ bad_if
                                            (checked
                                              && (not (bit_and fn.flags func_needs_stack_check == 0)
                                                  && not (has_stack_check fn)))
                                            w Fault.no_stack_check)))))))))
