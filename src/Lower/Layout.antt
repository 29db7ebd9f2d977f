-- ===== src/Lower/Layout.antt =====
-- internal/lower/goabi_layout.go: the layout of aggregates and the two calling conventions' places for
-- parameters and results. An `int` is its value: the sums of sizes here stay far below 2 ^ 63.
pub mod Align
pub mod Fields
pub mod Assign
pub mod Words
use goc.Prelude.{
  ℕ, zero, suc, ◌+◌, ◌-◌, ◌*◌, ◌/◌, ◌%◌, ◌^◌, ◌≤◌, ◌<◌, Bool, true, false, ◌&&◌, ◌||◌, not, bit_and,
}
use goc.Prelude.{Option, none, some, List, [], ◌∷◌, ◌++◌, map, length, get_elem?, ltb, leb, ◌==◌}
use goc.Prelude.{if◌then◌else◌, bytes_eq, codes, drop}
use goc.Lower.Types.{Text, Bank, int_bank, float_bank, ScalarInfo, scalar, has_prefix, trim_space}
use goc.Lower.Types.{split_top_level}

-- (value + alignment - 1) & -alignment
unfoldable pub align_up : ℕ → ℕ → ℕ
align_up value alignment = bit_and (value + alignment - 1) (2 ^ 64 - alignment)

pub record FieldLay : Type 0 where
  pub type : Text
  pub bank : Bank
  pub size : ℕ
  pub offset : ℕ

pub record AggLay : Type 0 where
  pub fields : List FieldLay
  pub size : ℕ
  pub alignment : ℕ

-- Why a type or a signature is left alone.
pub data Reason : Type 0 where
  packed empty_aggregate return_too_large crosses_eightbyte several_in_eightbyte : Reason
  field_type identified aggregate_type parameter_type result_type : Text → Reason

-- `panicked` stands for Go's index out of range.
pub data Res {ℓ} (A : Type ℓ) : Type ℓ where
  ok : A → Res A
  unsupported : Reason → Res A
  panicked : Res A

infixl 5 ◌>>=◌
abbrev pub ◌>>=◌ {ℓ κ} : {A : Type ℓ} {B : Type κ} → Res A → (A → Res B) → Res B
ok a >>= f = f a
unsupported r >>= f = unsupported r
panicked >>= f = panicked

-- The loop over the field types: `offset` and `structAlign`.
unfoldable pub lay_fields : ℕ → ℕ → List Text → Res (List FieldLay × ℕ × ℕ)
lay_fields offset align [] = ok ([], offset, align)
lay_fields offset align (ty ∷ tys) = elim (scalar ty) [
  | none ↦ unsupported (field_type ty)
  | some info ↦
      let at = align_up offset info.align in
      lay_fields (at + info.size) (if ltb align info.align then info.align else align) tys
      >>= λ rest. ok (
        record { type = ty; bank = info.bank; size = info.size; offset = at } ∷ rest.0,
        rest.1,
        rest.2,
      )
]

abbrev pub first_eightbyte : FieldLay → ℕ
first_eightbyte f = f.offset / 8

abbrev pub last_eightbyte : FieldLay → ℕ
last_eightbyte f = (f.offset + f.size - 1) / 8

unfoldable pub crosses : List FieldLay → Bool
crosses [] = false
crosses (f ∷ fs) = not (first_eightbyte f == last_eightbyte f) || crosses fs

abbrev pub contains : ℕ → List ℕ → Bool
contains a [] = false
contains a (x ∷ xs) = (x == a) || contains a xs

-- `seen`, while the eightbytes are walked
unfoldable pub repeats : List ℕ → List FieldLay → Bool
repeats seen [] = false
repeats seen (f ∷ fs) = contains (first_eightbyte f) seen || repeats (first_eightbyte f ∷ seen) fs

unfoldable pub ends_with : Text → ℕ → Bool
ends_with [] c = false
ends_with (d ∷ []) c = d == c
ends_with (d ∷ e ∷ s) c = ends_with (e ∷ s) c

-- s[:len(s)-1]
unfoldable pub but_last : Text → Text
but_last [] = []
but_last (c ∷ []) = []
but_last (c ∷ d ∷ s) = c ∷ but_last (d ∷ s)

unfoldable pub finish_layout : Bool → List FieldLay × ℕ × ℕ → Res (Option AggLay)
finish_layout return_limit (laid, offset, align) =
    let size = align_up offset align in
    if return_limit && ltb 16 size
    then unsupported return_too_large
    else if crosses laid
    then unsupported crosses_eightbyte
    else if repeats [] laid
    then unsupported several_in_eightbyte
    else ok (some (record { fields = laid; size = size; alignment = align }))

abbrev pub layout_of_fields : Bool → List Text → Res (Option AggLay)
layout_of_fields return_limit [] = unsupported empty_aggregate
layout_of_fields return_limit (ty ∷ tys) = lay_fields 0 1 (ty ∷ tys) >>= finish_layout return_limit

abbrev pub body_fields : Text → List Text
body_fields [] = []
body_fields (c ∷ cs) = split_top_level (c ∷ cs)

-- `aggregateLayout`; the purpose, which only the message names, is left out. A type that is no literal
-- struct is `ok none`.
unfoldable pub aggregate_layout : Text → Bool → Res (Option AggLay)
aggregate_layout ty return_limit =
    if has_prefix ty (codes "<{")
    then unsupported packed
    else if has_prefix ty (codes "{") && ends_with ty b'}'
    then layout_of_fields return_limit (body_fields (trim_space (but_last (drop 1 ty))))
    else ok none

-- `abiSet`: the register files.
pub record AbiSet : Type 0 where
  pub go_int : List Text
  pub go_float : List Text
  pub sysv_int : List Text
  pub sysv_float : List Text
  pub sysv_int_result : List Text
  pub sysv_float_result : List Text

pub data Loc : Type 0 where
  reg : Text → Loc
  stack : ℕ → Loc

pub record Assignment : Type 0 where
  pub type : Text
  pub go : Loc
  pub sysv : Loc

-- One convention's counters: the registers used and the stack bytes.
pub record Cursor : Type 0 where
  pub int : ℕ
  pub float : ℕ
  pub bytes : ℕ

-- A register by its index; Go panics where there is none.
unfoldable pub reg_at : List Text → ℕ → Res Loc
reg_at regs i = elim (get_elem? regs i) [ none ↦ panicked | some r ↦ ok (reg r) ]

-- The registers of an aggregate's fields.
unfoldable pub field_regs : List Text → List Text → Cursor → List FieldLay → Res (List Loc × Cursor)
field_regs ints floats c [] = ok ([], c)
field_regs ints floats c (f ∷ fs) = elim f.bank [
  | int_bank ↦ reg_at ints c.int >>= λ l.
      field_regs ints floats (record c { int = c.int + 1 }) fs >>= λ rest. ok (l ∷ rest.0, rest.1)
  | float_bank ↦ reg_at floats c.float >>= λ l.
      field_regs ints floats (record c { float = c.float + 1 }) fs >>= λ rest.
      ok (l ∷ rest.0, rest.1)
]

abbrev pub field_stack : ℕ → List FieldLay → List Loc
field_stack base [] = []
field_stack base (f ∷ fs) = stack (base + f.offset) ∷ field_stack base fs

unfoldable pub count_int : List FieldLay → ℕ
count_int [] = 0
count_int (f ∷ fs) = elim f.bank [ int_bank ↦ 1 + count_int fs | float_bank ↦ count_int fs ]

abbrev pub regs_left : List Text → List Text → Cursor → AggLay → Bool
regs_left ints floats c agg =
    leb (c.int + count_int agg.fields) (length ints)
    && leb (c.float + (length agg.fields - count_int agg.fields)) (length floats)

-- Go's convention for an aggregate: registers for all fields or the stack for all.
unfoldable pub go_aggregate : AbiSet → Cursor → AggLay → Res (List Loc × Cursor)
go_aggregate a c agg =
    if regs_left a.go_int a.go_float c agg
    then field_regs a.go_int a.go_float c agg.fields
    else let base = align_up c.bytes agg.alignment in
      ok (field_stack base agg.fields, record c { bytes = base + agg.size })

unfoldable pub sysv_aggregate : AbiSet → Cursor → AggLay → Res (List Loc × Cursor)
sysv_aggregate a c agg =
    if leb agg.size 16 && regs_left a.sysv_int a.sysv_float c agg
    then field_regs a.sysv_int a.sysv_float c agg.fields
    else let base = align_up c.bytes 8 in
      ok (field_stack base agg.fields, record c { bytes = base + align_up agg.size 8 })

unfoldable pub join_locs : List FieldLay → List Loc → List Loc → List Assignment
join_locs [] gs cs = []
join_locs (f ∷ fs) [] cs = []
join_locs (f ∷ fs) (g ∷ gs) [] = []
join_locs (f ∷ fs) (g ∷ gs) (c ∷ cs) =
    record { type = f.type; go = g; sysv = c } ∷ join_locs fs gs cs

abbrev pub minimum : ℕ → ℕ → ℕ
minimum a b = if ltb b a then b else a

-- A register of the scalar's bank, if one is left.
abbrev pub scalar_reg : List Text → List Text → Cursor → Bank → Option (Res Loc × Cursor)
scalar_reg ints floats c int_bank =
    if ltb c.int (length ints) then some (reg_at ints c.int, record c { int = c.int + 1 }) else none
scalar_reg ints floats c float_bank =
    if ltb c.float (length floats)
    then some (reg_at floats c.float, record c { float = c.float + 1 })
    else none

unfoldable pub go_scalar : AbiSet → Cursor → ScalarInfo → Res Loc × Cursor
go_scalar a c info = elim (scalar_reg a.go_int a.go_float c info.bank) [
  | some r ↦ r
  | none ↦
      let at = align_up c.bytes (minimum info.align 8) in
      (ok (stack at), record c { bytes = at + info.size })
]

unfoldable pub sysv_scalar : AbiSet → Cursor → ScalarInfo → Res Loc × Cursor
sysv_scalar a c info = elim (scalar_reg a.sysv_int a.sysv_float c info.bank) [
  | some r ↦ r
  | none ↦ (ok (stack c.bytes), record c { bytes = c.bytes + 8 })
]

-- The reason for a parameter that is neither a scalar nor a literal struct.
abbrev pub no_parameter : Text → Reason
no_parameter ty =
    if has_prefix ty (codes "%")
    then identified ty
    else if has_prefix ty (codes "{") || has_prefix ty (codes "<{")
    then aggregate_type ty
    else parameter_type ty

pub record Assigned : Type 0 where
  pub params : List Assignment
  pub go : Cursor
  pub sysv : Cursor

-- What the layout of its type gives a parameter that is no scalar.
abbrev pub aggregate_places : AbiSet → Cursor → Cursor → Text → Option AggLay → Res Assigned
aggregate_places a g c ty none = unsupported (no_parameter ty)
aggregate_places a g c ty (some agg) = do
  (gs, g') ← go_aggregate a g agg
  (cs, c') ← sysv_aggregate a c agg
  ok (record { params = join_locs agg.fields gs cs; go = g'; sysv = c' })

-- One parameter: its assignments, and the counters behind it.
unfoldable pub assign_param : AbiSet → Cursor → Cursor → Text → Res Assigned
assign_param a g c ty = elim (scalar ty) [
  | some info ↦ do
    let (gl, g') = go_scalar a g info
    let (cl, c') = sysv_scalar a c info
    go_loc ← gl
    sysv_loc ← cl
    ok (record {
      params = record { type = ty; go = go_loc; sysv = sysv_loc } ∷ [];
      go = g';
      sysv = c';
    })
  | none ↦ aggregate_layout ty false >>= aggregate_places a g c ty
]

unfoldable pub assign_loop : AbiSet → Cursor → Cursor → List Text → Res Assigned
assign_loop a g c [] = ok (record { params = []; go = g; sysv = c })
assign_loop a g c (ty ∷ tys) = do
  one ← assign_param a g c ty
  rest ← assign_loop a one.go one.sysv tys
  ok (record { params = one.params ++ rest.params; go = rest.go; sysv = rest.sysv })

pub record AssignResult : Type 0 where
  pub params : List Assignment
  pub go_stack_size : ℕ
  pub sysv_stack_size : ℕ

abbrev pub start : Cursor
start = record { int = 0; float = 0; bytes = 0 }

unfoldable pub assign_params : AbiSet → List Text → Res AssignResult
assign_params a params = do
  r ← assign_loop a start start params
  ok (record {
    params = r.params;
    go_stack_size = align_up r.go.bytes 8;
    sysv_stack_size = r.sysv.bytes;
  })

-- `outgoingBytes`: `none` is its error; (stackSize + 15) &^ 15.
unfoldable pub outgoing_bytes : ℕ → Option ℕ
outgoing_bytes size = if size % 8 == 0 then some (bit_and (size + 15) (2 ^ 64 - 16)) else none
