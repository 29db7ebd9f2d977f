-- ===== src/Lower/Layout/Assign.antt =====
-- `assignParams`: it never indexes a register file out of range, and its stack areas are whole words.
use goc.Prelude.{ℕ, zero, suc, ◌+◌, ◌-◌, ◌≤◌, ◌<◌, ◌≡◌, ◌≢◌, refl, arith, Bool, false, ◌&&◌}
use goc.Prelude.{
  Option, none, some, List, [], ◌∷◌, length, get_elem?, Option-cases, Bool-cases, inl, inr, ◌⊎◌,
}
use goc.Prelude.{leb, drop}
use goc.Lower.Types.{Text, Bank, int_bank, float_bank, ScalarInfo, scalar, trim_space}
use goc.Lower.Layout.{FieldLay, AggLay, AbiSet, Res, panicked, Loc}
use goc.Lower.Layout.{
  Cursor, reg_at, field_regs, count_int, regs_left, go_aggregate, sysv_aggregate,
}
use goc.Lower.Layout.{go_scalar, sysv_scalar, scalar_reg, aggregate_layout}
use goc.Lower.Layout.{lay_fields, finish_layout, layout_of_fields, body_fields, but_last}
use goc.Lower.Layout.{assign_param, assign_loop, assign_params, start, aggregate_places}
use goc.Lower.Layout.Fields.{>>=-ne-panicked}

get_elem?-ne-none {ℓ} : {A : Type ℓ} (xs : List A) (i : ℕ) → i < length xs → get_elem? xs i ≢ none
get_elem?-ne-none [] i h = absurd (omega arith)
get_elem?-ne-none (x ∷ xs) zero h = λ e. cc
get_elem?-ne-none (x ∷ xs) (suc i) h = get_elem?-ne-none xs i (omega arith)

pub reg_at-ne-panicked : (regs : List Text) (i : ℕ) → i < length regs → reg_at regs i ≢ panicked
unfolding reg_at
reg_at-ne-panicked regs i h = ground (arith, get_elem?-ne-none regs i h)

count_int-le : (fs : List FieldLay) → count_int fs ≤ length fs
unfolding count_int
count_int-le [] = omega arith
count_int-le (f ∷ fs) = ground (arith, count_int-le fs)

pub Bank-cases : (b : Bank) → (b ≡ int_bank) ⊎ (b ≡ float_bank)
Bank-cases int_bank = inl refl
Bank-cases float_bank = inr refl

count_int_int :
    (f : FieldLay) (fs : List FieldLay) → f.bank ≡ int_bank → count_int (f ∷ fs) ≡ 1 + count_int fs
unfolding count_int
count_int_int f fs e = rw (e, count_int)

count_int_float :
    (f : FieldLay) (fs : List FieldLay) → f.bank ≡ float_bank → count_int (f ∷ fs) ≡ count_int fs
unfolding count_int
count_int_float f fs e = rw (e, count_int)

module _ (ints floats : List Text) where
  field_regs-ne-panicked :
      (c : Cursor) (fs : List FieldLay)
      → c.int + count_int fs ≤ length ints
      → c.float + (length fs - count_int fs) ≤ length floats
      → field_regs ints floats c fs ≢ panicked
  unfolding field_regs
  field_regs-ne-panicked c [] hi hf = λ e. cc
  field_regs-ne-panicked c (f ∷ fs) hi hf = elim (Bank-cases f.bank) [
    | inl e ↦
        let n = count_int_int f fs e in
        rw (e, field_regs)
          (>>=-ne-panicked (reg_at ints c.int) _ (reg_at-ne-panicked ints c.int (omega (arith, n)))
            (λ l _.
              >>=-ne-panicked (field_regs ints floats (record c { int = c.int + 1 }) fs) _
                (field_regs-ne-panicked (record c { int = c.int + 1 }) fs (omega (arith, n))
                  (omega (arith, n)))
                (λ rest _ p. cc)))
    | inr e ↦
        let n = count_int_float f fs e in
        let le = count_int-le fs in
        rw (e, field_regs)
          (>>=-ne-panicked (reg_at floats c.float) _
            (reg_at-ne-panicked floats c.float (omega (arith, n, le)))
            (λ l _.
              >>=-ne-panicked (field_regs ints floats (record c { float = c.float + 1 }) fs) _
                (field_regs-ne-panicked (record c { float = c.float + 1 }) fs (omega (arith, n))
                  (omega (arith, n, le)))
                (λ rest _ p. cc)))
  ]

  scalar_reg-ne-panicked :
      (c : Cursor) (b : Bank) {r : Res Loc × Cursor}
      → scalar_reg ints floats c b ≡ some r
      → r.0 ≢ panicked
  scalar_reg-ne-panicked c int_bank {r} h = ground (arith, reg_at-ne-panicked ints c.int)
  scalar_reg-ne-panicked c float_bank {r} h = ground (arith, reg_at-ne-panicked floats c.float)

go_aggregate-ne-panicked :
    (a : AbiSet) (c : Cursor) (agg : AggLay) → go_aggregate a c agg ≢ panicked
unfolding go_aggregate
go_aggregate-ne-panicked a c agg = elim (Bool-cases (regs_left a.go_int a.go_float c agg)) [
  | inl e ↦
      rw e (field_regs-ne-panicked a.go_int a.go_float c agg.fields (ground arith) (ground arith))
  | inr e ↦ rw e (λ p. cc)
]

sysv_aggregate-ne-panicked :
    (a : AbiSet) (c : Cursor) (agg : AggLay) → sysv_aggregate a c agg ≢ panicked
unfolding sysv_aggregate
sysv_aggregate-ne-panicked a c agg =
    elim (Bool-cases (leb agg.size 16 && regs_left a.sysv_int a.sysv_float c agg)) [
      | inl e ↦ rw e (
          field_regs-ne-panicked a.sysv_int a.sysv_float c agg.fields (ground arith) (ground arith))
      | inr e ↦ rw e (λ p. cc)
    ]

go_scalar-ne-panicked :
    (a : AbiSet) (c : Cursor) (info : ScalarInfo) → (go_scalar a c info).0 ≢ panicked
unfolding go_scalar
go_scalar-ne-panicked a c info = elim (Option-cases (scalar_reg a.go_int a.go_float c info.bank)) [
  | inl e ↦ rw (e, go_scalar) (λ p. cc)
  | inr (r, e) ↦ rw (e, go_scalar) (scalar_reg-ne-panicked a.go_int a.go_float c info.bank e)
]

sysv_scalar-ne-panicked :
    (a : AbiSet) (c : Cursor) (info : ScalarInfo) → (sysv_scalar a c info).0 ≢ panicked
unfolding sysv_scalar
sysv_scalar-ne-panicked a c info =
    elim (Option-cases (scalar_reg a.sysv_int a.sysv_float c info.bank)) [
      | inl e ↦ rw (e, sysv_scalar) (λ p. cc)
      | inr (r, e) ↦
          rw (e, sysv_scalar) (scalar_reg-ne-panicked a.sysv_int a.sysv_float c info.bank e)
    ]

lay_fields-ne-panicked : (tys : List Text) (from align : ℕ) → lay_fields from align tys ≢ panicked
unfolding lay_fields
lay_fields-ne-panicked [] from align = λ p. cc
lay_fields-ne-panicked (ty ∷ tys) from align = elim (Option-cases (scalar ty)) [
  | inl e ↦ rw (e, lay_fields) (λ p. cc)
  | inr (info, e) ↦
      rw (e, lay_fields)
        (>>=-ne-panicked (lay_fields _ _ tys) _ (lay_fields-ne-panicked tys _ _) (λ rest _ p. cc))
]

finish-ne-panicked : (limit : Bool) (r : List FieldLay × ℕ × ℕ) → finish_layout limit r ≢ panicked
unfolding finish_layout
finish-ne-panicked limit (laid, end, align) = λ p. ground arith

layout_of_fields-ne-panicked :
    (limit : Bool) (tys : List Text) → layout_of_fields limit tys ≢ panicked
layout_of_fields-ne-panicked limit [] = λ p. cc
layout_of_fields-ne-panicked limit (ty ∷ tys) =
    >>=-ne-panicked (lay_fields 0 1 (ty ∷ tys)) _ (lay_fields-ne-panicked (ty ∷ tys) 0 1)
      (λ r _. finish-ne-panicked limit r)

pub aggregate_layout-ne-panicked : (ty : Text) (limit : Bool) → aggregate_layout ty limit ≢ panicked
unfolding aggregate_layout
aggregate_layout-ne-panicked ty limit =
    let tys = body_fields (trim_space (but_last (drop 1 ty))) in
    λ p. ground (arith, layout_of_fields-ne-panicked limit tys)

aggregate_places-ne-panicked :
    (a : AbiSet) (g c : Cursor) (ty : Text) (o : Option AggLay)
    → aggregate_places a g c ty o ≢ panicked
aggregate_places-ne-panicked a g c ty none = λ p. cc
aggregate_places-ne-panicked a g c ty (some agg) =
    >>=-ne-panicked (go_aggregate a g agg) _ (go_aggregate-ne-panicked a g agg) (λ r _.
      >>=-ne-panicked (sysv_aggregate a c agg) _ (sysv_aggregate-ne-panicked a c agg) (λ t _ p. cc))

assign_param-ne-panicked :
    (a : AbiSet) (g c : Cursor) (ty : Text) → assign_param a g c ty ≢ panicked
unfolding assign_param
assign_param-ne-panicked a g c ty = elim (Option-cases (scalar ty)) [
  | inr (info, e) ↦
      rw (e, assign_param)
        (>>=-ne-panicked (go_scalar a g info).0 _ (go_scalar-ne-panicked a g info) (λ l _.
          >>=-ne-panicked (sysv_scalar a c info).0 _ (sysv_scalar-ne-panicked a c info)
            (λ m _ p. cc)))
  | inl e ↦
      rw (e, assign_param)
        (>>=-ne-panicked (aggregate_layout ty false) _ (aggregate_layout-ne-panicked ty false)
          (λ o _. aggregate_places-ne-panicked a g c ty o))
]

assign_loop-ne-panicked :
    (tys : List Text) (a : AbiSet) (g c : Cursor) → assign_loop a g c tys ≢ panicked
unfolding assign_loop
assign_loop-ne-panicked [] a g c = λ p. cc
assign_loop-ne-panicked (ty ∷ tys) a g c =
    >>=-ne-panicked (assign_param a g c ty) _ (assign_param-ne-panicked a g c ty) (λ one _.
      >>=-ne-panicked (assign_loop a one.go one.sysv tys) _
        (assign_loop-ne-panicked tys a one.go one.sysv) (λ rest _ p. cc))

-- `assignParams` never indexes one of the register files out of range, whatever the files' lengths and
-- the parameters' types: it returns an assignment or a reason why the signature is unsupported.
pub assign_params-ne-panicked : (a : AbiSet) (tys : List Text) → assign_params a tys ≢ panicked
unfolding assign_params
assign_params-ne-panicked a tys =
    >>=-ne-panicked (assign_loop a start start tys) _ (assign_loop-ne-panicked tys a start start)
      (λ r _ p. cc)
