-- ===== src/Lower/Layout/Words.antt =====
-- `assignParams` and `outgoingBytes`: the stack areas of both conventions are whole words.
use goc.Prelude.{ℕ, ◌+◌, ◌-◌, ◌%◌, ◌≡◌, refl, arith, true, false, ◌&&◌}
use goc.Prelude.{Option, none, some, List, [], ◌∷◌, ◌++◌, Option-cases, Bool-cases, inl, inr}
use goc.Prelude.{bit_and, ◌^◌, leb, ◌==◌}
use goc.Lower.Types.{Text, Bank, int_bank, float_bank, ScalarInfo, scalar}
use goc.Lower.Layout.{FieldLay, AggLay, AbiSet, Res, ok, Loc}
use goc.Lower.Layout.{Cursor, reg_at, field_regs, regs_left, sysv_aggregate, field_stack, align_up}
use goc.Lower.Layout.{sysv_scalar, scalar_reg, aggregate_layout, aggregate_places}
use goc.Lower.Layout.{Assigned, assign_param, assign_loop, AssignResult, assign_params, start}
use goc.Lower.Layout.{outgoing_bytes, go_aggregate, go_scalar, join_locs}
use goc.Prelude.Bits.{bit_and_above}
use goc.Lower.Layout.Assign.{Bank-cases}
use goc.Lower.Layout.Align.{align_up_eight}
use goc.Lower.Layout.Fields.{>>=-eq-ok}

field_regs-bytes :
    (ints floats : List Text) (c : Cursor) (fs : List FieldLay) {r : List Loc × Cursor}
    → field_regs ints floats c fs ≡ ok r
    → r.1.bytes ≡ c.bytes
unfolding field_regs
field_regs-bytes ints floats c [] {r} h = let e : r ≡ ([], c) = ground arith in rw e refl
field_regs-bytes ints floats c (f ∷ fs) {r} h = elim (Bank-cases f.bank) [
  | inl e ↦
      let (l, _, k) = >>=-eq-ok (reg_at ints c.int) _ (rw (e, field_regs) at h) in
      let (rest, p, q) = >>=-eq-ok (field_regs ints floats (record c { int = c.int + 1 }) fs) _ k in
      let b = field_regs-bytes ints floats (record c { int = c.int + 1 }) fs p in
      let t : r ≡ (l ∷ rest.0, rest.1) = ground arith in rw t b
  | inr e ↦
      let (l, _, k) = >>=-eq-ok (reg_at floats c.float) _ (rw (e, field_regs) at h) in
      let (rest, p, q) =
        >>=-eq-ok (field_regs ints floats (record c { float = c.float + 1 }) fs) _ k in
      let b = field_regs-bytes ints floats (record c { float = c.float + 1 }) fs p in
      let t : r ≡ (l ∷ rest.0, rest.1) = ground arith in rw t b
]

sysv_aggregate-bytes :
    (a : AbiSet) (c : Cursor) (agg : AggLay) {r : List Loc × Cursor}
    → c.bytes % 8 ≡ 0
    → sysv_aggregate a c agg ≡ ok r
    → r.1.bytes % 8 ≡ 0
unfolding sysv_aggregate
sysv_aggregate-bytes a c agg {r} w h =
    elim (Bool-cases (leb agg.size 16 && regs_left a.sysv_int a.sysv_float c agg)) [
      | inl e ↦ rw (field_regs-bytes a.sysv_int a.sysv_float c agg.fields (rw e at h)) w
      | inr e ↦
          let base = align_up c.bytes 8 in
          let k : ok (field_stack base agg.fields, record c { bytes = base + align_up agg.size 8 })
              ≡ ok r =
            rw e at h in
          let t : r
              ≡ (field_stack base agg.fields, record c { bytes = base + align_up agg.size 8 }) =
            ground arith in
          rw t (omega (arith, align_up_eight c.bytes, align_up_eight agg.size))
    ]

scalar_reg-bytes :
    (ints floats : List Text) (c : Cursor) (b : Bank) {r : Res Loc × Cursor}
    → c.bytes % 8 ≡ 0
    → scalar_reg ints floats c b ≡ some r
    → r.1.bytes % 8 ≡ 0
scalar_reg-bytes ints floats c int_bank {r} w h = ground arith
scalar_reg-bytes ints floats c float_bank {r} w h = ground arith

sysv_scalar-bytes :
    (a : AbiSet) (c : Cursor) (info : ScalarInfo)
    → c.bytes % 8 ≡ 0
    → (sysv_scalar a c info).1.bytes % 8 ≡ 0
unfolding sysv_scalar
sysv_scalar-bytes a c info w =
    elim (Option-cases (scalar_reg a.sysv_int a.sysv_float c info.bank)) [
      | inl e ↦ rw (e, sysv_scalar) (omega arith)
      | inr (r, e) ↦ rw (e, sysv_scalar) (scalar_reg-bytes a.sysv_int a.sysv_float c info.bank w e)
    ]

aggregate_places-bytes :
    (a : AbiSet) (g c : Cursor) (ty : Text) (o : Option AggLay) {r : Assigned}
    → c.bytes % 8 ≡ 0
    → aggregate_places a g c ty o ≡ ok r
    → r.sysv.bytes % 8 ≡ 0
aggregate_places-bytes a g c ty none w h = cc
aggregate_places-bytes a g c ty (some agg) {r} w h =
    let (gs, _, k) = >>=-eq-ok (go_aggregate a g agg) _ h in
    let (cs, p, q) = >>=-eq-ok (sysv_aggregate a c agg) _ k in
    let b = sysv_aggregate-bytes a c agg w p in
    let t : r ≡ record { params = join_locs agg.fields gs.0 cs.0; go = gs.1; sysv = cs.1 } =
      ground arith in
    rw t b

assign_param-bytes :
    (a : AbiSet) (g c : Cursor) (ty : Text) {r : Assigned}
    → c.bytes % 8 ≡ 0
    → assign_param a g c ty ≡ ok r
    → r.sysv.bytes % 8 ≡ 0
unfolding assign_param
assign_param-bytes a g c ty {r} w h = elim (Option-cases (scalar ty)) [
  | inr (info, e) ↦
      let (gl, _, k) = >>=-eq-ok (go_scalar a g info).0 _ (rw (e, assign_param) at h) in
      let (cl, p, q) = >>=-eq-ok (sysv_scalar a c info).0 _ k in
      let b = sysv_scalar-bytes a c info w in
      let t : r ≡ record {
        params = record { type = ty; go = gl; sysv = cl } ∷ [];
        go = (go_scalar a g info).1;
        sysv = (sysv_scalar a c info).1;
      } =
        ground arith in
      rw t b
  | inl e ↦
      let (o, _, k) = >>=-eq-ok (aggregate_layout ty false) _ (rw (e, assign_param) at h) in
      aggregate_places-bytes a g c ty o w k
]

assign_loop-bytes :
    (tys : List Text) (a : AbiSet) (g c : Cursor) {r : Assigned}
    → c.bytes % 8 ≡ 0
    → assign_loop a g c tys ≡ ok r
    → r.sysv.bytes % 8 ≡ 0
unfolding assign_loop
assign_loop-bytes [] a g c {r} w h =
    let t : r ≡ record { params = []; go = g; sysv = c } = ground arith in rw t w
assign_loop-bytes (ty ∷ tys) a g c {r} w h =
    let (one, p, k) = >>=-eq-ok (assign_param a g c ty) _ h in
    let (rest, q, l) = >>=-eq-ok (assign_loop a one.go one.sysv tys) _ k in
    let b = assign_loop-bytes tys a one.go one.sysv (assign_param-bytes a g c ty w p) q in
    let t : r ≡ record { params = one.params ++ rest.params; go = rest.go; sysv = rest.sysv } =
      ground arith in
    rw t b

-- When `assignParams` returns an assignment, the Go stack area it reports is a multiple of 8, and
-- `outgoingBytes` accepts the System V stack area and returns a multiple of 16.
pub assign_params-words :
    (a : AbiSet) (tys : List Text) (r : AssignResult)
    → assign_params a tys ≡ ok r
    → (r.go_stack_size % 8 ≡ 0)
      × ((n : ℕ) × (outgoing_bytes r.sysv_stack_size ≡ some n) × (n % 16 ≡ 0))
unfolding assign_params outgoing_bytes
assign_params-words a tys r h =
    let (l, p, k) = >>=-eq-ok (assign_loop a start start tys) _ h in
    let w = assign_loop-bytes tys a start start (omega arith) p in
    let t : r ≡ record {
      params = l.params;
      go_stack_size = align_up l.go.bytes 8;
      sysv_stack_size = l.sysv.bytes;
    } =
      ground arith in
    let size = l.sysv.bytes in
    let e : (size % 8 == 0) ≡ true = ground arith in
    rw t (
      align_up_eight l.go.bytes,
      (
        bit_and (size + 15) (2 ^ 64 - 16),
        rw e refl,
        omega (arith, bit_and_above 4 (2 ^ 60 - 1) (size + 15)),
      ),
    )
