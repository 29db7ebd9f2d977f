-- ===== src/Lower/Returns/Safe.antt =====
-- `returnAssignment` with the register files of `abiFor` never indexes one out of range.
use goc.Prelude.{ℕ, ◌+◌, ◌^◌, ◌≤◌, ◌<◌, ◌≡◌, ◌≢◌, refl, arith, Bool-cases, Option-cases, inl, inr}
use goc.Prelude.{Option, none, some, true, List, [], ◌∷◌, length, bytes_eq, codes}
use goc.Lower.Types.{Text, ScalarInfo, scalar}
use goc.Lower.Layout.{FieldLay, AggLay, AbiSet, ok, panicked, reg_at}
use goc.Lower.Layout.{aggregate_layout}
use goc.Lower.Layout.Fields.{>>=-ne-panicked, Laid, OneEach, Laid-le, aggregate_layout-IsLayout}
use goc.Lower.Layout.Assign.{reg_at-ne-panicked, aggregate_layout-ne-panicked, Bank-cases}
use goc.Lower.Returns.{
  amd64_set, arm64_set, abi_for, return_loop, return_aggregate, return_scalar, return_assignment,
}

-- Two registers for results in each bank.
pub record HasPairs (a : AbiSet) : Type 0 where
  pub go_int : 2 ≤ length a.go_int
  pub go_float : 2 ≤ length a.go_float
  pub sysv_int : 2 ≤ length a.sysv_int_result
  pub sysv_float : 2 ≤ length a.sysv_float_result

amd64-HasPairs : HasPairs amd64_set
amd64-HasPairs = record {
  go_int = omega arith;
  go_float = omega arith;
  sysv_int = omega arith;
  sysv_float = omega arith;
}

arm64-HasPairs : HasPairs arm64_set
arm64-HasPairs = record {
  go_int = omega arith;
  go_float = omega arith;
  sysv_int = omega arith;
  sysv_float = omega arith;
}

abi_for-HasPairs : (arch : Text) {a : AbiSet} → abi_for arch ≡ some a → HasPairs a
unfolding abi_for
abi_for-HasPairs [] {a} h = let t : a ≡ amd64_set = ground arith in rw t amd64-HasPairs
abi_for-HasPairs (c ∷ cs) {a} h = elim (Bool-cases (bytes_eq (c ∷ cs) (codes "arm64"))) [
  | inl e ↦
      let k : some arm64_set ≡ some a = rw (e, abi_for) at h in
      let t : a ≡ arm64_set = ground arith in rw t arm64-HasPairs
  | inr e ↦ elim (Bool-cases (bytes_eq (c ∷ cs) (codes "amd64"))) [
    | inl d ↦
        let k : some amd64_set ≡ some a = rw (e, d, abi_for) at h in
        let t : a ≡ amd64_set = ground arith in rw t amd64-HasPairs
    | inr d ↦ cc (rw (e, d, abi_for) at h)
  ]
]

-- Aligned fields in 16 bytes, one per eightbyte, are two at most.
at_most_two :
    (fs : List FieldLay) (end : ℕ) → Laid 0 fs end → OneEach [] fs → end ≤ 16 → length fs ≤ 2
at_most_two [] end laid each le = omega arith
at_most_two (f ∷ []) end laid each le = omega arith
at_most_two (f ∷ g ∷ []) end laid each le = omega arith
at_most_two (f ∷ g ∷ h ∷ fs) end laid each le =
    let (_, _, f_size, laid_g) = laid in
    let (g_from, _, g_size, laid_h) = laid_g in
    let (h_from, _, h_size, rest) = laid_h in
    let (_, _, each_g) = each in
    let (_, apart_g, each_h) = each_g in
    let (_, apart_h, _) = each_h in
    let (f_ne_g, _) = apart_g in
    let (g_ne_h, apart_f) = apart_h in
    let (f_ne_h, _) = apart_f in absurd (omega (arith, Laid-le (h.offset + h.size) fs end rest))

return_loop-ne-panicked :
    (fs : List FieldLay) (a : AbiSet) (i f : ℕ)
    → HasPairs a
    → i + f + length fs ≤ 2
    → return_loop a i f fs ≢ panicked
unfolding return_loop
return_loop-ne-panicked [] a i f p le = λ e. cc
return_loop-ne-panicked (x ∷ xs) a i f p le = elim (Bank-cases x.bank) [
  | inl e ↦
      rw (e, return_loop)
        (>>=-ne-panicked (reg_at a.go_int i) _
          (reg_at-ne-panicked a.go_int i (omega (arith, p.go_int)))
          (λ g _.
            >>=-ne-panicked (reg_at a.sysv_int_result i) _
              (reg_at-ne-panicked a.sysv_int_result i (omega (arith, p.sysv_int)))
              (λ s _.
                >>=-ne-panicked (return_loop a (i + 1) f xs) _
                  (return_loop-ne-panicked xs a (i + 1) f p (omega arith)) (λ r _ q. cc))))
  | inr e ↦
      rw (e, return_loop)
        (>>=-ne-panicked (reg_at a.go_float f) _
          (reg_at-ne-panicked a.go_float f (omega (arith, p.go_float)))
          (λ g _.
            >>=-ne-panicked (reg_at a.sysv_float_result f) _
              (reg_at-ne-panicked a.sysv_float_result f (omega (arith, p.sysv_float)))
              (λ s _.
                >>=-ne-panicked (return_loop a i (f + 1) xs) _
                  (return_loop-ne-panicked xs a i (f + 1) p (omega arith)) (λ r _ q. cc))))
]

return_scalar-ne-panicked :
    (a : AbiSet) (ty : Text) (info : ScalarInfo) → HasPairs a → return_scalar a ty info ≢ panicked
return_scalar-ne-panicked a ty info p =
    >>=-ne-panicked (reg_at a.go_int 0) _ (reg_at-ne-panicked a.go_int 0 (omega (arith, p.go_int)))
      (λ first _. elim (Bank-cases info.bank) [
        | inl e ↦ rw e (λ q. cc)
        | inr e ↦ rw e (
            >>=-ne-panicked (reg_at a.go_float 0) _
              (reg_at-ne-panicked a.go_float 0 (omega (arith, p.go_float))) (λ l _ q. cc))
      ])

-- With the register files of `abiFor` and a type of less than 2 ^ 58 bytes, `returnAssignment` never
-- indexes a register file out of range: it returns the places of the result or a reason why not.
pub return_assignment-ne-panicked :
    (arch ty : Text) (a : AbiSet)
    → abi_for arch ≡ some a
    → length ty < 2 ^ 58
    → return_assignment a ty ≢ panicked
unfolding return_assignment
return_assignment-ne-panicked arch ty a h small = elim (Bool-cases (bytes_eq ty (codes "void"))) [
  | inl v ↦ rw v (λ q. cc)
  | inr v ↦ elim (Option-cases (scalar ty)) [
    | inr (info, e) ↦
        rw (v, e, return_assignment) (return_scalar-ne-panicked a ty info (abi_for-HasPairs arch h))
    | inl e ↦
        rw (v, e, return_assignment)
          (>>=-ne-panicked (aggregate_layout ty true) _ (aggregate_layout-ne-panicked ty true)
            (λ o ho. aggregate_lem a ty o (abi_for-HasPairs arch h) small ho))
  ]
]
  where
    aggregate_lem :
        (a : AbiSet) (ty : Text) (o : Option AggLay)
        → HasPairs a
        → length ty < 2 ^ 58
        → aggregate_layout ty true ≡ ok o
        → return_aggregate a ty o ≢ panicked
    aggregate_lem a ty none p small e = λ q. cc
    aggregate_lem a ty (some agg) p small e =
        let l = aggregate_layout-IsLayout ty true small e in
        let two =
          at_most_two agg.fields l.end l.laid l.one_each
            (omega (arith, l.size.above, l.limited refl)) in
        return_loop-ne-panicked agg.fields a 0 0 p (omega (arith, two))
