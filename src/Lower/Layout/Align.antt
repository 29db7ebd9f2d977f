-- ===== src/Lower/Layout/Align.antt =====
-- `alignUp` on the alignments of scalars.
use goc.Prelude.{ℕ, ◌+◌, ◌-◌, ◌%◌, ◌^◌, ◌≤◌, ◌<◌, ◌≡◌, ◌⊎◌, inl, inr, refl, arith}
use goc.Prelude.{Option, none, some}
use goc.Prelude.Bits.{bit_and_above, bit_and_round}
use goc.Prelude.{Bool-cases, bytes_eq, codes}
use goc.Lower.Types.{Text, Bank, ScalarInfo, scalar, int_digits, int_info}
use goc.Lower.Layout.{align_up}

abbrev pub IsAlign : ℕ → Type 0
IsAlign a = (a ≡ 1) ⊎ (a ≡ 2) ⊎ (a ≡ 4) ⊎ (a ≡ 8)

-- At 8 the result is a multiple of 8, whatever the value.
pub align_up_eight : (v : ℕ) → align_up v 8 % 8 ≡ 0
unfolding align_up
align_up_eight v = omega (arith, bit_and_above 3 (2 ^ 61 - 1) (v + 8 - 1))

-- The least multiple of the alignment that is not below the value.
pub record Aligned (v a r : ℕ) : Type 0 where
  pub above : v ≤ r
  pub near : r < v + a
  pub multiple : r % a ≡ 0

-- At an alignment of 1, 2, 4 or 8 and a value below 2 ^ 63, `alignUp` is the least multiple of the
-- alignment that is not below the value.
pub align_up-Aligned : (v a : ℕ) → IsAlign a → v < 2 ^ 63 → Aligned v a (align_up v a)
unfolding align_up
align_up-Aligned v a (inl e) h =
    rw e (omega (arith, bit_and_round 0 (v + 1 - 1) (omega arith) (omega arith)))
align_up-Aligned v a (inr (inl e)) h =
    rw e (omega (arith, bit_and_round 1 (v + 2 - 1) (omega arith) (omega arith)))
align_up-Aligned v a (inr (inr (inl e))) h =
    rw e (omega (arith, bit_and_round 2 (v + 4 - 1) (omega arith) (omega arith)))
align_up-Aligned v a (inr (inr (inr e))) h =
    rw e (omega (arith, bit_and_round 3 (v + 8 - 1) (omega arith) (omega arith)))

int_info_shape :
    (o : Option Text) (info : ScalarInfo)
    → int_info o ≡ some info
    → IsAlign info.align × (info.size ≡ info.align)
int_info_shape none info h = cc
int_info_shape (some ds) info h = (ground arith, ground arith)

named :
    {b : Bank} {n : ℕ} {info : ScalarInfo}
    → IsAlign n
    → some (record { bank = b; size = n; align = n }) ≡ some info
    → IsAlign info.align × (info.size ≡ info.align)
named {info = info} n h = (ground arith, ground arith)

-- A type that `scalar` accepts has 1, 2, 4 or 8 bytes, and its alignment is its size.
pub scalar_shape :
    (ty : Text) (info : ScalarInfo)
    → scalar ty ≡ some info
    → IsAlign info.align × (info.size ≡ info.align)
unfolding scalar
scalar_shape ty info h = elim (Bool-cases (bytes_eq ty (codes "ptr"))) [
  | inl p ↦ named (inr (inr (inr refl))) (rw p at h)
  | inr p ↦ elim (Bool-cases (bytes_eq ty (codes "float"))) [
    | inl q ↦ named (inr (inr (inl refl))) (rw (p, q) at h)
    | inr q ↦ elim (Bool-cases (bytes_eq ty (codes "double"))) [
      | inl r ↦ named (inr (inr (inr refl))) (rw (p, q, r) at h)
      | inr r ↦ int_info_shape (int_digits ty) info (rw (p, q, r) at h)
    ]
  ]
]
