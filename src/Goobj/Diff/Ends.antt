-- ===== src/Goobj/Diff/Ends.antt =====
-- `diffPCValue` ends on every table.
use goc.Prelude.{ℕ, zero, suc, ◌≤◌, ◌≢◌, arith, Bool, true, false, not, ◌&&◌, ◌==◌}
use goc.Prelude.{Option, none, some, [], ◌∷◌, length, Bool-cases, Option-cases, inl, inr}
use goc.Prelude.Int.{ℤ, negsuc}
use goc.Gocobj.Codec.{Bytes, uvarint}
use goc.Gocobj.Codec.RecordLoop.{uvarint_takes}
use goc.Goobj.Diff.{
  Span, PcSpans, spans, bad, no_table, unfinished, add_span, pc_value_loop, diff_pc_value,
}

add_span-ne-unfinished : (s : Span) (r : PcSpans) → r ≢ unfinished → add_span s r ≢ unfinished
add_span-ne-unfinished s (spans ss) h = λ e. cc
add_span-ne-unfinished s bad h = λ e. cc
add_span-ne-unfinished s no_table h = λ e. cc
add_span-ne-unfinished s unfinished h = h

pc_value_loop-ne-unfinished :
    (quantum fuel : ℕ) (b : Bytes) (val : ℤ) (pc : ℕ) (first : Bool)
    → length b ≤ fuel
    → pc_value_loop quantum fuel b val pc first ≢ unfinished
unfolding pc_value_loop
pc_value_loop-ne-unfinished q fuel [] val pc first le = λ e. cc
pc_value_loop-ne-unfinished q zero (x ∷ xs) val pc first le = absurd (omega arith)
pc_value_loop-ne-unfinished q (suc fuel) (x ∷ xs) val pc first le =
    elim (Option-cases (uvarint (x ∷ xs))) [
      | inl e ↦ rw (e, pc_value_loop) (λ p. cc)
      | inr ((uv, b), e) ↦ elim (Bool-cases ((uv == 0) && not first)) [
        | inl z ↦ rw (e, pc_value_loop, z) (λ p. cc)
        | inr z ↦ elim (Option-cases (uvarint b)) [
          | inl d ↦ rw (e, pc_value_loop, z, d) (λ p. cc)
          | inr ((n, b'), d) ↦
              rw (e, pc_value_loop, z, d)
                (add_span-ne-unfinished _ _ (
                  pc_value_loop-ne-unfinished q fuel b' _ _ false
                    (omega (arith, uvarint_takes (x ∷ xs) e, uvarint_takes b d))))
        ]
      ]
    ]

-- `diffPCValue` ends on every table and every quantum.
pub diff_pc_value-ne-unfinished :
    (b : Option Bytes) (quantum : ℕ) → diff_pc_value b quantum ≢ unfinished
unfolding diff_pc_value
diff_pc_value-ne-unfinished none q = λ e. cc
diff_pc_value-ne-unfinished (some b) q =
    pc_value_loop-ne-unfinished q (length b) b (negsuc 0) 0 true (omega arith)
