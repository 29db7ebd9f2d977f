-- ===== src/Goobj/Diff.antt =====
-- internal/goobj/diff.go: `diffPCValue`, the decoder of Go's pc-value tables. A span is kept as it is and
-- not printed.
pub mod Ends
use goc.Prelude.{
  ℕ, zero, suc, ◌+◌, ◌*◌, ◌/◌, ◌%◌, ◌^◌, Bool, true, false, not, ◌&&◌, ◌==◌, if◌then◌else◌,
}
use goc.Prelude.{Option, none, some, List, [], ◌∷◌, length}
use goc.Prelude.Int.{ℤ, pos, negsuc, signed64, pattern64}
use goc.Gocobj.Codec.{Bytes, uvarint}

-- "[start,end)=value"
pub record Span : Type 0 where
  pub start : ℕ
  pub end : ℕ
  pub value : ℤ

-- `no_table` is the text "<none>" of a nil slice, `bad` is "<bad>".
pub data PcSpans : Type 0 where
  spans : List Span → PcSpans
  bad no_table unfinished : PcSpans

-- int64(uv>>1) ^ -int64(uv&1)
abbrev pub unzigzag : ℕ → ℤ
unzigzag uv = if uv % 2 == 0 then pos (uv / 2) else negsuc (uv / 2)

-- The sum of two int64, which wraps.
abbrev pub add64 : ℤ → ℤ → ℤ
add64 a b = signed64 ((pattern64 a + pattern64 b) % 2 ^ 64)

abbrev pub add_span : Span → PcSpans → PcSpans
add_span s (spans ss) = spans (s ∷ ss)
add_span s bad = bad
add_span s no_table = no_table
add_span s unfinished = unfinished

-- The loop, with `val`, `pc` and `first`. Each round takes two bytes at least.
unfoldable pub pc_value_loop : ℕ → ℕ → Bytes → ℤ → ℕ → Bool → PcSpans
pc_value_loop quantum fuel [] val pc first = spans []
pc_value_loop quantum zero (x ∷ xs) val pc first = unfinished
pc_value_loop quantum (suc fuel) (x ∷ xs) val pc first = elim (uvarint (x ∷ xs)) [
  | none ↦ bad
  | some (uv, b) ↦ if (uv == 0) && not first then spans [] else elim (uvarint b) [
    | none ↦ bad
    | some (d, b') ↦
        let val' = add64 val (unzigzag uv) in
        let end = (pc + d * quantum % 2 ^ 64) % 2 ^ 64 in
        add_span (record { start = pc; end = end; value = val' })
          (pc_value_loop quantum fuel b' val' end false)
  ]
]

unfoldable pub diff_pc_value : Option Bytes → ℕ → PcSpans
diff_pc_value none quantum = no_table
diff_pc_value (some b) quantum = pc_value_loop quantum (length b) b (negsuc 0) 0 true
