-- ===== src/Convert/PcTab/Chain.antt =====
-- The segments of `pcbytes` in the order in which they are encoded, and what `add_segment` keeps of it.
use goc.Prelude.{ℕ, ◌%◌, ◌≤◌, ◌<◌, ◌≡◌, ◌≢◌, refl, arith, Bool, true, false}
use goc.Prelude.{List, [], ◌∷◌, leb, ltb, if◌then◌else◌, Option, none, some}
use goc.Prelude.Int.{ℤ, negsuc, IsI64}
use goc.Goobj.Diff.{Span}
use goc.Convert.PcTab.{Seg, next_start, reversed}
use goc.Convert.PcTab.Segments.{value_at}

-- Segments from `pc` on, behind the value `prev`: they follow each other without a gap to `size`, at
-- multiples of `q`, and no value is the one before it; only the first one of all may be.
abbrev pub IsChain : ℕ → ℕ → ℤ → ℕ → Bool → List Seg → Type 0
IsChain q size prev pc first [] = (pc ≡ size) × (first ≡ false)
IsChain q size prev pc first (s ∷ ss) =
    (s.start ≡ pc)
    × (pc < next_start size ss)
    × (next_start size ss ≤ size)
    × (next_start size ss % q ≡ 0)
    × (pc % q ≡ 0)
    × IsI64 s.value
    × (first ≡ false → s.value ≢ prev)
    × IsChain q size s.value (next_start size ss) false ss

-- The same of the segments with the last one first.
abbrev pub IsBackward : ℕ → ℕ → Seg → List Seg → Type 0
IsBackward q size s [] = (s.start ≡ 0) × IsI64 s.value
IsBackward q size s (p ∷ older) =
    (p.start < s.start)
    × (s.start < size)
    × (s.start % q ≡ 0)
    × IsI64 s.value
    × (s.value ≢ p.value)
    × IsBackward q size p older

module _ (q size : ℕ) (positive : 0 < q) where
  pub IsChain-reversed :
      (older acc : List Seg) (s : Seg)
      → IsBackward q size s older
      → s.start < next_start size acc
      → next_start size acc ≤ size
      → next_start size acc % q ≡ 0
      → IsChain q size s.value (next_start size acc) false acc
      → IsChain q size (negsuc 0) 0 true (reversed acc (s ∷ older))
  IsChain-reversed [] acc s h lt le mul c =
      (h.0, omega (arith, h.0), le, mul, zero_mod q positive, h.1, λ e. cc, c)
    where
      zero_mod : (q : ℕ) → 0 < q → 0 % q ≡ 0
      zero_mod q h = omega arith
  IsChain-reversed (p ∷ older) acc s h lt le mul c =
      let (before, inside, at, value, other, rest) = h in
      IsChain-reversed older (s ∷ acc) p rest before (omega arith) at
        (refl, lt, le, mul, at, value, (λ _. other), c)

-- The spans that segments in their order stand for.
abbrev pub spans_of : ℕ → List Seg → List Span
spans_of size [] = []
spans_of size (s ∷ ss) =
    record { start = s.start; end = next_start size ss; value = s.value } ∷ spans_of size ss

-- The value at a pc, of the first span that has it.
abbrev pub span_at : List Span → ℕ → Option ℤ
span_at [] x = none
span_at (s ∷ ss) x =
    if leb s.start x then (if ltb x s.end then some s.value else span_at ss x) else span_at ss x

module _ (q size x : ℕ) where
  pub span_at-reversed :
      (older acc : List Seg) (s : Seg)
      → IsBackward q size s older
      → s.start < next_start size acc
      → span_at (spans_of size (reversed acc (s ∷ older))) x ≡ (
          if leb (next_start size acc) x
          then span_at (spans_of size acc) x
          else some (value_at (s ∷ older) x))
  span_at-reversed [] acc s h lt = ground (arith, h.0)
  span_at-reversed (p ∷ older) acc s h lt =
      ground (arith, span_at-reversed older (s ∷ acc) p h.5 h.0)

-- The last segment of such ones is inside a function that is not empty.
pub IsBackward-inside :
    (q size : ℕ) (s : Seg) (older : List Seg)
    → 0 < size
    → IsBackward q size s older
    → s.start < size
IsBackward-inside q size s [] h b = omega (arith, b.0)
IsBackward-inside q size s (p ∷ older) h b = b.1
