-- ===== src/Convert/PcTab/Rows.antt =====
-- The segments that `pcbytes` makes of the rows of a table form a chain.
use goc.Prelude.{ℕ, ◌%◌, ◌≤◌, ◌<◌, ◌≡◌, ◌≢◌, refl, ap, arith, true, false, Bool-cases, inl, inr}
use goc.Prelude.{List, [], ◌∷◌, foldl, leb, ◌==◌}
use goc.Prelude.Int.{ℤ, pos, negsuc, eq_ℤ, IsI64}
use goc.Gocobj.Format.{PcEntry}
use goc.Convert.PcTab.{Seg, add_segment, pc_segments}
use goc.Convert.PcTab.Segments.{Ascending}
use goc.Convert.PcTab.Chain.{IsBackward}

-- Rows behind `prev`, at multiples of `q`.
abbrev pub IsBehind : ℕ → ℕ → List PcEntry → Type 0
IsBehind q prev [] = Unit
IsBehind q prev (e ∷ es) = (prev < e.pc) × (e.pc % q ≡ 0) × IsI64 e.value × IsBehind q e.pc es

-- Rows with increasing pcs at multiples of `q`, and values of int64.
abbrev pub IsRows : ℕ → List PcEntry → Type 0
IsRows q [] = Unit
IsRows q (e ∷ es) = (e.pc % q ≡ 0) × IsI64 e.value × IsBehind q e.pc es

IsBehind-Ascending : (q prev : ℕ) (es : List PcEntry) → IsBehind q prev es → Ascending prev es
IsBehind-Ascending q prev [] h = tt
IsBehind-Ascending q prev (e ∷ es) h = (omega (arith, h.0), IsBehind-Ascending q e.pc es h.3)

pub IsRows-Ascending : (q : ℕ) (es : List PcEntry) → IsRows q es → Ascending 0 es
IsRows-Ascending q [] h = tt
IsRows-Ascending q (e ∷ es) h = (omega arith, IsBehind-Ascending q e.pc es h.2)

eq_ℤ_self : (a : ℤ) → eq_ℤ a a ≡ true
eq_ℤ_self (pos n) = ground arith
eq_ℤ_self (negsuc n) = ground arith

ne_of_eq_ℤ : (a b : ℤ) → eq_ℤ a b ≡ false → a ≢ b
ne_of_eq_ℤ a b h e = let same = eq_ℤ_self b in ground (arith, ap (λ (t : ℤ). eq_ℤ t b) e)

-- A state of the loop that is a chain, with a row's pc that its last segment is not behind.
pub record Chained (q size pc : ℕ) (segs : List Seg) : Type 0 where
  pub last : Seg
  pub older : List Seg
  pub shape : segs ≡ last ∷ older
  pub start : last.start ≤ pc
  pub chain : IsBackward q size last older

module _ (q size : ℕ) (positive : 0 < size) where
  add_segment-Chained :
      (last : Seg) (older : List Seg) (e : PcEntry)
      → IsBackward q size last older
      → last.start < e.pc
      → e.pc % q ≡ 0
      → IsI64 e.value
      → Chained q size e.pc (add_segment size (last ∷ older) e)
  unfolding add_segment
  add_segment-Chained last older e h lt mul value = elim (Bool-cases (leb size e.pc)) [
    | inl p ↦
        rw p (record { last = last; older = older; shape = refl; start = omega arith; chain = h })
    | inr p ↦
        let other : (e.pc == last.start) ≡ false = ground arith in
        elim (Bool-cases (eq_ℤ e.value last.value)) [
          | inl v ↦
              rw (p, other, v)
                (record {
                  last = last;
                  older = older;
                  shape = refl;
                  start = omega arith;
                  chain = h;
                })
          | inr v ↦
              rw (p, other, v)
                (record {
                  last = record { value = e.value; start = e.pc };
                  older = last ∷ older;
                  shape = refl;
                  start = omega arith;
                  chain = (lt, ground arith, mul, value, ne_of_eq_ℤ e.value last.value v, h);
                })
        ]
  ]

  segments_Chained :
      (es : List PcEntry) (last : Seg) (older : List Seg) (pc : ℕ)
      → IsBackward q size last older
      → last.start ≤ pc
      → IsBehind q pc es
      → (end : ℕ) × Chained q size end (foldl (add_segment size) (last ∷ older) es)
  segments_Chained [] last older pc h le b =
      (pc, record { last = last; older = older; shape = refl; start = le; chain = h })
  segments_Chained (e ∷ es) last older pc h le b =
      let (lt, mul, value, rest) = b in
      let one = add_segment-Chained last older e h (omega arith) mul value in
      let (end, more) = segments_Chained es one.last one.older e.pc one.chain one.start rest in
      (end, rw one.shape more)

  first_Chained :
      (e : PcEntry)
      → e.pc % q ≡ 0
      → IsI64 e.value
      → Chained q size e.pc (add_segment size (record { value = negsuc 0; start = 0 } ∷ []) e)
  unfolding add_segment
  first_Chained e mul value = elim (Bool-cases (e.pc == 0)) [
    | inl z ↦
        let inside : leb size e.pc ≡ false = ground arith in
        rw (inside, z)
          (record {
            last = record { value = e.value; start = 0 };
            older = [];
            shape = refl;
            start = omega arith;
            chain = (refl, value);
          })
    | inr z ↦
        add_segment-Chained (record { value = negsuc 0; start = 0 }) [] e (refl, omega arith)
          (ground arith) mul value
  ]

  -- The segments of such rows in a function that is not empty.
  pub pc_segments-Chained :
      (es : List PcEntry) → IsRows q es → (end : ℕ) × Chained q size end (pc_segments size es)
  unfolding pc_segments
  pc_segments-Chained [] h = (
    0,
    record {
      last = record { value = negsuc 0; start = 0 };
      older = [];
      shape = refl;
      start = omega arith;
      chain = (refl, omega arith);
    },
  )
  pc_segments-Chained (e ∷ es) h =
      let one = first_Chained e h.0 h.1 in
      let (end, more) = segments_Chained es one.last one.older e.pc one.chain one.start h.2 in
      (end, rw one.shape more)
