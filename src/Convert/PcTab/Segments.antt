-- ===== src/Convert/PcTab/Segments.antt =====
-- What the segments of `pcbytes` say of each pc.
use goc.Prelude.{
  ℕ, ◌≤◌, ◌<◌, ◌≡◌, refl, sym, ap, ◌∙◌, true, arith, leb, ◌==◌, if◌then◌else◌, Bool-cases, inl, inr,
}
use goc.Prelude.{List, [], ◌∷◌, foldl}
use goc.Prelude.Int.{ℤ, pos, negsuc, eq_ℤ}
use goc.Gocobj.Format.{PcEntry}
use goc.Convert.PcTab.{Seg, add_behind, add_segment, pc_segments}

-- The value that the segments have at `x`: the last one that starts at or before it.
abbrev pub value_at : List Seg → ℕ → ℤ
value_at [] x = negsuc 0
value_at (s ∷ ss) x = if leb s.start x then s.value else value_at ss x

-- The value of the last entry at or before `x`, from `v` on.
abbrev pub entry_at : ℤ → List PcEntry → ℕ → ℤ
entry_at v [] x = v
entry_at v (e ∷ es) x = entry_at (if leb e.pc x then e.value else v) es x

-- The pcs do not decrease.
abbrev pub Ascending : ℕ → List PcEntry → Type 0
Ascending from [] = Unit
Ascending from (e ∷ es) = (from ≤ e.pc) × Ascending e.pc es

eq_ℤ→eq : (a b : ℤ) → eq_ℤ a b ≡ true → a ≡ b
eq_ℤ→eq (pos m) (pos n) h = ground arith
eq_ℤ→eq (pos m) (negsuc n) h = ground arith
eq_ℤ→eq (negsuc m) (pos n) h = ground arith
eq_ℤ→eq (negsuc m) (negsuc n) h = ground arith

-- What one round leaves: its last segment starts at or before the entry.
pub record Added (e : PcEntry) (x : ℕ) (before : ℤ) (segs : List Seg) : Type 0 where
  pub last : Seg
  pub older : List Seg
  pub shape : segs ≡ last ∷ older
  pub start : last.start ≤ e.pc
  pub value : value_at segs x ≡ (if leb e.pc x then e.value else before)

module _ (last : Seg) (segs : List Seg) (e : PcEntry) (x : ℕ) (le : last.start ≤ e.pc) where
  add_behind-Added : Added e x (value_at (last ∷ segs) x) (add_behind e last segs)
  add_behind-Added = elim (Bool-cases (e.pc == last.start)) [
    | inl p ↦ rw p (record {
      last = record { value = e.value; start = last.start };
      older = segs;
      shape = refl;
      start = le;
      value = ground arith;
    })
    | inr p ↦ elim (Bool-cases (eq_ℤ e.value last.value)) [
      | inl q ↦
          let same = eq_ℤ→eq e.value last.value q in
          rw (p, q)
            (record { last = last; older = segs; shape = refl; start = le; value = ground arith })
      | inr q ↦
          rw (p, q)
            (record {
              last = record { value = e.value; start = e.pc };
              older = last ∷ segs;
              shape = refl;
              start = omega arith;
              value = refl;
            })
    ]
  ]

  add_segment-Added :
      (size : ℕ)
      → x < size
      → Added e x (value_at (last ∷ segs) x) (add_segment size (last ∷ segs) e)
  unfolding add_segment
  add_segment-Added size inside = elim (Bool-cases (leb size e.pc)) [
    | inl p ↦
        rw p (record { last = last; older = segs; shape = refl; start = le; value = ground arith })
    | inr p ↦ rw p add_behind-Added
  ]

Ascending-from : (a b : ℕ) (es : List PcEntry) → a ≤ b → Ascending b es → Ascending a es
Ascending-from a b [] le h = tt
Ascending-from a b (e ∷ es) le h = (omega arith, h.1)

segments_lem :
    (es : List PcEntry) (size x : ℕ) (last : Seg) (segs : List Seg)
    → x < size
    → Ascending last.start es
    → value_at (foldl (add_segment size) (last ∷ segs) es) x
      ≡ entry_at (value_at (last ∷ segs) x) es x
segments_lem [] size x last segs inside h = refl
segments_lem (e ∷ es) size x last segs inside h =
    let a = add_segment-Added last segs e x h.0 size inside in
    let later =
      segments_lem es size x a.last a.older inside
        (Ascending-from a.last.start e.pc es a.start h.1) in
    ap (λ (t : List Seg). value_at (foldl (add_segment size) t es) x) a.shape
    ∙ later
    ∙ ap (λ (t : List Seg). entry_at (value_at t x) es x) (sym a.shape)
    ∙ ap (λ (t : ℤ). entry_at t es x) a.value

-- For entries whose pcs do not decrease and a pc inside the function: the segments of `pcbytes` have at
-- this pc the value of the last entry at or before it, and -1 if there is none.
pub value_at-pc_segments :
    (size x : ℕ) (es : List PcEntry)
    → x < size
    → Ascending 0 es
    → value_at (pc_segments size es) x ≡ entry_at (negsuc 0) es x
unfolding pc_segments
value_at-pc_segments size x es inside h =
    segments_lem es size x (record { value = negsuc 0; start = 0 }) [] inside h
    ∙ ap (λ (t : ℤ). entry_at t es x) (ground arith)
