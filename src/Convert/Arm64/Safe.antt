-- ===== src/Convert/Arm64/Safe.antt =====
-- Index bounds in arm64TextRelocs (internal/convert/arm64.go).
use goc.Prelude.{
  ℕ, ◌+◌, ◌-◌, ◌%◌, ◌≤◌, ◌<◌, ◌≡◌, refl, arith, ◌∙◌, Bool, true, false, Bool-cases, inl, inr, ltb,
  leb, ◌≢◌, ◌^◌, ◌||◌, ◌==◌, not, ◌&&◌,
}
use goc.Prelude.{Option, none, some, List, [], ◌∷◌, length}
use goc.Convert.RelocMap.{}
use goc.Convert.Arm64.{
  Rela, Step, step, fault, out_of_range, Translated, panicked, next_of, relocs_in, insert_rela,
  sort_relas, resolved_step, one_step, arm64_loop, after_step, arm64_text_relocs,
}
use goc.Goobj.Link.{Sym}
use goc.Convert.Arm64.Sized.{StepSize, one_step-StepSize}
use goc.Convert.Arm64.Runs.{Runs, PairFits, reloc_step-Runs}

-- The relocations lie in a function at `base` of `size` bytes.
abbrev InCode : ℕ → ℕ → List Rela → Type 0
InCode base size [] = true ≡ true
InCode base size (r ∷ rs) = (base ≤ r.off) × (r.off < base + size) × InCode base size rs

relocs_in-InCode :
    (base size : ℕ) (rs : List Rela)
    → base + size < 2 ^ 64
    → InCode base size (relocs_in base size rs)
unfolding relocs_in
relocs_in-InCode base size [] h = refl
relocs_in-InCode base size (r ∷ rs) h =
    let rest = relocs_in-InCode base size rs h in
    elim (Bool-cases (leb base r.off && ltb r.off ((base + size) % 2 ^ 64))) [
      | inl t ↦ rw t (ground arith, ground arith, rest)
      | inr f ↦ rw f rest
    ]

insert_rela-InCode :
    (base size : ℕ) (r : Rela) (rs : List Rela)
    → base ≤ r.off
    → r.off < base + size
    → InCode base size rs
    → InCode base size (insert_rela r rs)
unfolding insert_rela
insert_rela-InCode base size r [] low high h = (low, high, refl)
insert_rela-InCode base size r (x ∷ xs) low high h = elim (Bool-cases (leb r.off x.off)) [
  | inl t ↦ rw t (low, high, h)
  | inr f ↦ rw f (h.0, h.1, insert_rela-InCode base size r xs low high h.2)
]

sort_relas-InCode :
    (base size : ℕ) (rs : List Rela) → InCode base size rs → InCode base size (sort_relas rs)
unfolding sort_relas
sort_relas-InCode base size [] h = refl
sort_relas-InCode base size (r ∷ rs) h =
    insert_rela-InCode base size r (sort_relas rs) h.0 h.1 (sort_relas-InCode base size rs h.2)

next_of-PairFits :
    (base size : ℕ) (r : Rela) (rs : List Rela)
    → base + size < 2 ^ 64
    → size % 4 ≡ 0
    → base ≤ r.off
    → (r.off - base) % 4 ≡ 0
    → r.off - base + 4 ≤ size
    → InCode base size rs
    → PairFits size (next_of r rs) (r.off - base)
unfolding next_of
next_of-PairFits base size r [] bound whole low even fits h = refl
next_of-PairFits base size r (n ∷ rs) bound whole low even fits h =
    elim (Bool-cases (n.off == (r.off + 4) % 2 ^ 64)) [
      | inl t ↦
          let place : n.off ≡ r.off + 4 = ground arith in
          let inside : n.off < base + size = h.1 in rw t (omega arith)
      | inr f ↦ rw f refl
    ]

resolved_step-Runs :
    (o : Option (ℕ × ℕ)) (next : Option Rela) (r : Rela) (off : ℕ) (s : Sym)
    → off + 4 ≤ length s.p
    → PairFits (length s.p) next off
    → Runs (resolved_step o next r off s)
resolved_step-Runs none next r off s h fits = refl
resolved_step-Runs (some (target, add)) next r off s h fits =
    reloc_step-Runs r.type next r off add target s h fits

one_step-Runs :
    (resolve : Rela → Option (ℕ × ℕ)) (base size : ℕ) (r : Rela) (rs : List Rela) (s : Sym)
    → base + size < 2 ^ 64
    → size % 4 ≡ 0
    → length s.p ≡ size
    → InCode base size (r ∷ rs)
    → Runs (one_step resolve base (next_of r rs) r s)
one_step-Runs resolve base size r rs s bound whole len h =
    elim (Bool-cases (not ((r.off - base) % 4 == 0) || ltb (length s.p) (r.off - base + 4))) [
      | inl t ↦ rw t refl
      | inr f ↦
          let even : (r.off - base) % 4 ≡ 0 = ground arith in
          let fits : r.off - base + 4 ≤ length s.p = ground arith in
          let next = next_of-PairFits base size r rs bound whole h.0 even (omega arith) h.2 in
          rw f (resolved_step-Runs (resolve r) (next_of r rs) r (r.off - base) s fits (rw len next))
    ]

after_step-ne-panicked :
    (n : ℕ) (next : Bool → Sym → Translated) (x : Step)
    → ((used : Bool) (s : Sym) → length s.p ≡ n → next used s ≢ panicked)
    → StepSize n x
    → Runs x
    → after_step next x ≢ panicked
after_step-ne-panicked n next (step used s) all size runs = all used s size
after_step-ne-panicked n next (fault e) all size runs = λ eq. ground (arith, eq)
after_step-ne-panicked n next out_of_range all size runs = λ eq. ground (arith, runs)

eq-StepSize : (m n : ℕ) (x : Step) → m ≡ n → StepSize m x → StepSize n x
eq-StepSize m n (step used s) e h = h ∙ e
eq-StepSize m n (fault f) e h = refl
eq-StepSize m n out_of_range e h = refl

arm64_loop-ne-panicked :
    (resolve : Rela → Option (ℕ × ℕ)) (base size : ℕ) (used : Bool) (rs : List Rela) (s : Sym)
    → base + size < 2 ^ 64
    → size % 4 ≡ 0
    → length s.p ≡ size
    → InCode base size rs
    → arm64_loop resolve base used rs s ≢ panicked
unfolding arm64_loop
arm64_loop-ne-panicked resolve base size used [] s bound whole len h = λ eq. ground (arith, eq)
arm64_loop-ne-panicked resolve base size true (r ∷ rs) s bound whole len h =
    arm64_loop-ne-panicked resolve base size false rs s bound whole len h.2
arm64_loop-ne-panicked resolve base size false (r ∷ rs) s bound whole len h =
    after_step-ne-panicked size (λ used s'. arm64_loop resolve base used rs s')
      (one_step resolve base (next_of r rs) r s)
      (λ used s' len'. arm64_loop-ne-panicked resolve base size used rs s' bound whole len' h.2)
      (eq-StepSize (length s.p) size (one_step resolve base (next_of r rs) r s) len
        (one_step-StepSize resolve base (next_of r rs) r s))
      (one_step-Runs resolve base size r rs s bound whole len h)

-- For a function of whole instructions, whose code is as long as its table says and which ends below 2 ^ 64,
-- arm64TextRelocs returns a symbol or an error and never reads or writes outside the code.
pub arm64_text_relocs-ne-panicked :
    (resolve : Rela → Option (ℕ × ℕ)) (base size : ℕ) (rs : List Rela) (s : Sym)
    → base + size < 2 ^ 64
    → size % 4 ≡ 0
    → length s.p ≡ size
    → arm64_text_relocs resolve base size rs s ≢ panicked
unfolding arm64_text_relocs
arm64_text_relocs-ne-panicked resolve base size rs s bound whole len =
    arm64_loop-ne-panicked resolve base size false (sort_relas (relocs_in base size rs)) s bound
      whole len
      (sort_relas-InCode base size (relocs_in base size rs) (relocs_in-InCode base size rs bound))
