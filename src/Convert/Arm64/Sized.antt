-- ===== src/Convert/Arm64/Sized.antt =====
-- The length of a function's code in the steps of arm64TextRelocs (internal/convert/arm64.go).
use goc.Prelude.{
  ℕ, ◌+◌, ◌-◌, ◌%◌, ◌≡◌, refl, arith, ◌∙◌, Bool, true, false, Bool-cases, inl, inr, ltb, ◌||◌, ◌==◌,
  not, if◌then◌else◌, Option-cases,
}
use goc.Prelude.{Option, none, some, List, [], ◌∷◌, length}
use goc.Gocobj.Codec.{Bytes}
use goc.Convert.RelocMap.{
  A64Reloc, add_lo12, ldst8_lo12, ldst16_lo12, ldst32_lo12, ldst64_lo12, ldst128_lo12, abs64, abs32,
  a64_other, call26, jump26, adr_page, adr_got_page, got_lo12, SizedReloc, a64_call, a64_page,
  a64_page_pair, a64_lo12, a64_data,
}
use goc.Convert.Arm64.{
  Rela, Step, step, fault, out_of_range, Translated, translated, error, panicked, next_of,
  same_target, pair_of, lone_page, page_with, page_step, got_step, got_pair, call_step, low12_step,
  data_step, resolved_step, go_reloc, clear_imm12, clear_imm26, clear_shift, insn_at, put_insn_at,
  change_insn, arm64_clear_page_pair, clear_page, clear_low12, patched, reloc_step, one_step,
  arm64_loop, after_step,
}
use goc.Goobj.Le.{le_bytes, length-le_bytes}
use goc.Goobj.Link.Contents.{length-splice}
use goc.Goobj.Read.{◌>>=◌}
use goc.Goobj.Link.{Sym, Reloc, add_rel}

-- The bytes, where there are some, are as many as before.
abbrev pub SameSize : Bytes → Option Bytes → Type 0
SameSize b none = true ≡ true
SameSize b (some b') = length b' ≡ length b

put_insn_at-SameSize : (b : Bytes) (off w : ℕ) → SameSize b (put_insn_at b off w)
unfolding put_insn_at
put_insn_at-SameSize b off w = elim (Bool-cases (ltb (length b) (off + 4))) [
  | inl t ↦ rw t refl
  | inr f ↦ rw f (length-splice off (le_bytes 4 w) b (ground (arith, length-le_bytes 4 w)))
]

pub change_insn-SameSize : (f : ℕ → ℕ) (b : Bytes) (off : ℕ) → SameSize b (change_insn f b off)
unfolding change_insn
change_insn-SameSize f b off = elim (Option-cases (insn_at b off)) [
  | inl e ↦ rw e refl
  | inr (w, e) ↦ rw e (put_insn_at-SameSize b off (f w))
]

then_change-SameSize :
    (f : ℕ → ℕ) (b : Bytes) (off : ℕ) (o : Option Bytes)
    → SameSize b o
    → SameSize b (o >>= λ b'. change_insn f b' off)
then_change-SameSize f b off none h = refl
then_change-SameSize f b off (some b') h = elim (Option-cases (change_insn f b' off)) [
  | inl e ↦ rw e refl
  | inr (b'', e) ↦
      let size : SameSize b' (some b'') = rw e at (change_insn-SameSize f b' off) in rw e (size ∙ h)
]

arm64_clear_page_pair-SameSize : (b : Bytes) (off : ℕ) → SameSize b (arm64_clear_page_pair b off)
unfolding arm64_clear_page_pair
arm64_clear_page_pair-SameSize b off =
    then_change-SameSize clear_low12 b (off + 4) (change_insn clear_page b off)
      (change_insn-SameSize clear_page b off)

-- After the step the symbol's code is `n` bytes long, when there is no error.
abbrev pub StepSize : ℕ → Step → Type 0
StepSize n (step used s) = length s.p ≡ n
StepSize n (fault e) = true ≡ true
StepSize n out_of_range = true ≡ true

patched-StepSize :
    (used : Bool) (o : Option Bytes) (rel : Reloc) (s : Sym)
    → SameSize s.p o
    → StepSize (length s.p) (patched used o rel s)
unfolding add_rel
patched-StepSize used none rel s h = refl
patched-StepSize used (some b) rel s h = h

changed-StepSize :
    (f : ℕ → ℕ) (off : ℕ) (rel : Reloc) (s : Sym)
    → StepSize (length s.p) (patched false (change_insn f s.p off) rel s)
changed-StepSize f off rel s =
    patched-StepSize false (change_insn f s.p off) rel s (change_insn-SameSize f s.p off)

if-StepSize :
    (n : ℕ) (c : Bool) (t e : Step) → StepSize n t → StepSize n e → StepSize n (if c then t else e)
if-StepSize n true t e ht he = ht
if-StepSize n false t e ht he = he

pair_of-StepSize :
    (o : Option Bytes) (n r : Rela) (off add target : ℕ) (s : Sym)
    → StepSize (length s.p) (pair_of o n r off add target s)
pair_of-StepSize none n r off add target s = refl
pair_of-StepSize (some typ) n r off add target s =
    if-StepSize (length s.p) (not (same_target n r)) _ _ refl (
      patched-StepSize true (arm64_clear_page_pair s.p off) (go_reloc off 8 typ add target) s
        (arm64_clear_page_pair-SameSize s.p off))

lone_page-StepSize :
    (off add target : ℕ) (s : Sym) → StepSize (length s.p) (lone_page off add target s)
lone_page-StepSize off add target s =
    changed-StepSize clear_page off (go_reloc off 4 a64_page add target) s

page_with-StepSize :
    (o : Option Bytes) (n r : Rela) (off add target : ℕ) (s : Sym)
    → StepSize (length s.p) (page_with o n r off add target s)
page_with-StepSize none n r off add target s = lone_page-StepSize off add target s
page_with-StepSize (some typ) n r off add target s =
    if-StepSize (length s.p) (not (same_target n r)) _ _ (lone_page-StepSize off add target s)
      (pair_of-StepSize (some typ) n r off add target s)

page_step-StepSize :
    (next : Option Rela) (r : Rela) (off add target : ℕ) (s : Sym)
    → StepSize (length s.p) (page_step next r off add target s)
page_step-StepSize none r off add target s = lone_page-StepSize off add target s
page_step-StepSize (some n) r off add target s =
    page_with-StepSize (a64_page_pair n.type) n r off add target s

got_step-StepSize :
    (next : Option Rela) (r : Rela) (off add target : ℕ) (s : Sym)
    → StepSize (length s.p) (got_step next r off add target s)
got_step-StepSize none r off add target s = refl
got_step-StepSize (some n) r off add target s =
    pair_of-StepSize (got_pair n.type) n r off add target s

call_step-StepSize :
    (off add target : ℕ) (s : Sym) → StepSize (length s.p) (call_step off add target s)
call_step-StepSize off add target s =
    if-StepSize (length s.p) (not (add == 0)) _ _ refl
      (changed-StepSize clear_imm26 off (go_reloc off 4 a64_call 0 target) s)

low12_step-StepSize :
    (f : ℕ → ℕ) (o : Option Bytes) (off add target : ℕ) (s : Sym)
    → StepSize (length s.p) (low12_step f o off add target s)
low12_step-StepSize f none off add target s = refl
low12_step-StepSize f (some typ) off add target s =
    changed-StepSize f off (go_reloc off 4 typ add target) s

data_step-StepSize :
    (o : Option SizedReloc) (off add target : ℕ) (s : Sym)
    → StepSize (length s.p) (data_step o off add target s)
unfolding add_rel
data_step-StepSize none off add target s = refl
data_step-StepSize (some d) off add target s = refl

reloc_step-StepSize :
    (t : A64Reloc) (next : Option Rela) (r : Rela) (off add target : ℕ) (s : Sym)
    → StepSize (length s.p) (reloc_step t next r off add target s)
unfolding reloc_step
reloc_step-StepSize call26 next r off add target s = call_step-StepSize off add target s
reloc_step-StepSize jump26 next r off add target s = call_step-StepSize off add target s
reloc_step-StepSize adr_page next r off add target s = page_step-StepSize next r off add target s
reloc_step-StepSize adr_got_page next r off add target s = got_step-StepSize next r off add target s
reloc_step-StepSize add_lo12 next r off add target s =
    low12_step-StepSize (λ w. clear_shift (clear_imm12 w)) (a64_lo12 add_lo12) off add target s
reloc_step-StepSize abs64 next r off add target s =
    data_step-StepSize (a64_data abs64) off add target s
reloc_step-StepSize abs32 next r off add target s =
    data_step-StepSize (a64_data abs32) off add target s
reloc_step-StepSize ldst8_lo12 next r off add target s =
    low12_step-StepSize clear_imm12 (a64_lo12 ldst8_lo12) off add target s
reloc_step-StepSize ldst16_lo12 next r off add target s =
    low12_step-StepSize clear_imm12 (a64_lo12 ldst16_lo12) off add target s
reloc_step-StepSize ldst32_lo12 next r off add target s =
    low12_step-StepSize clear_imm12 (a64_lo12 ldst32_lo12) off add target s
reloc_step-StepSize ldst64_lo12 next r off add target s =
    low12_step-StepSize clear_imm12 (a64_lo12 ldst64_lo12) off add target s
reloc_step-StepSize ldst128_lo12 next r off add target s =
    low12_step-StepSize clear_imm12 (a64_lo12 ldst128_lo12) off add target s
reloc_step-StepSize got_lo12 next r off add target s =
    low12_step-StepSize clear_imm12 (a64_lo12 got_lo12) off add target s
reloc_step-StepSize (a64_other k) next r off add target s =
    low12_step-StepSize clear_imm12 (a64_lo12 (a64_other k)) off add target s

resolved_step-StepSize :
    (o : Option (ℕ × ℕ)) (next : Option Rela) (r : Rela) (off : ℕ) (s : Sym)
    → StepSize (length s.p) (resolved_step o next r off s)
resolved_step-StepSize none next r off s = refl
resolved_step-StepSize (some (target, add)) next r off s =
    reloc_step-StepSize r.type next r off add target s

pub one_step-StepSize :
    (resolve : Rela → Option (ℕ × ℕ)) (base : ℕ) (next : Option Rela) (r : Rela) (s : Sym)
    → StepSize (length s.p) (one_step resolve base next r s)
one_step-StepSize resolve base next r s =
    if-StepSize (length s.p) (not ((r.off - base) % 4 == 0) || ltb (length s.p) (r.off - base + 4))
      _ _ refl (resolved_step-StepSize (resolve r) next r (r.off - base) s)

-- The code of a translated function is `n` bytes long.
abbrev pub CodeSize : ℕ → Translated → Type 0
CodeSize n (translated s) = length s.p ≡ n
CodeSize n (error e) = true ≡ true
CodeSize n panicked = true ≡ true

after_step-CodeSize :
    (n : ℕ) (next : Bool → Sym → Translated) (x : Step)
    → ((used : Bool) (s : Sym) → CodeSize (length s.p) (next used s))
    → StepSize n x
    → CodeSize n (after_step next x)
after_step-CodeSize n next (step used s) all h = rw h at (all used s)
after_step-CodeSize n next (fault e) all h = refl
after_step-CodeSize n next out_of_range all h = refl

arm64_loop-CodeSize :
    (resolve : Rela → Option (ℕ × ℕ)) (base : ℕ) (used : Bool) (rs : List Rela) (s : Sym)
    → CodeSize (length s.p) (arm64_loop resolve base used rs s)
unfolding arm64_loop
arm64_loop-CodeSize resolve base used [] s = refl
arm64_loop-CodeSize resolve base true (r ∷ rs) s = arm64_loop-CodeSize resolve base false rs s
arm64_loop-CodeSize resolve base false (r ∷ rs) s =
    after_step-CodeSize (length s.p) (λ used s'. arm64_loop resolve base used rs s')
      (one_step resolve base (next_of r rs) r s)
      (λ used s'. arm64_loop-CodeSize resolve base used rs s')
      (one_step-StepSize resolve base (next_of r rs) r s)
