-- ===== src/Convert/Arm64/Runs.antt =====
-- Index bounds in the cases of arm64TextRelocs (internal/convert/arm64.go).
use goc.Prelude.{
  ℕ, ◌+◌, ◌≤◌, ◌≡◌, refl, arith, Bool, true, false, inl, inr, ltb, ◌==◌, not, if◌then◌else◌,
  Option-cases,
}
use goc.Prelude.{Option, none, some, length}
use goc.Gocobj.Codec.{Bytes}
use goc.Convert.RelocMap.{
  A64Reloc, add_lo12, ldst8_lo12, ldst16_lo12, ldst32_lo12, ldst64_lo12, ldst128_lo12, abs64, abs32,
  a64_other, call26, jump26, adr_page, adr_got_page, got_lo12, SizedReloc, a64_call, a64_page,
  a64_page_pair, a64_lo12, a64_data,
}
use goc.Convert.Arm64.{
  Rela, Step, step, fault, out_of_range, same_target, pair_of, page_with, page_step, got_step,
  got_pair, call_step, low12_step, data_step, go_reloc, clear_imm12, clear_imm26, clear_shift,
  insn_at, put_insn_at, change_insn, arm64_clear_page_pair, clear_page, clear_low12, patched,
  reloc_step,
}
use goc.Goobj.Le.{le_bytes}
use goc.Goobj.Link.{Sym, Reloc, splice}
use goc.Goobj.Le.{le_at-ne-none}
use goc.Convert.Arm64.Sized.{change_insn-SameSize}

change_insn-some :
    (f : ℕ → ℕ) (b : Bytes) (off : ℕ)
    → off + 4 ≤ length b
    → (b' : Bytes) × (change_insn f b off ≡ some b')
unfolding change_insn insn_at put_insn_at
change_insn-some f b off h = elim (Option-cases (insn_at b off)) [
  | inl e ↦ absurd (le_at-ne-none 4 b off h e)
  | inr (w, e) ↦
      let inside : ltb (length b) (off + 4) ≡ false = ground arith in
      (splice off (le_bytes 4 (f w)) b, rw (e, inside) refl)
]

arm64_clear_page_pair-some :
    (b : Bytes) (off : ℕ)
    → off + 8 ≤ length b
    → (b' : Bytes) × (arm64_clear_page_pair b off ≡ some b')
unfolding arm64_clear_page_pair
arm64_clear_page_pair-some b off h =
    let (b', e) = change_insn-some clear_page b off (omega arith) in
    let size : length b' ≡ length b = rw e at (change_insn-SameSize clear_page b off) in
    rw e (change_insn-some clear_low12 b' (off + 4) (omega arith))

-- The step is no panic.
abbrev pub Runs : Step → Type 0
Runs (step used s) = true ≡ true
Runs (fault e) = true ≡ true
Runs out_of_range = true ≡ false

if-Runs : (c : Bool) (t e : Step) → Runs t → Runs e → Runs (if c then t else e)
if-Runs true t e ht he = ht
if-Runs false t e ht he = he

changed-Runs :
    (f : ℕ → ℕ) (off : ℕ) (rel : Reloc) (s : Sym)
    → off + 4 ≤ length s.p
    → Runs (patched false (change_insn f s.p off) rel s)
changed-Runs f off rel s h = let (b, e) = change_insn-some f s.p off h in rw e refl

-- An instruction pair has its second instruction in the code.
abbrev pub PairFits : ℕ → Option Rela → ℕ → Type 0
PairFits len none off = true ≡ true
PairFits len (some n) off = off + 8 ≤ len

pair_of-Runs :
    (o : Option Bytes) (n r : Rela) (off add target : ℕ) (s : Sym)
    → off + 8 ≤ length s.p
    → Runs (pair_of o n r off add target s)
pair_of-Runs none n r off add target s h = refl
pair_of-Runs (some typ) n r off add target s h =
    if-Runs (not (same_target n r)) _ _ refl
      (let (b, e) = arm64_clear_page_pair-some s.p off h in rw e refl)

page_with-Runs :
    (o : Option Bytes) (n r : Rela) (off add target : ℕ) (s : Sym)
    → off + 8 ≤ length s.p
    → Runs (page_with o n r off add target s)
page_with-Runs none n r off add target s h =
    changed-Runs clear_page off (go_reloc off 4 a64_page add target) s (omega arith)
page_with-Runs (some typ) n r off add target s h =
    if-Runs (not (same_target n r)) _ _
      (changed-Runs clear_page off (go_reloc off 4 a64_page add target) s (omega arith))
      (pair_of-Runs (some typ) n r off add target s h)

page_step-Runs :
    (next : Option Rela) (r : Rela) (off add target : ℕ) (s : Sym)
    → off + 4 ≤ length s.p
    → PairFits (length s.p) next off
    → Runs (page_step next r off add target s)
page_step-Runs none r off add target s h fits =
    changed-Runs clear_page off (go_reloc off 4 a64_page add target) s h
page_step-Runs (some n) r off add target s h fits =
    page_with-Runs (a64_page_pair n.type) n r off add target s fits

got_step-Runs :
    (next : Option Rela) (r : Rela) (off add target : ℕ) (s : Sym)
    → PairFits (length s.p) next off
    → Runs (got_step next r off add target s)
got_step-Runs none r off add target s fits = refl
got_step-Runs (some n) r off add target s fits =
    pair_of-Runs (got_pair n.type) n r off add target s fits

call_step-Runs :
    (off add target : ℕ) (s : Sym) → off + 4 ≤ length s.p → Runs (call_step off add target s)
call_step-Runs off add target s h =
    if-Runs (not (add == 0)) _ _ refl
      (changed-Runs clear_imm26 off (go_reloc off 4 a64_call 0 target) s h)

low12_step-Runs :
    (f : ℕ → ℕ) (o : Option Bytes) (off add target : ℕ) (s : Sym)
    → off + 4 ≤ length s.p
    → Runs (low12_step f o off add target s)
low12_step-Runs f none off add target s h = refl
low12_step-Runs f (some typ) off add target s h =
    changed-Runs f off (go_reloc off 4 typ add target) s h

data_step-Runs :
    (o : Option SizedReloc) (off add target : ℕ) (s : Sym) → Runs (data_step o off add target s)
data_step-Runs none off add target s = refl
data_step-Runs (some d) off add target s = refl

pub reloc_step-Runs :
    (t : A64Reloc) (next : Option Rela) (r : Rela) (off add target : ℕ) (s : Sym)
    → off + 4 ≤ length s.p
    → PairFits (length s.p) next off
    → Runs (reloc_step t next r off add target s)
unfolding reloc_step
reloc_step-Runs call26 next r off add target s h fits = call_step-Runs off add target s h
reloc_step-Runs jump26 next r off add target s h fits = call_step-Runs off add target s h
reloc_step-Runs adr_page next r off add target s h fits =
    page_step-Runs next r off add target s h fits
reloc_step-Runs adr_got_page next r off add target s h fits =
    got_step-Runs next r off add target s fits
reloc_step-Runs add_lo12 next r off add target s h fits =
    low12_step-Runs (λ w. clear_shift (clear_imm12 w)) (a64_lo12 add_lo12) off add target s h
reloc_step-Runs abs64 next r off add target s h fits =
    data_step-Runs (a64_data abs64) off add target s
reloc_step-Runs abs32 next r off add target s h fits =
    data_step-Runs (a64_data abs32) off add target s
reloc_step-Runs ldst8_lo12 next r off add target s h fits =
    low12_step-Runs clear_imm12 (a64_lo12 ldst8_lo12) off add target s h
reloc_step-Runs ldst16_lo12 next r off add target s h fits =
    low12_step-Runs clear_imm12 (a64_lo12 ldst16_lo12) off add target s h
reloc_step-Runs ldst32_lo12 next r off add target s h fits =
    low12_step-Runs clear_imm12 (a64_lo12 ldst32_lo12) off add target s h
reloc_step-Runs ldst64_lo12 next r off add target s h fits =
    low12_step-Runs clear_imm12 (a64_lo12 ldst64_lo12) off add target s h
reloc_step-Runs ldst128_lo12 next r off add target s h fits =
    low12_step-Runs clear_imm12 (a64_lo12 ldst128_lo12) off add target s h
reloc_step-Runs got_lo12 next r off add target s h fits =
    low12_step-Runs clear_imm12 (a64_lo12 got_lo12) off add target s h
reloc_step-Runs (a64_other k) next r off add target s h fits =
    low12_step-Runs clear_imm12 (a64_lo12 (a64_other k)) off add target s h
