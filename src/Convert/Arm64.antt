-- ===== src/Convert/Arm64.antt =====
-- internal/convert/arm64.go: the ELF relocations of AArch64 code as Go's. `none` is Go's index out of range.
pub mod Runs
pub mod Sized
pub mod Safe
use goc.Prelude.{
  ℕ, ◌+◌, ◌-◌, ◌/◌, ◌%◌, ◌^◌, Bool, true, false, not, ◌&&◌, ◌||◌, ◌==◌, ltb, leb, bit_and,
  if◌then◌else◌,
}
use goc.Prelude.{Option, none, some, List, [], ◌∷◌, length}
use goc.Gocobj.Codec.{Bytes}
use goc.Convert.RelocMap.{
  A64Reloc, add_lo12, ldst8_lo12, ldst16_lo12, ldst32_lo12, ldst64_lo12, ldst128_lo12, abs64, abs32,
  a64_other, call26, jump26, adr_page, adr_got_page, got_lo12, SizedReloc, a64_call, a64_page,
  a64_page_pair, a64_lo12, a64_got_pair, a64_data,
}
use goc.Goobj.Le.{le_bytes, le_at}
use goc.Goobj.Read.{◌>>=◌}
use goc.Goobj.Link.{Sym, Reloc, splice, add_rel}

unfoldable pub insn_at : Bytes → ℕ → Option ℕ
insn_at b off = le_at 4 b off

unfoldable pub put_insn_at : Bytes → ℕ → ℕ → Option Bytes
put_insn_at b off w = if ltb (length b) (off + 4) then none else some (splice off (le_bytes 4 w) b)

-- `w &^ 0x60FFFFE0`, `w &^ 0x003FFC00`, `w &^ 0x03ffffff` and `w &^ (1 << 22)` of 32 bits.
abbrev pub clear_page : ℕ → ℕ
clear_page w = bit_and w 0x9F00001F

abbrev pub clear_imm12 : ℕ → ℕ
clear_imm12 w = bit_and w 0xFFC003FF

abbrev pub clear_imm26 : ℕ → ℕ
clear_imm26 w = bit_and w 0xFC000000

abbrev pub clear_shift : ℕ → ℕ
clear_shift w = bit_and w 0xFFBFFFFF

-- putInsnAt(code, off, f(insnAt(code, off)))
unfoldable pub change_insn : (ℕ → ℕ) → Bytes → ℕ → Option Bytes
change_insn f b off = do w ← insn_at b off; put_insn_at b off (f w)

abbrev pub clear_low12 : ℕ → ℕ
clear_low12 w = let w1 = clear_imm12 w in if w1 / 2 ^ 24 == 0x91 then clear_shift w1 else w1

-- `arm64ClearPagePair`
unfoldable pub arm64_clear_page_pair : Bytes → ℕ → Option Bytes
arm64_clear_page_pair b off = do
  b' ← change_insn clear_page b off
  change_insn clear_low12 b' (off + 4)

-- `rela`; the addend is its 64 bits.
pub record Rela : Type 0 where
  pub off : ℕ
  pub type : A64Reloc
  pub sym : ℕ
  pub add : ℕ

pub data Arm64Error : Type 0 where
  misplaced unresolved call_addend not_paired pair_targets unsupported : Arm64Error

-- `step used s`: whether the next relocation is used up, and the function's symbol.
pub data Step : Type 0 where
  step : Bool → Sym → Step
  fault : Arm64Error → Step
  out_of_range : Step

pub data Translated : Type 0 where
  translated : Sym → Translated
  error : Arm64Error → Translated
  panicked : Translated

-- The symbol with its code changed and a relocation more.
abbrev pub patched : Bool → Option Bytes → Reloc → Sym → Step
patched used none rel s = out_of_range
patched used (some b) rel s = step used (add_rel rel (record s { p = b }))

abbrev pub go_reloc : ℕ → ℕ → Bytes → ℕ → ℕ → Reloc
go_reloc off siz typ add target = record {
  off = off % 2 ^ 32;
  siz = siz;
  type = typ;
  add = add;
  sym = some target;
}

-- `next`, the relocation of the next instruction.
unfoldable pub next_of : Rela → List Rela → Option Rela
next_of r [] = none
next_of r (n ∷ rs) = if n.off == (r.off + 4) % 2 ^ 64 then some n else none

abbrev pub same_target : Rela → Rela → Bool
same_target n r = (n.sym == r.sym) && (n.add == r.add)

-- `pair` at a GOT page.
unfoldable pub got_pair : A64Reloc → Option Bytes
got_pair got_lo12 = some a64_got_pair
got_pair t = none

-- `pair` and the relocation after it.
abbrev pub pair_of : Option Bytes → Rela → Rela → ℕ → ℕ → ℕ → Sym → Step
pair_of none n r off add target s = fault not_paired
pair_of (some typ) n r off add target s =
    if not (same_target n r)
    then fault pair_targets
    else patched true (arm64_clear_page_pair s.p off) (go_reloc off 8 typ add target) s

abbrev pub lone_page : ℕ → ℕ → ℕ → Sym → Step
lone_page off add target s =
    patched false (change_insn clear_page s.p off) (go_reloc off 4 a64_page add target) s

abbrev pub page_with : Option Bytes → Rela → Rela → ℕ → ℕ → ℕ → Sym → Step
page_with none n r off add target s = lone_page off add target s
page_with (some typ) n r off add target s =
    if not (same_target n r)
    then lone_page off add target s
    else pair_of (some typ) n r off add target s

abbrev pub page_step : Option Rela → Rela → ℕ → ℕ → ℕ → Sym → Step
page_step none r off add target s = lone_page off add target s
page_step (some n) r off add target s = page_with (a64_page_pair n.type) n r off add target s

abbrev pub got_step : Option Rela → Rela → ℕ → ℕ → ℕ → Sym → Step
got_step none r off add target s = fault not_paired
got_step (some n) r off add target s = pair_of (got_pair n.type) n r off add target s

abbrev pub call_step : ℕ → ℕ → ℕ → Sym → Step
call_step off add target s =
    if not (add == 0)
    then fault call_addend
    else patched false (change_insn clear_imm26 s.p off) (go_reloc off 4 a64_call 0 target) s

-- A low-12 half whose ADRP is not right before it.
abbrev pub low12_step : (ℕ → ℕ) → Option Bytes → ℕ → ℕ → ℕ → Sym → Step
low12_step f none off add target s = fault unsupported
low12_step f (some typ) off add target s =
    patched false (change_insn f s.p off) (go_reloc off 4 typ add target) s

abbrev pub data_step : Option SizedReloc → ℕ → ℕ → ℕ → Sym → Step
data_step none off add target s = fault unsupported
data_step (some d) off add target s = step false (add_rel (go_reloc off d.siz d.type add target) s)

-- The switch on the relocation's type.
unfoldable pub reloc_step : A64Reloc → Option Rela → Rela → ℕ → ℕ → ℕ → Sym → Step
reloc_step call26 next r off add target s = call_step off add target s
reloc_step jump26 next r off add target s = call_step off add target s
reloc_step adr_page next r off add target s = page_step next r off add target s
reloc_step adr_got_page next r off add target s = got_step next r off add target s
reloc_step add_lo12 next r off add target s =
    low12_step (λ w. clear_shift (clear_imm12 w)) (a64_lo12 add_lo12) off add target s
reloc_step abs64 next r off add target s = data_step (a64_data abs64) off add target s
reloc_step abs32 next r off add target s = data_step (a64_data abs32) off add target s
reloc_step t next r off add target s = low12_step clear_imm12 (a64_lo12 t) off add target s

-- With the target that resolveTarget finds, a symbol and an addend.
abbrev pub resolved_step : Option (ℕ × ℕ) → Option Rela → Rela → ℕ → Sym → Step
resolved_step none next r off s = fault unresolved
resolved_step (some (target, add)) next r off s = reloc_step r.type next r off add target s

abbrev pub one_step : (Rela → Option (ℕ × ℕ)) → ℕ → Option Rela → Rela → Sym → Step
one_step resolve base next r s =
    let off = r.off - base in
    if not (off % 4 == 0) || ltb (length s.p) (off + 4)
    then fault misplaced
    else resolved_step (resolve r) next r off s

-- The loop; the Boolean is `used` of the first relocation.
abbrev pub after_step : (Bool → Sym → Translated) → Step → Translated
after_step next (step used s) = next used s
after_step next (fault e) = error e
after_step next out_of_range = panicked

unfoldable pub arm64_loop : (Rela → Option (ℕ × ℕ)) → ℕ → Bool → List Rela → Sym → Translated
arm64_loop resolve base used [] s = translated s
arm64_loop resolve base true (r ∷ rs) s = arm64_loop resolve base false rs s
arm64_loop resolve base false (r ∷ rs) s =
    after_step (λ used s'. arm64_loop resolve base used rs s')
      (one_step resolve base (next_of r rs) r s)

-- r.Off >= x.off && r.Off < x.off+x.tab.TextSize
unfoldable pub relocs_in : ℕ → ℕ → List Rela → List Rela
relocs_in base size [] = []
relocs_in base size (r ∷ rs) =
    let rest = relocs_in base size rs in
    if leb base r.off && ltb r.off ((base + size) % 2 ^ 64) then r ∷ rest else rest

-- sort.SliceStable by offset.
unfoldable pub insert_rela : Rela → List Rela → List Rela
insert_rela r [] = r ∷ []
insert_rela r (x ∷ xs) =
    let rest = insert_rela r xs in if leb r.off x.off then r ∷ x ∷ xs else x ∷ rest

unfoldable pub sort_relas : List Rela → List Rela
sort_relas [] = []
sort_relas (r ∷ rs) = insert_rela r (sort_relas rs)

-- `arm64TextRelocs` of a function at `base` of `size` bytes; `resolve` is the converter's resolveTarget.
unfoldable pub arm64_text_relocs : (Rela → Option (ℕ × ℕ)) → ℕ → ℕ → List Rela → Sym → Translated
arm64_text_relocs resolve base size rs s =
    arm64_loop resolve base false (sort_relas (relocs_in base size rs)) s

-- `arm64DataReloc`
unfoldable pub arm64_data_reloc : A64Reloc → Option SizedReloc
arm64_data_reloc t = a64_data t
