-- ===== src/Convert/RelocMap.antt =====
-- internal/convert/relocmap.go: the Go relocations of ELF relocations, and the ABI profile of a release.
-- A relocation type of debug/elf is a constructor by its name.
pub mod Profiles
use goc.Prelude.{ℕ, Bool, true, false, not, ◌&&◌, ◌||◌, ◌==◌, bytes_eq, codes, if◌then◌else◌}
use goc.Prelude.{Option, none, some, List, [], ◌∷◌}
use goc.Gocobj.Codec.{Bytes}
use goc.Gocobj.Abi.{Profile, profiles, same_facts}
use goc.Gometa.{Meta, Arch, find, int_at}
use goc.Goobj.Text.{has_prefix}

-- elf.R_X86_64_*, those that the maps name.
pub data X86Reloc : Type 0 where
  x86_64 x86_32 x86_32s x86_pc32 x86_plt32 : X86Reloc
  x86_other : ℕ → X86Reloc

-- elf.R_AARCH64_*, those that the maps name.
pub data A64Reloc : Type 0 where
  add_lo12 ldst8_lo12 ldst16_lo12 ldst32_lo12 ldst64_lo12 ldst128_lo12 abs64 abs32 : A64Reloc
  call26 jump26 adr_page adr_got_page got_lo12 : A64Reloc
  a64_other : ℕ → A64Reloc

pub record SizedReloc : Type 0 where
  pub type : Bytes
  pub siz : ℕ

unfoldable pub x86_text : X86Reloc → Option Bytes
x86_text x86_pc32 = some (codes "R_PCREL")
x86_text x86_plt32 = some (codes "R_PCREL")
x86_text x86_32 = some (codes "R_ADDR")
x86_text x86_32s = some (codes "R_ADDR")
x86_text r = none

abbrev pub x86_call : Bytes
x86_call = codes "R_CALL"

unfoldable pub x86_data : X86Reloc → Option SizedReloc
x86_data x86_64 = some (record { type = codes "R_ADDR"; siz = 8 })
x86_data x86_32 = some (record { type = codes "R_ADDR"; siz = 4 })
x86_data x86_32s = some (record { type = codes "R_ADDR"; siz = 4 })
x86_data x86_pc32 = some (record { type = codes "R_PCREL"; siz = 4 })
x86_data x86_plt32 = some (record { type = codes "R_PCREL"; siz = 4 })
x86_data r = none

abbrev pub a64_call : Bytes
a64_call = codes "R_CALLARM64"

abbrev pub a64_page : Bytes
a64_page = codes "R_ARM64_PCREL"

unfoldable pub a64_page_pair : A64Reloc → Option Bytes
a64_page_pair add_lo12 = some (codes "R_ADDRARM64")
a64_page_pair ldst8_lo12 = some (codes "R_ARM64_PCREL_LDST8")
a64_page_pair ldst16_lo12 = some (codes "R_ARM64_PCREL_LDST16")
a64_page_pair ldst32_lo12 = some (codes "R_ARM64_PCREL_LDST32")
a64_page_pair ldst64_lo12 = some (codes "R_ARM64_PCREL_LDST64")
a64_page_pair r = none

unfoldable pub a64_lo12 : A64Reloc → Option Bytes
a64_lo12 add_lo12 = some (codes "R_ARM64_PCREL")
a64_lo12 ldst8_lo12 = some (codes "R_ARM64_LDST8")
a64_lo12 ldst16_lo12 = some (codes "R_ARM64_LDST16")
a64_lo12 ldst32_lo12 = some (codes "R_ARM64_LDST32")
a64_lo12 ldst64_lo12 = some (codes "R_ARM64_LDST64")
a64_lo12 ldst128_lo12 = some (codes "R_ARM64_LDST128")
a64_lo12 r = none

abbrev pub a64_got_pair : Bytes
a64_got_pair = codes "R_ARM64_GOTPCREL"

unfoldable pub a64_data : A64Reloc → Option SizedReloc
a64_data abs64 = some (record { type = codes "R_ADDR"; siz = 8 })
a64_data abs32 = some (record { type = codes "R_ADDR"; siz = 4 })
a64_data r = none

-- `panicked` is r[0] of an empty register name.
pub data Chosen : Type 0 where
  chosen : Profile → Chosen
  no_facts stack_copy_keeps_fp no_profile panicked : Chosen

-- `if goarch == "amd64" && r[0] != 'R' { r = "R" + r }`; `none` is the panic.
unfoldable pub profile_reg : Bool → Bytes → Option Bytes
profile_reg false r = some r
profile_reg true [] = none
profile_reg true (c ∷ r) = if c == 0x52 then some (c ∷ r) else some (0x52 ∷ c ∷ r)

abbrev cons_reg : Option Bytes → Option (List Bytes) → Option (List Bytes)
cons_reg none rest = none
cons_reg (some r) none = none
cons_reg (some r) (some rs) = some (r ∷ rs)

unfoldable pub profile_regs : Bool → List Bytes → Option (List Bytes)
profile_regs amd64 [] = some []
profile_regs amd64 (r ∷ rs) = cons_reg (profile_reg amd64 r) (profile_regs amd64 rs)

-- `got`, with its registers.
abbrev pub facts_of : Meta → Bytes → Arch → List Bytes → Profile
facts_of m goarch a regs = record {
  name = [];
  arch = goarch;
  ptr_size = a.ptr_size;
  g_reg = a.g_reg;
  stack_guard0_off = int_at m.abi.g_offsets (codes "stackguard0");
  stack_small = m.abi.stack_small;
  stack_big = m.abi.stack_big;
  morestack = a.morestack;
  int_regs = regs;
  fp_regs = a.float_args;
}

-- Profile{}
abbrev pub zero_profile : Profile
zero_profile = record {
  name = [];
  arch = [];
  ptr_size = 0;
  g_reg = [];
  stack_guard0_off = 0;
  stack_small = 0;
  stack_big = 0;
  morestack = [];
  int_regs = [];
  fp_regs = [];
}

abbrev pub is_better : Profile → Profile → Profile → Bool
is_better got p best =
    same_facts p got
    && (bytes_eq best.name []
        || (has_prefix p.name (codes "goabi") && not (has_prefix best.name (codes "goabi"))))

-- The loop over the profiles.
unfoldable pub best_of : Profile → List Profile → Profile → Profile
best_of got [] best = best
best_of got (p ∷ ps) best = best_of got ps (if is_better got p best then p else best)

abbrev pub named_profile : Profile → Chosen
named_profile best = if bytes_eq best.name [] then no_profile else chosen best

abbrev pub profile_of_regs : Meta → Bytes → Arch → Option (List Bytes) → Chosen
profile_of_regs m goarch a none = panicked
profile_of_regs m goarch a (some regs) =
    named_profile (best_of (facts_of m goarch a regs) profiles zero_profile)

abbrev pub profile_of_arch : Meta → Bytes → Option Arch → Chosen
profile_of_arch m goarch none = no_facts
profile_of_arch m goarch (some a) =
    if not a.stack_copy_adjusts_fp
    then stack_copy_keeps_fp
    else profile_of_regs m goarch a (profile_regs (bytes_eq goarch (codes "amd64")) a.int_args)

-- `profileFor`
unfoldable pub profile_for : Meta → Bytes → Chosen
profile_for m goarch = profile_of_arch m goarch (find m.arch goarch)
