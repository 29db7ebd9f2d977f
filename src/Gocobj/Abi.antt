-- ===== src/Gocobj/Abi.antt =====
-- internal/gocobj/abi.go: the ABI profiles. Register lists are split at their commas already.
use goc.Prelude.{ℕ, Bool, ◌&&◌, Option, none, some, List, [], ◌∷◌, ◌++◌, codes, bytes_eq}
use goc.Prelude.{◌==◌, if◌then◌else◌}
use goc.Gocobj.Codec.{Bytes}

pub record Profile : Type 0 where
  pub name : Bytes
  pub arch : Bytes
  pub ptr_size : ℕ
  pub g_reg : Bytes
  pub stack_guard0_off : ℕ
  pub stack_small : ℕ
  pub stack_big : ℕ
  pub morestack : Bytes
  pub int_regs : List Bytes
  pub fp_regs : List Bytes

abbrev amd64_ints : List Bytes
amd64_ints =
    codes "RAX"
    ∷ codes "RBX"
    ∷ codes "RCX"
    ∷ codes "RDI"
    ∷ codes "RSI"
    ∷ codes "R8"
    ∷ codes "R9"
    ∷ codes "R10"
    ∷ codes "R11"
    ∷ []

abbrev amd64_floats : List Bytes
amd64_floats =
    codes "X0"
    ∷ codes "X1"
    ∷ codes "X2"
    ∷ codes "X3"
    ∷ codes "X4"
    ∷ codes "X5"
    ∷ codes "X6"
    ∷ codes "X7"
    ∷ codes "X8"
    ∷ codes "X9"
    ∷ codes "X10"
    ∷ codes "X11"
    ∷ codes "X12"
    ∷ codes "X13"
    ∷ codes "X14"
    ∷ []

-- A letter and the numbers 0 to 15.
abbrev sixteen : ℕ → List Bytes
sixteen c =
    (c ∷ codes "0")
    ∷ (c ∷ codes "1")
    ∷ (c ∷ codes "2")
    ∷ (c ∷ codes "3")
    ∷ (c ∷ codes "4")
    ∷ (c ∷ codes "5")
    ∷ (c ∷ codes "6")
    ∷ (c ∷ codes "7")
    ∷ (c ∷ codes "8")
    ∷ (c ∷ codes "9")
    ∷ (c ∷ codes "10")
    ∷ (c ∷ codes "11")
    ∷ (c ∷ codes "12")
    ∷ (c ∷ codes "13")
    ∷ (c ∷ codes "14")
    ∷ (c ∷ codes "15")
    ∷ []

abbrev amd64_profile : Bytes → Profile
amd64_profile name = record {
  name = name;
  arch = codes "amd64";
  ptr_size = 8;
  g_reg = codes "R14";
  stack_guard0_off = 16;
  stack_small = 128;
  stack_big = 4096;
  morestack = codes "runtime.morestack_noctxt";
  int_regs = amd64_ints;
  fp_regs = amd64_floats;
}

abbrev arm64_profile : Bytes → Profile
arm64_profile name = record {
  name = name;
  arch = codes "arm64";
  ptr_size = 8;
  g_reg = codes "R28";
  stack_guard0_off = 16;
  stack_small = 128;
  stack_big = 4096;
  morestack = codes "runtime.morestack_noctxt";
  int_regs = sixteen b'R';
  fp_regs = sixteen b'F';
}

unfoldable pub profiles : List Profile
profiles =
    amd64_profile (codes "goabi1-amd64")
    ∷ arm64_profile (codes "goabi1-arm64")
    ∷ amd64_profile (codes "go1.24-amd64")
    ∷ arm64_profile (codes "go1.24-arm64")
    ∷ []

unfoldable pub find_profile : Bytes → List Profile → Option Profile
find_profile name [] = none
find_profile name (p ∷ ps) = if bytes_eq p.name name then some p else find_profile name ps

unfoldable pub lookup_profile : Bytes → Option Profile
lookup_profile name = find_profile name profiles

-- strings.Join with a comma
unfoldable pub join : List Bytes → Bytes
join [] = []
join (x ∷ []) = x
join (x ∷ y ∷ xs) = x ++ (b',' ∷ join (y ∷ xs))

unfoldable pub same_facts : Profile → Profile → Bool
same_facts a b =
    bytes_eq a.arch b.arch
    && ((a.ptr_size == b.ptr_size)
        && (bytes_eq a.g_reg b.g_reg
            && ((a.stack_guard0_off == b.stack_guard0_off)
                && ((a.stack_small == b.stack_small)
                    && ((a.stack_big == b.stack_big)
                        && (bytes_eq a.morestack b.morestack
                            && (bytes_eq (join a.int_regs) (join b.int_regs)
                                && bytes_eq (join a.fp_regs) (join b.fp_regs))))))))
