-- ===== src/Lower/Returns.antt =====
-- internal/lower: the register files of `abiFor` (goabi_parse.go) and the result registers of
-- `returnAssignment` (goabi_layout.go).
pub mod Safe
use goc.Prelude.{
  ℕ, ◌+◌, Bool, true, false, ◌||◌, Option, none, some, List, [], ◌∷◌, if◌then◌else◌, bytes_eq,
  codes,
}
use goc.Lower.Types.{Text, int_bank, float_bank, ScalarInfo, scalar, has_prefix}
use goc.Lower.Layout.{FieldLay, AggLay, AbiSet, Res, ok, unsupported, panicked, ◌>>=◌, Loc, reg_at}
use goc.Lower.Layout.{Reason, identified, aggregate_type, result_type, aggregate_layout}

abbrev eight : ℕ → List Text
eight c =
    (c ∷ codes "0")
    ∷ (c ∷ codes "1")
    ∷ (c ∷ codes "2")
    ∷ (c ∷ codes "3")
    ∷ (c ∷ codes "4")
    ∷ (c ∷ codes "5")
    ∷ (c ∷ codes "6")
    ∷ (c ∷ codes "7")
    ∷ []

-- The registers 0 to 15 of a bank.
abbrev sixteen : ℕ → List Text
sixteen c =
    (c ∷ codes "0")
    ∷ (c ∷ codes "1")
    ∷ (c ∷ codes "2")
    ∷ (c ∷ codes "3")
    ∷ (c ∷ codes "4")
    ∷ (c ∷ codes "5")
    ∷ (c ∷ codes "6")
    ∷ (c ∷ codes "7")
    ∷ (c ∷ codes "8")
    ∷ (c ∷ codes "9")
    ∷ (c ∷ codes "10")
    ∷ (c ∷ codes "11")
    ∷ (c ∷ codes "12")
    ∷ (c ∷ codes "13")
    ∷ (c ∷ codes "14")
    ∷ (c ∷ codes "15")
    ∷ []

abbrev pub arm64_set : AbiSet
arm64_set = record {
  go_int = sixteen b'x';
  go_float = sixteen b'd';
  sysv_int = eight b'x';
  sysv_float = eight b'd';
  sysv_int_result = codes "x0" ∷ codes "x1" ∷ [];
  sysv_float_result = codes "d0" ∷ codes "d1" ∷ [];
}

abbrev pub amd64_set : AbiSet
amd64_set = record {
  go_int =
      codes "rax"
      ∷ codes "rbx"
      ∷ codes "rcx"
      ∷ codes "rdi"
      ∷ codes "rsi"
      ∷ codes "r8"
      ∷ codes "r9"
      ∷ codes "r10"
      ∷ codes "r11"
      ∷ [];
  go_float =
      codes "xmm0"
      ∷ codes "xmm1"
      ∷ codes "xmm2"
      ∷ codes "xmm3"
      ∷ codes "xmm4"
      ∷ codes "xmm5"
      ∷ codes "xmm6"
      ∷ codes "xmm7"
      ∷ codes "xmm8"
      ∷ codes "xmm9"
      ∷ codes "xmm10"
      ∷ codes "xmm11"
      ∷ codes "xmm12"
      ∷ codes "xmm13"
      ∷ codes "xmm14"
      ∷ [];
  sysv_int = codes "rdi" ∷ codes "rsi" ∷ codes "rdx" ∷ codes "rcx" ∷ codes "r8" ∷ codes "r9" ∷ [];
  sysv_float =
      codes "xmm0"
      ∷ codes "xmm1"
      ∷ codes "xmm2"
      ∷ codes "xmm3"
      ∷ codes "xmm4"
      ∷ codes "xmm5"
      ∷ codes "xmm6"
      ∷ codes "xmm7"
      ∷ [];
  sysv_int_result = codes "rax" ∷ codes "rdx" ∷ [];
  sysv_float_result = codes "xmm0" ∷ codes "xmm1" ∷ [];
}

-- `abiFor`: no text is amd64, and another architecture an error. The field `arch` is left out.
unfoldable pub abi_for : Text → Option AbiSet
abi_for [] = some amd64_set
abi_for (c ∷ cs) =
    if bytes_eq (c ∷ cs) (codes "arm64")
    then some arm64_set
    else if bytes_eq (c ∷ cs) (codes "amd64")
    then some amd64_set
    else none

pub record ResLoc : Type 0 where
  pub type : Text
  pub location : Loc

-- The three results of `returnAssignment`; its reason is an `unsupported`.
pub record Returned : Type 0 where
  pub go : List ResLoc
  pub sysv : List ResLoc
  pub types : List Text

abbrev pub no_result : Returned
no_result = record { go = []; sysv = []; types = [] }

abbrev pub one_result : Text → Loc → Returned
one_result ty l = record {
  go = record { type = ty; location = l } ∷ [];
  sysv = record { type = ty; location = l } ∷ [];
  types = [];
}

abbrev pub add_result : Text → Loc → Loc → Returned → Returned
add_result ty g s r = record {
  go = record { type = ty; location = g } ∷ r.go;
  sysv = record { type = ty; location = s } ∷ r.sysv;
  types = ty ∷ r.types;
}

-- The loop over the fields, with the counters `intResult` and `floatResult`.
unfoldable pub return_loop : AbiSet → ℕ → ℕ → List FieldLay → Res Returned
return_loop a i f [] = ok no_result
return_loop a i f (x ∷ xs) = elim x.bank [
  | int_bank ↦ do
    g ← reg_at a.go_int i
    s ← reg_at a.sysv_int_result i
    rest ← return_loop a (i + 1) f xs
    ok (add_result x.type g s rest)
  | float_bank ↦ do
    g ← reg_at a.go_float f
    s ← reg_at a.sysv_float_result f
    rest ← return_loop a i (f + 1) xs
    ok (add_result x.type g s rest)
]

abbrev pub no_return : Text → Reason
no_return ty =
    if has_prefix ty (codes "{") || has_prefix ty (codes "<{")
    then aggregate_type ty
    else if has_prefix ty (codes "%")
    then identified ty
    else result_type ty

abbrev pub return_aggregate : AbiSet → Text → Option AggLay → Res Returned
return_aggregate a ty none = unsupported (no_return ty)
return_aggregate a ty (some agg) = return_loop a 0 0 agg.fields

-- A scalar's register is the first one of its bank on Go's side; the source gives both sides that name.
abbrev pub return_scalar : AbiSet → Text → ScalarInfo → Res Returned
return_scalar a ty info = do
  first_int ← reg_at a.go_int 0
  l ← elim info.bank [ int_bank ↦ ok first_int | float_bank ↦ reg_at a.go_float 0 ]
  ok (one_result ty l)

unfoldable pub return_assignment : AbiSet → Text → Res Returned
return_assignment a ty = if bytes_eq ty (codes "void") then ok no_result else elim (scalar ty) [
  | some info ↦ return_scalar a ty info
  | none ↦ aggregate_layout ty true >>= return_aggregate a ty
]
