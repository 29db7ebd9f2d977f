-- ===== src/Lower/GoTypes.antt =====
-- internal/lower/goabi_layout.go: `goType` and `goParamType`, the Go spelling of LLVM types, and
-- `matchingParen` of goabi_parse.go. No Go type is the empty text.
use goc.Prelude.{
  ℕ, zero, suc, ◌+◌, ◌/◌, ◌%◌, ◌≡◌, ◌≢◌, arith, Bool, true, false, ◌||◌, ◌&&◌, ltb, ◌==◌,
  if◌then◌else◌,
}
use goc.Prelude.{Option, none, some, List, [], ◌∷◌, ◌++◌, bytes_eq, codes, Bool-cases, inl, inr}
use goc.Prelude.Int.{ℤ, pos, negsuc, signed64, eq_ℤ}
use goc.Lower.Types.{Text, ScalarInfo, scalar, int_digits, int_info, atoi_loop}
use goc.Lower.Layout.{FieldLay, AggLay, Res, ok, unsupported, panicked, aggregate_layout}

-- The decimal digits of a number below 2 ^ 64, which has 20 at most.
unfoldable pub digits_loop : ℕ → ℕ → Text
digits_loop zero n = []
digits_loop (suc k) n =
    let rest = digits_loop k (n / 10) in
    if ltb n 10 then (b'0' + n) ∷ [] else rest ++ ((b'0' + n % 10) ∷ [])

-- %d of an int
abbrev pub decimal : ℤ → Text
decimal (pos n) = digits_loop 20 n
decimal (negsuc n) = b'-' ∷ digits_loop 20 (n + 1)

abbrev pub any_zeroext : List Text → Bool
any_zeroext [] = false
any_zeroext (a ∷ attrs) = bytes_eq a (codes "zeroext") || any_zeroext attrs

abbrev pub go_int_type : List Text → Bool → Option Text → Text
go_int_type attrs aggregate_field none = []
go_int_type attrs aggregate_field (some ds) =
    let bits = atoi_loop 0 ds in
    if bits == 1
    then codes "bool"
    else if aggregate_field
    then codes "uint" ++ decimal (signed64 bits)
    else if any_zeroext attrs
    then codes "uint" ++ ds
    else codes "int" ++ ds

unfoldable pub go_type : Text → List Text → Bool → Text
go_type ty attrs aggregate_field =
    if bytes_eq ty (codes "ptr")
    then codes "unsafe.Pointer"
    else if bytes_eq ty (codes "float")
    then codes "float32"
    else if bytes_eq ty (codes "double")
    then codes "float64"
    else go_int_type attrs aggregate_field (int_digits ty)

-- The fields from `index` on, joined by "; "; `none` is a field with no Go type.
unfoldable pub go_fields : ℕ → List FieldLay → Option Text
go_fields index [] = some []
go_fields index (f ∷ fs) =
    let ft = go_type f.type [] true in
    let this = b'F' ∷ (digits_loop 20 index ++ (b' ' ∷ ft)) in
    elim (go_fields (index + 1) fs) [
      | none ↦ none
      | some rest ↦
          if bytes_eq ft []
          then none
          else if bytes_eq rest []
          then some this
          else some (this ++ (codes "; " ++ rest))
    ]

abbrev pub struct_of : Option Text → Text
struct_of none = []
struct_of (some fields) = codes "struct { " ++ (fields ++ codes " }")

abbrev pub go_aggregate_type : Res (Option AggLay) → Text
go_aggregate_type (ok (some agg)) = struct_of (go_fields 0 agg.fields)
go_aggregate_type (ok none) = []
go_aggregate_type (unsupported r) = []
go_aggregate_type panicked = []

unfoldable pub go_param_type : Text → List Text → Text
go_param_type ty attrs = elim (scalar ty) [
  | some info ↦ go_type ty attrs false
  | none ↦ go_aggregate_type (aggregate_layout ty false)
]

abbrev pub one_more : ℤ → ℤ
one_more (pos n) = pos (n + 1)
one_more (negsuc zero) = pos 0
one_more (negsuc (suc n)) = negsuc n

abbrev pub one_less : ℤ → ℤ
one_less (pos zero) = negsuc 0
one_less (pos (suc n)) = pos n
one_less (negsuc n) = negsuc (n + 1)

-- `matchingParen` from the text at `opening` on, whose first byte is the one at `index`; `none` is -1.
-- `depth` counts the open brackets.
unfoldable pub matching_paren : Text → ℕ → ℤ → Option ℕ
matching_paren [] index depth = none
matching_paren (c ∷ cs) index depth =
    let up = if c == b'(' then one_more depth else depth in
    let down = if c == b')' then one_less up else up in
    let rest = matching_paren cs (index + 1) down in
    if (c == b')') && eq_ℤ down (pos 0) then some index else rest

go_int_type-ne-nil :
    (attrs : List Text) (b : Bool) (o : Option Text) {info : ScalarInfo}
    → int_info o ≡ some info
    → go_int_type attrs b o ≢ []
go_int_type-ne-nil attrs b none h = cc
go_int_type-ne-nil attrs true (some ds) h = λ e. ground arith
go_int_type-ne-nil attrs false (some ds) h = λ e. ground arith

go_type-ne-nil :
    (ty : Text) (attrs : List Text) (b : Bool) {info : ScalarInfo}
    → scalar ty ≡ some info
    → go_type ty attrs b ≢ []
unfolding scalar go_type
go_type-ne-nil ty attrs b {info} h = elim (Bool-cases (bytes_eq ty (codes "ptr"))) [
  | inl p ↦ rw p (λ e. cc)
  | inr p ↦ elim (Bool-cases (bytes_eq ty (codes "float"))) [
    | inl q ↦ rw (p, q) (λ e. cc)
    | inr q ↦ elim (Bool-cases (bytes_eq ty (codes "double"))) [
      | inl r ↦ rw (p, q, r) (λ e. cc)
      | inr r ↦ rw (p, q, r) (go_int_type-ne-nil attrs b (int_digits ty) (rw (p, q, r) at h))
    ]
  ]
]

-- A parameter type that `scalar` accepts has a Go type, whatever its attributes.
pub go_param_type-ne-nil :
    (ty : Text) (attrs : List Text) (info : ScalarInfo)
    → scalar ty ≡ some info
    → go_param_type ty attrs ≢ []
unfolding go_param_type
go_param_type-ne-nil ty attrs info h = rw (h, go_param_type) (go_type-ne-nil ty attrs false h)
