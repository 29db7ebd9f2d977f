-- ===== src/Lower/Types.antt =====
-- The LLVM types that internal/lower reads from text: `scalar` of goabi_layout.go, `atoi`
-- of goabi.go, `splitTopLevel` of goabi_parse.go. A Go string is the list of its bytes.
use goc.Prelude.{ℕ, ◌+◌, ◌-◌, ◌*◌, ◌/◌, ◌%◌, ◌^◌, Bool, true, false, ◌&&◌, ◌||◌}
use goc.Prelude.{
  Option, none, some, List, [], ◌∷◌, ◌++◌, ltb, leb, ◌==◌, if◌then◌else◌, bytes_eq, codes,
}

abbrev pub Text : Type 0
Text = List ℕ

pub data Bank : Type 0 where
  int_bank float_bank : Bank

pub record ScalarInfo : Type 0 where
  pub bank : Bank
  pub size : ℕ
  pub align : ℕ

abbrev pub is_digit : ℕ → Bool
is_digit c = leb b'0' c && leb c b'9'

-- `atoi`: a sum in Go's int, which wraps; the value is its bit pattern.
unfoldable pub atoi_loop : ℕ → Text → ℕ
atoi_loop n [] = n
atoi_loop n (c ∷ cs) = atoi_loop ((n * 10 + (c + 2 ^ 64 - b'0')) % 2 ^ 64) cs

unfoldable pub all_digits : Text → Bool
all_digits [] = true
all_digits (c ∷ cs) = is_digit c && all_digits cs

-- `^i([0-9]+)$`: the digits
unfoldable pub int_digits : Text → Option Text
int_digits [] = none
int_digits (c ∷ []) = none
int_digits (c ∷ d ∷ ds) =
    if (c == b'i') && (is_digit d && all_digits ds) then some (d ∷ ds) else none

abbrev pub int_width : ℕ → Bool
int_width w = (w == 1) || ((w == 8) || ((w == 16) || ((w == 32) || (w == 64))))

abbrev pub int_info : Option Text → Option ScalarInfo
int_info none = none
int_info (some ds) =
    let bits = atoi_loop 0 ds in
    let size = if bits == 1 then 1 else bits / 8 in
    if int_width bits then some (record { bank = int_bank; size = size; align = size }) else none

unfoldable pub scalar : Text → Option ScalarInfo
scalar ty =
    if bytes_eq ty (codes "ptr")
    then some (record { bank = int_bank; size = 8; align = 8 })
    else if bytes_eq ty (codes "float")
    then some (record { bank = float_bank; size = 4; align = 4 })
    else if bytes_eq ty (codes "double")
    then some (record { bank = float_bank; size = 8; align = 8 })
    else int_info (int_digits ty)

unfoldable pub has_prefix : Text → Text → Bool
has_prefix s [] = true
has_prefix [] (p ∷ ps) = false
has_prefix (c ∷ s) (p ∷ ps) = (c == p) && has_prefix s ps

-- strings.TrimSpace, on ASCII text
abbrev pub is_space : ℕ → Bool
is_space c = (c == 32) || (leb 9 c && leb c 13)

unfoldable pub trim_left : Text → Text
trim_left [] = []
trim_left (c ∷ cs) = let rest = trim_left cs in if is_space c then rest else c ∷ cs

abbrev pub drop_space : ℕ → Text → Text
drop_space c [] = if is_space c then [] else c ∷ []
drop_space c (d ∷ ds) = c ∷ d ∷ ds

unfoldable pub trim_right : Text → Text
trim_right [] = []
trim_right (c ∷ cs) = drop_space c (trim_right cs)

unfoldable pub trim_space : Text → Text
trim_space s = trim_right (trim_left s)

abbrev pub is_open : ℕ → Bool
is_open c = (c == b'(') || ((c == b'[') || ((c == b'{') || (c == b'<')))

-- The bracket that a closing one ends, and 0 for another byte.
abbrev pub opener : ℕ → ℕ
opener c =
    if c == b')'
    then b'('
    else if c == b']'
    then b'['
    else if c == b'}'
    then b'{'
    else if c == b'>'
    then b'<'
    else 0

abbrev pub pop_match : ℕ → List ℕ → List ℕ
pop_match o [] = []
pop_match o (t ∷ ts) = if t == o then ts else t ∷ ts

abbrev pub last_part : Text → List Text
last_part [] = []
last_part (c ∷ cs) = (c ∷ cs) ∷ []

-- The loop of `splitTopLevel`: `cur` is text[start:i], `stack` the open brackets, innermost first.
unfoldable pub split_loop : Text → Text → List ℕ → List Text
split_loop [] cur stack = last_part (trim_space cur)
split_loop (c ∷ cs) cur stack =
    if is_open c
    then split_loop cs (cur ++ (c ∷ [])) (c ∷ stack)
    else if ltb 0 (opener c)
    then split_loop cs (cur ++ (c ∷ [])) (pop_match (opener c) stack)
    else if (c == b',') && bytes_eq stack []
    then trim_space cur ∷ split_loop cs [] stack
    else split_loop cs (cur ++ (c ∷ [])) stack

unfoldable pub split_top_level : Text → List Text
split_top_level text = split_loop text [] []
