-- ===== src/Goobj/Text/Prefix.antt =====
-- The escape of package paths in symbol names.
use goc.Prelude.{
  ℕ, ◌+◌, ◌-◌, ◌*◌, ◌/◌, ◌%◌, ◌<◌, ◌≡◌, ◌≢◌, refl, arith, false, ◌==◌, ltb, if◌then◌else◌,
  Bool-cases, inl, inr,
}
use goc.Prelude.{[], ◌∷◌, All}
use goc.Gocobj.Codec.{Bytes, IsByte}
use goc.Goobj.Text.{hex_digit, is_escaped, escape_from, behind_slash, path_to_prefix}

abbrev hex_value : ℕ → ℕ
hex_value h = if ltb h 58 then h - 48 else h - 87

-- What a reader of the name does: `%` and two digits are a byte.
unfoldable pub unescape : Bytes → Bytes
unescape [] = []
unescape (c ∷ []) = c ∷ []
unescape (c ∷ a ∷ []) = c ∷ unescape (a ∷ [])
unescape (c ∷ a ∷ b ∷ s) =
    let decoded = unescape s in
    let rest = unescape (a ∷ b ∷ s) in
    if c == 0x25 then (hex_value a * 16 + hex_value b) ∷ decoded else c ∷ rest

unescape-plain : (c : ℕ) (s : Bytes) → c ≢ 0x25 → unescape (c ∷ s) ≡ c ∷ unescape s
unfolding unescape
unescape-plain c [] h = refl
unescape-plain c (a ∷ []) h = refl
unescape-plain c (a ∷ b ∷ s) h = ground (arith, h)

hex_value-hex_digit : (d : ℕ) → d < 16 → hex_value (hex_digit d) ≡ d
hex_value-hex_digit d h = ground arith

unescape-escaped :
    (c : ℕ) (s : Bytes)
    → IsByte c
    → unescape (0x25 ∷ hex_digit (c / 16) ∷ hex_digit (c % 16) ∷ s) ≡ c ∷ unescape s
unfolding unescape
unescape-escaped c s h =
    let high = hex_value-hex_digit (c / 16) (omega arith) in
    let low = hex_value-hex_digit (c % 16) (omega arith) in
    let whole : c / 16 * 16 + c % 16 ≡ c = omega arith in rw (high, low, whole) refl

plain-ne-percent : (slash i c : ℕ) → is_escaped slash i c ≡ false → c ≢ 0x25
plain-ne-percent slash i c h = ground (arith, h)

unescape-escape_from :
    (s : Bytes) (slash i : ℕ) → All IsByte s → unescape (escape_from slash i s) ≡ s
unfolding escape_from unescape
unescape-escape_from [] slash i h = refl
unescape-escape_from (c ∷ s) slash i h =
    let rest = unescape-escape_from s slash (i + 1) h.1 in
    elim (Bool-cases (is_escaped slash i c)) [
      | inl e ↦ rw (e, unescape-escaped c (escape_from slash (i + 1) s) h.0, rest) refl
      | inr e ↦
          rw
            (e, unescape-plain c (escape_from slash (i + 1) s) (plain-ne-percent slash i c e), rest)
            refl
    ]

-- A package path is read back from its escaped prefix, for every path.
pub unescape-path_to_prefix : (s : Bytes) → All IsByte s → unescape (path_to_prefix s) ≡ s
unfolding path_to_prefix
unescape-path_to_prefix s h = unescape-escape_from s (behind_slash s) 0 h
