-- ===== src/Goobj/Le.antt =====
-- Little-endian integers (encoding/binary): `PutUint` and `Uint` of 1, 2, 4 and 8 bytes.
use goc.Prelude.{
  ℕ, zero, suc, ◌+◌, ◌*◌, ◌/◌, ◌%◌, ◌^◌, ◌≤◌, ◌<◌, ◌≡◌, ◌≢◌, refl, sym, ap, ◌∙◌, arith, ltb,
  if◌then◌else◌, false,
}
use goc.Prelude.{
  Option, none, some, [], ◌∷◌, ◌++◌, length, take, drop, length-append, take-append, drop-append,
}
use native.Mathlib.Nat.{pow-suc}
use goc.Gocobj.Codec.{Bytes}

-- The `n` low bytes of a number, lowest first.
unfoldable pub le_bytes : ℕ → ℕ → Bytes
le_bytes zero v = []
le_bytes (suc n) v = (v % 256) ∷ le_bytes n (v / 256)

unfoldable pub le_value : Bytes → ℕ
le_value [] = 0
le_value (b ∷ bs) = b + 256 * le_value bs

-- The integer of `n` bytes at an offset; `none` is Go's slice out of range.
unfoldable pub le_at : ℕ → Bytes → ℕ → Option ℕ
le_at n b off = if ltb (length b) (off + n) then none else some (le_value (take n (drop off b)))

pub length-le_bytes : (n v : ℕ) → length (le_bytes n v) ≡ n
unfolding le_bytes
length-le_bytes zero v = refl
length-le_bytes (suc n) v = omega (arith, length-le_bytes n (v / 256))

pub le_value-le_bytes : (n v : ℕ) → v < 256 ^ n → le_value (le_bytes n v) ≡ v
unfolding le_bytes le_value
le_value-le_bytes zero v h = omega arith
le_value-le_bytes (suc n) v h =
    omega (arith, le_value-le_bytes n (v / 256) (omega (arith, pow-suc 256 n)))

-- An integer is read where it was written.
pub le_at-le_bytes :
    (n v : ℕ) (before behind : Bytes)
    → v < 256 ^ n
    → le_at n (before ++ (le_bytes n v ++ behind)) (length before) ≡ some v
unfolding le_at
le_at-le_bytes n v before behind h =
    let code = le_bytes n v in
    let len = length-append before (code ++ behind) in
    let fits : ltb (length (before ++ (code ++ behind))) (length before + n) ≡ false =
      ground (arith, len, length-append code behind, length-le_bytes n v) in
    let here : take n (code ++ behind) ≡ code =
      ap (λ (t : ℕ). take t (code ++ behind)) (sym (length-le_bytes n v))
      ∙ take-append code behind in
    rw (fits, drop-append before (code ++ behind), here, le_value-le_bytes n v h) refl

-- A read inside the bytes is no panic.
pub le_at-ne-none : (n : ℕ) (b : Bytes) (off : ℕ) → off + n ≤ length b → le_at n b off ≢ none
unfolding le_at
le_at-ne-none n b off h = ground arith
