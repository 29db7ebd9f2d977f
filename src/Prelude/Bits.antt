-- ===== src/Prelude/Bits.antt =====
-- `&` with a mask of low bits and `|` of disjoint fields, as arithmetic, at every width.
use Prim.Native.Nat.{ℕ, zero, suc, ◌+◌, ◌-◌, ◌*◌, ◌/◌, ◌%◌, ◌^◌, ◌≤◌, ◌<◌, min, max}
use Prim.Native.Nat.{bit_and, bit_or, digits, bit_or-bitwise, bit_and-bitwise}
use mathlib.Core.Path.{◌≡◌, refl, sym, ap, ◌∙◌}
use mathlib.Core.Bool.{Bool, true, ◌&&◌}
use native.Mathlib.Nat.{pow-suc, one-le-pow, div-div-eq-div-mul, div-mul-le_self}
use native.Mathlib.Decide.{dec_lt}
use Prim.Native.Nat.add
use native.Mathlib.Omega.{arith}
use goc.Prelude.Tests.{◌==◌, ==_iff}

-- The recursion over binary digits that the native operations stand for.
module _ (end : ℕ → ℕ) (join : ℕ → ℕ → ℕ) where
  no_digits : (j y : ℕ) → digits end join j 0 y ≡ end y
  no_digits zero y = refl
  no_digits (suc j) y = refl

  -- Every count of digits that is enough gives the same.
  enough_digits : (j k x y : ℕ) → x ≤ j → x ≤ k → digits end join j x y ≡ digits end join k x y
  enough_digits j k zero y hj hk = no_digits j y ∙ sym (no_digits k y)
  enough_digits zero k (suc x) y hj hk = absurd (omega arith)
  enough_digits (suc j) zero (suc x) y hj hk = absurd (omega arith)
  enough_digits (suc j) (suc k) (suc x) y hj hk =
      let halved : suc x / 2 ≤ x = omega arith in
      let rest =
        enough_digits j k (suc x / 2) (y / 2) (omega (arith, halved)) (omega (arith, halved)) in
      omega (arith, rest)

  lowest_digit :
      (x y : ℕ)
      → digits end join (suc x) (suc x) y
        ≡ digits end join (suc x / 2) (suc x / 2) (y / 2) * 2 + join (suc x % 2) (y % 2)
  lowest_digit x y =
      omega (arith, enough_digits x (suc x / 2) (suc x / 2) (y / 2) (omega arith) (omega arith))

pub zero-bit_or : (b : ℕ) → bit_or 0 b ≡ b
zero-bit_or b = bit_or-bitwise 0 b

or_halves : (a b : ℕ) → bit_or a b ≡ bit_or (a / 2) (b / 2) * 2 + max (a % 2) (b % 2)
or_halves zero b = omega (arith, zero-bit_or b, zero-bit_or (b / 2))
or_halves (suc a) b = omega (
  arith,
  bit_or-bitwise (suc a) b,
  bit_or-bitwise (suc a / 2) (b / 2),
  lowest_digit (λ y. y) max a b,
)

-- `r | (q << k)` is a sum where `r` has `k` bits.
pub bit_or_above : (k q r : ℕ) → r < 2 ^ k → bit_or r (q * 2 ^ k) ≡ r + q * 2 ^ k
bit_or_above zero q zero fits = omega (arith, zero-bit_or (q * 2 ^ 0))
bit_or_above zero q (suc r) fits = absurd (omega arith)
bit_or_above (suc k) q r fits = ground (
  arith,
  or_halves r (q * 2 ^ suc k),
  ap (λ (t : ℕ). q * t) (pow-suc 2 k),
  pow-suc 2 k,
  bit_or_above k q (r / 2) (omega (arith, pow-suc 2 k)),
)

pub pow_add : (j k : ℕ) → 2 ^ (j + k) ≡ 2 ^ j * 2 ^ k
pow_add zero k = ground arith
pow_add (suc j) k =
    rw (add.suc j k)
      (omega (arith, pow-suc 2 (j + k), pow_add j k, ap (λ (t : ℕ). t * 2 ^ k) (pow-suc 2 j)))

pub pred-mul : (p t : ℕ) → (p - 1) * t ≡ p * t - t
pred-mul zero t = omega arith
pred-mul (suc p) t = let e : suc p - 1 ≡ p = omega arith in rw e (omega arith)

zero-bit_and : (b : ℕ) → bit_and 0 b ≡ 0
zero-bit_and b = bit_and-bitwise 0 b

and_halves : (a b : ℕ) → bit_and a b ≡ bit_and (a / 2) (b / 2) * 2 + min (a % 2) (b % 2)
and_halves zero b = omega (arith, zero-bit_and b, zero-bit_and (b / 2))
and_halves (suc a) b = omega (
  arith,
  bit_and-bitwise (suc a) b,
  bit_and-bitwise (suc a / 2) (b / 2),
  lowest_digit (λ y. 0) min a b,
)

bit_and-zero_below : (k a : ℕ) → a ≤ k → bit_and a 0 ≡ 0
bit_and-zero_below zero zero h = zero-bit_and 0
bit_and-zero_below zero (suc a) h = absurd (omega arith)
bit_and-zero_below (suc k) a h =
    omega (arith, and_halves a 0, bit_and-zero_below k (a / 2) (omega arith))

mask_step : (a m r : ℕ) → bit_and (a / 2) m ≡ r → bit_and a (2 * m + 1) ≡ r * 2 + a % 2
mask_step a m r h =
    let half : (2 * m + 1) / 2 ≡ m = omega arith in
    omega (arith, and_halves a (2 * m + 1), h, ap (bit_and (a / 2)) half)

-- A mask of the bits below `j`.
pub bit_and_below : (j a : ℕ) → a < 2 ^ j → bit_and a (2 ^ j - 1) ≡ a
bit_and_below zero zero h = zero-bit_and 0
bit_and_below zero (suc a) h = absurd (omega arith)
bit_and_below (suc j) a h = ground (
  arith,
  and_halves a (2 ^ suc j - 1),
  pow-suc 2 j,
  one-le-pow j 2,
  bit_and_below j (a / 2) (omega (arith, pow-suc 2 j)),
)

low_one : (a : ℕ) → bit_and a 1 ≡ a % 2
low_one a = omega (arith, mask_step a 0 0 (bit_and-zero_below (a / 2) (a / 2) (omega arith)))

low_two_bits : (a : ℕ) → bit_and a 3 ≡ a % 4
low_two_bits a = omega (arith, mask_step a 1 (a / 2 % 2) (low_one (a / 2)))

low_three : (a : ℕ) → bit_and a 7 ≡ a % 8
low_three a = omega (arith, mask_step a 3 (a / 2 % 4) (low_two_bits (a / 2)))

low_four : (a : ℕ) → bit_and a 15 ≡ a % 16
low_four a = omega (arith, mask_step a 7 (a / 2 % 8) (low_three (a / 2)))

low_five : (a : ℕ) → bit_and a 31 ≡ a % 32
low_five a = omega (arith, mask_step a 15 (a / 2 % 16) (low_four (a / 2)))

low_six : (a : ℕ) → bit_and a 63 ≡ a % 64
low_six a = omega (arith, mask_step a 31 (a / 2 % 32) (low_five (a / 2)))

-- The seven low bits, of any number.
pub low_seven_of : (a : ℕ) → bit_and a 0x7f ≡ a % 128
low_seven_of a = omega (arith, mask_step a 63 (a / 2 % 64) (low_six (a / 2)))

-- A mask with no bit below `k`.
pub bit_and_above : (k q a : ℕ) → bit_and a (q * 2 ^ k) ≡ bit_and (a / 2 ^ k) q * 2 ^ k
bit_and_above zero q a =
    let e : q * 2 ^ 0 ≡ q = omega arith in
    let d : a / 2 ^ 0 ≡ a = omega arith in rw (e, d) (omega arith)
bit_and_above (suc k) q a =
    let double : q * 2 ^ suc k ≡ 2 * (q * 2 ^ k) =
      omega (arith, ap (λ (t : ℕ). q * t) (pow-suc 2 k)) in
    let half : q * 2 ^ suc k / 2 ≡ q * 2 ^ k = omega (arith, double) in
    let down : a / 2 / 2 ^ k ≡ a / 2 ^ suc k =
      div-div-eq-div-mul a 2 (2 ^ k)
      ∙ ap (λ (t : ℕ). a / t) {x = 2 * 2 ^ k} (omega (arith, pow-suc 2 k)) in
    let b = bit_and (a / 2 ^ suc k) q in
    omega (
      arith,
      double,
      and_halves a (q * 2 ^ suc k),
      ap (bit_and (a / 2)) half,
      bit_and_above k q (a / 2),
      ap (λ (t : ℕ). bit_and t q * 2 ^ k) down,
      ap (λ (t : ℕ). b * t) (pow-suc 2 k),
    )

lt_of_mul : (q p t : ℕ) → q * t < p * t → q < p
lt_of_mul q p t h = elim (dec_lt q p) [ yes l ↦ l | no g ↦ absurd (grind arith) ]

-- The 64-bit mask `-(2 ^ k)` rounds down to a multiple of `2 ^ k`.
pub bit_and_round : (k a : ℕ) → k ≤ 64 → a < 2 ^ 64 → bit_and a (2 ^ 64 - 2 ^ k) ≡ a / 2 ^ k * 2 ^ k
bit_and_round k a hk ha =
    let whole : 2 ^ (64 - k) * 2 ^ k ≡ 2 ^ 64 =
      rw (← pow_add (64 - k) k) (ap (λ (t : ℕ). 2 ^ t) {y = 64} (omega arith)) in
    let mask : 2 ^ 64 - 2 ^ k ≡ (2 ^ (64 - k) - 1) * 2 ^ k =
      omega (arith, whole, pred-mul (2 ^ (64 - k)) (2 ^ k)) in
    rw (
      mask,
      bit_and_above k (2 ^ (64 - k) - 1) a,
      bit_and_below (64 - k) (a / 2 ^ k) (
          lt_of_mul (a / 2 ^ k) (2 ^ (64 - k)) (2 ^ k)
            (omega (arith, whole, div-mul-le_self a (2 ^ k)))),
    )

-- Facts on one byte, checked at every value.
same_below : ℕ → (ℕ → ℕ) → (ℕ → ℕ) → Bool
same_below zero f g = true
same_below (suc n) f g = (f n == g n) && same_below n f g

same_below→eq : (n : ℕ) (f g : ℕ → ℕ) → same_below n f g ≡ true → (x : ℕ) → x < n → f x ≡ g x
unfolding same_below
same_below→eq zero f g h x lt = absurd (omega arith)
same_below→eq (suc n) f g h x lt = ground (arith, ==_iff (f n) (g n), same_below→eq n f g _ x)

pub low_seven : (b : ℕ) → b < 256 → bit_and b 0x7f ≡ b % 128
unfolding same_below
low_seven = same_below→eq 256 _ _ refl

pub top_bit : (b : ℕ) → b < 256 → bit_and b 0x80 ≡ b / 128 * 128
unfolding same_below
top_bit = same_below→eq 256 _ _ refl

pub sign_bit : (b : ℕ) → b < 256 → bit_and b 0x40 ≡ b / 64 % 2 * 64
unfolding same_below
sign_bit = same_below→eq 256 _ _ refl

pub set_top_bit : (b : ℕ) → b < 256 → bit_or b 0x80 ≡ b % 128 + 128
unfolding same_below
set_top_bit = same_below→eq 256 _ _ refl

pub pow_seven : (s : ℕ) → 2 ^ (s + 7) ≡ 128 * 2 ^ s
pow_seven s = omega (arith, pow_add s 7)
