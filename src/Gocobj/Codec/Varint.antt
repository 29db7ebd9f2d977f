-- ===== src/Gocobj/Codec/Varint.antt =====
-- `uleb` of codec.go: what is written is read back.
use goc.Prelude.{ℕ, zero, suc, ◌+◌, ◌*◌, ◌/◌, ◌%◌, ◌^◌, ◌<◌, ◌≤◌, ◌≡◌, some, arith}
use goc.Prelude.{◌∷◌, ◌++◌, ap, length, All}
use goc.Prelude.Bits.{bit_or_above, low_seven, set_top_bit, pow_seven}
use goc.Gocobj.Codec.{Bytes, IsU64, IsByte, uvarint_loop, uvarint, uvarint_groups, put_uleb}
use native.Mathlib.Nat.{div-add-mod}

-- One byte of `uvarint_loop`: a last one, and one with the top bit set over the group `g`.
last_byte :
    (w i acc s : ℕ) (rest : Bytes)
    → w < 128
    → i ≤ 9
    → (i ≡ 9 → w ≤ 1)
    → acc < 2 ^ s
    → IsU64 (acc + w * 2 ^ s)
    → uvarint_loop (w ∷ rest) i acc s ≡ some (acc + w * 2 ^ s, rest)
unfolding uvarint_loop
last_byte w i acc s rest hw hi h9 hacc fits = ground (arith, bit_or_above s w acc)

inner_byte :
    (g i acc s : ℕ) (rest : Bytes)
    → g < 128
    → i ≤ 9
    → acc < 2 ^ s
    → IsU64 (acc + g * 2 ^ s)
    → uvarint_loop ((g + 128) ∷ rest) i acc s ≡ uvarint_loop rest (i + 1) (acc + g * 2 ^ s) (s + 7)
unfolding uvarint_loop
inner_byte g i acc s rest hg hi hacc fits =
    ground (arith, bit_or_above s g acc, low_seven (g + 128))

-- The lowest group of `w` and the rest, both shifted by `s`.
pub split_group : (n at : ℕ) → n * 2 ^ at ≡ n % 128 * 2 ^ at + n / 128 * 2 ^ (at + 7)
split_group n at =
    let parts = ap (λ (t : ℕ). t * 2 ^ at) (div-add-mod n 128) in
    let shifted = ap (λ (t : ℕ). n / 128 * t) (pow_seven at) in omega (arith, parts, shifted)

-- At bit 63 there is room for one bit.
room_for_one : (x acc s : ℕ) → s ≡ 63 → IsU64 (acc + x * 2 ^ s) → x ≤ 1
room_for_one x acc s e fits = omega (arith, ap (λ (t : ℕ). x * 2 ^ t) e)

pub acc_grows : (g acc s : ℕ) → g < 128 → acc < 2 ^ s → acc + g * 2 ^ s < 2 ^ (s + 7)
acc_grows g acc s hg hacc = grind (arith, pow_seven s)

uvarint_loop-groups :
    (k x i acc s : ℕ) (rest : Bytes)
    → i + k ≡ 9
    → s ≡ 7 * i
    → acc < 2 ^ s
    → IsU64 (acc + x * 2 ^ s)
    → uvarint_loop (uvarint_groups k x ++ rest) i acc s ≡ some (acc + x * 2 ^ s, rest)
unfolding uvarint_groups
uvarint_loop-groups zero x i acc s rest hk hs hacc fits =
    let small = room_for_one x acc s (omega arith) fits in ground (arith, last_byte x i acc s rest)
uvarint_loop-groups (suc k) x i acc s rest hk hs hacc fits = ground (
  arith,
  split_group x s,
  set_top_bit (x % 256),
  last_byte x i acc s rest,
  inner_byte (x % 128) i acc s (uvarint_groups k (x / 128) ++ rest),
  acc_grows (x % 128) acc s,
  uvarint_loop-groups k (x / 128) (i + 1) (acc + x % 128 * 2 ^ s) (s + 7) rest,
)

-- What `enc.uleb` writes for a uint64 is read back by `binary.Uvarint`, which leaves the bytes behind it.
pub uvarint-put_uleb :
    (x : ℕ) (rest : Bytes) → IsU64 x → uvarint (put_uleb x ++ rest) ≡ some (x, rest)
unfolding uvarint put_uleb
uvarint-put_uleb x rest h = ground (arith, uvarint_loop-groups 9 x 0 0 0 rest)

uvarint_groups_shape :
    (k x : ℕ) → (1 ≤ length (uvarint_groups k x)) × All IsByte (uvarint_groups k x)
unfolding uvarint_groups
uvarint_groups_shape zero x = omega arith
uvarint_groups_shape (suc k) x =
    ground (arith, set_top_bit (x % 256), uvarint_groups_shape k (x / 128))

pub length-put_uleb : (x : ℕ) → 1 ≤ length (put_uleb x)
unfolding put_uleb
length-put_uleb x = (uvarint_groups_shape 9 x).0

pub put_uleb-IsByte : (x : ℕ) → All IsByte (put_uleb x)
unfolding put_uleb
put_uleb-IsByte x = (uvarint_groups_shape 9 x).1
