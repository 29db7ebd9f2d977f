-- ===== src/Gocobj/Codec/Sleb.antt =====
-- `sleb` of codec.go: what is written is read back.
use goc.Prelude.{ℕ, zero, suc, ◌+◌, ◌-◌, ◌*◌, ◌/◌, ◌%◌, ◌^◌, ◌<◌, ◌≤◌, ◌≡◌, bit_or, none, arith}
use goc.Prelude.{[], ◌∷◌, ◌++◌, ap, ◌∙◌, All, length}
use goc.Prelude.Bits.{
  bit_or_above, low_seven, top_bit, sign_bit, set_top_bit, pow_seven, pow_add, pred-mul,
}
use goc.Prelude.Int.{ℤ, pos, negsuc, signed64, IsI64}
use goc.Gocobj.Codec.{Bytes, IsByte, sleb_loop, sleb_groups, put_sleb}
use native.Mathlib.Decide.{dec_lt}
use native.Mathlib.Nat.{pow-le-pow_right, pow-suc}
use goc.Gocobj.Codec.Varint.{split_group, acc_grows}

-- `-1 << s` as a bit pattern, joined to bits below it.
sign_extend :
    (s acc : ℕ) → s ≤ 64 → acc < 2 ^ s → bit_or acc (2 ^ 64 - 2 ^ s) ≡ acc + (2 ^ 64 - 2 ^ s)
sign_extend s acc hs hacc =
    let whole : 2 ^ (64 - s) * 2 ^ s ≡ 2 ^ 64 =
      rw (← pow_add (64 - s) s) (ap (λ (t : ℕ). 2 ^ t) {y = 64} (omega arith)) in
    let e : 2 ^ 64 - 2 ^ s ≡ (2 ^ (64 - s) - 1) * 2 ^ s =
      omega (arith, whole, pred-mul (2 ^ (64 - s)) (2 ^ s)) in
    rw e (bit_or_above s _ acc hacc)

-- Up to bit 56 there is room for a whole group.
pow_le_63 : (s : ℕ) → s ≤ 56 → 2 ^ (s + 7) ≤ 2 ^ 63
pow_le_63 s hs = pow-le-pow_right {n = 2} (omega arith) {j = 63} (omega arith)

module _ (s acc : ℕ) (rest : Bytes) (below : acc < 2 ^ s) where
  -- A byte with the top bit set over the group `g`.
  inner_byte :
      (g : ℕ)
      → g < 128
      → s ≤ 56
      → acc + g * 2 ^ s < 2 ^ 64
      → sleb_loop ((g + 128) ∷ rest) acc s ≡ sleb_loop rest (acc + g * 2 ^ s) (s + 7)
  unfolding sleb_loop
  inner_byte g hg hs fits =
      ground (arith, bit_or_above s g acc, low_seven (g + 128), top_bit (g + 128))

  -- The last byte of a number that is not negative.
  last_pos :
      (n : ℕ)
      → n < 64
      → acc + n * 2 ^ s < 2 ^ 63
      → sleb_loop (n ∷ rest) acc s ≡ (pos (acc + n * 2 ^ s), none, rest)
  unfolding sleb_loop
  last_pos n hn fits = ground (arith, bit_or_above s n acc, low_seven n, top_bit n, sign_bit n)

  -- The last byte of a negative one, whose sign is extended.
  last_signed :
      (c : ℕ)
      → 64 ≤ c
      → c < 128
      → s ≤ 56
      → sleb_loop (c ∷ rest) acc s
        ≡ (signed64 (acc + c * 2 ^ s + (2 ^ 64 - 2 ^ (s + 7))), none, rest)
  unfolding sleb_loop
  last_signed c h64 hc hs = ground (
    arith,
    bit_or_above s c acc,
    low_seven c,
    top_bit c,
    sign_bit c,
    sign_extend (s + 7) (acc + c * 2 ^ s),
    acc_grows c acc s hc below,
    pow_le_63 s hs,
  )

  last_neg_top : s ≡ 63 → sleb_loop (127 ∷ rest) acc s ≡ (signed64 (2 ^ 63 + acc), none, rest)
  unfolding sleb_loop
  last_neg_top hs = ground (arith, bit_or_above s 1 acc, ap (λ (t : ℕ). 2 ^ t) hs)

-- At bit 63 only the sign is left.
none_left : (n s : ℕ) → s ≡ 63 → n * 2 ^ s < 2 ^ 63 → n ≡ 0
none_left n s e fits = omega (arith, ap (λ (t : ℕ). n * 2 ^ t) e)

-- The rounds of `enc.sleb`: six bits and a sign end it.
module _ (k n : ℕ) where
  pos_last : n < 64 → sleb_groups (suc k) (pos n) ≡ n ∷ []
  unfolding sleb_groups
  pos_last h = ground (arith, sign_bit (n % 128))

  pos_more : 64 ≤ n → sleb_groups (suc k) (pos n) ≡ (n % 128 + 128) ∷ sleb_groups k (pos (n / 128))
  unfolding sleb_groups
  pos_more h = ground (arith, sign_bit (n % 128), set_top_bit (n % 128))

  neg_last : n < 64 → sleb_groups (suc k) (negsuc n) ≡ (127 - n) ∷ []
  unfolding sleb_groups
  neg_last h = ground (arith, sign_bit (127 - n % 128))

  neg_more :
      64 ≤ n
      → sleb_groups (suc k) (negsuc n) ≡ (127 - n % 128 + 128) ∷ sleb_groups k (negsuc (n / 128))
  unfolding sleb_groups
  neg_more h = ground (arith, sign_bit (127 - n % 128), set_top_bit (127 - n % 128))

-- A group and its complement fill the seven bits.
complement : (g s : ℕ) → g < 128 → (127 - g) * 2 ^ s + suc g * 2 ^ s ≡ 2 ^ (s + 7)
complement g s h =
    let e : 127 - g + suc g ≡ 128 = omega arith in
    omega (arith, ap (λ (t : ℕ). t * 2 ^ s) e, pow_seven s)

-- After a group of a negative number the rest of it stands 7 bits higher.
neg_group : (n s : ℕ) → suc n * 2 ^ s + (127 - n % 128) * 2 ^ s ≡ suc (n / 128) * 2 ^ (s + 7)
neg_group n s = omega (arith, split_group n s, complement (n % 128) s (omega arith))

sleb_loop-pos :
    (k n acc s : ℕ) (rest : Bytes)
    → s + 7 * k ≡ 63
    → acc < 2 ^ s
    → acc + n * 2 ^ s < 2 ^ 63
    → sleb_loop (sleb_groups k (pos n) ++ rest) acc s ≡ (pos (acc + n * 2 ^ s), none, rest)
sleb_loop-pos zero n acc s rest hk below fits =
    unfold sleb_groups in ground (arith, none_left n s, last_pos s acc rest below n)
sleb_loop-pos (suc k) n acc s rest hk below fits = elim (dec_lt n 64) [
  | yes h ↦ rw (pos_last k n h) (last_pos s acc rest below n h fits)
  | no h ↦ rw (pos_more k n (omega arith)) (
      ground (
        arith,
        split_group n s,
        inner_byte s acc (sleb_groups k (pos (n / 128)) ++ rest) below (n % 128),
        acc_grows (n % 128) acc s,
        sleb_loop-pos k (n / 128) (acc + n % 128 * 2 ^ s) (s + 7) rest,
      ))
]

-- `w` is the bit pattern of the sum of `acc` and the number shifted by `s`.
sleb_loop-neg :
    (k n acc s w : ℕ) (rest : Bytes)
    → s + 7 * k ≡ 63
    → acc < 2 ^ s
    → n < 128 ^ k
    → w + suc n * 2 ^ s ≡ 2 ^ 64 + acc
    → sleb_loop (sleb_groups k (negsuc n) ++ rest) acc s ≡ (signed64 w, none, rest)
sleb_loop-neg zero n acc s w rest hk below fits hw =
    let one : n ≡ 0 = omega arith in
    let e : w ≡ 2 ^ 63 + acc =
      omega (arith, ap (λ (t : ℕ). suc n * 2 ^ t) {x = s} {y = 63} (omega arith)) in
    unfold sleb_groups in rw (one, e) (last_neg_top s acc rest below (omega arith))
sleb_loop-neg (suc k) n acc s w rest hk below fits hw = elim (dec_lt n 64) [
  | yes h ↦
      let e : w ≡ acc + (127 - n) * 2 ^ s + (2 ^ 64 - 2 ^ (s + 7)) =
        omega (arith, complement n s (omega arith), pow_le_63 s (omega arith)) in
      rw (neg_last k n h, e)
        (last_signed s acc rest below (127 - n) (omega arith) (omega arith) (omega arith))
  | no h ↦ rw (neg_more k n (omega arith)) (
      inner_byte s acc (sleb_groups k (negsuc (n / 128)) ++ rest) below (127 - n % 128)
        (omega arith) (omega arith)
        (omega
          (arith, acc_grows (127 - n % 128) acc s (omega arith) below, pow_le_63 s (omega arith)))
      ∙ sleb_loop-neg k (n / 128) (acc + (127 - n % 128) * 2 ^ s) (s + 7) w rest (omega arith)
          (acc_grows (127 - n % 128) acc s (omega arith) below) (omega (arith, pow-suc 128 k))
          (omega (arith, neg_group n s)))
]

-- What `enc.sleb` writes for an int64 is read back by the loop of `buf.sleb`, with no error, and the bytes
-- behind it are left.
pub sleb_loop-put_sleb :
    (v : ℤ) (rest : Bytes) → IsI64 v → sleb_loop (put_sleb v ++ rest) 0 0 ≡ (v, none, rest)
unfolding put_sleb
sleb_loop-put_sleb (pos n) rest h = ground (arith, sleb_loop-pos 9 n 0 0 rest)
sleb_loop-put_sleb (negsuc n) rest h = ground (arith, sleb_loop-neg 9 n 0 0 (2 ^ 64 - suc n) rest)

sleb_groups_shape : (k : ℕ) (v : ℤ) → All IsByte (sleb_groups k v)
unfolding sleb_groups
sleb_groups_shape zero (pos n) = omega arith
sleb_groups_shape zero (negsuc n) = omega arith
sleb_groups_shape (suc k) (pos n) =
    ground (arith, set_top_bit (n % 128), sleb_groups_shape k (pos (n / 128)))
sleb_groups_shape (suc k) (negsuc n) =
    ground (arith, set_top_bit (127 - n % 128), sleb_groups_shape k (negsuc (n / 128)))

pub put_sleb-IsByte : (v : ℤ) → All IsByte (put_sleb v)
unfolding put_sleb
put_sleb-IsByte v = sleb_groups_shape 9 v

pub length-put_sleb : (v : ℤ) → 1 ≤ length (put_sleb v)
unfolding put_sleb sleb_groups
length-put_sleb (pos n) = ground arith
length-put_sleb (negsuc n) = ground arith
