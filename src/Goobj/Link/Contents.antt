-- ===== src/Goobj/Link/Contents.antt =====
-- The contents of a symbol as a memory: `P` followed by zeros without end.
use goc.Prelude.{
  ℕ, zero, suc, ◌+◌, ◌-◌, ◌^◌, ◌≤◌, ◌<◌, ◌≡◌, refl, ap, arith, true, false, ◌&&◌, ltb, leb,
  if◌then◌else◌, Bool-cases, inl, inr,
}
use goc.Prelude.{some, [], ◌∷◌, ◌++◌, length, take, drop, replicate, length-append}
use goc.Prelude.{length-drop}
use goc.Gocobj.Codec.{Bytes}
use goc.Goobj.Le.{le_bytes, le_at, length-le_bytes, le_at-le_bytes}
use goc.Goobj.Link.{Sym, grow, splice, prepwrite, write_bytes, write_int, int_size}

abbrev pub byte_or_zero : Bytes → ℕ → ℕ
byte_or_zero [] i = 0
byte_or_zero (b ∷ bs) zero = b
byte_or_zero (b ∷ bs) (suc i) = byte_or_zero bs i

byte-append_left :
    (xs ys : Bytes) (i : ℕ) → i < length xs → byte_or_zero (xs ++ ys) i ≡ byte_or_zero xs i
byte-append_left [] ys i h = absurd (omega arith)
byte-append_left (x ∷ xs) ys zero h = refl
byte-append_left (x ∷ xs) ys (suc i) h = byte-append_left xs ys i (omega arith)

byte-append_right :
    (xs ys : Bytes) (i : ℕ)
    → length xs ≤ i
    → byte_or_zero (xs ++ ys) i ≡ byte_or_zero ys (i - length xs)
byte-append_right [] ys i h = let eq : i - 0 ≡ i = omega arith in rw eq refl
byte-append_right (x ∷ xs) ys zero h = absurd (omega arith)
byte-append_right (x ∷ xs) ys (suc i) h =
    let eq : suc i - suc (length xs) ≡ i - length xs = omega arith in
    rw eq (byte-append_right xs ys i (omega arith))

byte-take : (n : ℕ) (xs : Bytes) (i : ℕ) → i < n → byte_or_zero (take n xs) i ≡ byte_or_zero xs i
byte-take zero xs i h = absurd (omega arith)
byte-take (suc n) [] i h = refl
byte-take (suc n) (x ∷ xs) zero h = refl
byte-take (suc n) (x ∷ xs) (suc i) h = byte-take n xs i (omega arith)

byte-nil : (i : ℕ) → byte_or_zero [] i ≡ 0
byte-nil i = refl

byte-drop : (n : ℕ) (xs : Bytes) (i : ℕ) → byte_or_zero (drop n xs) i ≡ byte_or_zero xs (n + i)
byte-drop zero xs i = let eq : 0 + i ≡ i = omega arith in rw eq refl
byte-drop (suc n) [] i = refl
byte-drop (suc n) (x ∷ xs) i =
    let eq : suc n + i ≡ suc (n + i) = omega arith in rw eq (byte-drop n xs i)

byte-replicate : (n i : ℕ) → byte_or_zero (replicate n 0) i ≡ 0
byte-replicate zero i = refl
byte-replicate (suc n) zero = refl
byte-replicate (suc n) (suc i) = byte-replicate n i

byte-past : (xs : Bytes) (i : ℕ) → length xs ≤ i → byte_or_zero xs i ≡ 0
byte-past [] i h = refl
byte-past (x ∷ xs) zero h = absurd (omega arith)
byte-past (x ∷ xs) (suc i) h = byte-past xs i (omega arith)

pub length-take : (n : ℕ) (xs : Bytes) → n ≤ length xs → length (take n xs) ≡ n
length-take zero xs h = refl
length-take (suc n) [] h = absurd (omega arith)
length-take (suc n) (x ∷ xs) h = omega (arith, length-take n xs (omega arith))

abbrev zeros : ℕ → Bytes
zeros n = replicate n 0

length-replicate : (n : ℕ) → length (zeros n) ≡ n
length-replicate zero = refl
length-replicate (suc n) = ap suc (length-replicate n)

-- Growing appends zeros, which were there.
byte-grow : (n : ℕ) (p : Bytes) (i : ℕ) → byte_or_zero (grow n p) i ≡ byte_or_zero p i
byte-grow n p i = elim (Bool-cases (ltb i (length p))) [
  | inl h ↦ byte-append_left p _ i (ground arith)
  | inr h ↦
      let far : length p ≤ i = ground arith in
      rw
        (
          byte-append_right p (replicate (n - length p) 0) i far,
          byte-replicate (n - length p) (i - length p),
          byte-past p i far,
        )
        refl
]

-- The bytes after a write of `b` at `off`.
abbrev pub overlay : ℕ → Bytes → (ℕ → ℕ) → ℕ → ℕ
overlay off b mem i =
    if leb off i && ltb i (off + length b) then byte_or_zero b (i - off) else mem i

byte-splice :
    (off : ℕ) (b p : Bytes) (i : ℕ)
    → off + length b ≤ length p
    → byte_or_zero (splice off b p) i ≡ overlay off b (byte_or_zero p) i
byte-splice off b p i h =
    let len : length (take off p) ≡ off = length-take off p (omega arith) in
    elim (Bool-cases (leb off i)) [
      | inr below ↦
          let lt : i < off = ground arith in
          rw
            (
              below,
              byte-append_left (take off p) (b ++ drop (off + length b) p) i (omega (arith, len)),
              byte-take off p i lt,
            )
            refl
      | inl above ↦
          let le : off ≤ i = ground arith in
          let skip =
            byte-append_right (take off p) (b ++ drop (off + length b) p) i (omega (arith, len)) in
          elim (Bool-cases (ltb i (off + length b))) [
            | inl inside ↦
                let lt : i - off < length b = ground arith in
                rw
                  (
                    above,
                    inside,
                    skip,
                    len,
                    byte-append_left b (drop (off + length b) p) (i - off) lt,
                  )
                  refl
            | inr outside ↦
                let ge : length b ≤ i - off = ground arith in
                let there : off + length b + (i - off - length b) ≡ i = omega arith in
                rw
                  (
                    above,
                    outside,
                    skip,
                    len,
                    byte-append_right b (drop (off + length b) p) (i - off) ge,
                    byte-drop (off + length b) p (i - off - length b),
                    there,
                  )
                  refl
          ]
    ]

length-grow : (n : ℕ) (p : Bytes) → n ≤ length (grow n p)
length-grow n p =
    omega (arith, length-append p (replicate (n - length p) 0), length-replicate (n - length p))

over-grow :
    (off : ℕ) (b : Bytes) (n : ℕ) (p : Bytes) (i : ℕ)
    → overlay off b (byte_or_zero (grow n p)) i ≡ overlay off b (byte_or_zero p) i
over-grow off b n p i = rw (byte-grow n p i) refl

-- `WriteBytes` is a write to memory: the bytes of `b` stand from `off` on and every other byte is what it
-- was, zero behind the end; an empty `b` changes nothing.
pub write_bytes-overlay :
    (off : ℕ) (b : Bytes) (s : Sym) (i : ℕ)
    → byte_or_zero (write_bytes off b s).p i ≡ overlay off b (byte_or_zero s.p) i
unfolding write_bytes prepwrite
write_bytes-overlay off [] s i =
    let nowhere : (leb off i && ltb i (off + 0)) ≡ false = ground arith in rw nowhere refl
write_bytes-overlay off (b ∷ bs) s i =
    let n = off + length (b ∷ bs) in
    rw (byte-splice off (b ∷ bs) (grow n s.p) i (length-grow n s.p))
      (over-grow off (b ∷ bs) n s.p i)

-- `WriteInt` of 1, 2, 4 or 8 bytes does not panic; it is the write of the little-endian bytes, and the
-- integer is read back from where it was written.
pub write_int-overlay :
    (off siz v : ℕ) (s : Sym)
    → int_size siz ≡ true
    → v < 256 ^ siz
    → (s' : Sym) × (write_int off siz v s ≡ some s')
      × ((i : ℕ) → byte_or_zero s'.p i ≡ overlay off (le_bytes siz v) (byte_or_zero s.p) i)
      × (le_at siz s'.p off ≡ some v)
unfolding write_int prepwrite
write_int-overlay off siz v s h fits =
    let code = le_bytes siz v in
    let long : off + length code ≤ length (grow (off + siz) s.p) =
      omega (arith, length-grow (off + siz) s.p, length-le_bytes siz v) in
    let s' : Sym = record (prepwrite off siz s) { p = splice off code (prepwrite off siz s).p } in
    let there : length (take off (grow (off + siz) s.p)) ≡ off =
      length-take off _ (omega (arith, long)) in
    let back =
      le_at-le_bytes siz v (take off (grow (off + siz) s.p))
        (drop (off + length code) (grow (off + siz) s.p)) fits in
    (
      s',
      rw h refl,
      λ i.
          rw (byte-splice off code (grow (off + siz) s.p) i long)
            (over-grow off code (off + siz) s.p i),
      rw there at back,
    )

-- A write inside the bytes keeps their length.
pub length-splice :
    (off : ℕ) (b p : Bytes) → off + length b ≤ length p → length (splice off b p) ≡ length p
length-splice off b p h = omega (
  arith,
  length-append (take off p) (b ++ drop (off + length b) p),
  length-append b (drop (off + length b) p),
  length-drop (off + length b) p,
  length-take off p (omega arith),
)
