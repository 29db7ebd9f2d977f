-- ===== src/Gocobj/Codec/RecordLoop.antt =====
-- `records` of codec.go: it ends on every section, and it hands over each record that `enc.record`
-- wrote, with its offset.
use goc.Prelude.{
  ℕ, zero, suc, ◌+◌, ◌-◌, ◌*◌, ◌%◌, ◌^◌, bit_and, bit_or, ◌≤◌, ◌<◌, ◌≡◌, ◌≢◌, refl, ◌∙◌, Option,
  some,
}
use goc.Prelude.{[], ◌∷◌, ◌++◌, arith, append_assoc, length, length-append, take-append}
use goc.Prelude.{drop-append, drop, take, length-drop, ltb, Option-cases, inl, inr}
use goc.Prelude.{Bool-cases, ltb→le, none, true}
use goc.Gocobj.Codec.{failed, bad_length}
use goc.Gocobj.Codec.{Bytes, IsU64, StrError, Step, ret, stop, Rd, uvarint, uvarint_loop}
use goc.Gocobj.Codec.{put_uleb, put_record, Records, done, out_of_fuel}
use goc.Gocobj.Codec.{after_record, records_loop, records}
use goc.Gocobj.Codec.Varint.{uvarint-put_uleb, length-put_uleb}
use goc.Gocobj.Codec.Reads.{clean}

-- A varint takes a byte at least.
uvarint_loop_takes :
    (b : Bytes) (i x s v : ℕ) (rest : Bytes)
    → uvarint_loop b i x s ≡ some (v, rest)
    → length rest < length b
unfolding uvarint_loop
uvarint_loop_takes [] i x s v rest h = cc
uvarint_loop_takes (c ∷ b) i x s v rest h = ground (
  arith,
  uvarint_loop_takes b (i + 1) (bit_or x (bit_and c 0x7f * 2 ^ s % 2 ^ 64)) (s + 7) v rest,
)

pub uvarint_takes :
    (b : Bytes) {v : ℕ} {rest : Bytes} → uvarint b ≡ some (v, rest) → length rest < length b
unfolding uvarint
uvarint_takes b {v} {rest} h = uvarint_loop_takes b 0 0 0 v rest h

module _ {ℓ} {S : Type ℓ} (f : ℕ → S → Rd S) where
  -- One round on a section that begins with a varint.
  records_loop_round :
      (fuel off : ℕ) (b : Bytes) (acc : S) (se : Option StrError) {n : ℕ} {body : Bytes}
      → uvarint b ≡ some (n, body)
      → n ≤ length body
      → records_loop (suc fuel) f off b acc se
        ≡ after_record off (f off acc (clean (take n body) se)) (λ acc' se'.
          records_loop fuel f (off + (length b - length body) + n) (drop n body) acc' se')
  unfolding records_loop
  records_loop_round fuel off [] acc se e h = unfold uvarint uvarint_loop in cc
  records_loop_round fuel off (x ∷ b) acc se {n} {body} e h = rw (e, records_loop) (ground arith)

  -- A section that does not begin with a varint, or whose record is longer than what is left.
  pub records_loop_no_length :
      (fuel off x : ℕ) (b : Bytes) (acc : S) (se : Option StrError)
      → uvarint (x ∷ b) ≡ none
      → records_loop (suc fuel) f off (x ∷ b) acc se ≡ failed (bad_length off)
  unfolding records_loop
  records_loop_no_length fuel off x b acc se e = rw (e, records_loop)

  pub records_loop_too_long :
      (fuel off x : ℕ) (b : Bytes) (acc : S) (se : Option StrError) {n : ℕ} {body : Bytes}
      → uvarint (x ∷ b) ≡ some (n, body)
      → ltb (length body) n ≡ true
      → records_loop (suc fuel) f off (x ∷ b) acc se ≡ failed (bad_length off)
  unfolding records_loop
  records_loop_too_long fuel off x b acc se e lt = rw (e, records_loop) (rw lt)

  -- One round on a record that `enc.record` wrote, whose callback takes it with no error.
  records_loop_record :
      (fuel off : ℕ) (body tl : Bytes) (acc : S) (se : Option StrError) {acc' : S} {left : Bytes}
      {se' : Option StrError}
      → IsU64 (length body)
      → f off acc (clean body se) ≡ ret acc' (clean left se')
      → records_loop (suc fuel) f off (put_record body ++ tl) acc se
        ≡ records_loop fuel f (off + length (put_record body)) tl acc' se'
  unfolding put_record
  records_loop_record fuel off body tl acc se {acc'} {left} {se'} fits reads =
      let size = uvarint-put_uleb (length body) (body ++ tl) fits in
      let h = put_uleb (length body) in
      let shift : length (h ++ (body ++ tl)) - length (body ++ tl) + length body
          ≡ length (h ++ body) =
        omega (arith, length-append h (body ++ tl), length-append h body) in
      let place : off + (length (h ++ (body ++ tl)) - length (body ++ tl)) + length body
          ≡ off + length (h ++ body) =
        omega (arith, shift) in
      rw (
        append_assoc h body tl,
        records_loop_round fuel off (h ++ (body ++ tl)) acc se size
            (omega (arith, length-append body tl)),
        take-append body tl,
        drop-append body tl,
        reads,
        place,
      )

-- The records of a section, and the offset of each: the callback takes each in turn.
pub data Taken {ℓ} {S : Type ℓ} (f : ℕ → S → Rd S)
    : ℕ → Bytes → S → Option StrError → S → Type ℓ where
  no_more : {off : ℕ} {acc : S} {se : Option StrError} → Taken f off [] acc se acc
  next :
      {off : ℕ} {tl : Bytes} {acc acc' end : S} {se : Option StrError} {left : Bytes} (body : Bytes)
      → IsU64 (length body)
      → f off acc (clean body se) ≡ ret acc' (clean left se)
      → Taken f (off + length (put_record body)) tl acc' se end
      → Taken f off (put_record body ++ tl) acc se end

pub le-length-put_record : (body : Bytes) → length body ≤ length (put_record body)
unfolding put_record
le-length-put_record body = omega (arith, length-append (put_uleb (length body)) body)

pub length-put_record : (body : Bytes) → 1 ≤ length (put_record body)
unfolding put_record
length-put_record body =
    omega (arith, length-append (put_uleb (length body)) body, length-put_uleb (length body))

records_loop-Taken {ℓ} :
    {S : Type ℓ} (f : ℕ → S → Rd S) (fuel : ℕ) {off : ℕ} {b : Bytes} {acc end : S}
    {se : Option StrError}
    → length b ≤ fuel
    → Taken f off b acc se end
    → records_loop fuel f off b acc se ≡ done end se
records_loop-Taken f fuel le no_more = unfold records_loop in refl
records_loop-Taken f zero le (next {tl = tl} body fits reads more) =
    absurd (omega (arith, length-append (put_record body) tl, length-put_record body))
records_loop-Taken f (suc fuel) le (next {off} {tl} {acc} {se = se} body fits reads more) =
    records_loop_record f fuel off body tl acc se fits reads
    ∙ records_loop-Taken f fuel
        (omega (arith, length-append (put_record body) tl, length-put_record body)) more

-- A section of such records is read to its end with no error.
pub records-Taken {ℓ} :
    {S : Type ℓ} (f : ℕ → S → Rd S) {b : Bytes} {acc end : S} {se : Option StrError}
    → Taken f 0 b acc se end
    → records f b acc se ≡ done end se
unfolding records
records-Taken f {b} t = records_loop-Taken f (length b) (omega arith) t

after_record-ne-out_of_fuel {ℓ} :
    {S : Type ℓ} (off : ℕ) (st : Step S) (go : S → Option StrError → Records S)
    → ((acc : S) (se : Option StrError) → go acc se ≢ out_of_fuel)
    → after_record off st go ≢ out_of_fuel
after_record-ne-out_of_fuel off (stop e) go h = λ p. cc
after_record-ne-out_of_fuel off (ret acc rec) go h = elim (Option-cases rec.err) [
  | inl e ↦ rw e (h acc rec.str_err)
  | inr (x, e) ↦ rw e (λ p. cc)
]

records_loop-ne-out_of_fuel {ℓ} :
    {S : Type ℓ} (f : ℕ → S → Rd S) (fuel off : ℕ) (b : Bytes) (acc : S) (se : Option StrError)
    → length b ≤ fuel
    → records_loop fuel f off b acc se ≢ out_of_fuel
records_loop-ne-out_of_fuel f fuel off [] acc se le = unfold records_loop in λ e. cc
records_loop-ne-out_of_fuel f zero off (x ∷ b) acc se le = absurd (omega arith)
records_loop-ne-out_of_fuel f (suc fuel) off (x ∷ b) acc se le =
    elim (Option-cases (uvarint (x ∷ b))) [
      | inl e ↦ rw (records_loop_no_length f fuel off x b acc se e) (λ p. cc)
      | inr ((n, body), e) ↦ elim (Bool-cases (ltb (length body) n)) [
        | inl lt ↦ rw (records_loop_too_long f fuel off x b acc se e lt) (λ p. cc)
        | inr ge ↦ rw (records_loop_round f fuel off (x ∷ b) acc se e (ltb→le _ _ ge)) (
            after_record-ne-out_of_fuel off _ _ (λ acc' se'.
              records_loop-ne-out_of_fuel f fuel _ (drop n body) acc' se'
                (omega (arith, length-drop n body, uvarint_takes (x ∷ b) e))))
      ]
    ]

-- The loop of `records` ends on every section, whatever its bytes and whatever the callback does.
pub records-ne-out_of_fuel {ℓ} :
    {S : Type ℓ} (f : ℕ → S → Rd S) (b : Bytes) (acc : S) (se : Option StrError)
    → records f b acc se ≢ out_of_fuel
unfolding records
records-ne-out_of_fuel f b acc se =
    records_loop-ne-out_of_fuel f (length b) 0 b acc se (omega arith)
