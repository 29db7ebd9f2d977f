-- ===== src/Gocobj/Codec.antt =====
-- internal/gocobj/codec.go: reading the fields of one record (`buf`), splitting a section into
-- records, and writing both (`enc`). A byte slice is a list of numbers below 256.
pub mod Varint
pub mod Sleb
pub mod Reads
pub mod RecordLoop
use goc.Prelude.{
  ℕ, zero, suc, ◌+◌, ◌-◌, ◌*◌, ◌/◌, ◌%◌, ◌^◌, ◌<◌, bit_and, bit_or, Bool, true, false,
}
use goc.Prelude.{not, ◌&&◌, ◌||◌, Option, none, some, List, [], ◌∷◌, ◌++◌, length, take, drop}
use goc.Prelude.{ltb, leb, ◌==◌, if◌then◌else◌}
use goc.Prelude.Int.{ℤ, pos, negsuc, signed64, eq_ℤ}

abbrev pub Bytes : Type 0
Bytes = List ℕ

abbrev pub IsByte : ℕ → Type 0
IsByte b = b < 256

abbrev pub IsU64 : ℕ → Type 0
IsU64 v = v < 2 ^ 64

-- What a field read can record in `buf.err`, and what `str` of Parse can record in `strErr`.
pub data ReadError : Type 0 where
  short sleb_overflow : ReadError

pub data StrError : Type 0 where
  out_of_range not_terminated : ℕ → StrError

-- `buf`, with the variable `strErr` of Parse that the readers' calls of `str` write.
pub record Buf : Type 0 where
  pub b : Bytes
  pub err : Option ReadError
  pub str_err : Option StrError

-- A reader goes on with a value, or its callback returns an error at once.
pub data Step {ℓ} (A : Type ℓ) : Type ℓ where
  ret : A → Buf → Step A
  stop : ReadError → Step A

abbrev pub Rd {ℓ} : Type ℓ → Type ℓ
Rd A = Buf → Step A

abbrev pub bind {ℓ κ} : {A : Type ℓ} {B : Type κ} → Step A → (A → Rd B) → Step B
bind (ret a s) f = f a s
bind (stop e) f = stop e

infixl 5 ◌>>=◌ ◌>>◌
abbrev pub ◌>>=◌ {ℓ κ} : {A : Type ℓ} {B : Type κ} → Rd A → (A → Rd B) → Rd B
◌>>=◌ m f s = bind (m s) f

abbrev pub ◌>>◌ {ℓ} : {B : Type ℓ} → Rd (Unit {0}) → Rd B → Rd B
◌>>◌ m k s = bind (m s) (λ _. k)

abbrev pub pure {ℓ} : {A : Type ℓ} → A → Rd A
pure a s = ret a s

abbrev pub fail : ReadError → Buf → Buf
fail e r = record r { err = elim r.err [ none ↦ some e | some e' ↦ some e' ] }

u8_at : Bytes → Rd ℕ
u8_at [] r = ret 0 (fail short r)
u8_at (v ∷ rest) r = ret v (record r { b = rest })

unfoldable pub read_u8 : Rd ℕ
unfolding u8_at
read_u8 r = u8_at r.b r

-- encoding/binary's Uvarint: `none` is its count n <= 0, and otherwise the rest is `b[n:]`.
unfoldable pub uvarint_loop : Bytes → ℕ → ℕ → ℕ → Option (ℕ × Bytes)
uvarint_loop [] i x s = none
uvarint_loop (b ∷ rest) i x s =
    let more = uvarint_loop rest (i + 1) (bit_or x (bit_and b 0x7f * 2 ^ s % 2 ^ 64)) (s + 7) in
    if i == 10
    then none
    else if ltb b 0x80
    then (if i == 9 && ltb 1 b then none else some (bit_or x (b * 2 ^ s % 2 ^ 64), rest))
    else more

unfoldable pub uvarint : Bytes → Option (ℕ × Bytes)
uvarint b = uvarint_loop b 0 0 0

unfoldable pub read_uleb : Rd ℕ
read_uleb r = elim (uvarint r.b) [
  | none ↦ ret 0 (record (fail short r) { b = [] })
  | some (v, rest) ↦ ret v (record r { b = rest })
]

-- The loop of `buf.sleb`: the value, the error and the bytes that are left. `v` is the bit pattern
-- of the int64.
unfoldable pub sleb_loop : Bytes → ℕ → ℕ → ℤ × Option ReadError × Bytes
sleb_loop [] v shift = (pos 0, some short, [])
sleb_loop (c ∷ rest) v shift =
    let v' = bit_or v (bit_and c 0x7f * 2 ^ shift % 2 ^ 64) in
    let shift' = shift + 7 in
    let more = sleb_loop rest v' shift' in
    if bit_and c 0x80 == 0
    then (
      signed64 (
          if ltb shift' 64 && not (bit_and c 0x40 == 0)
          then bit_or v' (2 ^ 64 - 2 ^ shift')
          else v'),
      none,
      rest,
    )
    else if leb 64 shift'
    then (pos 0, some sleb_overflow, rest)
    else more

abbrev sleb_done : ℤ × Option ReadError × Bytes → Rd ℤ
sleb_done (v, none, rest) r = ret v (record r { b = rest })
sleb_done (v, some e, rest) r = ret v (record (fail e r) { b = rest })

unfoldable pub read_sleb : Rd ℤ
read_sleb r = sleb_done (sleb_loop r.b 0 0) r

unfoldable pub read_bytes : ℕ → Rd Bytes
read_bytes n r =
    if ltb (length r.b) n
    then ret [] (record (fail short r) { b = [] })
    else ret (take n r.b) (record r { b = drop n r.b })

-- `for i := 0; i < n && r.err == nil; i++`, and the same counting `n` down.
unfoldable pub repeat {ℓ} : {S : Type ℓ} → ℕ → (S → Rd S) → S → Rd S
repeat zero body acc r = ret acc r
repeat (suc n) body acc r = elim r.err [
  | some e ↦ ret acc r
  | none ↦ bind (body acc r) (λ acc'. repeat n body acc')
]

-- `enc`: each method appends the bytes below to `e.b`.
unfoldable pub put_u8 : ℕ → Bytes
put_u8 v = v ∷ []

-- encoding/binary's AppendUvarint, whose loop takes at most 10 rounds on a uint64.
unfoldable pub uvarint_groups : ℕ → ℕ → Bytes
uvarint_groups zero x = (x % 256) ∷ []
uvarint_groups (suc k) x =
    let rest = uvarint_groups k (x / 128) in
    if ltb x 0x80 then (x % 256) ∷ [] else bit_or (x % 256) 0x80 ∷ rest

unfoldable pub put_uleb : ℕ → Bytes
put_uleb v = uvarint_groups 9 v

-- byte(v & 0x7f) and v >> 7 of an int64; `negsuc n` has the complement of the bits of `n`.
abbrev pub low_group : ℤ → ℕ
low_group (pos n) = n % 128
low_group (negsuc n) = 127 - n % 128

abbrev pub shift_group : ℤ → ℤ
shift_group (pos n) = pos (n / 128)
shift_group (negsuc n) = negsuc (n / 128)

-- The loop of `enc.sleb`, which takes at most 10 rounds on an int64.
unfoldable pub sleb_groups : ℕ → ℤ → Bytes
sleb_groups zero v = low_group v ∷ []
sleb_groups (suc k) v =
    let c = low_group v in
    let v' = shift_group v in
    let rest = sleb_groups k v' in
    if (eq_ℤ v' (pos 0) && bit_and c 0x40 == 0) || (eq_ℤ v' (negsuc 0) && not (bit_and c 0x40 == 0))
    then c ∷ []
    else bit_or c 0x80 ∷ rest

unfoldable pub put_sleb : ℤ → Bytes
put_sleb v = sleb_groups 9 v

-- `enc.record` appends this; the offset it returns is the length before.
unfoldable pub put_record : Bytes → Bytes
put_record body = put_uleb (length body) ++ body

-- `records`. Its two errors carry the offset of the record.
pub data RecordError : Type 0 where
  bad_length : ℕ → RecordError
  in_record : ℕ → ReadError → RecordError

pub data Records {ℓ} (S : Type ℓ) : Type ℓ where
  done : S → Option StrError → Records S
  failed : RecordError → Records S
  out_of_fuel : Records S

-- One round: the callback `f` has read the record `rec`, the section goes on with `rest`.
abbrev pub after_record {ℓ} :
    {S : Type ℓ} → ℕ → Step S → (S → Option StrError → Records S) → Records S
after_record off (stop e) go = failed (in_record off e)
after_record off (ret acc rec) go = elim rec.err [
  | some e ↦ failed (in_record off e)
  | none ↦ go acc rec.str_err
]

pub records_loop {ℓ} :
    {S : Type ℓ} → ℕ → (ℕ → S → Rd S) → ℕ → Bytes → S → Option StrError → Records S
records_loop fuel f off [] acc se = done acc se
records_loop zero f off (x ∷ xs) acc se = out_of_fuel
records_loop (suc fuel) f off (x ∷ xs) acc se = elim (uvarint (x ∷ xs)) [
  | none ↦ failed (bad_length off)
  | some (n, body) ↦
      if ltb (length body) n
      then failed (bad_length off)
      else after_record off (f off acc (record { b = take n body; err = none; str_err = se }))
          (λ acc' se'.
            records_loop fuel f (off + (length (x ∷ xs) - length body) + n) (drop n body) acc' se')
]

-- Each record takes a byte at least, so the length of the section is fuel enough.
pub records {ℓ} : {S : Type ℓ} → (ℕ → S → Rd S) → Bytes → S → Option StrError → Records S
records f b acc se = records_loop (length b) f 0 b acc se
