-- ===== src/Gocobj/Codec/Reads.antt =====
-- Readers of codec.go on the bytes that they expect, with any bytes behind these.
use goc.Prelude.{ℕ, ◌≤◌, suc, ◌≡◌, refl, ◌∙◌, Option, none, List, [], ◌∷◌, ◌++◌, foldl}
use goc.Prelude.{
  arith, sym, append-nil, append_assoc, length, length-append, take-append, drop-append,
}
use goc.Prelude.Int.{ℤ, IsI64}
use goc.Gocobj.Codec.{Bytes, IsU64, StrError, Buf, ret, Rd, ◌>>=◌, pure}
use goc.Gocobj.Codec.{u8_at, read_u8, read_uleb, read_sleb, read_bytes, repeat}
use goc.Gocobj.Codec.{put_u8, put_uleb, put_sleb}
use goc.Gocobj.Codec.Varint.{uvarint-put_uleb}
use goc.Gocobj.Codec.Sleb.{sleb_loop-put_sleb}

-- A reader's state with no error in the record.
abbrev pub clean : Bytes → Option StrError → Buf
clean rest se = record { b = rest; err = none; str_err = se }

-- `m` reads `bs` as `a`, takes no byte more and records no error.
pub record Reads {ℓ} {A : Type ℓ} (m : Rd A) (bs : Bytes) (a : A) : Type ℓ where
  pub at : (rest : Bytes) (se : Option StrError) → m (clean (bs ++ rest) se) ≡ ret a (clean rest se)

module _ {ℓ} {A : Type ℓ} where
  pub Reads-pure : (a : A) → Reads (pure a) [] a
  Reads-pure a = record { at = λ rest se. refl }

  pub Reads-bind {κ} :
      {B : Type κ} {m : Rd A} (f : A → Rd B) {bs cs : Bytes} {a : A} {b : B}
      → Reads m bs a
      → Reads (f a) cs b
      → Reads (m >>= f) (bs ++ cs) b
  Reads-bind f {bs = bs} {cs = cs} p q = record {
    at = λ rest se. rw (append_assoc bs cs rest, p.at (cs ++ rest) se) (q.at rest se);
  }

pub Reads-u8 : (v : ℕ) → Reads read_u8 (put_u8 v) v
unfolding read_u8 u8_at put_u8
Reads-u8 v = record { at = λ rest se. refl }

-- From bytes that begin with what `enc.uleb` writes for a uint64, `buf.uleb` returns that number, leaves the
-- bytes behind it, and keeps the errors recorded before.
pub read_uleb-put_uleb :
    (v : ℕ) (rest : Bytes) (r : Buf)
    → IsU64 v
    → read_uleb (record r { b = put_uleb v ++ rest }) ≡ ret v (record r { b = rest })
unfolding read_uleb
read_uleb-put_uleb v rest r h = rw (uvarint-put_uleb v rest h, read_uleb)

pub Reads-uleb : (v : ℕ) → IsU64 v → Reads read_uleb (put_uleb v) v
unfolding read_uleb
Reads-uleb v h = record { at = λ rest se. rw (uvarint-put_uleb v rest h, read_uleb) }

pub Reads-sleb : (v : ℤ) → IsI64 v → Reads read_sleb (put_sleb v) v
unfolding read_sleb
Reads-sleb v h = record { at = λ rest se. rw (sleb_loop-put_sleb v rest h, read_sleb) }

pub Reads-bytes : (bs : Bytes) → Reads (read_bytes (length bs)) bs bs
unfolding read_bytes
Reads-bytes bs = record {
  at = λ rest se. ground (arith, length-append bs rest, take-append bs rest, drop-append bs rest);
}

-- `codes` are the codes of the items `xs`, each of which the loop's body takes into its state.
pub data Coded {ℓ κ} {S : Type ℓ} {X : Type κ} (body : S → Rd S) (step : S → X → S)
    : ℕ → Bytes → List X → Type (ℓ ⊔ κ) where
  none_left : Coded body step 0 [] []
  one_more :
      {n : ℕ} {codes : Bytes} {xs : List X} (code : Bytes) (x : X)
      → ((acc : S) → Reads (body acc) code (step acc x))
      → 1 ≤ length code
      → Coded body step n codes xs
      → Coded body step (suc n) (code ++ codes) (x ∷ xs)

-- A loop over `n` items reads the codes of `n` items, one after the other.
pub Reads-repeat {ℓ κ} :
    {S : Type ℓ} {X : Type κ} (body : S → Rd S) (step : S → X → S) (acc : S) {n : ℕ} {codes : Bytes}
    {xs : List X}
    → Coded body step n codes xs
    → Reads (repeat n body acc) codes (foldl step acc xs)
unfolding repeat
Reads-repeat body step acc none_left = record { at = λ rest se. refl }
Reads-repeat body step acc (one_more {n} code x h _ c) =
    let q = Reads-bind (repeat n body) (h acc) (Reads-repeat body step (step acc x) c) in
    record { at = λ rest se. q.at rest se }

pub le-length-Coded {ℓ κ} :
    {S : Type ℓ} {X : Type κ} {body : S → Rd S} {step : S → X → S} {n : ℕ} {codes : Bytes}
    {xs : List X}
    → Coded body step n codes xs
    → n ≤ length codes
le-length-Coded none_left = omega arith
le-length-Coded (one_more {codes = codes} code x _ h c) =
    omega (arith, le-length-Coded c, length-append code codes)

-- Items that are appended to a list.
pub foldl-push {ℓ} :
    {X : Type ℓ} (acc xs : List X) → foldl (λ ys x. ys ++ (x ∷ [])) acc xs ≡ acc ++ xs
foldl-push acc [] = sym (append-nil acc)
foldl-push acc (x ∷ xs) = foldl-push (acc ++ (x ∷ [])) xs ∙ append_assoc acc (x ∷ []) xs
