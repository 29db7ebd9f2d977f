-- ===== src/Gocobj/RoundTrip/AddTable.antt =====
-- The writer's `pcv`, `gcm` and `inl` sections (internal/gocobj/write.go): one table more.
use goc.Prelude.{
  ℕ, ◌+◌, ◌-◌, ◌≤◌, ◌<◌, ◌≡◌, refl, arith, ◌==◌, true, false, Bool-cases, inl, inr, Option, none,
  some, [], ◌∷◌, ◌++◌, length, length-append, append-nil, append_assoc,
}
use goc.Gocobj.Codec.{Bytes, IsU64, StrError, Rd, ret, put_record}
use goc.Gocobj.Codec.Reads.{clean}
use goc.Gocobj.Codec.RecordLoop.{Taken, no_more, next, le-length-put_record, length-put_record}
use goc.Gocobj.Read.{At, find_at}
use goc.Gocobj.Write.{Strings, Enc, as_record, add_table}
use goc.Gocobj.RoundTrip.Strings.{Extends, Extends-refl, IsTable}
use goc.Gocobj.RoundTrip.Encodes.{Encodes}

-- Records that are taken one after the other.
pub Taken-append {ℓ} :
    {S : Type ℓ} {f : ℕ → S → Rd S} {off : ℕ} {b c : Bytes} {acc mid end : S} {se : Option StrError}
    → Taken f off b acc se mid
    → Taken f (off + length b) c mid se end
    → Taken f off (b ++ c) acc se end
Taken-append {off = off} no_more more = let e : off + 0 ≡ off = omega arith in rw e at more
Taken-append {f = f} {off = off} {c = c} {mid = mid} {end = end} {se = se}
      (next {tl = tl} body fits reads rest) more =
    let e : off + length (put_record body ++ tl) ≡ off + length (put_record body) + length tl =
      omega (arith, length-append (put_record body) tl) in
    rw (append_assoc (put_record body) tl c)
      (next body fits reads (Taken-append rest (rw e at more)))

pub Taken-last {ℓ} :
    {S : Type ℓ} {f : ℕ → S → Rd S} {b : Bytes} {acc mid end : S} {se : Option StrError}
    {left : Bytes} (body : Bytes)
    → Taken f 0 b acc se mid
    → IsU64 (length body)
    → f (length b) mid (clean body se) ≡ ret end (clean left se)
    → Taken f 0 (b ++ put_record body) acc se end
Taken-last {b = b} body before fits reads =
    let z : 0 + length b ≡ length b = omega arith in
    Taken-append before (rw (z, ← append-nil (put_record body)) (next body fits reads no_more))

-- The tables stand below an offset.
abbrev pub Below {ℓ} : {A : Type ℓ} → ℕ → At A → Type 0
Below n [] = true ≡ true
Below n (e ∷ m) = (e.0 < n) × Below n m

pub Below-le {ℓ} : {A : Type ℓ} (n k : ℕ) (m : At A) → n ≤ k → Below n m → Below k m
Below-le n k [] le h = refl
Below-le n k (e ∷ m) le h = (omega (arith, h.0), Below-le n k m le h.1)

find_at-Below {ℓ} :
    {A : Type ℓ} (n k : ℕ) (m : At A) {a : A} → Below n m → find_at m k ≡ some a → k < n
find_at-Below n k [] h e = absurd (ground arith)
find_at-Below n k ((k', a') ∷ m) h e = elim (Bool-cases (k' == k)) [
  | inl t ↦ ground (arith, h.0, t)
  | inr f ↦ find_at-Below n k m h.1 (rw f at e)
]

-- A field that refers to a table, from 1, or to none.
abbrev pub Refers : {A : Type 0} → At A → ℕ → Option A → Type 0
Refers m off none = off ≡ 0
Refers m off (some a) = (0 < off) × (find_at m (off - 1) ≡ some a)

-- Every table of `m` stands at its place in `m'`.
pub record Keeps {A : Type 0} (m m' : At A) : Type 0 where
  pub at : (k : ℕ) (a : A) → find_at m k ≡ some a → find_at m' k ≡ some a

pub Keeps-refl : {A : Type 0} (m : At A) → Keeps m m
Keeps-refl m = record { at = λ k a e. e }

pub Keeps-trans : {A : Type 0} {m m' m'' : At A} → Keeps m m' → Keeps m' m'' → Keeps m m''
Keeps-trans p q = record { at = λ k a e. q.at k a (p.at k a e) }

pub Refers-Keeps :
    {A : Type 0} {m m' : At A} (off : ℕ) (o : Option A)
    → Refers m off o
    → Keeps m m'
    → Refers m' off o
Refers-Keeps off none h k = h
Refers-Keeps off (some a) h k = (h.0, k.at (off - 1) a h.1)

Keeps-cons : {A : Type 0} (n : ℕ) (a : A) (m : At A) → Below n m → Keeps m ((n, a) ∷ m)
Keeps-cons n a m below = record {
  at = λ k b e.
      let lt = find_at-Below n k m below e in
      let differs : n == k ≡ false = ground (arith, lt) in rw differs e;
}

-- The tables with one more at `n`.
abbrev pub with_table : {A : Type 0} → Option A → ℕ → At A → At A
with_table none n m = m
with_table (some a) n m = (n, a) ∷ m

-- The reference `r.0`, the section `r.1` and the strings `r.2` after one table more.
pub record Added {A : Type 0} (read : Bytes → ℕ → At A → Rd (At A)) (o : Option A) (section : Bytes)
    (st : Strings) (r : ℕ × Bytes × Strings) : Type 0 where
  pub table : IsTable r.2
  pub grows : Extends st.strs r.2.strs
  pub taken :
      (tab : Bytes) (m : At A) (se : Option StrError)
      → Extends r.2.strs tab
      → IsU64 (length tab)
      → IsU64 (length r.1)
      → Taken (read tab) 0 section [] se m
      → Taken (read tab) 0 r.1 [] se (with_table o (length section) m)

-- The part of it that holds of all tables.
pub record Placed {A : Type 0} (o : Option A) (section : Bytes) (r : ℕ × Bytes × Strings)
    : Type 0 where
  pub longer : length section ≤ length r.1
  pub inside : r.0 ≤ length r.1
  pub refers : (m : At A) → Refers (with_table o (length section) m) r.0 o
  pub keeps : (m : At A) → Below (length section) m → Keeps m (with_table o (length section) m)
  pub below :
      (m : At A) → Below (length section) m → Below (length r.1) (with_table o (length section) m)

pub add_table-Placed :
    {A : Type 0} (f : A → Enc) (o : Option A) (section : Bytes) (st : Strings)
    → Placed o section (add_table f o section st)
unfolding add_table as_record
add_table-Placed f none section st = record {
  longer = omega arith;
  inside = omega arith;
  refers = λ m. refl;
  keeps = λ m h. Keeps-refl m;
  below = λ m h. h;
}
add_table-Placed f (some a) section st =
    let body = (f a st).0 in
    let n = length section in
    let long = length-append section (put_record body) in
    let one = length-put_record body in
    let back : n + 1 - 1 ≡ n = omega arith in
    let same : n == n ≡ true = ground arith in
    record {
      longer = omega (arith, long);
      inside = omega (arith, long, one);
      refers = λ m. (omega arith, rw (back, same) refl);
      keeps = λ m h. Keeps-cons n a m h;
      below = λ m h. (omega (arith, long, one), Below-le n _ m (omega (arith, long)) h);
    }

-- The table, if there is one, has the property.
abbrev pub Holds : {A : Type 0} → (A → Type 0) → Option A → Type 0
Holds P none = true ≡ true
Holds P (some a) = P a

pub add_table-Added :
    {A : Type 0} (f : A → Enc) (read : Bytes → ℕ → At A → Rd (At A)) (P : A → Type 0) (o : Option A)
    (section : Bytes) (st : Strings)
    → ((a : A) (off : ℕ) (m : At A) → P a → Encodes (f a) (λ tab. read tab off m) ((off, a) ∷ m))
    → Holds P o
    → IsTable st
    → Added read o section st (add_table f o section st)
unfolding add_table as_record
add_table-Added f read P none section st enc h t = record {
  table = t;
  grows = Extends-refl st.strs;
  taken = λ tab m se ext small fits h. h;
}
add_table-Added f read P (some a) section st enc h t =
    let w = (enc a 0 [] h).at st t in
    let body = (f a st).0 in
    let long = length-append section (put_record body) in
    record {
      table = w.table;
      grows = w.grows;
      taken = λ tab m se ext small fits before.
          let w' = (enc a (length section) m h).at st t in
          let r = (w'.reads tab ext small).at [] se in
          Taken-last body before (omega (arith, long, fits, le-length-put_record body))
            (rw (append-nil body) at r);
    }
