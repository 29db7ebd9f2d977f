-- ===== src/Goobj/Write/Strings.antt =====
-- The string table of the writer: where `strs` says, the string stands.
use goc.Prelude.{
  ℕ, ◌+◌, ◌-◌, ◌^◌, ◌≤◌, ◌<◌, ◌≡◌, refl, sym, ap, ◌∙◌, arith, true, ◌&&◌, leb, append-nil,
  Bool-cases, Option-cases, inl, inr, bytes_eq, bytes_eq→eq,
}
use goc.Prelude.{
  none, some, [], ◌++◌, length, append_assoc, length-append, take-append, drop-append,
}
use goc.Gocobj.Codec.{Bytes}
use goc.Gometa.{find}
use goc.Goobj.Le.{le_bytes, le_at, length-le_bytes, le_at-le_bytes}
use goc.Goobj.Write.{Writer, put, off, added_string, add_string}
use goc.Goobj.Read.{w32, slice, str_at}

-- The bytes `s` stand in `b` at `at`.
pub record Holds (b : Bytes) (at : ℕ) (s : Bytes) : Type 0 where
  pub before : Bytes
  pub behind : Bytes
  pub eq : b ≡ before ++ (s ++ behind)
  pub place : length before ≡ at

-- A table below 4 GiB, whose entries are right.
pub record IsTable (w : Writer) : Type 0 where
  pub fits : length w.b < 2 ^ 32
  pub held : (s : Bytes) (at : ℕ) → find w.strs s ≡ some at → Holds w.b at s

pub Holds-append : {b : Bytes} {at : ℕ} (s more : Bytes) → Holds b at s → Holds (b ++ more) at s
Holds-append s more h = record {
  before = h.before;
  behind = h.behind ++ more;
  eq = rw h.eq (
      append_assoc h.before (s ++ h.behind) more
      ∙ ap (λ (t : Bytes). h.before ++ t) (append_assoc s h.behind more));
  place = h.place;
}

pub put-IsTable :
    (bs : Bytes) (w : Writer) → length (w.b ++ bs) < 2 ^ 32 → IsTable w → IsTable (put bs w)
put-IsTable bs w fits h = record { fits = fits; held = λ s at e. Holds-append s bs (h.held s at e) }

pub at_end : (s : Bytes) (w : Writer) (at : ℕ) → length w.b ≡ at → Holds (w.b ++ s) at s
at_end s w at end = record { before = w.b; behind = []; eq = rw (append-nil s) refl; place = end }

new_string-IsTable :
    (s : Bytes) (w : Writer)
    → length (w.b ++ s) < 2 ^ 32
    → IsTable w
    → IsTable (added_string none s w)
unfolding find
new_string-IsTable s w fits h = record {
  fits = fits;
  held = λ s' at e'. elim (Bool-cases (bytes_eq s s')) [
    | inl t ↦
        let here : some (off w) ≡ some at = rw t at e' in
        let same : off w ≡ at = ground (arith, here) in
        let end : length w.b ≡ at = omega (arith, same, h.fits) in
        rw (← bytes_eq→eq s s' t) (at_end s w at end)
    | inr t ↦ Holds-append s' s (h.held s' at (rw t at e'))
  ];
}

-- `addString` keeps the table right.
pub add_string-IsTable :
    (s : Bytes) (w : Writer) → length (w.b ++ s) < 2 ^ 32 → IsTable w → IsTable (add_string s w)
unfolding add_string
add_string-IsTable s w fits h = elim (Option-cases (find w.strs s)) [
  | inl e ↦ rw e (new_string-IsTable s w fits h)
  | inr (at, e) ↦ rw e h
]

slice_held :
    (before s behind : Bytes)
    → slice (before ++ (s ++ behind)) (length before) (length before + length s) ≡ some s
unfolding slice
slice_held before s behind =
    let b = before ++ (s ++ behind) in
    let fits : (leb (length before) (length before + length s)
          && leb (length before + length s) (length b))
        ≡ true =
      ground (arith, length-append before (s ++ behind), length-append s behind) in
    let n : length before + length s - length before ≡ length s = omega arith in
    rw (fits, n, drop-append before (s ++ behind), take-append s behind) refl

pub Holds-slice :
    {b : Bytes} {at : ℕ} (s : Bytes) → Holds b at s → slice b at (at + length s) ≡ some s
Holds-slice s h = rw (h.eq, ← h.place) (slice_held h.before s h.behind)

pub Holds-length : {b : Bytes} {at : ℕ} (s : Bytes) → Holds b at s → at + length s ≤ length b
Holds-length s h = omega (
  arith,
  ap length h.eq,
  length-append h.before (s ++ h.behind),
  length-append s h.behind,
  h.place,
)

-- An integer that stands in the bytes is read.
pub Holds-int :
    {b : Bytes} {at : ℕ} (n v : ℕ) → v < 256 ^ n → Holds b at (le_bytes n v) → le_at n b at ≡ some v
Holds-int n v fits h = rw (h.eq, ← h.place) (le_at-le_bytes n v h.before h.behind fits)

-- A part of what stands.
pub Holds-first : {b : Bytes} {at : ℕ} (s t : Bytes) → Holds b at (s ++ t) → Holds b at s
Holds-first s t h = record {
  before = h.before;
  behind = t ++ h.behind;
  eq = h.eq ∙ ap (λ (x : Bytes). h.before ++ x) (append_assoc s t h.behind);
  place = h.place;
}

pub Holds-second :
    {b : Bytes} {at : ℕ} (at' : ℕ) (s t : Bytes)
    → at' ≡ at + length s
    → Holds b at (s ++ t)
    → Holds b at' t
Holds-second at' s t place h = record {
  before = h.before ++ s;
  behind = h.behind;
  eq =
      h.eq
      ∙ (ap (λ (x : Bytes). h.before ++ x) (append_assoc s t h.behind)
          ∙ sym (append_assoc h.before s (t ++ h.behind)));
  place = omega (arith, length-append h.before s, h.place, place);
}

-- A reference to a string that the file holds is read as the string.
pub str_at-Holds :
    (b s : Bytes) (o at : ℕ)
    → length b < 2 ^ 32
    → Holds b o (le_bytes 4 (length s) ++ le_bytes 4 at)
    → Holds b at s
    → str_at b o ≡ some s
unfolding str_at
str_at-Holds b s o at fits ref held =
    let ref_long = Holds-length _ ref in
    let both = length-append (le_bytes 4 (length s)) (le_bytes 4 at) in
    let len4 = length-le_bytes 4 (length s) in
    let at4 = length-le_bytes 4 at in
    let long = Holds-length s held in
    let second : w32 (o + 4) ≡ o + 4 = omega (arith, ref_long, both, len4, at4, fits) in
    let end : w32 (at + length s) ≡ at + length s = omega (arith, long, fits) in
    rw
      (
        Holds-int 4 (length s) (omega (arith, long, fits))
            (Holds-first (le_bytes 4 (length s)) (le_bytes 4 at) ref),
        second,
        Holds-int 4 at (omega (arith, long, fits)) (
            Holds-second (o + 4) (le_bytes 4 (length s)) (le_bytes 4 at) (omega (arith, len4)) ref),
        end,
      )
      (Holds-slice s held)
