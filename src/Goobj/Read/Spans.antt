-- ===== src/Goobj/Read/Spans.antt =====
-- The index blocks of an object and what the reader finds by them.
use goc.Prelude.{
  ℕ, zero, suc, ◌+◌, ◌*◌, ◌^◌, ◌≤◌, ◌<◌, ◌≡◌, refl, sym, ap, ◌∙◌, arith, append_assoc, append-nil,
  some, List, [], ◌∷◌, ◌++◌, length, length-append, get_elem?, codes,
}
use goc.Gocobj.Codec.{Bytes}
use goc.Goobj.Le.{le_bytes, le_at, length-le_bytes}
use goc.Goobj.Link.{Link, done}
use goc.Goobj.Write.{Writer, put, put_u32}
use goc.Goobj.Write.Object.{put_index, each_sym}
use goc.Goobj.Write.Strings.{Holds, Holds-first, Holds-second, Holds-int, Holds-length, Holds-slice}
use goc.Goobj.Read.{Reader, w32, span, data_of, at_block}

-- The words of an index, and what the symbols before the `i`-th have.
pub index_bytes : (ℕ → ℕ) → List ℕ → ℕ → Bytes
index_bytes count [] n = le_bytes 4 n
index_bytes count (a ∷ syms) n = le_bytes 4 n ++ index_bytes count syms (n + count a)

sum_before : (ℕ → ℕ) → List ℕ → ℕ → ℕ
sum_before count [] i = 0
sum_before count (a ∷ syms) zero = 0
sum_before count (a ∷ syms) (suc i) = count a + sum_before count syms i

total : (ℕ → ℕ) → List ℕ → ℕ
total count [] = 0
total count (a ∷ syms) = count a + total count syms

pub put_index-bytes :
    (count : ℕ → ℕ) (syms : List ℕ) (n : ℕ) (w : Writer)
    → put_index count syms n w ≡ put (index_bytes count syms n) w
unfolding put_index index_bytes
put_index-bytes count [] n w = refl
put_index-bytes count (a ∷ syms) n w =
    put_index-bytes count syms (n + count a) (put_u32 n w)
    ∙ ap (λ (t : Bytes). record w { b = t })
        (append_assoc w.b (le_bytes 4 n) (index_bytes count syms (n + count a)))

sum_before-total :
    (count : ℕ → ℕ) (syms : List ℕ) (i : ℕ) → sum_before count syms i ≤ total count syms
unfolding sum_before total
sum_before-total count [] i = omega arith
sum_before-total count (a ∷ syms) zero = omega arith
sum_before-total count (a ∷ syms) (suc i) = omega (arith, sum_before-total count syms i)

sum_before-zero : (count : ℕ → ℕ) (syms : List ℕ) → sum_before count syms 0 ≡ 0
unfolding sum_before
sum_before-zero count [] = refl
sum_before-zero count (a ∷ syms) = refl

sum_before-next :
    (count : ℕ → ℕ) (syms : List ℕ) (i a : ℕ)
    → get_elem? syms i ≡ some a
    → sum_before count syms (suc i) ≡ sum_before count syms i + count a
unfolding sum_before
sum_before-next count [] i a h = absurd (ground arith)
sum_before-next count (x ∷ syms) zero a h =
    let same : x ≡ a = ground (arith, h) in rw same (omega (arith, sum_before-zero count syms))
sum_before-next count (x ∷ syms) (suc i) a h = omega (arith, sum_before-next count syms i a h)

-- The word of the `i`-th symbol, or the last one.
word_at :
    (syms : List ℕ) {b : Bytes} (count : ℕ → ℕ) (i n o : ℕ)
    → i ≤ length syms
    → n + total count syms < 2 ^ 32
    → Holds b o (index_bytes count syms n)
    → le_at 4 b (o + 4 * i) ≡ some (n + sum_before count syms i)
unfolding index_bytes sum_before total
word_at [] count i n o le fits h =
    let start : o + 4 * i ≡ o = omega arith in
    let same : n + 0 ≡ n = omega arith in rw (start, same) (Holds-int 4 n (omega (arith, fits)) h)
word_at (a ∷ syms) count zero n o le fits h =
    let start : o + 4 * 0 ≡ o = omega arith in
    let same : n + 0 ≡ n = omega arith in
    rw (start, same) (Holds-int 4 n (omega (arith, fits)) (Holds-first (le_bytes 4 n) _ h))
word_at (a ∷ syms) count (suc i) n o le fits h =
    let next = Holds-second (o + 4) (le_bytes 4 n) _ (omega (arith, length-le_bytes 4 n)) h in
    let place : o + 4 * suc i ≡ o + 4 + 4 * i = omega arith in
    let value : n + (count a + sum_before count syms i) ≡ n + count a + sum_before count syms i =
      omega arith in
    rw (place, value)
      (word_at syms count i (n + count a) (o + 4) (omega (arith, le)) (omega (arith, fits)) next)

get-below : (syms : List ℕ) (i a : ℕ) → get_elem? syms i ≡ some a → i < length syms
get-below [] i a h = absurd (ground arith)
get-below (x ∷ syms) zero a h = omega arith
get-below (x ∷ syms) (suc i) a h = omega (arith, get-below syms i a h)

length-index_bytes :
    (count : ℕ → ℕ) (syms : List ℕ) (n : ℕ)
    → length (index_bytes count syms n) ≡ 4 * length syms + 4
unfolding index_bytes
length-index_bytes count [] n = omega (arith, length-le_bytes 4 n)
length-index_bytes count (a ∷ syms) n = omega (
  arith,
  length-append (le_bytes 4 n) (index_bytes count syms (n + count a)),
  length-le_bytes 4 n,
  length-index_bytes count syms (n + count a),
)

-- Both words of a symbol are in the file.
index-inside :
    (syms : List ℕ) {b : Bytes} (count : ℕ → ℕ) (i o : ℕ)
    → i < length syms
    → Holds b o (index_bytes count syms 0)
    → o + 4 * i + 8 ≤ length b
index-inside syms count i o below h =
    omega (arith, Holds-length _ h, length-index_bytes count syms 0, below)

module _ (l : Link) where
  abbrev pub size_of : ℕ → ℕ
  size_of a = length (l.heap a).p

  pub contents : List ℕ → Bytes
  contents [] = []
  contents (a ∷ syms) = (l.heap a).p ++ contents syms

  length-contents : (syms : List ℕ) → length (contents syms) ≡ total size_of syms
  unfolding contents total
  length-contents [] = refl
  length-contents (a ∷ syms) =
      omega (arith, length-append (l.heap a).p (contents syms), length-contents syms)

  pub each_sym-contents :
      (syms : List ℕ) (w : Writer)
      → each_sym (λ a w'. done (put (l.heap a).p w')) syms w ≡ done (put (contents syms) w)
  unfolding each_sym contents
  each_sym-contents [] w = ap (λ (t : Bytes). done (record w { b = t })) (sym (append-nil w.b))
  each_sym-contents (a ∷ syms) w =
      each_sym-contents syms (put (l.heap a).p w)
      ∙ ap (λ (t : Bytes). done (record w { b = t }))
          (append_assoc w.b (l.heap a).p (contents syms))

  contents_at :
      (syms : List ℕ) {b : Bytes} (i a o : ℕ)
      → get_elem? syms i ≡ some a
      → Holds b o (contents syms)
      → Holds b (o + sum_before size_of syms i) (l.heap a).p
  unfolding contents sum_before
  contents_at [] i a o e h = absurd (ground arith)
  contents_at (x ∷ syms) zero a o e h =
      let same : x ≡ a = ground (arith, e) in
      let start : o + 0 ≡ o = omega arith in
      rw (start, ← same) (Holds-first (l.heap x).p (contents syms) h)
  contents_at (x ∷ syms) (suc i) a o e h =
      let place : o + (size_of x + sum_before size_of syms i)
          ≡ o + size_of x + sum_before size_of syms i =
        omega arith in
      rw place (
        contents_at syms i a (o + size_of x) e
          (Holds-second (o + size_of x) (l.heap x).p (contents syms) refl h))

  -- The `i`-th contents, by its two words.
  pub data_of-Holds :
      (r : Reader) (syms : List ℕ) (i a index base : ℕ)
      → get_elem? syms i ≡ some a
      → at_block r (codes "DataIdx") ≡ index
      → at_block r (codes "Data") ≡ base
      → Holds r.b index (index_bytes size_of syms 0)
      → Holds r.b base (contents syms)
      → length r.b < 2 ^ 32
      → data_of r i ≡ some (l.heap a).p
  unfolding data_of span
  data_of-Holds r syms i a index base e at_index at_data words held small =
      let long = Holds-length _ held in
      let sum = length-contents syms in
      let fits : 0 + total size_of syms < 2 ^ 32 = omega (arith, long, sum, small) in
      let below = get-below syms i a e in
      let before = sum_before size_of syms i in
      let next = sum_before-next size_of syms i a e in
      let last = sum_before-total size_of syms (suc i) in
      let from = word_at syms size_of i 0 index (omega (arith, below)) fits words in
      let to = word_at syms size_of (suc i) 0 index (omega (arith, below)) fits words in
      let inside = index-inside syms size_of i index below words in
      let o : w32 (index + 4 * i) ≡ index + 4 * i = omega (arith, inside, small) in
      let o' : w32 (index + 4 * i + 4) ≡ index + 4 * suc i = omega (arith, inside, small) in
      let lo : w32 (base + (0 + before)) ≡ base + before =
        omega (arith, long, sum, next, last, small) in
      let hi : w32 (base + (0 + sum_before size_of syms (suc i))) ≡ base + before + size_of a =
        omega (arith, long, sum, next, last, small) in
      rw (at_index, at_data, o, o', from, to, lo, hi)
        (Holds-slice (l.heap a).p (contents_at syms i a base e held))
