-- ===== src/Convert/PcTab/Decode.antt =====
-- What `diffPCValue` reads from what `pcbytes` writes.
use goc.Prelude.{
  ℕ, zero, suc, ◌+◌, ◌-◌, ◌*◌, ◌/◌, ◌%◌, ◌^◌, ◌≤◌, ◌<◌, ◌≡◌, ◌≢◌, refl, sym, ap, ◌∙◌, arith, Bool,
  true, false, not, ◌&&◌, Bool-cases, inl, inr,
}
use goc.Prelude.{some, List, [], ◌∷◌, ◌++◌, length, leb, ◌==◌, append_assoc, length-append}
use native.Mathlib.Nat.{add-mod, mod-mod, div-add-mod', div-le_self}
use goc.Prelude.Int.{ℤ, pos, negsuc, signed64, pattern64, IsI64, signed64-pattern64}
use goc.Gocobj.Codec.{Bytes, IsU64, uvarint, uvarint_loop, put_uleb}
use goc.Gocobj.Codec.Varint.{uvarint-put_uleb, length-put_uleb}
use goc.Gocobj.Format.{PcEntry}
use goc.Goobj.Diff.{Span, spans, unzigzag, add64, add_span, pc_value_loop, diff_pc_value}
use goc.Convert.PcTab.{Seg, put_varint, sub64, next_start, put_segments, reversed, pc_bytes}
use goc.Convert.PcTab.Segments.{value_at, entry_at, value_at-pc_segments}
use goc.Convert.PcTab.Chain.{
  IsChain, IsBackward-inside, IsChain-reversed, spans_of, span_at, span_at-reversed,
}
use goc.Convert.PcTab.Rows.{IsRows, IsRows-Ascending, pc_segments-Chained}

abbrev zigzag : ℤ → ℕ
zigzag (pos n) = 2 * n
zigzag (negsuc n) = 2 * n + 1

put_varint-zigzag : (v : ℤ) → put_varint v ≡ put_uleb (zigzag v)
unfolding put_varint
put_varint-zigzag (pos n) = refl
put_varint-zigzag (negsuc n) = refl

zigzag-IsU64 : (v : ℤ) → IsI64 v → IsU64 (zigzag v)
zigzag-IsU64 (pos n) h = omega arith
zigzag-IsU64 (negsuc n) h = omega arith

unzigzag-zigzag : (v : ℤ) → unzigzag (zigzag v) ≡ v
unzigzag-zigzag (pos n) = ground (arith, ap pos {x = 2 * n / 2} {y = n} (omega arith))
unzigzag-zigzag (negsuc n) = ground (arith, ap negsuc {x = (2 * n + 1) / 2} {y = n} (omega arith))

pattern64-IsU64 : (v : ℤ) → IsI64 v → IsU64 (pattern64 v)
pattern64-IsU64 (pos n) h = omega arith
pattern64-IsU64 (negsuc n) h = omega arith

pattern64-signed64 : (w : ℕ) → IsU64 w → pattern64 (signed64 w) ≡ w
pattern64-signed64 w h = ground arith

signed64-IsI64 : (w : ℕ) → IsU64 w → IsI64 (signed64 w)
signed64-IsI64 w h = ground arith

sub64-IsI64 : (a b : ℤ) → IsI64 (sub64 a b)
sub64-IsI64 a b = signed64-IsI64 ((pattern64 a + 2 ^ 64 - pattern64 b) % 2 ^ 64) (omega arith)

add64-sub64 : (a b : ℤ) → IsI64 a → IsI64 b → add64 b (sub64 a b) ≡ a
add64-sub64 a b ha hb =
    let x = pattern64 a in
    let y = pattern64 b in
    let d = (x + 2 ^ 64 - y) % 2 ^ 64 in
    let back : pattern64 (sub64 a b) ≡ d = pattern64-signed64 d (omega arith) in
    let sum : (y + pattern64 (sub64 a b)) % 2 ^ 64 ≡ x =
      omega (arith, back, pattern64-IsU64 a ha, pattern64-IsU64 b hb) in
    ap (λ (t : ℕ). signed64 t) sum ∙ signed64-pattern64 a ha

-- A difference of 0 is none.
zigzag-sub64 : (a b : ℤ) → IsI64 a → IsI64 b → zigzag (sub64 a b) ≡ 0 → a ≡ b
zigzag-sub64 a b ha hb z =
    let d : sub64 a b ≡ pos 0 = zero_of (sub64 a b) z in
    sym (add64-sub64 a b ha hb) ∙ ap (λ (t : ℤ). add64 b t) d ∙ add64_zero b hb
  where
    zero_of : (v : ℤ) → zigzag v ≡ 0 → v ≡ pos 0
    zero_of (pos n) z = ap pos {x = n} {y = 0} (omega arith)
    zero_of (negsuc n) z = absurd (omega arith)

    add64_zero : (v : ℤ) → IsI64 v → add64 v (pos 0) ≡ v
    add64_zero v h =
        ap (λ (t : ℕ). signed64 t) {x = (pattern64 v + 0) % 2 ^ 64} {y = pattern64 v}
          (omega (arith, pattern64-IsU64 v h))
        ∙ signed64-pattern64 v h

module _ (q : ℕ) where
  loop_end :
      (fuel : ℕ) (b : Bytes) (val : ℤ) (pc : ℕ) (first : Bool) {uv : ℕ} {rest : Bytes}
      → uvarint b ≡ some (uv, rest)
      → ((uv == 0) && not first) ≡ true
      → pc_value_loop q (suc fuel) b val pc first ≡ spans []
  unfolding pc_value_loop
  loop_end fuel [] val pc first e z = refl
  loop_end fuel (x ∷ b) val pc first e z = rw (e, pc_value_loop) (rw z)

  loop_round :
      (fuel : ℕ) (b : Bytes) (val : ℤ) (pc : ℕ) (first : Bool) {uv d : ℕ} {b' rest : Bytes}
      → uvarint b ≡ some (uv, b')
      → ((uv == 0) && not first) ≡ false
      → uvarint b' ≡ some (d, rest)
      → pc_value_loop q (suc fuel) b val pc first
        ≡ add_span
            (record {
              start = pc;
              end = (pc + d * q % 2 ^ 64) % 2 ^ 64;
              value = add64 val (unzigzag uv);
            })
            (pc_value_loop q fuel rest
              (add64 val (unzigzag uv))
              ((pc + d * q % 2 ^ 64) % 2 ^ 64)
              false)
  unfolding pc_value_loop
  loop_round fuel [] val pc first e z d = unfold uvarint uvarint_loop in cc
  loop_round fuel (x ∷ b) val pc first e z d = rw (e, pc_value_loop) (rw (z, d))

-- The table goes on.
more :
    {a b : ℤ} (first : Bool) (uv : ℕ)
    → (uv ≡ 0 → a ≡ b)
    → (first ≡ false → a ≢ b)
    → ((uv == 0) && not first) ≡ false
more true uv same other = ground arith
more false uv same other = elim (Bool-cases (uv == 0)) [
  | inl z ↦ absurd (other refl (same (ground arith)))
  | inr z ↦ rw z refl
]

whole_steps : (q a b : ℕ) → a ≤ b → a % q ≡ 0 → b % q ≡ 0 → (b - a) / q * q ≡ b - a
whole_steps q a b le ha hb =
    let sum : (a + (b - a)) % q ≡ 0 =
      ap (λ (t : ℕ). t % q) {x = a + (b - a)} {y = b} (omega arith) ∙ hb in
    let split : (a % q + (b - a) % q) % q ≡ 0 = sym (add-mod a (b - a) q) ∙ sum in
    let rest : (b - a) % q % q ≡ 0 =
      ap (λ (t : ℕ). t % q) {x = (b - a) % q} {y = a % q + (b - a) % q} (omega (arith, ha))
      ∙ split in
    omega (arith, mod-mod (b - a) q, rest, div-add-mod' (b - a) q)

not_shorter : (xs ys : Bytes) → 1 ≤ length ys → 1 ≤ length (xs ++ ys)
not_shorter xs ys h = omega (arith, length-append xs ys)

length-put_segments :
    (q size : ℕ) (ss : List Seg) (prev : ℤ) → 1 ≤ length (put_segments q size prev ss)
unfolding put_segments
length-put_segments q size [] prev = omega arith
length-put_segments q size (s ∷ ss) prev = not_shorter _ _ (length-put_segments q size ss _)

zero_code : uvarint (0 ∷ []) ≡ some (0, [])
unfolding uvarint uvarint_loop
zero_code = refl

module _ (q size : ℕ) (positive : 0 < q) (small : size < 2 ^ 63) where
  -- The code of one segment that is not empty.
  decode_round :
      (fuel : ℕ) (s : Seg) (next : ℕ) (prev : ℤ) (first : Bool) (rest : Bytes)
      → s.start < next
      → next ≤ size
      → s.start % q ≡ 0
      → next % q ≡ 0
      → IsI64 s.value
      → IsI64 prev
      → (first ≡ false → s.value ≢ prev)
      → pc_value_loop q
          (suc fuel)
          ((put_varint (sub64 s.value prev) ++ put_uleb ((next - s.start) / q)) ++ rest)
          prev
          s.start
          first
        ≡ add_span
            (record { start = s.start; end = next; value = s.value })
            (pc_value_loop q fuel rest s.value next false)
  decode_round fuel s next prev first rest lt le from to value before other =
      let code = put_uleb ((next - s.start) / q) in
      let uv = zigzag (sub64 s.value prev) in
      let one : uvarint ((put_varint (sub64 s.value prev) ++ code) ++ rest)
          ≡ some (uv, code ++ rest) =
        rw (put_varint-zigzag (sub64 s.value prev), append_assoc (put_uleb uv) code rest)
          (uvarint-put_uleb uv (code ++ rest)
            (zigzag-IsU64 (sub64 s.value prev) (sub64-IsI64 s.value prev))) in
      let two =
        uvarint-put_uleb ((next - s.start) / q) rest
          (omega (arith, div-le_self (next - s.start) q)) in
      let go : ((uv == 0) && not first) ≡ false =
        more first uv (zigzag-sub64 s.value prev value before) other in
      let width : (next - s.start) / q * q ≡ next - s.start =
        whole_steps q s.start next (omega arith) from to in
      let end : (s.start + (next - s.start) / q * q % 2 ^ 64) % 2 ^ 64 ≡ next =
        omega (arith, width) in
      let val : add64 prev (unzigzag uv) ≡ s.value =
        ap (add64 prev) (unzigzag-zigzag (sub64 s.value prev))
        ∙ add64-sub64 s.value prev value before in
      loop_round q fuel _ prev s.start first one go two ∙ rw (end, val) refl

  decode_chain :
      (ss : List Seg) (fuel : ℕ) (prev : ℤ) (pc : ℕ) (first : Bool)
      → IsI64 prev
      → IsChain q size prev pc first ss
      → length (put_segments q size prev ss) ≤ fuel
      → pc_value_loop q fuel (put_segments q size prev ss) prev pc first ≡ spans (spans_of size ss)
  unfolding put_segments
  decode_chain [] zero prev pc first before h le = absurd (omega arith)
  decode_chain [] (suc fuel) prev pc first before h le =
      loop_end q fuel (0 ∷ []) prev pc first zero_code (ground (arith, h.1))
  decode_chain (s ∷ ss) zero prev pc first before h le =
      absurd (omega (arith, length-put_segments q size (s ∷ ss) prev))
  decode_chain (s ∷ ss) (suc fuel) prev pc first before h le =
      let (at, lt, inside, to, from, value, other, chain) = h in
      let next = next_start size ss in
      let full : leb next s.start ≡ false = ground arith in
      let code = put_varint (sub64 s.value prev) ++ put_uleb ((next - s.start) / q) in
      let rest = put_segments q size s.value ss in
      let bytes : put_segments q size prev (s ∷ ss) ≡ code ++ rest = rw full refl in
      let len : length rest ≤ fuel = omega (
        arith,
        rw bytes at le,
        length-append code rest,
        length-append (put_varint (sub64 s.value prev)) (put_uleb ((next - s.start) / q)),
        length-put_uleb ((next - s.start) / q),
      ) in
      ap (λ (t : Bytes). pc_value_loop q (suc fuel) t prev pc first) bytes
      ∙ ap (λ (t : ℕ). pc_value_loop q (suc fuel) (code ++ rest) prev t first) (sym at)
      ∙ decode_round fuel s next prev first rest (omega arith) inside (rw at from) to value before
          other
      ∙ ap (add_span (record { start = s.start; end = next; value = s.value }))
          (decode_chain ss fuel s.value next false value chain len)

-- `diffPCValue` reads back what `pcbytes` writes for a function of `size` bytes, in instructions of `q`
-- bytes: if the rows have increasing pcs at multiples of `q`, `size` is a positive multiple of `q` below
-- 2 ^ 63 and the values are int64, it returns spans, and the span of each pc in the function has the
-- value of the last row at or before it, or -1 if there is none.
pub diff_pc_value-pc_bytes :
    (q size : ℕ) (es : List PcEntry)
    → 0 < q
    → 0 < size
    → size < 2 ^ 63
    → size % q ≡ 0
    → IsRows q es
    → (ss : List Span) × (diff_pc_value (some (pc_bytes q size es)) q ≡ spans ss)
      × ((x : ℕ) → x < size → span_at ss x ≡ some (entry_at (negsuc 0) es x))
unfolding diff_pc_value pc_bytes
diff_pc_value-pc_bytes q zero es hq hs small mul h = absurd (omega arith)
diff_pc_value-pc_bytes q (suc n) es hq hs small mul h =
    let size = suc n in
    let (end, c) = pc_segments-Chained q size hs es h in
    let inside = IsBackward-inside q size c.last c.older hs c.chain in
    let chain =
      IsChain-reversed q size hq c.older [] c.last c.chain inside (omega arith) mul (refl, refl) in
    let ss = reversed [] (c.last ∷ c.older) in
    (
      spans_of size ss,
      rw c.shape
          (decode_chain q size hq small ss _ (negsuc 0) 0 true (omega arith) chain (omega arith)),
      λ x lt.
          span_at-reversed q size x c.older [] c.last c.chain inside
          ∙ ground (
            arith,
            value_at-pc_segments size x es lt (IsRows-Ascending q es h),
            ap (λ (t : List Seg). value_at t x) c.shape,
          ),
    )
