-- ===== src/Goobj/Read/Stored.antt =====
-- The contents that `Write` stores (internal/goobj/write.go) and the reader's `Data` (read.go).
use goc.Prelude.{
  ℕ, ◌+◌, ◌*◌, ◌^◌, ◌≤◌, ◌<◌, ◌≡◌, refl, sym, ap, ◌∙◌, arith, codes, some, ◌++◌, length,
  length-append, get_elem?, append_assoc,
}
use goc.Gocobj.Codec.{Bytes}
use goc.Goobj.Link.{Link, done}
use goc.Goobj.Write.{Writer, put, off, aux}
use goc.Goobj.Write.Appends.{Appends-trans, mark-same, mark-other}
use goc.Goobj.Write.Object.{find_block, Out, mark, put_index, defined, patch, put_records}
use goc.Goobj.Write.Strings.{Holds, at_end}
use goc.Goobj.Read.Records.{put-Holds}
use goc.Goobj.Read.{Reader, data_of, at_block}
use goc.Goobj.Read.Spans.{index_bytes, put_index-bytes, size_of, contents, data_of-Holds}
use goc.Goobj.Write.Stores.{
  patch-Holds, length-patch, before_data, indexed, Stores, put_records-Stores,
}

-- The object file: what `write_numbered` makes of the writer and the offsets, where the header is `head` bytes
-- before the offsets.
module _ (sha256 sha1 : Bytes → Bytes) (l : Link) (o o' : Out) (r : Reader) (head : ℕ)
    (first : get_elem? l.meta.object.blocks 0 ≡ some (codes "Autolib"))
    (wrote : put_records sha256 sha1 l o ≡ done o') (file : r.b ≡ patch head o'.offsets o'.w.b)
    (behind : head + 4 * length o'.offsets ≤ length o.w.b) (small : length r.b < 2 ^ 32) where
  stores : Stores l o o'
  stores = put_records-Stores sha256 sha1 l o o' wrote

  -- The writers before the index of contents and before the contents.
  abbrev w2 : Writer
  w2 = (before_data l o).w

  abbrev w5 : Writer
  w5 = stores.w5

  index_recorded :
      (j x : ℕ)
      → find_block l (codes "DataIdx") ≡ some j
      → get_elem? o'.offsets j ≡ some x
      → x ≡ off w2
  index_recorded j x e h =
      let o4 : Out = record (mark l (codes "Reloc") (indexed l o)) { w = stores.w4 } in
      let o5 : Out = record (mark l (codes "Aux") o4) { w = w5 } in
      let o6 : Out = record (mark l (codes "Data") o5) { w = put (contents l (defined l)) w5 } in
      let other =
        λ (name : Bytes) (q : Out). mark-other l name (codes "DataIdx") q j first e refl in
      mark-same l (codes "DataIdx") (before_data l o) j x e (
        sym (other (codes "Reloc") (indexed l o) refl)
        ∙ sym (other (codes "Aux") o4 refl)
        ∙ sym (other (codes "Data") o5 refl)
        ∙ sym (other (codes "RefName") o6 refl)
        ∙ sym (other (codes "End") (mark l (codes "RefName") o6) refl)
        ∙ sym (ap (λ (q : Out). get_elem? q.offsets j) stores.out)
        ∙ h)

  data_recorded :
      (k x : ℕ)
      → find_block l (codes "Data") ≡ some k
      → get_elem? o'.offsets k ≡ some x
      → x ≡ off w5
  unfolding mark
  data_recorded k x e h =
      let o4 : Out = record (mark l (codes "Reloc") (indexed l o)) { w = stores.w4 } in
      let o5 : Out = record (mark l (codes "Aux") o4) { w = w5 } in
      let o6 : Out = record (mark l (codes "Data") o5) { w = put (contents l (defined l)) w5 } in
      let other = λ (name : Bytes) (q : Out). mark-other l name (codes "Data") q k first e refl in
      mark-same l (codes "Data") o5 k x e (
        sym (other (codes "RefName") o6 refl)
        ∙ sym (other (codes "End") (mark l (codes "RefName") o6) refl)
        ∙ sym (ap (λ (q : Out). get_elem? q.offsets k) stores.out)
        ∙ h)

  bytes_out : o'.w.b ≡ w5.b ++ contents l (defined l)
  unfolding mark
  bytes_out = ap (λ (q : Out). q.w.b) stores.out

  abbrev words : Bytes
  words = index_bytes (size_of l) (defined l) 0

  -- Everything behind the index of contents.
  bytes_index : (more : Bytes) × (o'.w.b ≡ (put words w2).b ++ more)
  bytes_index =
      let start : (indexed l o).w ≡ put words w2 = put_index-bytes (size_of l) (defined l) 0 w2 in
      let a = Appends-trans (indexed l o).w stores.w4 w5 stores.relocs stores.aux in
      (
        a.more ++ contents l (defined l),
        bytes_out
            ∙ ap (λ (t : Bytes). t ++ contents l (defined l))
                (a.eq ∙ ap (λ (q : Writer). q.b ++ a.more) start)
            ∙ append_assoc (put words w2).b a.more (contents l (defined l)),
      )

  index_first : length w2.b ≤ length w5.b
  index_first =
      let start = ap (λ (q : Writer). length q.b) (put_index-bytes (size_of l) (defined l) 0 w2) in
      let a = Appends-trans (indexed l o).w stores.w4 w5 stores.relocs stores.aux in
      omega (
        arith,
        start,
        length-append w2.b words,
        ap length a.eq,
        length-append (indexed l o).w.b a.more,
      )

  from_start : length o.w.b ≤ length w2.b
  unfolding mark
  from_start =
      let c1 : ℕ → ℕ = λ a. length (l.heap a).r in
      let c2 : ℕ → ℕ = λ a. length (aux l a) in
      let v = put_index c1 (defined l) 0 o.w in
      let one = ap (λ (q : Writer). length q.b) (put_index-bytes c1 (defined l) 0 o.w) in
      let two = ap (λ (q : Writer). length q.b) (put_index-bytes c2 (defined l) 0 v) in
      omega (
        arith,
        one,
        two,
        length-append o.w.b (index_bytes c1 (defined l) 0),
        length-append v.b (index_bytes c2 (defined l) 0),
      )

  -- For a release whose blocks begin with Autolib, an object file below 4 GiB whose index and content blocks
  -- `Write` wrote behind its header and its offsets, and a reader that has these offsets for DataIdx and Data:
  -- `Data` returns for the i-th defined symbol, in the order of the symbol blocks, that symbol's contents.
  pub data_of-put_records :
      (i a j k : ℕ)
      → get_elem? (defined l) i ≡ some a
      → find_block l (codes "DataIdx") ≡ some j
      → find_block l (codes "Data") ≡ some k
      → get_elem? o'.offsets j ≡ some (at_block r (codes "DataIdx"))
      → get_elem? o'.offsets k ≡ some (at_block r (codes "Data"))
      → data_of r i ≡ some (l.heap a).p
  data_of-put_records i a j k e is_j is_k at_index at_data =
      let (more, at2) = bytes_index in
      let len2 = ap length at2 in
      let parts = length-append (w2.b ++ words) more in
      let parts' = length-append w2.b words in
      let from = from_start in
      let long =
        length-patch o'.offsets head o'.w.b (omega (arith, behind, from, len2, parts, parts')) in
      let same = ap length file in
      let total = ap length bytes_out ∙ length-append w5.b (contents l (defined l)) in
      let index_at : at_block r (codes "DataIdx") ≡ length w2.b =
        index_recorded j _ is_j at_index ∙ omega (arith, len2, parts, parts', long, same, small) in
      let data_at : at_block r (codes "Data") ≡ length w5.b =
        data_recorded k _ is_k at_data ∙ omega (arith, total, long, same, small) in
      let in_index : Holds o'.w.b (length w2.b) words = rw at2 (put-Holds words more w2) in
      let in_data : Holds o'.w.b (length w5.b) (contents l (defined l)) =
        rw bytes_out (at_end (contents l (defined l)) w5 (length w5.b) refl) in
      let index_held = patch-Holds o'.offsets head words (omega (arith, behind, from)) in_index in
      let data_held =
        patch-Holds o'.offsets head (contents l (defined l))
          (omega (arith, behind, from, index_first)) in_data in
      data_of-Holds l r (defined l) i a (length w2.b) (length w5.b) e index_at data_at
        (rw file index_held) (rw file data_held) small
