-- ===== src/Goobj/Write/Stores.antt =====
-- What the blocks of records of `Write` (internal/goobj/write.go) leave in the file and in its offsets.
use goc.Prelude.{
  ℕ, zero, suc, ◌+◌, ◌*◌, ◌≤◌, ◌≡◌, refl, sym, ap, ◌∙◌, arith, codes, List, [], ◌∷◌, ◌++◌, length,
  append_assoc, take, drop, drop-append_le,
}
use goc.Gocobj.Codec.{Bytes}
use goc.Goobj.Le.{le_bytes, length-le_bytes}
use goc.Goobj.Link.{Link, Fallible, done, ◌>>=◌, splice}
use goc.Goobj.Link.Contents.{length-splice}
use goc.Goobj.Build.Listed.{done_injective}
use goc.Goobj.Write.{Writer, put, aux}
use goc.Goobj.Write.Appends.{
  done_bind, Appends, each_sym-Appends, put_relocs-Appends, put_aux-Appends, on_writer-done,
}
use goc.Goobj.Write.Object.{
  Out, mark, on_writer, each_sym, put_index, put_relocs, put_aux, defined, patch, put_records,
}
use goc.Goobj.Write.Strings.{Holds}
use goc.Goobj.Read.Spans.{contents, each_sym-contents}

take-append_le : (n : ℕ) (xs ys : Bytes) → n ≤ length xs → take n (xs ++ ys) ≡ take n xs
take-append_le zero xs ys h = refl
take-append_le (suc n) [] ys h = absurd (omega (arith, h))
take-append_le (suc n) (x ∷ xs) ys h =
    ap (λ (t : Bytes). x ∷ t) (take-append_le n xs ys (omega (arith, h)))

-- A write before them leaves bytes where they are.
splice-Holds :
    {b : Bytes} {o : ℕ} (at : ℕ) (c s : Bytes)
    → at + length c ≤ o
    → Holds b o s
    → Holds (splice at c b) o s
splice-Holds {b} {o} at c s le h =
    let head : at + length c ≤ length h.before = omega (arith, le, h.place) in
    record {
      before = splice at c h.before;
      behind = h.behind;
      eq =
          rw
            (
              h.eq,
              take-append_le at h.before (s ++ h.behind) (omega (arith, head)),
              drop-append_le (at + length c) h.before (s ++ h.behind) head,
              append_assoc (take at h.before) (c ++ drop (at + length c) h.before) (s ++ h.behind),
              append_assoc c (drop (at + length c) h.before) (s ++ h.behind),
            )
            refl;
      place = length-splice at c h.before head ∙ h.place;
    }

pub patch-Holds :
    (offsets : List ℕ) {b : Bytes} {o : ℕ} (at : ℕ) (s : Bytes)
    → at + 4 * length offsets ≤ o
    → Holds b o s
    → Holds (patch at offsets b) o s
unfolding patch
patch-Holds [] at s le h = h
patch-Holds (x ∷ offsets) at s le h =
    patch-Holds offsets (at + 4) s (omega (arith, le))
      (splice-Holds at (le_bytes 4 x) s (omega (arith, le, length-le_bytes 4 x)) h)

pub length-patch :
    (offsets : List ℕ) (at : ℕ) (b : Bytes)
    → at + 4 * length offsets ≤ length b
    → length (patch at offsets b) ≡ length b
unfolding patch
length-patch [] at b le = refl
length-patch (x ∷ offsets) at b le =
    let one = length-splice at (le_bytes 4 x) b (omega (arith, le, length-le_bytes 4 x)) in
    length-patch offsets (at + 4) (splice at (le_bytes 4 x) b) (omega (arith, le, one)) ∙ one

abbrev an_index : Link → Bytes → (ℕ → ℕ) → Out → Out
an_index l name count o = record (mark l name o) { w = put_index count (defined l) 0 o.w }

-- The three index blocks.
abbrev pub before_data : Link → Out → Out
before_data l o =
    an_index l (codes "AuxIdx") (λ a. length (aux l a))
      (an_index l (codes "RelocIdx") (λ a. length (l.heap a).r) o)

abbrev pub indexed : Link → Out → Out
indexed l o = an_index l (codes "DataIdx") (λ a. length (l.heap a).p) (before_data l o)

-- What stands behind the indices: the writers before and behind the contents, and the offsets.
pub record Stores (l : Link) (o o' : Out) : Type 0 where
  pub w4 : Writer
  pub w5 : Writer
  pub relocs : Appends (indexed l o).w w4
  pub aux : Appends w4 w5
  pub out :
      o'
      ≡ mark l (codes "End") (
          mark l
            (codes "RefName")
            (record (mark l
              (codes "Data")
              (record (mark l
                (codes "Aux")
                (record (mark l (codes "Reloc") (indexed l o)) { w = w4 })) { w = w5 })) {
                  w = put (contents l (defined l)) w5;
                }))

last_out :
    (l : Link) (o o4 o5 o6 : Out) (w4 w5 w6 : Writer)
    → o4 ≡ record (mark l (codes "Reloc") (indexed l o)) { w = w4 }
    → o5 ≡ record (mark l (codes "Aux") o4) { w = w5 }
    → o6 ≡ record (mark l (codes "Data") o5) { w = w6 }
    → put (contents l (defined l)) w5 ≡ w6
    → mark l (codes "End") (mark l (codes "RefName") o6)
      ≡ mark l (codes "End") (
          mark l
            (codes "RefName")
            (record (mark l
              (codes "Data")
              (record (mark l
                (codes "Aux")
                (record (mark l (codes "Reloc") (indexed l o)) { w = w4 })) { w = w5 })) {
                  w = put (contents l (defined l)) w5;
                }))
last_out l o o4 o5 o6 w4 w5 w6 g4 g5 g6 last =
    ap (λ (q : Out). mark l (codes "End") (mark l (codes "RefName") q))
      (g6
        ∙ ap (λ (q : Writer). record (mark l (codes "Data") o5) { w = q }) (sym last)
        ∙ ap (λ (q : Out). record (mark l (codes "Data") q) { w = put (contents l (defined l)) w5 })
            (g5 ∙ ap (λ (q : Out). record (mark l (codes "Aux") q) { w = w5 }) g4))

pub put_records-Stores :
    (sha256 sha1 : Bytes → Bytes) (l : Link) (o o' : Out)
    → put_records sha256 sha1 l o ≡ done o'
    → Stores l o o'
unfolding put_records mark
put_records-Stores sha256 sha1 l o o' h =
    let k6 : Out → Fallible Out = λ o6. done (mark l (codes "End") (mark l (codes "RefName") o6)) in
    let write_data : Writer → Fallible Writer =
      each_sym (λ a w. done (put (l.heap a).p w)) (defined l) in
    let k5 : Out → Fallible Out = λ o5. on_writer write_data (mark l (codes "Data") o5) >>= k6 in
    let write_aux : Writer → Fallible Writer =
      each_sym (λ a. each_sym (put_aux l) (aux l a)) (defined l) in
    let k4 : Out → Fallible Out = λ o4. on_writer write_aux (mark l (codes "Aux") o4) >>= k5 in
    let write_relocs : Writer → Fallible Writer = each_sym (put_relocs l) (defined l) in
    let (o4, e4, h4) =
      done_bind (on_writer write_relocs (mark l (codes "Reloc") (indexed l o))) k4 o' h in
    let (w4, f4, g4) = on_writer-done write_relocs _ o4 e4 in
    let (o5, e5, h5) = done_bind (on_writer write_aux (mark l (codes "Aux") o4)) k5 o' h4 in
    let (w5, f5, g5) = on_writer-done write_aux _ o5 e5 in
    let (o6, e6, h6) = done_bind (on_writer write_data (mark l (codes "Data") o5)) k6 o' h5 in
    let (w6, f6, g6) = on_writer-done write_data _ o6 e6 in
    let w4' : Appends (indexed l o).w w4 =
      each_sym-Appends (put_relocs l) (put_relocs-Appends l) (defined l) _ w4 f4 in
    let w5' : Appends w4 w5 =
      each_sym-Appends (λ a. each_sym (put_aux l) (aux l a))
        (λ a v v' e. each_sym-Appends (put_aux l) (put_aux-Appends l) (aux l a) v v' e) (defined l)
        w4 w5 (rw g4 at f5) in
    let last : put (contents l (defined l)) w5 ≡ w6 =
      done_injective _ _ (sym (each_sym-contents l (defined l) w5) ∙ (rw g5 at f6)) in
    record {
      w4 = w4;
      w5 = w5;
      relocs = w4';
      aux = w5';
      out = sym (done_injective _ _ h6) ∙ last_out l o o4 o5 o6 w4 w5 w6 g4 g5 g6 last;
    }
