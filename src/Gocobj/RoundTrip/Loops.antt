-- ===== src/Gocobj/RoundTrip/Loops.antt =====
-- The rules of `Encodes` for the loops of the writer and of the reader.
use goc.Gocobj.Codec.Reads.{foldl-push}
use goc.Prelude.{ℕ, ◌≤◌, List, [], ◌∷◌, ◌++◌}
use goc.Prelude.{arith, foldl, length, length-append, All, le→ltb}
use goc.Gocobj.Codec.{Bytes, IsU64, Rd, ◌>>=◌, pure, repeat}
use goc.Gocobj.Codec.Varint.{length-put_uleb}
use goc.Gocobj.Codec.Reads.{Coded, none_left, one_more, le-length-Coded, Reads-repeat}
use goc.Gocobj.Read.{at_most_left, push}
use goc.Gocobj.Codec.{put_uleb}
use goc.Gocobj.Write.{uleb, ◌▸◌, Strings, Enc, each}
use goc.Gocobj.RoundTrip.Strings.{Extends, Extends-refl, Extends-trans, IsTable}
use goc.Gocobj.RoundTrip.Encodes.{Encodes, Encodes-last}

-- One item: whatever was read before it, the loop's body takes it; and it has a byte at least.
pub record Item {ℓ κ} {X : Type ℓ} {S : Type κ} (enc : X → Enc) (body : Bytes → S → Rd S)
    (step : S → X → S) (x : X) : Type (ℓ ⊔ κ) where
  pub reads : (acc : S) → Encodes (enc x) (λ tab. body tab acc) (step acc x)
  pub takes : (st : Strings) → 1 ≤ length (enc x st).0

record WroteAll {ℓ κ} {X : Type ℓ} {S : Type κ} (st : Strings) (w : Bytes × Strings)
    (body : Bytes → S → Rd S) (step : S → X → S) (xs : List X) : Type (ℓ ⊔ κ) where
  table : IsTable w.1
  grows : Extends st.strs w.1.strs
  coded :
      (tab : Bytes)
      → Extends w.1.strs tab
      → IsU64 (length tab)
      → Coded (body tab) step (length xs) w.0 xs

module _ {ℓ κ} {X : Type ℓ} {S : Type κ} (enc : X → Enc) (body : Bytes → S → Rd S)
    (step : S → X → S) (init : S) where
  each_wrote :
      (xs : List X) (st : Strings)
      → All (Item enc body step) xs
      → IsTable st
      → WroteAll st (each enc xs st) body step xs
  unfolding each
  each_wrote [] st h t = record {
    table = t;
    grows = Extends-refl st.strs;
    coded = λ tab _ _. none_left;
  }
  each_wrote (x ∷ xs) st h t =
      let p = (h.0.reads init).at st t in
      let q = each_wrote xs (enc x st).1 h.1 p.table in
      record {
        table = q.table;
        grows = Extends-trans p.grows q.grows;
        coded = λ tab ext small.
            one_more (enc x st).0 x
              (λ acc. ((h.0.reads acc).at st t).reads tab (Extends-trans q.grows ext) small)
              (h.0.takes st) (q.coded tab ext small);
      }

  pub Encodes-loop :
      (xs : List X)
      → All (Item enc body step) xs
      → Encodes (each enc xs) (λ tab. repeat (length xs) (body tab) init) (foldl step init xs)
  Encodes-loop xs h = record {
    at = λ st t.
        let w = each_wrote xs st h t in
        record {
          table = w.table;
          grows = w.grows;
          reads = λ tab ext small. Reads-repeat (body tab) step init (w.coded tab ext small);
        };
  }

  -- The same behind the test that the items can be there at all.
  pub Encodes-guarded {μ} :
      {B : Type μ} (g : S → B) (xs : List X)
      → All (Item enc body step) xs
      → Encodes
          (each enc xs)
          (λ tab. at_most_left (length xs) >>= λ _.
            (repeat (length xs) (body tab) init >>= λ x. pure (g x)))
          (g (foldl step init xs))
  Encodes-guarded g xs h = record {
    at = λ st t.
        let w = each_wrote xs st h t in
        let p = (Encodes-last g (Encodes-loop xs h)).at st t in
        record {
          table = w.table;
          grows = w.grows;
          reads = λ tab ext small.
              let enough = le-length-Coded (w.coded tab ext small) in
              record {
                at = λ rest se.
                    rw
                      (le→ltb (length ((each enc xs st).0 ++ rest)) (length xs)
                        (omega (arith, enough, length-append (each enc xs st).0 rest)))
                      ((p.reads tab ext small).at rest se);
              };
        };
  }

-- An item that is appended to the list of those before it.
pub Item-push {ℓ} :
    {X : Type ℓ} {enc : X → Enc} {m : Bytes → Rd X} (x : X)
    → Encodes (enc x) m x
    → ((st : Strings) → 1 ≤ length (enc x st).0)
    → Item enc (λ tab xs. push (m tab) xs) (λ ys y. ys ++ (y ∷ [])) x
Item-push x p n = record { reads = λ acc. Encodes-last (λ y. acc ++ (y ∷ [])) p; takes = n }

-- Pieces of the writer that write a byte at least.
pub takes-put_uleb : (n : ℕ) (f : Enc) (st : Strings) → 1 ≤ length ((uleb n ▸ f) st).0
takes-put_uleb n f st = omega (arith, length-put_uleb n, length-append (put_uleb n) (f st).0)

-- Loops that collect their items: what was read is the list itself.
module _ {ℓ} {X : Type ℓ} (enc : X → Enc) (m : Bytes → Rd X) (xs : List X)
    (each_item : All (λ x. Encodes (enc x) m x) xs)
    (each_takes : (x : X) (st : Strings) → 1 ≤ length (enc x st).0) where
  items :
      (ys : List X)
      → All (λ x. Encodes (enc x) m x) ys
      → All (Item enc (λ tab zs. push (m tab) zs) (λ zs y. zs ++ (y ∷ []))) ys
  items [] h = tt
  items (y ∷ ys) h = (Item-push y h.0 (each_takes y), items ys h.1)

  pub Encodes-list : Encodes (each enc xs) (λ tab. repeat (length xs) (push (m tab)) []) xs
  Encodes-list = rw (foldl-push [] xs) at (
      Encodes-loop enc (λ tab zs. push (m tab) zs) (λ zs y. zs ++ (y ∷ [])) [] xs
        (items xs each_item))

  pub Encodes-guarded_list {κ} :
      {B : Type κ} (g : List X → B)
      → Encodes
          (each enc xs)
          (λ tab. at_most_left (length xs) >>= λ _.
            (repeat (length xs) (push (m tab)) [] >>= λ ys. pure (g ys)))
          (g xs)
  Encodes-guarded_list g = rw (foldl-push [] xs) at (
      Encodes-guarded enc (λ tab zs. push (m tab) zs) (λ zs y. zs ++ (y ∷ [])) [] g xs
        (items xs each_item))
