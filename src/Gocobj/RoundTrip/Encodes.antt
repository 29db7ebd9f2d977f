-- ===== src/Gocobj/RoundTrip/Encodes.antt =====
-- Rules for a piece of the writer whose bytes a reader takes back, with the final string table.
use goc.Prelude.{ℕ, ◌≡◌}
use goc.Prelude.{arith, append-nil, length}
use goc.Prelude.Int.{ℤ, IsI64}
use goc.Gocobj.Codec.{Bytes, IsU64, Rd, ◌>>=◌, pure, read_u8, read_uleb, read_sleb, read_bytes}
use goc.Gocobj.Codec.{put_uleb}
use goc.Gocobj.Codec.Reads.{Reads, Reads-pure, Reads-bind, Reads-u8, Reads-uleb, Reads-sleb}
use goc.Gocobj.Codec.Reads.{Reads-bytes}
use goc.Gocobj.Format.{IsCString}
use goc.Gocobj.Read.{str, str_ref}
use goc.Gocobj.Write.{Strings, intern, Enc, emit, ◌▸◌, u8, uleb, sleb, str_uleb}
use goc.Gocobj.RoundTrip.Strings.{StringAt-Extends, str-StringAt, Extends, Extends-refl}
use goc.Gocobj.RoundTrip.Strings.{Extends-trans, IsTable, intern_lem}

-- From the table `st` the writer wrote `w`; in any final table `m` reads its bytes as `a`.
pub record Wrote {ℓ} {A : Type ℓ} (st : Strings) (w : Bytes × Strings) (m : Bytes → Rd A) (a : A)
    : Type ℓ where
  pub table : IsTable w.1
  pub grows : Extends st.strs w.1.strs
  pub reads : (tab : Bytes) → Extends w.1.strs tab → IsU64 (length tab) → Reads (m tab) w.0 a

pub record Encodes {ℓ} {A : Type ℓ} (e : Enc) (m : Bytes → Rd A) (a : A) : Type ℓ where
  pub at : (st : Strings) → IsTable st → Wrote st (e st) m a

module _ {ℓ} {A : Type ℓ} where
  pub Encodes-emit :
      {bs : Bytes} {m : Bytes → Rd A} {a : A}
      → ((tab : Bytes) → Reads (m tab) bs a)
      → Encodes (emit bs) m a
  Encodes-emit h = record {
    at = λ st t. record { table = t; grows = Extends-refl st.strs; reads = λ tab _ _. h tab };
  }

  pub Encodes-seq {κ} :
      {B : Type κ} {e f : Enc} {m : Bytes → Rd A} (k : Bytes → A → Rd B) {a : A} {b : B}
      → Encodes e m a
      → Encodes f (λ tab. k tab a) b
      → Encodes (e ▸ f) (λ tab. m tab >>= k tab) b
  Encodes-seq {e = e} {f = f} k p q = record {
    at = λ st t.
        let p' = p.at st t in
        let q' = q.at (e st).1 p'.table in
        record {
          table = q'.table;
          grows = Extends-trans p'.grows q'.grows;
          reads = λ tab ext small.
              Reads-bind (k tab) (p'.reads tab (Extends-trans q'.grows ext) small)
                (q'.reads tab ext small);
        };
  }

  -- The value is built from what was read last.
  pub Encodes-last {κ} :
      {B : Type κ} {e : Enc} {m : Bytes → Rd A} (g : A → B) {a : A}
      → Encodes e m a
      → Encodes e (λ tab. m tab >>= λ x. pure (g x)) (g a)
  Encodes-last {e = e} g {a} p = record {
    at = λ st t.
        let p' = p.at st t in
        record {
          table = p'.table;
          grows = p'.grows;
          reads = λ tab ext small.
              rw (← append-nil (e st).0)
                (Reads-bind (λ x. pure (g x)) (p'.reads tab ext small) (Reads-pure (g a)));
        };
  }

pub Encodes-u8 : (v : ℕ) → Encodes (u8 v) (λ tab. read_u8) v
Encodes-u8 v = Encodes-emit (λ tab. Reads-u8 v)

pub Encodes-uleb : (v : ℕ) → IsU64 v → Encodes (uleb v) (λ tab. read_uleb) v
Encodes-uleb v h = Encodes-emit (λ tab. Reads-uleb v h)

pub Encodes-sleb : (v : ℤ) → IsI64 v → Encodes (sleb v) (λ tab. read_sleb) v
Encodes-sleb v h = Encodes-emit (λ tab. Reads-sleb v h)

pub Encodes-bytes :
    (n : ℕ) (bs : Bytes) → length bs ≡ n → Encodes (emit bs) (λ tab. read_bytes n) bs
Encodes-bytes n bs e = Encodes-emit (λ tab. rw (← e) (Reads-bytes bs))

pub Encodes-str : (v : Bytes) → IsCString v → Encodes (str_uleb v) str_ref v
unfolding str_uleb str_ref
Encodes-str v h = record {
  at = λ st t.
      let i = intern_lem v st t in
      record {
        table = i.table;
        grows = i.grows;
        reads = λ tab ext small.
            let found = StringAt-Extends i.string ext in
            rw (← append-nil (put_uleb (intern v st).0)) (
              Reads-bind (str tab) (Reads-uleb (intern v st).0 (omega (arith, found.below)))
                (record { at = λ rest se. str-StringAt tab _ v _ h found }));
      };
}
