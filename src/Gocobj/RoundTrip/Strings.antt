-- ===== src/Gocobj/RoundTrip/Strings.antt =====
-- The string table: `s` of write.go against `str` of read.go.
use goc.Prelude.{ℕ, ◌<◌, ◌≡◌, refl, sym, ◌∙◌, ap, some, arith}
use goc.Prelude.{
  List, [], ◌∷◌, ◌++◌, append-nil, append_assoc, length, length-append, drop, drop-append,
}
use goc.Prelude.{drop-append_le, All, bytes_eq, bytes_eq→eq, Bool-cases, inl, inr}
use goc.Prelude.{Option-cases}
use goc.Gocobj.Codec.{Bytes, Buf, ret}
use goc.Gocobj.Format.{IsCString}
use goc.Gocobj.Read.{until_nul, str}
use goc.Gocobj.Write.{Strings, no_strings, offset_of, intern}

-- `v` stands in `tab` at `o`, with its NUL.
pub record StringAt (tab : Bytes) (o : ℕ) (v : Bytes) : Type 0 where
  pub tail : Bytes
  pub found : drop o tab ≡ v ++ (0 ∷ tail)
  pub below : o < length tab

until_nul-cstring : (v tail : Bytes) → IsCString v → until_nul (v ++ (0 ∷ tail)) ≡ some v
unfolding until_nul
until_nul-cstring [] tail h = refl
until_nul-cstring (c ∷ v) tail h = ground (arith, until_nul-cstring v tail)

-- `str` returns the string that stands at an offset of the table, and records no error. The string has no
-- NUL inside.
pub str-StringAt :
    (tab : Bytes) (o : ℕ) (v : Bytes) (r : Buf)
    → IsCString v
    → StringAt tab o v
    → str tab o r ≡ ret v r
unfolding str
str-StringAt tab o v r h p = ground (arith, ap until_nul p.found, until_nul-cstring v p.tail h)

-- `b` begins with `a`.
pub record Extends (a b : Bytes) : Type 0 where
  pub more : Bytes
  pub eq : b ≡ a ++ more

pub Extends-refl : (a : Bytes) → Extends a a
Extends-refl a = record { more = []; eq = sym (append-nil a) }

pub Extends-trans : {a b c : Bytes} → Extends a b → Extends b c → Extends a c
Extends-trans {a} p q = record {
  more = p.more ++ q.more;
  eq = q.eq ∙ ap (λ (t : Bytes). t ++ q.more) p.eq ∙ append_assoc a p.more q.more;
}

pub StringAt-Extends :
    {a b : Bytes} {o : ℕ} {v : Bytes} → StringAt a o v → Extends a b → StringAt b o v
StringAt-Extends {a} {b} {o} {v} p q = record {
  tail = p.tail ++ q.more;
  found =
      ap (drop o) q.eq
      ∙ drop-append_le o a q.more (omega (arith, p.below))
      ∙ ap (λ (t : Bytes). t ++ q.more) p.found
      ∙ append_assoc v (0 ∷ p.tail) q.more;
  below = omega (arith, p.below, ap length q.eq, length-append a q.more);
}

-- Every entry of the index is in the table.
pub record IsTable (st : Strings) : Type 0 where
  pub entries : All (λ e. StringAt st.strs e.1 e.0) st.idx

pub IsTable-no_strings : IsTable no_strings
IsTable-no_strings = record {
  entries = (record { tail = []; found = refl; below = omega arith }, tt);
}

-- The offset `o` of `v`, and the table after the call.
pub record Interned (v : Bytes) (st : Strings) (o : ℕ) (st' : Strings) : Type 0 where
  pub table : IsTable st'
  pub grows : Extends st.strs st'.strs
  pub string : StringAt st'.strs o v

offset_of-StringAt :
    (tab v : Bytes) (m : List (Bytes × ℕ)) {o : ℕ}
    → All (λ e. StringAt tab e.1 e.0) m
    → offset_of v m ≡ some o
    → StringAt tab o v
unfolding offset_of
offset_of-StringAt tab v [] h e = cc
offset_of-StringAt tab v ((k, j) ∷ m) {o} h e = elim (Bool-cases (bytes_eq k v)) [
  | inl same ↦
      let key : k ≡ v = bytes_eq→eq k v same in
      let place : j ≡ o = ground (arith) in rw (← key, ← place) h.0
  | inr other ↦ offset_of-StringAt tab v m h.1 (rw other at e)
]

All-Extends :
    {a b : Bytes} (m : List (Bytes × ℕ))
    → Extends a b
    → All (λ e. StringAt a e.1 e.0) m
    → All (λ e. StringAt b e.1 e.0) m
All-Extends [] q h = tt
All-Extends (e ∷ m) q h = (StringAt-Extends h.0 q, All-Extends m q h.1)

-- The table after a new string.
grown : (v : Bytes) (st : Strings) → Extends st.strs (st.strs ++ (v ++ (0 ∷ [])))
grown v st = record { more = v ++ (0 ∷ []); eq = refl }

added : (v : Bytes) (st : Strings) → StringAt (st.strs ++ (v ++ (0 ∷ []))) (length st.strs) v
added v st = record {
  tail = [];
  found = drop-append st.strs (v ++ (0 ∷ []));
  below = omega (arith, length-append st.strs (v ++ (0 ∷ [])), length-append v (0 ∷ []));
}

-- On a table that holds its index, `s` returns an offset at which the string stands with its NUL, keeps
-- the table so, and only appends to it.
pub intern_lem :
    (v : Bytes) (st : Strings) → IsTable st → Interned v st (intern v st).0 (intern v st).1
unfolding intern
intern_lem v st t = elim (Option-cases (offset_of v st.idx)) [
  | inl new ↦
      rw (new, intern)
        (record {
          table = record { entries = (added v st, All-Extends st.idx (grown v st) t.entries) };
          grows = grown v st;
          string = added v st;
        })
  | inr (o, old) ↦
      rw (old, intern)
        (record {
          table = t;
          grows = Extends-refl st.strs;
          string = offset_of-StringAt st.strs v st.idx t.entries old;
        })
]
