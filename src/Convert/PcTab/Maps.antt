-- ===== src/Convert/PcTab/Maps.antt =====
-- The index entries of `stackmaps`: each finds the bitmaps of its safepoint.
use goc.Prelude.{
  ℕ, zero, suc, ◌≡◌, refl, sym, ap, ◌∙◌, arith, Option, none, some, List, [], ◌∷◌, ◌++◌,
}
use goc.Prelude.{
  length, get_elem?, bytes_eq, bytes_eq→eq, ◌&&◌, Bool-cases, Option-cases, inl, inr, append-nil,
  append_assoc,
}
use goc.Prelude.{◌+◌, ◌%◌, ◌^◌, ◌<◌}
use goc.Prelude.Int.{pos}
use goc.Gocobj.Codec.{Bytes}
use goc.Gocobj.Format.{PcEntry, Safepoint}
use goc.Convert.PcTab.{index_of, index_entry, map_loop, place_of}

-- One byte before a return address, as uint64.
abbrev pub IsBefore : ℕ → ℕ → Type 0
IsBefore at pc = (at < 2 ^ 64) × ((at + 1) % 2 ^ 64 ≡ pc % 2 ^ 64)

-- Each safepoint has, in order, an entry one byte before its return address whose value is the place of its bitmaps.
abbrev pub Indexed : List (Bytes × Bytes) → List Safepoint → List PcEntry → Type 0
Indexed rows [] [] = Unit
Indexed rows [] (e ∷ es) = ⊥
Indexed rows (sp ∷ sps) [] = ⊥
Indexed rows (sp ∷ sps) (e ∷ es) =
    ((i : ℕ) × IsBefore e.pc sp.pc
      × (e.value ≡ pos i)
      × (get_elem? rows i ≡ some (sp.args, sp.locals)))
    × Indexed rows sps es

index_entry-IsBefore : (sp : Safepoint) (i : ℕ) → IsBefore (index_entry sp i).pc sp.pc
index_entry-IsBefore sp i = (omega arith, omega arith)

index_of-get_elem? :
    (a l : Bytes) (rows : List (Bytes × Bytes)) {i : ℕ}
    → index_of a l rows ≡ some i
    → get_elem? rows i ≡ some (a, l)
unfolding index_of
index_of-get_elem? a l [] h = cc
index_of-get_elem? a l (r ∷ rows) {i} h = elim (Bool-cases (bytes_eq r.0 a && bytes_eq r.1 l)) [
  | inl p ↦
      let k : some 0 ≡ some i = rw (p, index_of) at h in
      let z : i ≡ 0 = ground arith in
      let first = bytes_eq→eq r.0 a (ground arith) in
      let second = bytes_eq→eq r.1 l (ground arith) in rw (z, ← first, ← second) refl
  | inr p ↦ elim (Option-cases (index_of a l rows)) [
    | inl d ↦ cc (rw (p, d, index_of) at h)
    | inr (j, d) ↦
        let k : some (suc j) ≡ some i = rw (p, d, index_of) at h in
        let z : i ≡ suc j = ground arith in rw z (index_of-get_elem? a l rows d)
  ]
]

get_elem?-append :
    {A : Type 0} (xs ys : List A) (i : ℕ) {a : A}
    → get_elem? xs i ≡ some a
    → get_elem? (xs ++ ys) i ≡ some a
get_elem?-append [] ys i h = cc
get_elem?-append (x ∷ xs) ys zero h = h
get_elem?-append (x ∷ xs) ys (suc i) h = get_elem?-append xs ys i h

get_elem?-last :
    {A : Type 0} (xs : List A) (a : A) → get_elem? (xs ++ (a ∷ [])) (length xs) ≡ some a
get_elem?-last [] a = refl
get_elem?-last (x ∷ xs) a = get_elem?-last xs a

-- The pairs after one safepoint: those before it stay, and its own is in its place.
record Placed (a l : Bytes) (rows : List (Bytes × Bytes)) (r : ℕ × List (Bytes × Bytes))
    : Type 0 where
  found : get_elem? r.1 r.0 ≡ some (a, l)
  more : List (Bytes × Bytes)
  grows : r.1 ≡ rows ++ more

place_of-Placed :
    (a l : Bytes) (rows : List (Bytes × Bytes)) (o : Option ℕ)
    → index_of a l rows ≡ o
    → Placed a l rows (place_of a l rows o)
place_of-Placed a l rows none h = record {
  found = get_elem?-last rows (a, l);
  more = (a, l) ∷ [];
  grows = refl;
}
place_of-Placed a l rows (some i) h = record {
  found = index_of-get_elem? a l rows h;
  more = [];
  grows = sym (append-nil rows);
}

record Looped (rows : List (Bytes × Bytes)) (sps : List Safepoint)
    (r : List (Bytes × Bytes) × List PcEntry) : Type 0 where
  indexed : Indexed r.0 sps r.1
  more : List (Bytes × Bytes)
  grows : r.0 ≡ rows ++ more

map_loop_lem :
    (sps : List Safepoint) (rows : List (Bytes × Bytes)) → Looped rows sps (map_loop rows sps)
unfolding map_loop
map_loop_lem [] rows = record { indexed = tt; more = []; grows = sym (append-nil rows) }
map_loop_lem (sp ∷ sps) rows =
    let o = index_of sp.args sp.locals rows in
    let at = place_of sp.args sp.locals rows o in
    let p = place_of-Placed sp.args sp.locals rows o refl in
    let l = map_loop_lem sps at.1 in
    record {
      indexed = (
        (
          at.0,
          index_entry-IsBefore sp at.0,
          refl,
          rw l.grows (get_elem?-append at.1 l.more at.0 p.found),
        ),
        l.indexed,
      );
      more = p.more ++ l.more;
      grows =
          l.grows
          ∙ ap (λ (t : List (Bytes × Bytes)). t ++ l.more) p.grows
          ∙ append_assoc rows p.more l.more;
    }

-- `stackmaps` has one index entry for each safepoint, in their order: its pc is one byte before the
-- return address, as uint64, and its value is the place of the safepoint's argument and local bitmaps
-- among the pairs.
pub map_loop-Indexed : (sps : List Safepoint) → Indexed (map_loop [] sps).0 sps (map_loop [] sps).1
map_loop-Indexed sps = (map_loop_lem sps []).indexed
