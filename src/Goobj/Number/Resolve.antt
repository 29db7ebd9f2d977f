-- ===== src/Goobj/Number/Resolve.antt =====
-- What a number given by `number` stands for.
use goc.Prelude.{
  ℕ, ◌+◌, ◌≡◌, refl, ap, ◌∙◌, arith, Bool, true, false, not, ◌==◌, if◌then◌else◌, Bool-cases, inl,
  inr, codes,
}
use goc.Prelude.{
  Option, none, some, List, [], ◌∷◌, ◌++◌, length, get_elem?, append_assoc, length-append,
}
use goc.Gocobj.Codec.{Bytes}
use goc.Gometa.{find, Meta, Builtin}
use goc.Goobj.Link.{
  Link, LinkError, done, set, new_sym, alloc, intern, is_func, names_in, looked_up, lookup_abi,
  lookup, abi0,
}
use goc.Goobj.Number.{
  pkg, indexed_as, number_hashed64, number_hashed, number_nonpkg, number_self, fits_hash64,
  number_def, RefState, number_new_ref, number_ref, builtin_idx, fail_if, first_error, hash_section,
  traverse, def_flags, ref_flags, number,
}
use goc.Goobj.Number.Traverse.{Returns, Returns-bind, Returns-if, traverse-keeps}
use goc.Goobj.Number.Blocks.{
  IsEntry, Stands, DistinctPkgs, get-append, get-last, Grows, Numbered, index-Numbered,
  hashed64-Grows, hashed-Grows, self-Grows, nonpkg-Grows, hashed64-new, hashed-new, self-new,
  nonpkg-new,
}
use goc.Goobj.Number.Builtins.{builtin_idx-IsEntry}

alloc-Numbered :
    (m : Meta) (name : Bytes) (abi : ℕ) (l : Link)
    → Numbered m l
    → Numbered m (alloc (new_sym name abi) l).1
alloc-Numbered m name abi l h = record {
  meta = h.meta;
  numbered = λ b. elim (Bool-cases (l.next == b)) [
    | inl e ↦ λ x. absurd (ground (arith, e, x))
    | inr e ↦
        let old : (alloc (new_sym name abi) l).1.heap b ≡ l.heap b = rw e refl in
        λ x. rw old (h.numbered b (rw old at x))
  ];
}

intern-Numbered :
    (m : Meta) (f : Bool) (name : Bytes) (a : ℕ) (l : Link)
    → Numbered m l
    → Numbered m (intern f name a l)
intern-Numbered m true name a l h = record { meta = h.meta; numbered = h.numbered }
intern-Numbered m false name a l h = record { meta = h.meta; numbered = h.numbered }

-- The lists of numbered symbols.
abbrev refs_and_defs : Link → List ℕ × List ℕ
refs_and_defs l = (l.nonpkgrefs, l.nonpkgdefs)

intern-lists :
    (f : Bool) (name : Bytes) (a : ℕ) (l : Link)
    → refs_and_defs (intern f name a l) ≡ refs_and_defs l
intern-lists true name a l = refl
intern-lists false name a l = refl

looked_up-Numbered :
    (m : Meta) (o : Option ℕ) (name : Bytes) (abi : ℕ) (l : Link)
    → Numbered m l
    → Numbered m (looked_up o name abi l).1
looked_up-Numbered m none name abi l h =
    intern-Numbered m (is_func abi) name l.next (alloc (new_sym name abi) l).1
      (alloc-Numbered m name abi l h)
looked_up-Numbered m (some a) name abi l h = h

looked_up-lists :
    (o : Option ℕ) (name : Bytes) (abi : ℕ) (l : Link)
    → refs_and_defs (looked_up o name abi l).1 ≡ refs_and_defs l
looked_up-lists none name abi l =
    intern-lists (is_func abi) name l.next (alloc (new_sym name abi) l).1
looked_up-lists (some a) name abi l = refl

lookup-Numbered : (m : Meta) (name : Bytes) (l : Link) → Numbered m l → Numbered m (lookup name l).1
unfolding lookup lookup_abi
lookup-Numbered m name l h =
    looked_up-Numbered m (find (names_in (is_func abi0) l) name) name abi0 l h

lookup-lists : (name : Bytes) (l : Link) → refs_and_defs (lookup name l).1 ≡ refs_and_defs l
unfolding lookup lookup_abi
lookup-lists name l = looked_up-lists (find (names_in (is_func abi0) l) name) name abi0 l

-- While definitions are numbered.
abbrev DefState : Meta → Link × Option LinkError → Type 0
DefState m st = Numbered m st.0 × (st.0.nonpkgrefs ≡ [])

meta-Distinct : (m : Meta) (l : Link) → DistinctPkgs m → Numbered m l → DistinctPkgs l.meta
meta-Distinct m l d h = rw h.meta d

hashed-DefState :
    (m : Meta) (b : Bool) (a : ℕ) (l : Link) (err : Option LinkError)
    → DistinctPkgs m
    → DefState m (l, err)
    → DefState m ((if b then number_hashed64 a l else number_hashed a l), err)
hashed-DefState m true a l err d h =
    let new = hashed64-new a l (meta-Distinct m l d h.0) in
    (
      index-Numbered m l (number_hashed64 a l) a _ _ refl (λ b. refl) (hashed64-Grows a l) (inl new)
          h.0,
      h.1,
    )
hashed-DefState m false a l err d h =
    let new = hashed-new a l (meta-Distinct m l d h.0) in
    (
      index-Numbered m l (number_hashed a l) a _ _ refl (λ b. refl) (hashed-Grows a l) (inl new)
          h.0,
      h.1,
    )

nonpkg-DefState :
    (m : Meta) (a : ℕ) (l : Link) (err : Option LinkError)
    → DefState m (l, err)
    → DefState m (number_nonpkg a l, err)
nonpkg-DefState m a l err h = (
  index-Numbered m l (number_nonpkg a l) a _ _ refl (λ b. refl) (nonpkg-Grows a l h.1)
      (inl (nonpkg-new a l h.1)) h.0,
  h.1,
)

self-DefState :
    (m : Meta) (a : ℕ) (l : Link) (err : Option LinkError)
    → DistinctPkgs m
    → DefState m (l, err)
    → DefState m (number_self a l, err)
self-DefState m a l err d h =
    let new = self-new a l (meta-Distinct m l d h.0) in
    (
      index-Numbered m l (number_self a l) a _ _ refl (λ b. refl) (self-Grows a l) (inl new) h.0,
      h.1,
    )

number_def-DefState :
    (m : Meta)
    → DistinctPkgs m
    → (a : ℕ) (st : Link × Option LinkError) → DefState m st
    → Returns (DefState m) (number_def a st)
unfolding number_def
number_def-DefState m d a st h =
    let s = st.0.heap a in
    let hashed = (if fits_hash64 s then number_hashed64 a st.0 else number_hashed a st.0) in
    let rest =
      if not s.static then done (number_nonpkg a st.0, st.1) else done (number_self a st.0, st.1) in
    Returns-if (DefState m) s.content_addressable
      (done (hashed, first_error st.1 (hash_section s).1)) rest
      (hashed-DefState m (fits_hash64 s) a st.0 (first_error st.1 (hash_section s).1) d h)
      (Returns-if (DefState m) (not s.static) (done (number_nonpkg a st.0, st.1))
        (done (number_self a st.0, st.1)) (nonpkg-DefState m a st.0 st.1 h)
        (self-DefState m a st.0 st.1 d h))

-- While references are numbered: the next index is behind the definitions and the references so far.
abbrev RefsState : Meta → Link × RefState → Type 0
RefsState m st = Numbered m st.0 × (st.1.nonpkg ≡ length st.0.nonpkgdefs + length st.0.nonpkgrefs)

nonpkgref-Grows :
    (a p i : ℕ) (l : Link)
    → Grows l
        (record (set a (indexed_as p i (l.heap a)) l) { nonpkgrefs = l.nonpkgrefs ++ (a ∷ []) })
nonpkgref-Grows a p i l q j b h = ground (
  arith,
  append_assoc l.nonpkgdefs l.nonpkgrefs (a ∷ []),
  get-append (l.nonpkgdefs ++ l.nonpkgrefs) (a ∷ []) j b,
)

nonpkgref-new :
    (a : ℕ) (l : Link) (st : RefState)
    → st.nonpkg ≡ length l.nonpkgdefs + length l.nonpkgrefs
    → get_elem? (l.nonpkgdefs ++ (l.nonpkgrefs ++ (a ∷ []))) st.nonpkg ≡ some a
nonpkgref-new a l st h =
    let at : st.nonpkg ≡ length (l.nonpkgdefs ++ l.nonpkgrefs) =
      omega (arith, length-append l.nonpkgdefs l.nonpkgrefs) in
    rw (at, ← append_assoc l.nonpkgdefs l.nonpkgrefs (a ∷ []))
      (get-last (l.nonpkgdefs ++ l.nonpkgrefs) a)

new_ref-RefsState :
    (m : Meta) (o : Option ℕ) (a : ℕ) (st : Link × RefState)
    → ((i : ℕ)
        → o ≡ some i
        → (b : Builtin) × IsEntry st.0.meta.object.builtins (st.0.heap a).name i b)
    → RefsState m st
    → Returns (RefsState m) (number_new_ref o a st)
new_ref-RefsState m (some i) a st entry h =
    let b = entry i refl in
    (
      index-Numbered m st.0 (set a (indexed_as (pkg st.0 (codes "Builtin")) i (st.0.heap a)) st.0) a
          _ _ refl (λ c. refl) (λ q j c e. e) (inr (refl, b)) h.0,
      h.1,
    )
new_ref-RefsState m none a st entry h =
    let l' : Link =
      record (set a (indexed_as (pkg st.0 (codes "None")) st.1.nonpkg (st.0.heap a)) st.0) {
        nonpkgrefs = st.0.nonpkgrefs ++ (a ∷ []);
      } in
    (
      index-Numbered m st.0 l' a _ _ refl (λ c. refl)
          (nonpkgref-Grows a (pkg st.0 (codes "None")) st.1.nonpkg st.0)
          (inl (ground (arith, nonpkgref-new a st.0 st.1 h.1))) h.0,
      omega (arith, h.1, length-append st.0.nonpkgrefs (a ∷ [])),
    )

number_ref-RefsState :
    (m : Meta) (a : ℕ) (st : Link × RefState)
    → RefsState m st
    → Returns (RefsState m) (number_ref a st)
unfolding number_ref
number_ref-RefsState m a st h =
    let s = st.0.heap a in
    let o = builtin_idx st.0 s.name s.abi in
    Returns-if (RefsState m) s.indexed (done st) (number_new_ref o a st) h
      (new_ref-RefsState m o a st (λ i. builtin_idx-IsEntry st.0 s.name s.abi i) h)

Returns-fail_if {ℓ κ} :
    {A : Type ℓ} (P : A → Type κ) (err : Option LinkError) (a : A) → P a → Returns P (fail_if err a)
Returns-fail_if P none a h = h
Returns-fail_if P (some e) a h = tt

lookup-DefState :
    (m : Meta) (name : Bytes) (l : Link) (err : Option LinkError)
    → DefState m (l, err)
    → DefState m ((lookup name l).1, err)
lookup-DefState m name l err h =
    (lookup-Numbered m name l h.0, ap (λ (t : List ℕ × List ℕ). t.0) (lookup-lists name l) ∙ h.1)

lookup-RefsState :
    (m : Meta) (name : Bytes) (l : Link) (st : RefState)
    → RefsState m (l, st)
    → RefsState m ((lookup name l).1, st)
lookup-RefsState m name l st h =
    let same = lookup-lists name l in
    let refs : (lookup name l).1.nonpkgrefs ≡ l.nonpkgrefs =
      ap (λ (t : List ℕ × List ℕ). t.0) same in
    let defs : (lookup name l).1.nonpkgdefs ≡ l.nonpkgdefs =
      ap (λ (t : List ℕ × List ℕ). t.1) same in
    (lookup-Numbered m name l h.0, rw (refs, defs) h.1)

-- When `number` succeeds on a link with no number given yet and no reference listed, under facts
-- that give the four blocks different package indices: each symbol that carries a number is what its
-- package index and index stand for, in the blocks that the object will have, or a builtin of its
-- name.
pub number-Stands :
    (l : Link)
    → DistinctPkgs l.meta
    → ((a : ℕ) → (l.heap a).indexed ≡ false)
    → l.nonpkgrefs ≡ []
    → Returns
        (λ (l' : Link). (a : ℕ) → (l'.heap a).indexed ≡ true → Stands l' (l'.heap a) a)
        (number l)
unfolding number
number-Stands l d fresh no_refs =
    let m = l.meta in
    let start : Numbered m l = record {
      meta = refl;
      numbered = λ a x. absurd (ground (arith, fresh a, x));
    } in
    Returns-bind (DefState m) _ (traverse number_def def_flags (l, none)) _
      (traverse-keeps number_def (DefState m) (number_def-DefState m d) (lookup-DefState m)
        def_flags (l, none) (start, no_refs))
      (λ st h.
        Returns-bind (λ l'. DefState m (l', st.1)) _ (fail_if st.1 st.0) _
          (Returns-fail_if (λ l'. DefState m (l', st.1)) st.1 st.0 h)
          (λ l' h'.
            let first : RefState = record { err = none; nonpkg = length l'.nonpkgdefs } in
            Returns-bind (RefsState m) _ (traverse number_ref ref_flags (l', first)) _
              (traverse-keeps number_ref (RefsState m) (number_ref-RefsState m) (lookup-RefsState m)
                ref_flags (l', first) (h'.0, omega (arith, ap length h'.1)))
              (λ r hr. Returns-fail_if _ r.1.err r.0 hr.0.numbered)))
