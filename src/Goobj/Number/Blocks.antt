-- ===== src/Goobj/Number/Blocks.antt =====
-- The blocks of numbered symbols, and what a number stands for in them.
use goc.Prelude.{
  ℕ, zero, suc, ◌≡◌, ◌≢◌, refl, ◌∙◌, arith, true, ◌==◌, if◌then◌else◌, Bool-cases, ◌⊎◌, inl, inr,
  codes,
}
use goc.Prelude.{Option, some, List, [], ◌∷◌, ◌++◌, length, get_elem?, append-nil}
use goc.Gocobj.Codec.{Bytes}
use goc.Gometa.{Meta, Builtin, int_at}
use goc.Goobj.Link.{Sym, Link, update}
use goc.Goobj.Number.{pkg, indexed_as, number_hashed64, number_hashed, number_nonpkg, number_self}

-- The block of a package index, in the order of the object file.
abbrev pub block : Link → ℕ → List ℕ
block l p =
    if p == pkg l (codes "None")
    then l.nonpkgdefs ++ l.nonpkgrefs
    else if p == pkg l (codes "Hashed64")
    then l.hashed64
    else if p == pkg l (codes "Hashed")
    then l.hashed
    else if p == pkg l (codes "Self")
    then l.defs
    else []

-- The symbol of a reference (a package index and an index).
abbrev pub resolve : Link → ℕ → ℕ → Option ℕ
resolve l p i = get_elem? (block l p) i

-- The entry at an index of the builtins, with the name.
abbrev pub IsEntry : List Builtin → Bytes → ℕ → Builtin → Type 0
IsEntry all name i b = (get_elem? all i ≡ some b) × (b.name ≡ name)

abbrev pub IsBuiltin : Link → Sym → Type 0
IsBuiltin l s =
    (s.pkg_idx ≡ pkg l (codes "Builtin"))
    × ((b : Builtin) × IsEntry l.meta.object.builtins s.name s.sym_idx b)

-- The number that a symbol carries stands for the address `a`, or for a builtin of the symbol's name.
abbrev pub Stands : Link → Sym → ℕ → Type 0
Stands l s a = (resolve l s.pkg_idx s.sym_idx ≡ some a) ⊎ IsBuiltin l s

-- The package indices of a release that name the blocks.
pub record DistinctPkgs (m : Meta) : Type 0 where
  pub hashed64_none :
      int_at m.object.pkg_idx (codes "Hashed64") ≢ int_at m.object.pkg_idx (codes "None")
  pub hashed_none :
      int_at m.object.pkg_idx (codes "Hashed") ≢ int_at m.object.pkg_idx (codes "None")
  pub hashed_hashed64 :
      int_at m.object.pkg_idx (codes "Hashed") ≢ int_at m.object.pkg_idx (codes "Hashed64")
  pub self_none : int_at m.object.pkg_idx (codes "Self") ≢ int_at m.object.pkg_idx (codes "None")
  pub self_hashed64 :
      int_at m.object.pkg_idx (codes "Self") ≢ int_at m.object.pkg_idx (codes "Hashed64")
  pub self_hashed :
      int_at m.object.pkg_idx (codes "Self") ≢ int_at m.object.pkg_idx (codes "Hashed")

pub get-append {ℓ} :
    {A : Type ℓ} (xs ys : List A) (i : ℕ) (a : A)
    → get_elem? xs i ≡ some a
    → get_elem? (xs ++ ys) i ≡ some a
get-append [] ys i a h = absurd (ground arith)
get-append (x ∷ xs) ys zero a h = h
get-append (x ∷ xs) ys (suc i) a h = get-append xs ys i a h

pub get-last {ℓ} :
    {A : Type ℓ} (xs : List A) (a : A) → get_elem? (xs ++ (a ∷ [])) (length xs) ≡ some a
get-last [] a = refl
get-last (x ∷ xs) a = get-last xs a

-- Every reference that resolved before resolves to the same.
abbrev pub Grows : Link → Link → Type 0
Grows l l' = (q i b : ℕ) → resolve l q i ≡ some b → resolve l' q i ≡ some b

pub Stands-grown :
    (l l' : Link) (s : Sym) (a : ℕ) → l'.meta ≡ l.meta → Grows l l' → Stands l s a → Stands l' s a
Stands-grown l l' s a same grows (inl h) = inl (grows s.pkg_idx s.sym_idx a h)
Stands-grown l l' s a same grows (inr h) = inr (rw same h)

-- The state between two visits.
pub record Numbered (m : Meta) (l : Link) : Type 0 where
  pub meta : l.meta ≡ m
  pub numbered : (a : ℕ) → (l.heap a).indexed ≡ true → Stands l (l.heap a) a

-- One symbol is given a number.
pub index-Numbered :
    (m : Meta) (l l' : Link) (a p i : ℕ)
    → l'.meta ≡ l.meta
    → ((b : ℕ) → l'.heap b ≡ update l.heap a (indexed_as p i (l.heap a)) b)
    → Grows l l'
    → Stands l' (indexed_as p i (l.heap a)) a
    → Numbered m l
    → Numbered m l'
index-Numbered m l l' a p i same heap grows here h = record {
  meta = same ∙ h.meta;
  numbered = λ b. elim (Bool-cases (a == b)) [
    | inl e ↦
        let eq : b ≡ a = ground arith in
        let new : l'.heap a ≡ indexed_as p i (l.heap a) = ground (arith, heap a) in
        λ _. rw (eq, new) here
    | inr e ↦
        let old : l'.heap b ≡ l.heap b = ground (arith, heap b) in
        λ x. rw old (Stands-grown l l' (l.heap b) b same grows (h.numbered b (rw old at x)))
  ];
}

pub hashed64-Grows : (a : ℕ) (l : Link) → Grows l (number_hashed64 a l)
hashed64-Grows a l q i b h = ground (arith, get-append l.hashed64 (a ∷ []) i b)

pub hashed-Grows : (a : ℕ) (l : Link) → Grows l (number_hashed a l)
hashed-Grows a l q i b h = ground (arith, get-append l.hashed (a ∷ []) i b)

pub self-Grows : (a : ℕ) (l : Link) → Grows l (number_self a l)
self-Grows a l q i b h = ground (arith, get-append l.defs (a ∷ []) i b)

pub nonpkg-Grows : (a : ℕ) (l : Link) → l.nonpkgrefs ≡ [] → Grows l (number_nonpkg a l)
nonpkg-Grows a l no_refs q i b h = ground (
  arith,
  no_refs,
  append-nil l.nonpkgdefs,
  append-nil (l.nonpkgdefs ++ (a ∷ [])),
  get-append l.nonpkgdefs (a ∷ []) i b,
)

pub hashed64-new :
    (a : ℕ) (l : Link)
    → DistinctPkgs l.meta
    → resolve (number_hashed64 a l) (pkg l (codes "Hashed64")) (length l.hashed64) ≡ some a
hashed64-new a l d = ground (arith, get-last l.hashed64 a, d.hashed64_none)

pub hashed-new :
    (a : ℕ) (l : Link)
    → DistinctPkgs l.meta
    → resolve (number_hashed a l) (pkg l (codes "Hashed")) (length l.hashed) ≡ some a
hashed-new a l d = ground (arith, get-last l.hashed a, d.hashed_none, d.hashed_hashed64)

pub self-new :
    (a : ℕ) (l : Link)
    → DistinctPkgs l.meta
    → resolve (number_self a l) (pkg l (codes "Self")) (length l.defs) ≡ some a
self-new a l d = ground (arith, get-last l.defs a, d.self_none, d.self_hashed64, d.self_hashed)

pub nonpkg-new :
    (a : ℕ) (l : Link)
    → l.nonpkgrefs ≡ []
    → resolve (number_nonpkg a l) (pkg l (codes "None")) (length l.nonpkgdefs) ≡ some a
nonpkg-new a l no_refs =
    ground (arith, no_refs, append-nil (l.nonpkgdefs ++ (a ∷ [])), get-last l.nonpkgdefs a)
