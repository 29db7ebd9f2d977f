-- ===== src/Goobj/Link/Interned.antt =====
-- The two name tables as one partial map from a name and an ABI to a symbol.
use goc.Prelude.{
  ℕ, zero, suc, ◌⊎◌, ◌+◌, ◌≤◌, ◌<◌, ◌≡◌, ◌≢◌, refl, sym, ap, ◌∙◌, arith, Bool, true, false,
  bytes_eq, bytes_eq_self, bytes_eq→eq, Bool-cases, Option-cases, inl, inr,
}
use goc.Prelude.{Option, none, some, [], ◌∷◌, All, All-map}
use goc.Gocobj.Codec.{Bytes}
use goc.Gometa.{StrMap, find}
use goc.Goobj.Link.{Sym, Link, new_sym, alloc, intern, is_func, names_in, lookup_abi}

-- Symbols of ABIInternal, the second of Go's ABIs, are functions and have names of their own.
abbrev pub in_funcs : ℕ → Bool
in_funcs zero = false
in_funcs (suc zero) = true
in_funcs (suc (suc abi)) = false

-- The abstract view of a link: which symbol a name and an ABI stand for.
abbrev pub symbol_of : Link → Bytes → ℕ → Option ℕ
symbol_of l name zero = find l.hash name
symbol_of l name (suc zero) = find l.funchash name
symbol_of l name (suc (suc abi)) = find l.hash name

-- The same by the table that the lookup takes.
abbrev in_table : Link → Bytes → ℕ → Option ℕ
in_table l name abi = find (names_in (is_func abi) l) name

symbol_of-in_table :
    (l : Link) (name : Bytes) (abi : ℕ) → symbol_of l name abi ≡ in_table l name abi
symbol_of-in_table l name zero = refl
symbol_of-in_table l name (suc zero) = refl
symbol_of-in_table l name (suc (suc abi)) =
    let f : is_func (suc (suc abi)) ≡ false = ground arith in rw f refl

in_funcs-is_func : (abi : ℕ) → in_funcs abi ≡ is_func abi
in_funcs-is_func zero = refl
in_funcs-is_func (suc zero) = refl
in_funcs-is_func (suc (suc abi)) = ground arith

-- Every entry of a table is an allocated symbol of that name.
abbrev pub IsNamed : Link → Bytes × ℕ → Type 0
IsNamed l e = ((l.heap e.1).name ≡ e.0) × (e.1 < l.next)

pub record Interned (l : Link) : Type 0 where
  pub hash : All (IsNamed l) l.hash
  pub funchash : All (IsNamed l) l.funchash

find-IsNamed :
    (l : Link) (m : StrMap ℕ) (k : Bytes) (a : ℕ)
    → All (IsNamed l) m
    → find m k ≡ some a
    → IsNamed l (k, a)
unfolding find
find-IsNamed l [] k a h e = absurd (ground arith)
find-IsNamed l ((k', a') ∷ m) k a h e = elim (Bool-cases (bytes_eq k' k)) [
  | inl t ↦ let same : a' ≡ a = ground (arith, (rw t at e)) in rw (← same, ← bytes_eq→eq k' k t) h.0
  | inr t ↦ find-IsNamed l m k a h.1 (rw t at e)
]

find_in-IsNamed :
    (f : Bool) (l : Link) (k : Bytes) (a : ℕ)
    → Interned l
    → find (names_in f l) k ≡ some a
    → IsNamed l (k, a)
find_in-IsNamed true l k a h e = find-IsNamed l l.funchash k a h.funchash e
find_in-IsNamed false l k a h e = find-IsNamed l l.hash k a h.hash e

none-ne-some {ℓ} : {A : Type ℓ} {a : A} → none ≢ some a
none-ne-some e = ground arith

-- What `lookup_abi` does to the map: the name now stands for the symbol returned, no other entry changes,
-- a new symbol has the ABI, and the symbols allocated before keep their contents.
pub record LookedUp (name : Bytes) (abi : ℕ) (l : Link) (a : ℕ) (l' : Link) : Type 0 where
  pub found : symbol_of l' name abi ≡ some a
  pub named : (l'.heap a).name ≡ name
  pub entries :
      (name' : Bytes) (abi' b : ℕ)
      → symbol_of l name' abi' ≡ some b
      → symbol_of l' name' abi' ≡ some b
  pub others :
      (name' : Bytes) (abi' : ℕ)
      → (name' ≢ name) ⊎ (in_funcs abi' ≢ in_funcs abi)
      → symbol_of l' name' abi' ≡ symbol_of l name' abi'
  pub kept : (b : ℕ) → b < l.next → l'.heap b ≡ l.heap b
  pub fresh :
      symbol_of l name abi ≡ none → (a ≡ l.next) × (l'.next ≡ l.next + 1) × ((l'.heap a).abi ≡ abi)
  pub interned : Interned l'

-- A table keeps its entries when the heap grows.
IsNamed-grown :
    (l l' : Link) (m : StrMap ℕ)
    → l.next ≤ l'.next
    → ((b : ℕ) → b < l.next → l'.heap b ≡ l.heap b)
    → All (IsNamed l) m
    → All (IsNamed l') m
IsNamed-grown l l' m le same h =
    All-map
      (λ (e : Bytes × ℕ) h'. (ap (λ (s : Sym). s.name) (same e.1 h'.1) ∙ h'.0, omega (arith, h'.1)))
      m h

find-cons_self : (m : StrMap ℕ) (k : Bytes) (a : ℕ) → find ((k, a) ∷ m) k ≡ some a
unfolding find
find-cons_self m k a = rw (bytes_eq_self k) refl

-- A key that was absent leaves every other key's value.
find-cons_kept :
    (m : StrMap ℕ) (k : Bytes) (a : ℕ) (k' : Bytes) (b : ℕ)
    → find m k ≡ none
    → find m k' ≡ some b
    → find ((k, a) ∷ m) k' ≡ some b
unfolding find
find-cons_kept m k a k' b absent e = elim (Bool-cases (bytes_eq k k')) [
  | inl t ↦
      let same = bytes_eq→eq k k' t in
      let both : none ≡ some b = sym absent ∙ (rw (← same) at e) in absurd (ground (arith, both))
  | inr t ↦ rw t e
]

intern-heap : (f : Bool) (name : Bytes) (a : ℕ) (l : Link) → (intern f name a l).heap ≡ l.heap
intern-heap true name a l = refl
intern-heap false name a l = refl

intern-next : (f : Bool) (name : Bytes) (a : ℕ) (l : Link) → (intern f name a l).next ≡ l.next
intern-next true name a l = refl
intern-next false name a l = refl

find-intern :
    (f : Bool) (name : Bytes) (a : ℕ) (l : Link)
    → find (names_in f (intern f name a l)) name ≡ some a
find-intern true name a l = find-cons_self l.funchash name a
find-intern false name a l = find-cons_self l.hash name a

-- The entries of both tables after a new one.
intern-entries :
    (f g : Bool) (name name' : Bytes) (a b : ℕ) (l : Link)
    → find (names_in f l) name ≡ none
    → find (names_in g l) name' ≡ some b
    → find (names_in g (intern f name a l)) name' ≡ some b
intern-entries true true name name' a b l absent e =
    find-cons_kept l.funchash name a name' b absent e
intern-entries true false name name' a b l absent e = e
intern-entries false true name name' a b l absent e = e
intern-entries false false name name' a b l absent e = find-cons_kept l.hash name a name' b absent e

intern-Interned :
    (f : Bool) (name : Bytes) (a : ℕ) (l : Link)
    → Interned l
    → IsNamed l (name, a)
    → Interned (intern f name a l)
intern-Interned true name a l h n = record { hash = h.hash; funchash = (n, h.funchash) }
intern-Interned false name a l h n = record { hash = (n, h.hash); funchash = h.funchash }

alloc-kept : (s : Sym) (l : Link) (b : ℕ) → b < l.next → (alloc s l).1.heap b ≡ l.heap b
alloc-kept s l b lt = ground arith

alloc-names : (f : Bool) (s : Sym) (l : Link) → names_in f (alloc s l).1 ≡ names_in f l
alloc-names true s l = refl
alloc-names false s l = refl

alloc-new : (s : Sym) (l : Link) → (alloc s l).1.heap l.next ≡ s
alloc-new s l = ground arith

alloc-Interned : (s : Sym) (l : Link) → Interned l → Interned (alloc s l).1
alloc-Interned s l h = record {
  hash = IsNamed-grown l (alloc s l).1 l.hash (omega arith) (alloc-kept s l) h.hash;
  funchash = IsNamed-grown l (alloc s l).1 l.funchash (omega arith) (alloc-kept s l) h.funchash;
}

-- A new entry leaves the other keys of both tables as they were.
find-cons_other :
    (m : StrMap ℕ) (k : Bytes) (a : ℕ) (k' : Bytes) → k' ≢ k → find ((k, a) ∷ m) k' ≡ find m k'
unfolding find
find-cons_other m k a k' ne = elim (Bool-cases (bytes_eq k k')) [
  | inl t ↦ absurd (ne (sym (bytes_eq→eq k k' t)))
  | inr f ↦ rw f refl
]

intern-others :
    (f g : Bool) (name name' : Bytes) (a : ℕ) (l : Link)
    → (name' ≢ name) ⊎ (g ≢ f)
    → find (names_in g (intern f name a l)) name' ≡ find (names_in g l) name'
intern-others true true name name' a l (inl ne) = find-cons_other l.funchash name a name' ne
intern-others true true name name' a l (inr ne) = absurd (ne refl)
intern-others true false name name' a l h = refl
intern-others false true name name' a l h = refl
intern-others false false name name' a l (inl ne) = find-cons_other l.hash name a name' ne
intern-others false false name name' a l (inr ne) = absurd (ne refl)

abbrev with_new : Bytes → ℕ → Link → Link
with_new name abi l = intern (is_func abi) name l.next (alloc (new_sym name abi) l).1

new_symbol-others :
    (name : Bytes) (abi : ℕ) (l : Link) (name' : Bytes) (abi' : ℕ)
    → (name' ≢ name) ⊎ (in_funcs abi' ≢ in_funcs abi)
    → symbol_of (with_new name abi l) name' abi' ≡ symbol_of l name' abi'
new_symbol-others name abi l name' abi' h =
    let grown = (alloc (new_sym name abi) l).1 in
    let differ : (name' ≢ name) ⊎ (is_func abi' ≢ is_func abi) =
      rw (in_funcs-is_func abi', in_funcs-is_func abi) at h in
    symbol_of-in_table (with_new name abi l) name' abi'
    ∙ intern-others (is_func abi) (is_func abi') name name' l.next grown differ
    ∙ ap (λ m. find m name') (alloc-names (is_func abi') (new_sym name abi) l)
    ∙ sym (symbol_of-in_table l name' abi')

new_symbol :
    (name : Bytes) (abi : ℕ) (l : Link)
    → Interned l
    → in_table l name abi ≡ none
    → LookedUp name abi l l.next (with_new name abi l)
new_symbol name abi l h absent =
    let f = is_func abi in
    let l' = with_new name abi l in
    let grown = (alloc (new_sym name abi) l).1 in
    let heap = intern-heap f name l.next grown in
    let new = alloc-new (new_sym name abi) l in
    let named : (grown.heap l.next).name ≡ name = rw new refl in
    let with_abi : (grown.heap l.next).abi ≡ abi = rw new refl in
    record {
      found = symbol_of-in_table l' name abi ∙ find-intern f name l.next grown;
      named = rw (intern-heap f name l.next grown) named;
      entries = λ name' abi' b e.
          symbol_of-in_table l' name' abi'
          ∙ intern-entries f (is_func abi') name name' l.next b grown
              (rw (alloc-names f (new_sym name abi) l) absent)
              (rw (alloc-names (is_func abi') (new_sym name abi) l)
                (sym (symbol_of-in_table l name' abi') ∙ e));
      others = new_symbol-others name abi l;
      kept = λ b lt. rw heap (alloc-kept (new_sym name abi) l b lt);
      fresh = λ _. (refl, intern-next f name l.next grown, rw heap with_abi);
      interned =
          intern-Interned f name l.next grown (alloc-Interned (new_sym name abi) l h)
            (named, omega arith);
    }

old_symbol :
    (name : Bytes) (abi a : ℕ) (l : Link)
    → Interned l
    → in_table l name abi ≡ some a
    → LookedUp name abi l a l
old_symbol name abi a l h e =
    let there : symbol_of l name abi ≡ some a = symbol_of-in_table l name abi ∙ e in
    record {
      found = there;
      named = (find_in-IsNamed (is_func abi) l name a h e).0;
      entries = λ name' abi' b e'. e';
      others = λ name' abi' h'. refl;
      kept = λ b lt. refl;
      fresh = λ absent. absurd (none-ne-some (sym absent ∙ there));
      interned = h;
    }

-- On a link whose names stand for allocated symbols so named, `LookupABI` implements a map from
-- names and ABIs to symbols, with ABIInternal apart from the other ABIs: its answer is the symbol that the
-- name stands for from then on, and has that name; a name that was there keeps its symbol, a new one gets
-- the next address and a symbol of that ABI; no other name, and not the name in the other ABI, changes
-- what it stands for, no allocated symbol its contents, and all names still stand for allocated symbols
-- so named.
pub lookup_abi-LookedUp :
    (name : Bytes) (abi : ℕ) (l : Link)
    → Interned l
    → LookedUp name abi l (lookup_abi name abi l).0 (lookup_abi name abi l).1
unfolding lookup_abi
lookup_abi-LookedUp name abi l h = elim (Option-cases (in_table l name abi)) [
  | inl e ↦ rw e (new_symbol name abi l h e)
  | inr (a, e) ↦ rw e (old_symbol name abi a l h e)
]

-- Two names never share a symbol.
pub symbol_of_injective :
    (l : Link) (name name' : Bytes) (abi abi' a : ℕ)
    → Interned l
    → symbol_of l name abi ≡ some a
    → symbol_of l name' abi' ≡ some a
    → name ≡ name'
symbol_of_injective l name name' abi abi' a h e e' =
    sym (find_in-IsNamed (is_func abi) l name a h (sym (symbol_of-in_table l name abi) ∙ e)).0
    ∙ (find_in-IsNamed (is_func abi') l name' a h (sym (symbol_of-in_table l name' abi') ∙ e')).0
