-- ===== src/Goobj/Number/Listed.antt =====
-- Every TEXT and DATA symbol gets a number.
use goc.Prelude.{
  ℕ, ◌≤◌, ◌<◌, ◌≡◌, refl, ap, ◌∙◌, arith, Bool, true, false, ◌||◌, ◌==◌, Bool-cases, inl, inr,
  Option, none, some, List, [], ◌∷◌, length,
}
use goc.Gocobj.Codec.{Bytes}
use goc.Gometa.{find}
use goc.Goobj.Link.{
  Sym, Link, LinkError, done, new_sym, alloc, intern, is_func, names_in, looked_up, lookup_abi,
  lookup, abi0,
}
use goc.Goobj.Number.{
  number_def, RefState, number_new_ref, number_ref, builtin_idx, fail_if, traverse, traverse_list,
  traverse_sym, visit_pcdata, with_func, is_text, def_flags, ref_flags, number,
}
use goc.Goobj.Number.Traverse.{
  Returns, Returns-bind, Returns-if, visit_all-keeps, with_func-keeps, traverse_sym-keeps,
  traverse_list-keeps, traverse-keeps,
}

-- Is `a` one of the list?
abbrev pub is_in : ℕ → List ℕ → Bool
is_in a [] = false
is_in a (x ∷ xs) = (x == a) || is_in a xs

-- The symbol is allocated and has a number.
abbrev HasNumber : {A : Type 0} → ℕ → Link × A → Type 0
HasNumber a st = ((st.0.heap a).indexed ≡ true) × (a < st.0.next)

-- The lists and the addresses stay while symbols are numbered.
abbrev Allocated : {A : Type 0} → ℕ → Link × A → Type 0
Allocated a st = a < st.0.next

number_def-HasNumber :
    (a b : ℕ) (st : Link × Option LinkError)
    → HasNumber a st
    → Returns (HasNumber a) (number_def b st)
unfolding number_def
number_def-HasNumber a b st h = ground (arith, h)

number_def-Allocated :
    (a b : ℕ) (st : Link × Option LinkError)
    → Allocated a st
    → Returns (Allocated a) (number_def b st)
unfolding number_def
number_def-Allocated a b st h = ground (arith, h)

number_def_self :
    (a : ℕ) (st : Link × Option LinkError)
    → Allocated a st
    → Returns (HasNumber a) (number_def a st)
unfolding number_def
number_def_self a st h = ground (arith, h)

new_ref-HasNumber :
    (a b : ℕ) (o : Option ℕ) (st : Link × RefState)
    → HasNumber a st
    → Returns (HasNumber a) (number_new_ref o b st)
new_ref-HasNumber a b none st h = ground (arith, h)
new_ref-HasNumber a b (some i) st h = ground (arith, h)

number_ref-HasNumber :
    (a b : ℕ) (st : Link × RefState) → HasNumber a st → Returns (HasNumber a) (number_ref b st)
unfolding number_ref
number_ref-HasNumber a b st h =
    let o = builtin_idx st.0 (st.0.heap b).name (st.0.heap b).abi in
    Returns-if (HasNumber a) (st.0.heap b).indexed (done st) (number_new_ref o b st) h
      (new_ref-HasNumber a b o st h)

intern-kept :
    (f : Bool) (name : Bytes) (b a : ℕ) (l : Link)
    → ((intern f name b l).heap a ≡ l.heap a) × ((intern f name b l).next ≡ l.next)
intern-kept true name b a l = (refl, refl)
intern-kept false name b a l = (refl, refl)

looked_up-kept :
    (o : Option ℕ) (name : Bytes) (abi a : ℕ) (l : Link)
    → a < l.next
    → ((looked_up o name abi l).1.heap a ≡ l.heap a) × (l.next ≤ (looked_up o name abi l).1.next)
looked_up-kept none name abi a l h =
    let kept = intern-kept (is_func abi) name l.next a (alloc (new_sym name abi) l).1 in
    let old : (alloc (new_sym name abi) l).1.heap a ≡ l.heap a = ground (arith, h) in
    (kept.0 ∙ old, omega (arith, kept.1))
looked_up-kept (some b) name abi a l h = (refl, omega arith)

lookup-kept :
    (name : Bytes) (a : ℕ) (l : Link)
    → a < l.next
    → ((lookup name l).1.heap a ≡ l.heap a) × (l.next ≤ (lookup name l).1.next)
unfolding lookup lookup_abi
lookup-kept name a l h = looked_up-kept (find (names_in (is_func abi0) l) name) name abi0 a l h

lookup-HasNumber :
    {A : Type 0} (a : ℕ) (name : Bytes) (l : Link) (acc : A)
    → HasNumber a (l, acc)
    → HasNumber a ((lookup name l).1, acc)
lookup-HasNumber a name l acc h =
    let kept = lookup-kept name a l h.1 in
    (ap (λ (s : Sym). s.indexed) kept.0 ∙ h.0, omega (arith, kept.1, h.1))

lookup-Allocated :
    {A : Type 0} (a : ℕ) (name : Bytes) (l : Link) (acc : A)
    → Allocated a (l, acc)
    → Allocated a ((lookup name l).1, acc)
lookup-Allocated a name l acc h = omega (arith, (lookup-kept name a l h).1, h)

-- The visit of `a` itself numbers it, and the tables behind it leave it so.
traverse_sym_self :
    (a : ℕ) (st : Link × Option LinkError)
    → Allocated a st
    → Returns (HasNumber a) (traverse_sym number_def def_flags a st)
unfolding traverse_sym visit_pcdata
traverse_sym_self a st h =
    Returns-bind (HasNumber a) (HasNumber a) (number_def a st) _ (number_def_self a st h) (λ st1 h1.
      Returns-if (HasNumber a) (is_text (st1.0.heap a).kind)
        (with_func number_def a (visit_pcdata number_def) st1) (done st1)
        (with_func-keeps number_def (HasNumber a) (number_def-HasNumber a) (lookup-HasNumber a) a
          (visit_pcdata number_def) st1
          (λ f.
            visit_all-keeps number_def (HasNumber a) (number_def-HasNumber a) (lookup-HasNumber a)
              (f.pcsp ∷ f.pcfile ∷ f.pcline ∷ f.pcinline ∷ f.pcdata) st1 h1))
        h1)

traverse_list_self :
    (syms : List ℕ) (a : ℕ) (st : Link × Option LinkError)
    → is_in a syms ≡ true
    → Allocated a st
    → Returns (HasNumber a) (traverse_list number_def def_flags syms st)
unfolding traverse_list
traverse_list_self [] a st e h = absurd (ground arith)
traverse_list_self (x ∷ syms) a st e h = elim (Bool-cases (x == a)) [
  | inl t ↦
      let same : x ≡ a = ground arith in
      Returns-bind (HasNumber a) (HasNumber a) (traverse_sym number_def def_flags x st) _
        (rw same (traverse_sym_self a st h))
        (λ st'.
          traverse_list-keeps number_def (HasNumber a) (number_def-HasNumber a) (lookup-HasNumber a)
            def_flags syms st')
  | inr f ↦
      Returns-bind (Allocated a) (HasNumber a) (traverse_sym number_def def_flags x st) _
        (traverse_sym-keeps number_def (Allocated a) (number_def-Allocated a) (lookup-Allocated a)
          def_flags x st h)
        (λ st'. traverse_list_self syms a st' (rw f at e))
]

traverse_self :
    (a : ℕ) (l : Link)
    → (is_in a l.text || is_in a l.data_syms) ≡ true
    → a < l.next
    → Returns (HasNumber a) (traverse number_def def_flags (l, none))
unfolding traverse
traverse_self a l e h = elim (Bool-cases (is_in a l.text)) [
  | inl t ↦
      Returns-bind (HasNumber a) (HasNumber a) (traverse_list number_def def_flags l.text (l, none))
        _ (traverse_list_self l.text a (l, none) t h)
        (λ st.
          traverse_list-keeps number_def (HasNumber a) (number_def-HasNumber a) (lookup-HasNumber a)
            def_flags l.data_syms st)
  | inr f ↦
      Returns-bind (Allocated a) (HasNumber a) (traverse_list number_def def_flags l.text (l, none))
        _
        (traverse_list-keeps number_def (Allocated a) (number_def-Allocated a) (lookup-Allocated a)
          def_flags l.text (l, none) h)
        (λ st. traverse_list_self l.data_syms a st (rw f at e))
]

fail_if-HasNumber :
    (a : ℕ) (err : Option LinkError) (l : Link)
    → ((l.heap a).indexed ≡ true) × (a < l.next)
    → Returns (λ (l' : Link). ((l'.heap a).indexed ≡ true) × (a < l'.next)) (fail_if err l)
fail_if-HasNumber a none l h = h
fail_if-HasNumber a (some e) l h = tt

-- When `number` succeeds, every allocated symbol of the TEXT and the DATA list has a number, and is
-- still allocated.
pub number-indexed :
    (a : ℕ) (l : Link)
    → (is_in a l.text || is_in a l.data_syms) ≡ true
    → a < l.next
    → Returns (λ (l' : Link). ((l'.heap a).indexed ≡ true) × (a < l'.next)) (number l)
unfolding number
number-indexed a l e h =
    let P = λ (l' : Link). ((l'.heap a).indexed ≡ true) × (a < l'.next) in
    Returns-bind (HasNumber a) P (traverse number_def def_flags (l, none)) _ (traverse_self a l e h)
      (λ d hd. Returns-bind P P (fail_if d.1 d.0) _ (fail_if-HasNumber a d.1 d.0 hd) (λ l' h'.
        let first : RefState = record { err = none; nonpkg = length l'.nonpkgdefs } in
        Returns-bind (HasNumber a) P (traverse number_ref ref_flags (l', first)) _
          (traverse-keeps number_ref (HasNumber a) (number_ref-HasNumber a) (lookup-HasNumber a)
            ref_flags (l', first) h')
          (λ r hr. fail_if-HasNumber a r.1.err r.0 hr)))
