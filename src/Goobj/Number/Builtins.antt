-- ===== src/Goobj/Number/Builtins.antt =====
-- `builtinIdx` finds an entry of the name.
use goc.Prelude.{
  ℕ, ◌+◌, ◌≡◌, arith, if◌then◌else◌, Bool-cases, Option-cases, inl, inr, bytes_eq, bytes_eq→eq,
}
use goc.Prelude.{Option, none, some, List, [], ◌∷◌, ◌++◌, length, append_assoc, length-append}
use goc.Gocobj.Codec.{Bytes}
use goc.Gometa.{Builtin}
use goc.Goobj.Link.{Link}
use goc.Goobj.Number.{last_builtin, builtin_idx}
use goc.Goobj.Number.Blocks.{IsEntry, get-append, get-last}

found_here :
    (name : Bytes) (b : Builtin) (bs before : List Builtin) (found : Option (ℕ × Builtin)) (i : ℕ)
    (c : Builtin)
    → ((i' : ℕ) (c' : Builtin) → found ≡ some (i', c') → IsEntry (before ++ (b ∷ bs)) name i' c')
    → (if bytes_eq b.name name then some (length before, b) else found) ≡ some (i, c)
    → IsEntry (before ++ (b ∷ bs)) name i c
found_here name b bs before found i c h eq = elim (Bool-cases (bytes_eq b.name name)) [
  | inl t ↦
      let here : ◌≡◌ {A = Option (ℕ × Builtin)} (some (length before, b)) (some (i, c)) =
        rw t at eq in
      let index : length before ≡ i = cc in
      let entry : b ≡ c = cc in
      let place = get-append (before ++ (b ∷ [])) bs (length before) b (get-last before b) in
      rw (← index, ← entry)
        ((rw (append_assoc before (b ∷ []) bs) at place), bytes_eq→eq b.name name t)
  | inr f ↦ h i c (rw f at eq)
]

last_builtin-IsEntry :
    (name : Bytes) (bs before : List Builtin) (found : Option (ℕ × Builtin)) (i : ℕ) (c : Builtin)
    → ((i' : ℕ) (c' : Builtin) → found ≡ some (i', c') → IsEntry (before ++ bs) name i' c')
    → last_builtin name bs (length before) found ≡ some (i, c)
    → IsEntry (before ++ bs) name i c
unfolding last_builtin
last_builtin-IsEntry name [] before found i c h eq = h i c eq
last_builtin-IsEntry name (b ∷ bs) before found i c h eq =
    let moved = append_assoc before (b ∷ []) bs in
    let next : length before + 1 ≡ length (before ++ (b ∷ [])) =
      omega (arith, length-append before (b ∷ [])) in
    let found' = if bytes_eq b.name name then some (length before, b) else found in
    let rest =
      last_builtin-IsEntry name bs (before ++ (b ∷ [])) found' i c
        (λ i' c' e. rw moved (found_here name b bs before found i' c' h e)) (rw next at eq) in
    rw moved at rest

pub builtin_idx-IsEntry :
    (l : Link) (name : Bytes) (abi i : ℕ)
    → builtin_idx l name abi ≡ some i
    → (b : Builtin) × IsEntry l.meta.object.builtins name i b
unfolding builtin_idx
builtin_idx-IsEntry l name abi i h =
    elim (Option-cases (last_builtin name l.meta.object.builtins 0 none)) [
      | inl e ↦ absurd (ground (arith, (rw (e, builtin_idx) at h)))
      | inr ((j, b), e) ↦
          let same : j ≡ i = ground (arith, (rw (e, builtin_idx) at h)) in
          (
            b,
            (rw same at (
                last_builtin-IsEntry name l.meta.object.builtins [] none j b
                  (λ i' c' e'. absurd (ground arith)) e)),
          )
    ]
