-- ===== src/Convert/RelocMap/Profiles.antt =====
-- profileFor of internal/convert/relocmap.go: the facts of the release and the chosen profile.
use goc.Prelude.{
  ◌≡◌, ◌⊎◌, inl, inr, refl, ◌∙◌, Bool-cases, arith, Bool, true, false, not, ◌&&◌, ◌||◌, bytes_eq,
  codes, if◌then◌else◌, some, List, [], ◌∷◌, ◌++◌, ℕ, ◌==◌, ◌≢◌, sym, ap, All, append-nil,
  bytes_eq→eq, bytes_eq_self,
}
use goc.Gocobj.Codec.{Bytes}
use goc.Gocobj.Abi.{Profile, profiles, join, same_facts}
use goc.Gometa.{Meta, Arch, find, int_at}
use goc.Convert.RelocMap.{
  Chosen, chosen, no_profile, profile_reg, profile_regs, facts_of, zero_profile, is_better, best_of,
  named_profile, profile_for,
}

-- `best` has no name yet, or it states the facts of `got`.
abbrev is_candidate : Profile → Profile → Bool
is_candidate got best = bytes_eq best.name [] || same_facts best got

better-is_candidate :
    (got p best : Profile)
    → is_candidate got best ≡ true
    → is_candidate got (if is_better got p best then p else best) ≡ true
better-is_candidate got p best held = ground arith

best_of-is_candidate :
    (got : Profile) (ps : List Profile) (best : Profile)
    → is_candidate got best ≡ true
    → is_candidate got (best_of got ps best) ≡ true
unfolding best_of
best_of-is_candidate got [] best held = held
best_of-is_candidate got (p ∷ ps) best held =
    best_of-is_candidate got ps (if is_better got p best then p else best)
      (better-is_candidate got p best held)

zero_profile-is_candidate : (got : Profile) → is_candidate got zero_profile ≡ true
zero_profile-is_candidate got = refl

abbrev pub all_named : List Profile → Bool
all_named [] = true
all_named (p ∷ ps) = not (bytes_eq p.name []) && all_named ps

abbrev pub any_same_facts : Profile → List Profile → Bool
any_same_facts got [] = false
any_same_facts got (p ∷ ps) = same_facts p got || any_same_facts got ps

profiles-all_named : all_named profiles ≡ true
unfolding profiles
profiles-all_named = refl

better-is_named :
    (got p best : Profile)
    → not (bytes_eq p.name []) ≡ true
    → not (bytes_eq (if is_better got p best then p else best).name [])
      ≡ same_facts p got || not (bytes_eq best.name [])
better-is_named got p best named = ground arith

-- The loop returns a named profile when it starts with one, or one of the list has the facts.
best_of-any_same_facts :
    (got : Profile) (ps : List Profile) (best : Profile)
    → all_named ps ≡ true
    → not (bytes_eq (best_of got ps best).name [])
      ≡ any_same_facts got ps || not (bytes_eq best.name [])
unfolding best_of
best_of-any_same_facts got [] best named = refl
best_of-any_same_facts got (p ∷ ps) best named =
    let rest =
      best_of-any_same_facts got ps (if is_better got p best then p else best) (ground arith) in
    let here = better-is_named got p best (ground arith) in rest ∙ (rw here (ground arith))

-- strings.Join with a comma, as the first string and the others behind their commas.
abbrev pub behind_commas : List Bytes → Bytes
behind_commas [] = []
behind_commas (x ∷ xs) = 0x2C ∷ (x ++ behind_commas xs)

abbrev pub with_commas : List Bytes → Bytes
with_commas [] = []
with_commas (x ∷ xs) = x ++ behind_commas xs

join-with_commas : (xs : List Bytes) → join xs ≡ with_commas xs
unfolding join
join-with_commas [] = refl
join-with_commas (x ∷ []) = sym (append-nil x)
join-with_commas (x ∷ y ∷ xs) = ap (λ (t : Bytes). x ++ (0x2C ∷ t)) (join-with_commas (y ∷ xs))

-- The register as the profiles spell it: on amd64 with an R in front.
abbrev pub IsSpelled : Bool → Bytes → Bytes → Type 0
IsSpelled false r r' = r' ≡ r
IsSpelled true [] r' = ⊥
IsSpelled true (c ∷ cs) r' = ((c ≡ 0x52) × (r' ≡ c ∷ cs)) ⊎ ((c ≢ 0x52) × (r' ≡ 0x52 ∷ c ∷ cs))

abbrev pub AreSpelled : Bool → List Bytes → List Bytes → Type 0
AreSpelled amd64 [] [] = Unit
AreSpelled amd64 [] (r' ∷ rs') = ⊥
AreSpelled amd64 (r ∷ rs) [] = ⊥
AreSpelled amd64 (r ∷ rs) (r' ∷ rs') = IsSpelled amd64 r r' × AreSpelled amd64 rs rs'

profile_reg-IsSpelled :
    (amd64 : Bool) (r r' : Bytes) → IsSpelled amd64 r r' → profile_reg amd64 r ≡ some r'
unfolding profile_reg
profile_reg-IsSpelled false r r' h = ap some (sym h)
profile_reg-IsSpelled true [] r' h = absurd h
profile_reg-IsSpelled true (c ∷ cs) r' (inl h) =
    let t : c == 0x52 ≡ true = ground (arith, h.0) in rw (t, h.1) refl
profile_reg-IsSpelled true (c ∷ cs) r' (inr h) =
    let f : c == 0x52 ≡ false = ground (arith, h.0) in rw (f, h.1) refl

profile_regs-AreSpelled :
    (amd64 : Bool) (rs rs' : List Bytes)
    → AreSpelled amd64 rs rs'
    → profile_regs amd64 rs ≡ some rs'
unfolding profile_regs
profile_regs-AreSpelled amd64 [] [] h = refl
profile_regs-AreSpelled amd64 [] (r' ∷ rs') h = absurd h
profile_regs-AreSpelled amd64 (r ∷ rs) [] h = absurd h
profile_regs-AreSpelled amd64 (r ∷ rs) (r' ∷ rs') h =
    rw (profile_reg-IsSpelled amd64 r r' h.0, profile_regs-AreSpelled amd64 rs rs' h.1) refl

-- The profile states the facts of the release for the architecture, with the registers as they are spelled.
pub record StatesFacts (m : Meta) (goarch : Bytes) (a : Arch) (regs : List Bytes) (p : Profile)
    : Type 0 where
  pub arch : p.arch ≡ goarch
  pub ptr_size : p.ptr_size ≡ a.ptr_size
  pub g_reg : p.g_reg ≡ a.g_reg
  pub guard : p.stack_guard0_off ≡ int_at m.abi.g_offsets (codes "stackguard0")
  pub small : p.stack_small ≡ m.abi.stack_small
  pub big : p.stack_big ≡ m.abi.stack_big
  pub morestack : p.morestack ≡ a.morestack
  pub int_regs : with_commas p.int_regs ≡ with_commas regs
  pub fp_regs : with_commas p.fp_regs ≡ with_commas a.float_args

same_facts-StatesFacts :
    (m : Meta) (goarch : Bytes) (a : Arch) (regs : List Bytes) (p : Profile)
    → same_facts p (facts_of m goarch a regs) ≡ true
    → StatesFacts m goarch a regs p
unfolding same_facts
same_facts-StatesFacts m goarch a regs p h =
    let int_joined : bytes_eq (join p.int_regs) (join regs) ≡ true = ground arith in
    let fp_joined : bytes_eq (join p.fp_regs) (join a.float_args) ≡ true = ground arith in
    record {
      arch = bytes_eq→eq p.arch goarch (ground arith);
      ptr_size = ground arith;
      g_reg = bytes_eq→eq p.g_reg a.g_reg (ground arith);
      guard = ground arith;
      small = ground arith;
      big = ground arith;
      morestack = bytes_eq→eq p.morestack a.morestack (ground arith);
      int_regs =
          sym (join-with_commas p.int_regs)
          ∙ bytes_eq→eq (join p.int_regs) (join regs) int_joined
          ∙ join-with_commas regs;
      fp_regs =
          sym (join-with_commas p.fp_regs)
          ∙ bytes_eq→eq (join p.fp_regs) (join a.float_args) fp_joined
          ∙ join-with_commas a.float_args;
    }

number_eq_self : (n : ℕ) → (n == n) ≡ true
number_eq_self n = ground arith

StatesFacts-same_facts :
    (m : Meta) (goarch : Bytes) (a : Arch) (regs : List Bytes) (p : Profile)
    → StatesFacts m goarch a regs p
    → same_facts p (facts_of m goarch a regs) ≡ true
unfolding same_facts
StatesFacts-same_facts m goarch a regs p h =
    let ints : join p.int_regs ≡ join regs =
      join-with_commas p.int_regs ∙ h.int_regs ∙ sym (join-with_commas regs) in
    let floats : join p.fp_regs ≡ join a.float_args =
      join-with_commas p.fp_regs ∙ h.fp_regs ∙ sym (join-with_commas a.float_args) in
    rw
      (
        h.arch,
        h.ptr_size,
        h.g_reg,
        h.guard,
        h.small,
        h.big,
        h.morestack,
        ints,
        floats,
        bytes_eq_self goarch,
        number_eq_self a.ptr_size,
        bytes_eq_self a.g_reg,
        number_eq_self (int_at m.abi.g_offsets (codes "stackguard0")),
        number_eq_self m.abi.stack_small,
        number_eq_self m.abi.stack_big,
        bytes_eq_self a.morestack,
        bytes_eq_self (join regs),
        bytes_eq_self (join a.float_args),
      )
      refl

-- The profile is on the list.
abbrev pub IsListed : Profile → List Profile → Type 0
IsListed p [] = ⊥
IsListed p (q ∷ qs) = (p ≡ q) ⊎ IsListed p qs

one_of_two {ℓ} : {X : Type ℓ} {x p q : X} (c : Bool) → x ≡ (if c then p else q) → (x ≡ p) ⊎ (x ≡ q)
one_of_two true e = inl e
one_of_two false e = inr e

-- The loop's profile is the one it started with or on the list.
best_of-IsListed :
    (got : Profile) (ps : List Profile) (best : Profile)
    → (best_of got ps best ≡ best) ⊎ IsListed (best_of got ps best) ps
unfolding best_of
best_of-IsListed got [] best = inl refl
best_of-IsListed got (p ∷ ps) best =
    elim (best_of-IsListed got ps (if is_better got p best then p else best)) [
      | inl e ↦ elim (one_of_two (is_better got p best) e) [ inl k ↦ inr (inl k) | inr k ↦ inl k ]
      | inr l ↦ inr (inr l)
    ]

none_same :
    (m : Meta) (goarch : Bytes) (a : Arch) (regs : List Bytes) (ps : List Profile)
    → any_same_facts (facts_of m goarch a regs) ps ≡ false
    → All (λ p. ¬ StatesFacts m goarch a regs p) ps
none_same m goarch a regs [] h = tt
none_same m goarch a regs (p ∷ ps) h =
    let no : same_facts p (facts_of m goarch a regs) ≡ false = ground arith in
    (
      (λ s. ground (arith, no, StatesFacts-same_facts m goarch a regs p s)),
      none_same m goarch a regs ps (ground arith),
    )

-- One of the profiles with the facts of the release, or the error of an unknown profile when none has them.
abbrev pub Outcome : Meta → Bytes → Arch → List Bytes → Chosen → Type 0
Outcome m goarch a regs result =
    ((p : Profile) × (result ≡ chosen p) × IsListed p profiles × StatesFacts m goarch a regs p)
    ⊎ ((result ≡ no_profile) × All (λ p. ¬ StatesFacts m goarch a regs p) profiles)

named_profile-Outcome :
    (m : Meta) (goarch : Bytes) (a : Arch) (regs : List Bytes)
    → Outcome m goarch a regs
        (named_profile (best_of (facts_of m goarch a regs) profiles zero_profile))
named_profile-Outcome m goarch a regs =
    let got : Profile = facts_of m goarch a regs in
    let best : Profile = best_of got profiles zero_profile in
    let held = best_of-is_candidate got profiles zero_profile (zero_profile-is_candidate got) in
    let named = best_of-any_same_facts got profiles zero_profile profiles-all_named in
    elim (Bool-cases (bytes_eq best.name [])) [
      | inl t ↦ inr (rw t refl, none_same m goarch a regs profiles (ground (arith, named, t)))
      | inr f ↦
          let same : same_facts best got ≡ true = ground (arith, held, f) in
          let listed : IsListed best profiles = elim (best_of-IsListed got profiles zero_profile) [
            | inl e ↦ absurd (ground (arith, f, (ap (λ (q : Profile). bytes_eq q.name []) e)))
            | inr l ↦ l
          ] in
          inl (best, rw f refl, listed, same_facts-StatesFacts m goarch a regs best same)
    ]

-- For an architecture whose runtime adjusts saved frame pointers and whose integer registers are spelled
-- `regs`, profileFor returns one of the profiles that states the release's facts: architecture, pointer
-- size, g register, stack guard offset, stack bounds, morestack and registers. When no profile states them
-- it returns the error of an unknown profile.
pub profile_for-Outcome :
    (m : Meta) (goarch : Bytes) (a : Arch) (regs : List Bytes)
    → find m.arch goarch ≡ some a
    → a.stack_copy_adjusts_fp ≡ true
    → AreSpelled (bytes_eq goarch (codes "amd64")) a.int_args regs
    → Outcome m goarch a regs (profile_for m goarch)
unfolding profile_for
profile_for-Outcome m goarch a regs known adjusts spelled =
    let regs' = profile_regs-AreSpelled (bytes_eq goarch (codes "amd64")) a.int_args regs spelled in
    let same : profile_for m goarch
        ≡ named_profile (best_of (facts_of m goarch a regs) profiles zero_profile) =
      rw (known, adjusts, regs') refl in
    rw same (named_profile-Outcome m goarch a regs)
