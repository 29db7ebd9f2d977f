-- ===== src/Lower/GoArgs/Spills.antt =====
-- The spill slots of `goArgsLayout`: behind the stack arguments, in order, aligned, and in the area.
use goc.Prelude.{
  ℕ, ◌+◌, ◌-◌, ◌*◌, ◌%◌, ◌^◌, ◌≤◌, ◌<◌, ◌≡◌, refl, ap, inl, inr, ◌⊎◌, arith, Option-cases,
  Bool-cases,
}
use goc.Prelude.{some, List, [], ◌∷◌, length}
use goc.Lower.Types.{Text}
use goc.Lower.Layout.{align_up, Loc, stack}
use goc.Lower.Layout.Align.{IsAlign, align_up-Aligned}
use goc.Lower.GoArgs.{
  AbiParam, ArgSpill, GoArgs, spill_size, spill_loop, go_args_layout, add_stack, add_spill, is_ptr,
}

-- Slots from `from` on, in an area that ends at `end`; a slot's offset counts from the entry SP, where
-- the return address takes 8 bytes.
abbrev pub AreSlots : ℕ → List ArgSpill → ℕ → Type 0
AreSlots from [] end = from ≤ end
AreSlots from (s ∷ ss) end =
    (8 + from ≤ s.off)
    × (s.off % s.size ≡ 0)
    × IsAlign s.size
    × AreSlots (s.off - 8 + s.size) ss end

pub record IsSpilled (stack_args_size : ℕ) (r : GoArgs) : Type 0 where
  pub slots : AreSlots stack_args_size r.spills r.size
  pub words : r.size % 8 ≡ 0

spill_size-IsAlign : (ty : Text) {n : ℕ} → spill_size ty ≡ some n → IsAlign n
unfolding spill_size
spill_size-IsAlign ty h = ground arith

-- The area may end later.
AreSlots-le :
    (from : ℕ) (ss : List ArgSpill) (end more : ℕ)
    → AreSlots from ss end
    → end ≤ more
    → AreSlots from ss more
AreSlots-le from [] end more h le = omega arith
AreSlots-le from (s ∷ ss) end more h le =
    (h.0, h.1, h.2, AreSlots-le (s.off - 8 + s.size) ss end more h.3 le)

pub record Slotted (off : ℕ) (ps : List AbiParam) (r : GoArgs) : Type 0 where
  pub slots : AreSlots off r.spills r.size
  pub bound : r.size ≤ off + 16 * length ps

Loc-cases : (l : Loc) → ((name : Text) × (l ≡ Loc.reg name)) ⊎ ((at : ℕ) × (l ≡ stack at))
Loc-cases (Loc.reg name) = inl (name, refl)
Loc-cases (stack at) = inr (at, refl)

behind_return : (n at : ℕ) → IsAlign n → at % n ≡ 0 → (8 + at) % n ≡ 0
behind_return n at (inl e) h = let k = rw e at h in rw e (omega (arith, k))
behind_return n at (inr (inl e)) h = let k = rw e at h in rw e (omega (arith, k))
behind_return n at (inr (inr (inl e))) h = let k = rw e at h in rw e (omega (arith, k))
behind_return n at (inr (inr (inr e))) h = let k = rw e at h in rw e (omega (arith, k))

small : (n : ℕ) → IsAlign n → (0 < n) × (n ≤ 8)
small n h = (omega arith, omega arith)

add_stack-Slotted :
    (off at : ℕ) (p : AbiParam) (ps : List AbiParam) (r : GoArgs)
    → Slotted off ps r
    → Slotted off (p ∷ ps) (add_stack p.type at r)
add_stack-Slotted off at p ps r h = elim (Bool-cases (is_ptr p.type)) [
  | inl e ↦ rw e (record { slots = h.slots; bound = omega (arith, h.bound) })
  | inr e ↦ rw e (record { slots = h.slots; bound = omega (arith, h.bound) })
]

add_spill-Slotted :
    (off n : ℕ) (name : Text) (p : AbiParam) (ps : List AbiParam) (r : GoArgs)
    → IsAlign n
    → off + 16 * length (p ∷ ps) < 2 ^ 63
    → Slotted (align_up off n + n) ps r
    → Slotted off (p ∷ ps) (add_spill p.type name (align_up off n) n r)
add_spill-Slotted off n name p ps r align room h =
    let at = align_up off n in
    let a = align_up-Aligned off n align (omega arith) in
    let (positive, eight) = small n align in
    record {
      slots = (
        omega (arith, a.above),
        behind_return n at align a.multiple,
        align,
        rw (ap (λ (t : ℕ). t + n) {x = 8 + at - 8} {y = at} (omega arith)) h.slots,
      );
      bound = omega (arith, h.bound, a.near, eight);
    }

spill_loop_lem :
    (ps : List AbiParam) (off : ℕ) {r : GoArgs}
    → off + 16 * length ps < 2 ^ 63
    → spill_loop off ps ≡ some r
    → Slotted off ps r
unfolding spill_loop
spill_loop_lem [] off {r} room h =
    let t : r ≡ record { spills = []; stack_ptrs = []; size = off } = ground arith in
    rw t (record { slots = omega arith; bound = omega arith })
spill_loop_lem (p ∷ ps) off {r} room h = elim (Loc-cases p.location) [
  | inr (at, e) ↦ elim (Option-cases (spill_loop off ps)) [
    | inl d ↦ cc (rw (e, d, spill_loop) at h)
    | inr (rest, d) ↦
        let k : some (add_stack p.type at rest) ≡ some r = rw (e, d, spill_loop) at h in
        let t : r ≡ add_stack p.type at rest = ground arith in
        rw t (add_stack-Slotted off at p ps rest (spill_loop_lem ps off (omega arith) d))
  ]
  | inl (name, e) ↦ elim (Option-cases (spill_size p.type)) [
    | inl d ↦ cc (rw (e, d, spill_loop) at h)
    | inr (n, d) ↦
        let align = spill_size-IsAlign p.type d in
        let near = align_up-Aligned off n align (omega arith) in
        let (positive, eight) = small n align in
        elim (Option-cases (spill_loop (align_up off n + n) ps)) [
          | inl c ↦ cc (rw (e, d, c, spill_loop) at h)
          | inr (rest, c) ↦
              let k : some (add_spill p.type name (align_up off n) n rest) ≡ some r =
                rw (e, d, c, spill_loop) at h in
              let t : r ≡ add_spill p.type name (align_up off n) n rest = ground arith in
              let room' : align_up off n + n + 16 * length ps < 2 ^ 63 =
                omega (arith, near.near, eight) in
              rw t (
                add_spill-Slotted off n name p ps rest align room
                  (spill_loop_lem ps (align_up off n + n) room' c))
        ]
  ]
]

-- When `goArgsLayout` returns a layout for a stack area and parameters with
-- `stack_args_size + 16 * length params < 2 ^ 62`: the spill slots lie behind the stack arguments and
-- the return address, in order, each at a multiple of its size of 1, 2, 4 or 8 bytes and behind the one
-- before, inside an argument area of whole words.
pub go_args_layout-IsSpilled :
    (stack_args_size : ℕ) (params : List AbiParam) (r : GoArgs)
    → stack_args_size + 16 * length params < 2 ^ 62
    → go_args_layout stack_args_size params ≡ some r
    → IsSpilled stack_args_size r
unfolding go_args_layout
go_args_layout-IsSpilled off ps r room h = elim (Option-cases (spill_loop off ps)) [
  | inl e ↦ cc (rw (e, go_args_layout) at h)
  | inr (l, e) ↦
      let k : some (record l { size = align_up l.size 8 }) ≡ some r = rw (e, go_args_layout) at h in
      let t : r ≡ record l { size = align_up l.size 8 } = ground arith in
      let s = spill_loop_lem ps off (omega arith) e in
      let a = align_up-Aligned l.size 8 (inr (inr (inr refl))) (omega (arith, s.bound)) in
      rw t (record {
        slots = AreSlots-le off l.spills l.size (align_up l.size 8) s.slots a.above;
        words = a.multiple;
      })
]
