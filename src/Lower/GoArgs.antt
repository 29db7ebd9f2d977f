-- ===== src/Lower/GoArgs.antt =====
-- internal/lower/goargs.go: `goArgsLayout`, the spill slots of Go's register arguments. An `int` is its
-- value.
pub mod Spills
use goc.Prelude.{
  ℕ, ◌+◌, Bool, true, false, Option, none, some, List, [], ◌∷◌, if◌then◌else◌, bytes_eq, codes,
}
use goc.Lower.Types.{Text}
use goc.Lower.Layout.{align_up, Loc, stack}

-- `abiParam` and `argSpill`, of Go's side.
pub record AbiParam : Type 0 where
  pub type : Text
  pub location : Loc

pub record ArgSpill : Type 0 where
  pub reg : Text
  pub off : ℕ
  pub size : ℕ
  pub ptr : Bool

pub record GoArgs : Type 0 where
  pub spills : List ArgSpill
  pub stack_ptrs : List ℕ
  pub size : ℕ

abbrev pub is_ptr : Text → Bool
is_ptr ty = bytes_eq ty (codes "ptr")

-- The map `sizes`.
unfoldable pub spill_size : Text → Option ℕ
spill_size ty =
    if bytes_eq ty (codes "ptr")
    then some 8
    else if bytes_eq ty (codes "float")
    then some 4
    else if bytes_eq ty (codes "double")
    then some 8
    else if bytes_eq ty (codes "i1")
    then some 1
    else if bytes_eq ty (codes "i8")
    then some 1
    else if bytes_eq ty (codes "i16")
    then some 2
    else if bytes_eq ty (codes "i32")
    then some 4
    else if bytes_eq ty (codes "i64")
    then some 8
    else none

-- The loop, from the offset `off`; `size` is the offset behind the last slot.
abbrev pub add_stack : Text → ℕ → GoArgs → GoArgs
add_stack ty at r = if is_ptr ty then record r { stack_ptrs = at ∷ r.stack_ptrs } else r

abbrev pub add_spill : Text → Text → ℕ → ℕ → GoArgs → GoArgs
add_spill ty reg at size r = record r {
  spills = record { reg = reg; off = 8 + at; size = size; ptr = is_ptr ty } ∷ r.spills;
}

unfoldable pub spill_loop : ℕ → List AbiParam → Option GoArgs
spill_loop off [] = some (record { spills = []; stack_ptrs = []; size = off })
spill_loop off (p ∷ ps) = elim p.location [
  | stack at ↦ elim (spill_loop off ps) [ none ↦ none | some r ↦ some (add_stack p.type at r) ]
  | Loc.reg name ↦ elim (spill_size p.type) [
    | none ↦ none
    | some size ↦
        let at = align_up off size in
        elim (spill_loop (at + size) ps) [
          | none ↦ none
          | some r ↦ some (add_spill p.type name at size r)
        ]
  ]
]

-- `none` is the error of a type with no spill size.
unfoldable pub go_args_layout : ℕ → List AbiParam → Option GoArgs
go_args_layout stack_args_size params = elim (spill_loop stack_args_size params) [
  | none ↦ none
  | some r ↦ some (record r { size = align_up r.size 8 })
]
