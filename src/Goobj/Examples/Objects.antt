-- ===== src/Goobj/Examples/Objects.antt =====
-- A link at which the theorems on the operations of internal/goobj/link.go and on the numbering hold.
use goc.Prelude.{ℕ, ◌<◌, ◌≡◌, ◌↔◌, refl, arith, true, false, [], codes}
use goc.Gometa.{find}
use goc.Gometa.Check.{}
use goc.Goobj.Link.{Link, LinkError, done, failed, new_sym, new_link, lookup_abi, globl}
use goc.Goobj.Link.Interned.{Interned, LookedUp, lookup_abi-LookedUp}
use goc.Goobj.Build.{Built, opened, stepped, name_looked_up}
use goc.Goobj.Build.Listed.{times_listed, globl-redeclared}
use goc.Goobj.Number.{number}
use goc.Goobj.Number.Blocks.{DistinctPkgs, Stands}
use goc.Goobj.Number.Traverse.{Returns}
use goc.Goobj.Number.Resolve.{number-Stands}
use goc.Goobj.Number.Listed.{number-indexed}
use goc.Goobj.Write.{}
use goc.Goobj.Examples.{release, object}

release_is_distinct : DistinctPkgs release
unfolding find
release_is_distinct = record {
  hashed64_none = λ e. absurd (omega arith);
  hashed_none = λ e. absurd (omega arith);
  hashed_hashed64 = λ e. absurd (omega arith);
  self_none = λ e. absurd (omega arith);
  self_hashed64 = λ e. absurd (omega arith);
  self_hashed = λ e. absurd (omega arith);
}

number-Stands_example :
    Returns
      (λ (l' : Link). (a : ℕ) → (l'.heap a).indexed ≡ true → Stands l' (l'.heap a) a)
      (number object)
number-Stands_example = number-Stands object release_is_distinct (λ a. refl) refl

number-indexed_example :
    Returns (λ (l' : Link). ((l'.heap 0).indexed ≡ true) × (0 < l'.next)) (number object)
number-indexed_example = number-indexed 0 object refl (omega arith)

new_object-Interned : Interned object
new_object-Interned = record { hash = tt; funchash = tt }

lookup_abi-LookedUp_example :
    LookedUp
      (codes "p.y")
      1
      object
      (lookup_abi (codes "p.y") 1 object).0
      (lookup_abi (codes "p.y") 1 object).1
lookup_abi-LookedUp_example = lookup_abi-LookedUp (codes "p.y") 1 object new_object-Interned

-- An object as `NewLink` makes it.
abbrev opened_link : Link
opened_link = record object { data_syms = []; flushed = false; next = 0; heap = λ _. new_sym [] 0 }

opens : new_link release (codes "amd64") (codes "p") ≡ done opened_link
unfolding new_link find
opens = refl

abbrev named_link : Link
named_link = (lookup_abi (codes "p.x") 0 opened_link).1

named_link-Built : Built named_link
named_link-Built =
    stepped (opened release (codes "amd64") (codes "p") opened_link opens)
      (name_looked_up (codes "p.x") 0 opened_link)

globl-redeclared_example :
    (globl 0 8 2 named_link ≡ failed LinkError.redeclared) ↔ (times_listed 0 named_link ≡ 1)
globl-redeclared_example = globl-redeclared named_link-Built 0 8 2
