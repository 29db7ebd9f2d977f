-- ===== src/Goobj/Dwarf/Uleb.antt =====
-- The object writer's `uleb` and the section encoder's.
use goc.Prelude.{ℕ, zero, suc, ◌+◌, ◌/◌, ◌%◌, ◌^◌, ◌<◌, ◌≡◌, refl, arith}
use goc.Prelude.Bits.{low_seven_of, set_top_bit, top_bit}
use goc.Gocobj.Codec.{IsU64, uvarint_groups, put_uleb}
use goc.Goobj.Link.{Sym}
use goc.Goobj.Dwarf.{uleb_loop, uleb, append_p}
use native.Mathlib.Nat.{pow-suc}

uleb_loop-groups : (k v : ℕ) → v < 128 ^ suc k → uleb_loop (suc k) v ≡ uvarint_groups k v
unfolding uleb_loop uvarint_groups
uleb_loop-groups zero v h = ground (arith, low_seven_of v, top_bit v)
uleb_loop-groups (suc k) v h =
    let rest = uleb_loop-groups k (v / 128) (omega (arith, pow-suc 128 (suc k))) in
    ground (
      arith,
      low_seven_of v,
      top_bit (v % 128),
      set_top_bit (v % 128),
      set_top_bit (v % 256),
      top_bit (v % 128 + 128),
      rest,
    )

-- The bytes that `uleb` of the object writer appends for a uint64 are those of the section encoder's
-- `uleb`, whose loop is another.
pub uleb-put_uleb : (v : ℕ) (s : Sym) → IsU64 v → uleb v s ≡ append_p (put_uleb v) s
unfolding uleb put_uleb
uleb-put_uleb v s h = rw (uleb_loop-groups 9 v (omega arith)) refl
