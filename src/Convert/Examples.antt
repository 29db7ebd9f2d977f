-- ===== src/Convert/Examples.antt =====
-- A table and safepoints at which the theorems on internal/convert hold.
use goc.Prelude.{codes, ◌≢◌, Option, true, ℕ, ◌<◌, ◌≡◌, refl, inl, inr, arith, some, List, [], ◌∷◌}
use goc.Prelude.Int.{pos, negsuc}
use goc.Gocobj.Codec.{Bytes}
use goc.Gocobj.Format.{PcEntry, Safepoint}
use goc.Convert.PcTab.{pc_segments, pc_bytes, map_loop}
use goc.Convert.PcTab.Segments.{value_at, entry_at, value_at-pc_segments}
use goc.Convert.PcTab.Chain.{span_at}
use goc.Convert.PcTab.Decode.{diff_pc_value-pc_bytes}
use goc.Convert.Arm64.{Rela, panicked, arm64_text_relocs}
use goc.Convert.Arm64.Safe.{arm64_text_relocs-ne-panicked}
use goc.Goobj.Link.{Sym, new_sym}
use goc.Convert.RelocMap.{adr_page, add_lo12, profile_for}
use goc.Convert.RelocMap.Profiles.{AreSpelled, Outcome, profile_for-Outcome}
use goc.Gometa.{find}
use goc.Goobj.Examples.{amd64, release}
use goc.Goobj.Diff.{Span, spans, diff_pc_value}
use goc.Convert.PcTab.Maps.{Indexed, map_loop-Indexed}

abbrev depths : List PcEntry
depths =
    record { pc = 0; value = pos 0 }
    ∷ record { pc = 4; value = pos 16 }
    ∷ record { pc = 9; value = pos 16 }
    ∷ record { pc = 20; value = pos 0 }
    ∷ []

value_at-pc_segments_example : value_at (pc_segments 24 depths) 12 ≡ entry_at (negsuc 0) depths 12
value_at-pc_segments_example =
    value_at-pc_segments 24 12 depths (omega arith)
      (omega arith, (omega arith, (omega arith, (omega arith, tt))))

diff_pc_value-pc_bytes_example :
    (ss : List Span) × (diff_pc_value (some (pc_bytes 1 24 depths)) 1 ≡ spans ss)
    × ((x : ℕ) → x < 24 → span_at ss x ≡ some (entry_at (negsuc 0) depths x))
diff_pc_value-pc_bytes_example =
    diff_pc_value-pc_bytes 1 24 depths (omega arith) (omega arith) (omega arith) refl (
      refl,
      omega arith,
      (
        omega arith,
        refl,
        omega arith,
        (omega arith, refl, omega arith, (omega arith, refl, omega arith, tt)),
      ),
    )

-- The first and the last safepoint share their bitmaps.
abbrev stops : List Safepoint
stops =
    record { pc = 8; args = 1 ∷ []; locals = 2 ∷ []; color = [] }
    ∷ record { pc = 16; args = 0 ∷ []; locals = 2 ∷ []; color = [] }
    ∷ record { pc = 24; args = 1 ∷ []; locals = 2 ∷ []; color = [] }
    ∷ []

map_loop-Indexed_example : Indexed (map_loop [] stops).0 stops (map_loop [] stops).1
map_loop-Indexed_example = map_loop-Indexed stops

abbrev registers : List Bytes
registers =
    codes "RAX"
    ∷ codes "RBX"
    ∷ codes "RCX"
    ∷ codes "RDI"
    ∷ codes "RSI"
    ∷ codes "R8"
    ∷ codes "R9"
    ∷ codes "R10"
    ∷ codes "R11"
    ∷ []

registers_spelled : AreSpelled true amd64.int_args registers
registers_spelled = (
  inr (omega arith, refl),
  (
    inr (omega arith, refl),
    (
      inr (omega arith, refl),
      (
        inr (omega arith, refl),
        (
          inr (omega arith, refl),
          (inl (refl, refl), (inl (refl, refl), (inl (refl, refl), (inl (refl, refl), tt)))),
        ),
      ),
    ),
  ),
)

amd64_known : find release.arch (codes "amd64") ≡ some amd64
unfolding find
amd64_known = refl

profile_for-Outcome_example :
    Outcome release (codes "amd64") amd64 registers (profile_for release (codes "amd64"))
profile_for-Outcome_example =
    profile_for-Outcome release (codes "amd64") amd64 registers amd64_known refl registers_spelled

-- An ADRP and the ADD behind it.
abbrev page_pair : List Rela
page_pair =
    record { off = 68; type = add_lo12; sym = 1; add = 8 }
    ∷ record { off = 64; type = adr_page; sym = 1; add = 8 }
    ∷ []

abbrev two_insns : Sym
two_insns = record (new_sym (codes "p.f") 0) {
  p = 0 ∷ 0 ∷ 0 ∷ 0x90 ∷ 0 ∷ 0 ∷ 0 ∷ 0x91 ∷ [];
  size = 8;
}

abbrev same_place : Rela → Option (ℕ × ℕ)
same_place r = some (r.sym, r.add)

arm64_text_relocs-ne-panicked_example :
    arm64_text_relocs same_place 64 8 page_pair two_insns ≢ panicked
arm64_text_relocs-ne-panicked_example =
    arm64_text_relocs-ne-panicked same_place 64 8 page_pair two_insns (omega arith) (omega arith)
      refl
