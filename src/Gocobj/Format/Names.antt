-- ===== src/Gocobj/Format/Names.antt =====
-- The names of relocation kinds and pc-value kinds in messages: `String` of format.go.
use goc.Prelude.{ℕ, zero, suc, ◌&&◌, ltb, if◌then◌else◌, List, [], ◌∷◌, codes}
use goc.Gocobj.Codec.{Bytes}
use goc.Gocobj.Format.RelocKind
use goc.Gocobj.Format.PcKind

abbrev reloc_names : List Bytes
reloc_names =
    []
    ∷ codes "CALL"
    ∷ codes "CALL_INDIRECT_MARK"
    ∷ codes "PCREL"
    ∷ codes "ADDR_ABS"
    ∷ codes "FUNC_ADDR"
    ∷ codes "DATA_ADDR"
    ∷ codes "TLS_G"
    ∷ codes "GOT_PCREL"
    ∷ codes "JMP_TAILCALL"
    ∷ codes "ARM64_ADRP_ADD"
    ∷ codes "ARM64_CALL26"
    ∷ []

abbrev pc_names : List Bytes
pc_names =
    []
    ∷ codes "SP_DELTA"
    ∷ codes "FILE"
    ∷ codes "LINE"
    ∷ codes "UNSAFE_POINT"
    ∷ codes "INL_INDEX"
    ∷ codes "STACKMAP_INDEX"
    ∷ []

abbrev name_at : List Bytes → ℕ → Bytes
name_at [] k = codes "?"
name_at (n ∷ names) zero = n
name_at (n ∷ names) (suc k) = name_at names k

unfoldable pub reloc_name : ℕ → Bytes
reloc_name k = if ltb 0 k && ltb k RelocKind.last then name_at reloc_names k else codes "?"

unfoldable pub pc_name : ℕ → Bytes
pc_name k = if ltb 0 k && ltb k PcKind.last then name_at pc_names k else codes "?"
