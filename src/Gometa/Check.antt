-- ===== src/Gometa/Check.antt =====
-- `check` of internal/gometa/meta.go: what a set of facts must hold before anything uses it.
pub mod Keys
pub mod Sound
use goc.Prelude.{ℕ, Bool, true, false, not, ◌||◌, ◌==◌, bytes_eq, codes, if◌then◌else◌}
use goc.Prelude.{Option, none, some, List, [], ◌∷◌, ◌++◌}
use goc.Gocobj.Codec.{Bytes}
use goc.Gometa.{StrMap, find, Meta, Arch}

-- The names of `missing`: the group and the key.
abbrev pub Missing : Type 0
Missing = List (Bytes × Bytes)

pub data MetaError : Type 0 where
  lacks : Missing → MetaError
  no_magic_or_hash_size unknown_content_hash unknown_align unknown_func_die no_prefixes : MetaError
  unknown_lines : MetaError
  no_arch : Bytes → MetaError

-- The closure `need`, appending to `missing`.
unfoldable pub need : Bytes → StrMap ℕ → List Bytes → Missing → Missing
need group have [] missing = missing
need group have (n ∷ names) missing = elim (find have n) [
  | none ↦ need group have names (missing ++ ((group, n) ∷ []))
  | some v ↦ need group have names missing
]

abbrev pub needed_relocs : List Bytes
needed_relocs =
    codes "R_ADDR"
    ∷ codes "R_CALL"
    ∷ codes "R_PCREL"
    ∷ codes "R_CALLARM64"
    ∷ codes "R_ADDRARM64"
    ∷ codes "R_ARM64_GOTPCREL"
    ∷ codes "R_ARM64_PCREL"
    ∷ codes "R_ARM64_LDST8"
    ∷ codes "R_ARM64_LDST16"
    ∷ codes "R_ARM64_LDST32"
    ∷ codes "R_ARM64_LDST64"
    ∷ codes "R_ARM64_LDST128"
    ∷ []

abbrev pub needed_kinds : List Bytes
needed_kinds =
    codes "Sxxx"
    ∷ codes "STEXT"
    ∷ codes "SRODATA"
    ∷ codes "SDATA"
    ∷ codes "SBSS"
    ∷ codes "SNOPTRDATA"
    ∷ codes "SNOPTRBSS"
    ∷ codes "SDWARFFCN"
    ∷ codes "SDWARFLINES"
    ∷ []

abbrev pub needed_sym_flags : List Bytes
needed_sym_flags =
    codes "Dupok"
    ∷ codes "Local"
    ∷ codes "Typelink"
    ∷ codes "Leaf"
    ∷ codes "NoSplit"
    ∷ codes "ReflectMethod"
    ∷ codes "GoType"
    ∷ []

abbrev pub needed_aux_types : List Bytes
needed_aux_types =
    codes "Gotype"
    ∷ codes "FuncInfo"
    ∷ codes "Funcdata"
    ∷ codes "DwarfInfo"
    ∷ codes "DwarfLoc"
    ∷ codes "DwarfRanges"
    ∷ codes "DwarfLines"
    ∷ codes "Pcsp"
    ∷ codes "Pcfile"
    ∷ codes "Pcline"
    ∷ codes "Pcinline"
    ∷ codes "Pcdata"
    ∷ []

abbrev pub needed_pkg_idx : List Bytes
needed_pkg_idx =
    codes "None" ∷ codes "Hashed64" ∷ codes "Hashed" ∷ codes "Builtin" ∷ codes "Self" ∷ []

unfoldable pub missing_names : Meta → Missing
missing_names m =
    let m1 = need (codes "relocs") m.relocs needed_relocs [] in
    let m2 = need (codes "sym_kinds") m.kinds needed_kinds m1 in
    let m3 = need (codes "object.obj_flags") m.object.obj_flags (codes "FromAssembly" ∷ []) m2 in
    let m4 = need (codes "object.sym_flags") m.object.sym_flags needed_sym_flags m3 in
    let m5 =
      need (codes "object.sym_flags2") m.object.sym_flags2 (codes "UsedInIface" ∷ codes "Itab" ∷ [])
        m4 in
    let m6 = need (codes "object.aux_types") m.object.aux_types needed_aux_types m5 in
    let m7 = need (codes "object.pkg_idx") m.object.pkg_idx needed_pkg_idx m6 in
    let m8 =
      need (codes "abi.funcdata") m.abi.funcdata
        (codes "ArgsPointerMaps" ∷ codes "LocalsPointerMaps" ∷ codes "ArgInfo" ∷ []) m7 in
    let m9 =
      need (codes "abi.pcdata") m.abi.pcdata (codes "UnsafePoint" ∷ codes "StackMapIndex" ∷ [])
        m8 in
    need (codes "writer.func_flags") m.writer.func_flags (codes "Asm" ∷ []) m9

-- Membership in the constants of a `case`.
unfoldable pub one_of : Bytes → List Bytes → Bool
one_of s [] = false
one_of s (x ∷ xs) = bytes_eq s x || one_of s xs

unfoldable pub arch_missing : StrMap Arch → Bytes → Bool
arch_missing archs a = elim (find archs a) [
  | none ↦ true
  | some ar ↦ (ar.min_lc == 0) || (ar.ptr_size == 0)
]

unfoldable pub first_missing_arch : StrMap Arch → List Bytes → Option Bytes
first_missing_arch archs [] = none
first_missing_arch archs (a ∷ rest) =
    if arch_missing archs a then some a else first_missing_arch archs rest

-- `if len(missing) > 0` with its error, before the tests that follow.
abbrev pub report : Missing → Option MetaError → Option MetaError
report [] rest = rest
report (x ∷ xs) rest = some (MetaError.lacks (x ∷ xs))

abbrev pub report_arch : Option Bytes → Option MetaError
report_arch none = none
report_arch (some a) = some (MetaError.no_arch a)

-- The error, if any.
unfoldable pub check : Meta → Option MetaError
check m = report (missing_names m) (
    if bytes_eq m.object.magic [] || (m.object.hash_size == 0)
    then some MetaError.no_magic_or_hash_size
    else if not (
        one_of m.writer.content_hash
          (codes "notsha256" ∷ codes "sha256-prefix01" ∷ codes "sha1" ∷ []))
    then some MetaError.unknown_content_hash
    else if not (one_of m.writer.align (codes "heuristic" ∷ codes "explicit" ∷ []))
    then some MetaError.unknown_align
    else if not (one_of m.dwarf.func_die (codes "v0" ∷ codes "v1" ∷ codes "v2" ∷ []))
    then some MetaError.unknown_func_die
    else if bytes_eq m.writer.type_prefix [] || bytes_eq m.writer.itab_prefix []
    then some MetaError.no_prefixes
    else if not (bytes_eq m.dwarf.lines (codes "v1"))
    then some MetaError.unknown_lines
    else report_arch (first_missing_arch m.arch (codes "amd64" ∷ codes "arm64" ∷ [])))
