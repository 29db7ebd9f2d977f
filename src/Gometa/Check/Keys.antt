-- ===== src/Gometa/Check/Keys.antt =====
-- The keys and values that `check` of internal/gometa/meta.go asks for, by group.
use goc.Prelude.{codes, List, [], ◌∷◌}
use goc.Gocobj.Codec.{Bytes}

abbrev pub reloc_keys : List Bytes
reloc_keys =
    codes "R_ADDR"
    ∷ codes "R_CALL"
    ∷ codes "R_PCREL"
    ∷ codes "R_CALLARM64"
    ∷ codes "R_ADDRARM64"
    ∷ codes "R_ARM64_GOTPCREL"
    ∷ codes "R_ARM64_PCREL"
    ∷ codes "R_ARM64_LDST8"
    ∷ codes "R_ARM64_LDST16"
    ∷ codes "R_ARM64_LDST32"
    ∷ codes "R_ARM64_LDST64"
    ∷ codes "R_ARM64_LDST128"
    ∷ []

abbrev pub kind_keys : List Bytes
kind_keys =
    codes "Sxxx"
    ∷ codes "STEXT"
    ∷ codes "SRODATA"
    ∷ codes "SDATA"
    ∷ codes "SBSS"
    ∷ codes "SNOPTRDATA"
    ∷ codes "SNOPTRBSS"
    ∷ codes "SDWARFFCN"
    ∷ codes "SDWARFLINES"
    ∷ []

abbrev pub obj_flag_keys : List Bytes
obj_flag_keys = codes "FromAssembly" ∷ []

abbrev pub sym_flag_keys : List Bytes
sym_flag_keys =
    codes "Dupok"
    ∷ codes "Local"
    ∷ codes "NoSplit"
    ∷ codes "GoType"
    ∷ codes "Leaf"
    ∷ codes "Typelink"
    ∷ codes "ReflectMethod"
    ∷ []

abbrev pub sym_flag2_keys : List Bytes
sym_flag2_keys = codes "Itab" ∷ codes "UsedInIface" ∷ []

abbrev pub aux_type_keys : List Bytes
aux_type_keys =
    codes "Gotype"
    ∷ codes "FuncInfo"
    ∷ codes "Funcdata"
    ∷ codes "DwarfInfo"
    ∷ codes "DwarfLoc"
    ∷ codes "DwarfRanges"
    ∷ codes "DwarfLines"
    ∷ codes "Pcsp"
    ∷ codes "Pcfile"
    ∷ codes "Pcline"
    ∷ codes "Pcinline"
    ∷ codes "Pcdata"
    ∷ []

abbrev pub pkg_keys : List Bytes
pkg_keys = codes "Self" ∷ codes "Builtin" ∷ codes "None" ∷ codes "Hashed" ∷ codes "Hashed64" ∷ []

abbrev pub funcdata_keys : List Bytes
funcdata_keys = codes "ArgsPointerMaps" ∷ codes "LocalsPointerMaps" ∷ codes "ArgInfo" ∷ []

abbrev pub pcdata_keys : List Bytes
pcdata_keys = codes "UnsafePoint" ∷ codes "StackMapIndex" ∷ []

abbrev pub func_flag_keys : List Bytes
func_flag_keys = codes "Asm" ∷ []

abbrev pub hash_models : List Bytes
hash_models = codes "notsha256" ∷ codes "sha256-prefix01" ∷ codes "sha1" ∷ []

abbrev pub align_models : List Bytes
align_models = codes "heuristic" ∷ codes "explicit" ∷ []
