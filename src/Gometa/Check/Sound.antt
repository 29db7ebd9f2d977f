-- ===== src/Gometa/Check/Sound.antt =====
-- What checked facts hold.
use goc.Prelude.{ℕ, ◌≡◌, ◌≢◌, ◌<◌, Bool, true, ◌&&◌, ◌⊎◌, codes, none, some, List, [], ◌∷◌, All}
use goc.Gocobj.Codec.{Bytes}
use goc.Gometa.{StrMap, find, Meta, Arch}
use goc.Gometa.Check.Keys.{
  reloc_keys, kind_keys, obj_flag_keys, sym_flag_keys, sym_flag2_keys, aux_type_keys, pkg_keys,
  funcdata_keys, pcdata_keys, func_flag_keys, hash_models, align_models,
}
use goc.Gometa.Check.{one_of}

abbrev pub HasKey : StrMap ℕ → Bytes → Type 0
HasKey m k = find m k ≢ none

abbrev pub IsOneOf : Bytes → List Bytes → Type 0
IsOneOf s [] = ⊥
IsOneOf s (x ∷ xs) = (s ≡ x) ⊎ IsOneOf s xs

-- The architecture with a pointer size and an instruction length above 0.
abbrev pub HasArch : Meta → Bytes → Type 0
HasArch m a = (ar : Arch) × (find m.arch a ≡ some ar) × (0 < ar.ptr_size) × (0 < ar.min_lc)

-- What checked facts hold: the keys by name.
pub record Checked (m : Meta) : Type 0 where
  pub relocs : All (HasKey m.relocs) reloc_keys
  pub kinds : All (HasKey m.kinds) kind_keys
  pub obj_flags : All (HasKey m.object.obj_flags) obj_flag_keys
  pub sym_flags : All (HasKey m.object.sym_flags) sym_flag_keys
  pub sym_flags2 : All (HasKey m.object.sym_flags2) sym_flag2_keys
  pub aux_types : All (HasKey m.object.aux_types) aux_type_keys
  pub pkg_idx : All (HasKey m.object.pkg_idx) pkg_keys
  pub funcdata : All (HasKey m.abi.funcdata) funcdata_keys
  pub pcdata : All (HasKey m.abi.pcdata) pcdata_keys
  pub func_flags : All (HasKey m.writer.func_flags) func_flag_keys
  pub magic : m.object.magic ≢ []
  pub hash_size : m.object.hash_size ≢ 0
  pub content_hash : IsOneOf m.writer.content_hash hash_models
  pub align : IsOneOf m.writer.align align_models
  pub amd64 : HasArch m (codes "amd64")
  pub arm64 : HasArch m (codes "arm64")

-- The keys of one list are among those of another.
abbrev are_in : List Bytes → List Bytes → Bool
are_in [] names = true
are_in (k ∷ ks) names = one_of k names && are_in ks names
