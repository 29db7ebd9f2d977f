-- ===== src/Gometa.antt =====
-- The facts of a Go release (internal/gometa/meta.go) that the object writer and reader use. A Go map is
-- an association list, a missing key reads 0, and a number is a natural.
pub mod Check
use goc.Prelude.{ℕ, Bool, bytes_eq, if◌then◌else◌}
use goc.Prelude.{Option, none, some, List, [], ◌∷◌}
use goc.Gocobj.Codec.{Bytes}

abbrev pub StrMap {ℓ} : Type ℓ → Type ℓ
StrMap A = List (Bytes × A)

-- v, ok := m[k]
unfoldable pub find {ℓ} : {A : Type ℓ} → StrMap A → Bytes → Option A
find [] k = none
find ((k', a) ∷ m) k = if bytes_eq k' k then some a else find m k

-- m[k]
abbrev pub or_zero : Option ℕ → ℕ
or_zero none = 0
or_zero (some v) = v

abbrev pub int_at : StrMap ℕ → Bytes → ℕ
int_at m k = or_zero (find m k)

pub record Builtin : Type 0 where
  pub name : Bytes
  pub abi : ℕ

pub record Object : Type 0 where
  pub magic : Bytes
  pub blocks : List Bytes
  pub obj_flags : StrMap ℕ
  pub sym_flags : StrMap ℕ
  pub sym_flags2 : StrMap ℕ
  pub aux_types : StrMap ℕ
  pub pkg_idx : StrMap ℕ
  pub sym_abi_static : ℕ
  pub hash_size : ℕ
  pub hash64_size : ℕ
  pub builtins : List Builtin

pub record Writer : Type 0 where
  pub content_hash : Bytes
  pub asm_named_syms_linkname : Bool
  pub align : Bytes
  pub trim_inline_hash : Bool
  pub asm_args_stackmap : Bool
  pub type_prefix : Bytes
  pub itab_prefix : Bytes
  pub sort_relocs : Bool
  pub func_info_start_line : Bool
  pub inl_file_sym_refs : Bool
  pub func_flags : StrMap ℕ
  pub func_ids : StrMap ℕ
  pub runtime_func_ids : StrMap ℕ

pub record Abi : Type 0 where
  pub funcdata : StrMap ℕ
  pub pcdata : StrMap ℕ
  pub stack_small : ℕ
  pub stack_big : ℕ
  pub g_offsets : StrMap ℕ

pub record Arch : Type 0 where
  pub ptr_size : ℕ
  pub min_lc : ℕ
  pub g_reg : Bytes
  pub int_args : List Bytes
  pub float_args : List Bytes
  pub morestack : Bytes
  pub stack_copy_adjusts_fp : Bool

pub record AddrxFlavor : Type 0 where
  pub max_funcs : ℕ
  pub reloc : Bytes
  pub size : ℕ

pub record Dwarf : Type 0 where
  pub abbrev_function : ℕ
  pub func_die : Bytes
  pub lines : Bytes
  pub text_addrx : List AddrxFlavor

pub record Meta : Type 0 where
  pub go : Bytes
  pub object : Object
  pub writer : Writer
  pub kinds : StrMap ℕ
  pub relocs : StrMap ℕ
  pub abi : Abi
  pub arch : StrMap Arch
  pub dwarf : Dwarf
