-- ===== src/Gocobj/Format.antt =====
-- internal/gocobj/format.go: the constants and the types of a parsed .gocobj file. A Go string is the
-- list of its bytes, and an unsigned field is its value, whose width a theorem asks for where it matters.
pub mod PcKind
pub mod RelocKind
pub mod Names
use goc.Prelude.{
  ℕ, ◌+◌, ◌/◌, ◌^◌, ◌<◌, ◌≤◌, ◌≡◌, ◌≢◌, Option, none, some, List, [], ◌∷◌, Bool, ◌||◌, ◌==◌,
}
use goc.Prelude.{length, All, if◌then◌else◌, leb, ltb, ◌&&◌}
use goc.Prelude.Int.{ℤ, IsI64}
use goc.Gocobj.Codec.{Bytes, IsByte, IsU64}

-- "GOCOBJ\x00\x00"
abbrev pub magic : Bytes
magic = b'G' ∷ b'O' ∷ b'C' ∷ b'O' ∷ b'B' ∷ b'J' ∷ 0 ∷ 0 ∷ []

abbrev pub format_major : ℕ
format_major = 1

abbrev pub header_size : ℕ
header_size = 28

abbrev pub arch_amd64 : ℕ
arch_amd64 = 1

abbrev pub arch_arm64 : ℕ
arch_arm64 = 2

-- Bit 0 of the header's flags.
abbrev pub header_stack_checks_in_code : ℕ
header_stack_checks_in_code = 1

abbrev pub abi_internal : ℕ
abi_internal = 1

abbrev pub func_needs_stack_check : ℕ
func_needs_stack_check = 1

-- Bit 0 of a relocation's flags.
abbrev pub reloc_safepoint : ℕ
reloc_safepoint = 1

-- The kinds whose rows come from debug locations.
abbrev pub line_kind : ℕ → Bool
line_kind k = (k == PcKind.file) || (k == PcKind.line) || (k == PcKind.inl_index)

pub record Header : Type 0 where
  pub major : ℕ
  pub minor : ℕ
  pub arch : ℕ
  pub flags : ℕ
  pub profile : Bytes
  pub producer : Bytes

pub record PcEntry : Type 0 where
  pub pc : ℕ
  pub value : ℤ

pub record PcTable : Type 0 where
  pub kind : ℕ
  pub entries : List PcEntry

pub record InlNode : Type 0 where
  pub parent : ℤ
  pub file : ℕ
  pub line : ℕ
  pub func : Bytes
  pub parent_pc : ℕ
  pub start_line : ℕ

pub record Safepoint : Type 0 where
  pub pc : ℕ
  pub args : Bytes
  pub locals : Bytes
  pub color : Bytes

pub record GcMap : Type 0 where
  pub nargs : ℕ
  pub nlocals : ℕ
  pub safepoints : List Safepoint

-- A nil slice and an empty one both are `[]` here, save for the three decoded tables.
pub record Func : Type 0 where
  pub name : Bytes
  pub text_size : ℕ
  pub frame_size : ℕ
  pub arg_size : ℕ
  pub abi : ℕ
  pub kind : ℕ
  pub flags : ℕ
  pub func_id : ℕ
  pub file : ℕ
  pub start_line : ℕ
  pub sysv_ptr_regs : ℕ
  pub sptr_slots : List ℕ
  pub pc_value : Option (List PcTable)
  pub inl : Option (List InlNode)
  pub gc : Option GcMap
  pub pcv_off : ℕ
  pub gc_off : ℕ
  pub inl_off : ℕ

pub record StackmapLoc : Type 0 where
  pub kind : ℕ
  pub size : ℕ
  pub reg : ℕ
  pub off : ℤ

pub record Stackmap : Type 0 where
  pub func : Bytes
  pub insn_off : ℕ
  pub id : ℕ
  pub locs : List StackmapLoc

pub record ArgSpill : Type 0 where
  pub reg : Bytes
  pub off : ℕ
  pub size : ℕ
  pub ptr : Bool

pub record Wrapper : Type 0 where
  pub sym : Bytes
  pub target : Bytes
  pub from_abi : ℕ
  pub to_abi : ℕ
  pub arg_spills : List ArgSpill
  pub stack_ptr_args : List ℕ

pub record Reloc : Type 0 where
  pub func : Bytes
  pub offset : ℕ
  pub width : ℕ
  pub kind : ℕ
  pub target : Bytes
  pub addend : ℤ
  pub flags : ℕ

pub record DataEntry : Type 0 where
  pub name : Bytes
  pub size : ℕ
  pub log2_align : ℕ
  pub flags : ℕ
  pub nbits : ℕ
  pub bitmap : Bytes

-- The part of an ELF symbol that the checker needs.
pub record Symbol : Type 0 where
  pub func : Bool
  pub defined : Bool
  pub size : ℕ
  pub count : ℕ

-- What `Parse` builds from the `.goc.*` sections.
pub record Tables : Type 0 where
  pub header : Header
  pub files : List Bytes
  pub funcs : List Func
  pub relocs : List Reloc
  pub stackmaps : List Stackmap
  pub wrappers : List Wrapper
  pub data_entries : List DataEntry
  pub pcv_starts : List ℕ
  pub gc_starts : List ℕ

-- A parsed file: the tables with the ELF symbols and the targets of the ELF relocations.
pub record File : Type 0 where
  pub tables : Tables
  pub symbols : Bytes → Option Symbol
  pub elf_relocs : Bytes → ℕ → Option Bytes

-- A C string has no NUL inside.
abbrev pub IsCString : Bytes → Type 0
IsCString v = All (λ c. c ≢ 0) v
