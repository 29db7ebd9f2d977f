-- ===== src/Gocobj/Read/Parse.antt =====
-- `Parse` of read.go on the payloads of the `.goc.*` sections. What debug/elf does (finding a section,
-- the symbol table) is outside the model: a section that is not there is `none` or `[]`.
use goc.Prelude.{
  ℕ, zero, suc, ◌+◌, ◌*◌, ◌^◌, ◌||◌, not, Option, none, some, [], ◌∷◌, map, length, take,
}
use goc.Prelude.{ltb, ◌==◌, if◌then◌else◌, bytes_eq}
use goc.Gocobj.Codec.{Bytes, StrError, RecordError, Records, done, failed, out_of_fuel, records}
use goc.Gocobj.Codec.{Rd, ret, stop}
use goc.Gocobj.Format.{magic, format_major, header_size, Header, Tables}
use goc.Gocobj.Read.{
  str, file_record, pcv_record, gc_record, inl_record, func_record, stackmap_record,
}
use goc.Gocobj.Read.{wrapper_record, reloc_record, data_record}

-- The record sections.
pub data SectionName : Type 0 where
  files funcs relocs stackmaps wrappers pcvalue gcmaps data_section inltree : SectionName

pub record Payloads : Type 0 where
  pub header : Option Bytes
  pub strtab : Bytes
  pub section : SectionName → Bytes

pub data ParseError : Type 0 where
  no_header bad_magic unfinished : ParseError
  bad_major : ℕ → ParseError
  bad_section : SectionName → RecordError → ParseError
  bad_string : StrError → ParseError

-- The steps of `Parse` share the variable `strErr`.
pub data Outcome {ℓ} (A : Type ℓ) : Type ℓ where
  got : A → Option StrError → Outcome A
  bad : ParseError → Outcome A

abbrev pub Parser {ℓ} : Type ℓ → Type ℓ
Parser A = Option StrError → Outcome A

abbrev pub next {ℓ κ} : {A : Type ℓ} {B : Type κ} → Outcome A → (A → Parser B) → Outcome B
next (got a se) f = f a se
next (bad e) f = bad e

infixl 5 ◌>>=◌
abbrev pub ◌>>=◌ {ℓ κ} : {A : Type ℓ} {B : Type κ} → Parser A → (A → Parser B) → Parser B
◌>>=◌ m f se = next (m se) f

abbrev pub of_records {ℓ} : {S : Type ℓ} → SectionName → Records S → Outcome S
of_records name (done s se) = got s se
of_records name (failed e) = bad (bad_section name e)
of_records name out_of_fuel = bad unfinished

unfoldable pub read_section {ℓ} :
    {S : Type ℓ} → Payloads → SectionName → (ℕ → S → Rd S) → S → Parser S
read_section p name f acc se = of_records name (records f (p.section name) acc se)

-- A little-endian field of the header.
abbrev pub byte_at : Bytes → ℕ → ℕ
byte_at [] i = 0
byte_at (b ∷ bs) zero = b
byte_at (b ∷ bs) (suc i) = byte_at bs i

abbrev pub le16 : Bytes → ℕ → ℕ
le16 h i = byte_at h i + byte_at h (i + 1) * 2 ^ 8

abbrev pub le32 : Bytes → ℕ → ℕ
le32 h i = le16 h i + le16 h (i + 2) * 2 ^ 16

-- A header string; nothing but strErr is shared with the records.
abbrev of_step {ℓ} : {A : Type ℓ} → goc.Gocobj.Codec.Step A → Outcome A
of_step (ret a r) = got a r.str_err
of_step (stop e) = bad unfinished

unfoldable pub header_str : Bytes → ℕ → Parser Bytes
unfolding str
header_str tab off se = of_step (str tab off (record { b = []; err = none; str_err = se }))

unfoldable pub read_header : Bytes → Option Bytes → Parser Header
read_header tab none se = bad no_header
read_header tab (some h) se =
    if ltb (length h) header_size || not (bytes_eq (take 8 h) magic)
    then bad bad_magic
    else if le16 h 8 == format_major
    then (do
      profile ← header_str tab (le32 h 16)
      producer ← header_str tab (le32 h 20)
      got (record {
        major = le16 h 8;
        minor = le16 h 10;
        arch = byte_at h 12;
        flags = byte_at h 13;
        profile = profile;
        producer = producer;
      }))
        se
    else bad (bad_major (le16 h 8))

unfoldable pub read_tables : Payloads → Parser Tables
read_tables p = do
  header ← read_header p.strtab p.header
  file_list ← read_section p files (file_record p.strtab) []
  pcv ← read_section p pcvalue pcv_record []
  gcs ← read_section p gcmaps gc_record []
  inls ← read_section p inltree (inl_record p.strtab) []
  func_list ←
      read_section p funcs (func_record p.strtab (record { pcv = pcv; gcs = gcs; inls = inls })) []
  stackmap_list ← read_section p stackmaps (stackmap_record p.strtab) []
  wrapper_list ← read_section p wrappers (wrapper_record p.strtab) []
  reloc_list ← read_section p relocs (reloc_record p.strtab) []
  data_list ← read_section p data_section (data_record p.strtab) []
  got (record {
    header = header;
    files = file_list;
    funcs = func_list;
    relocs = reloc_list;
    stackmaps = stackmap_list;
    wrappers = wrapper_list;
    data_entries = data_list;
    pcv_starts = map (λ e. e.0) pcv;
    gc_starts = map (λ e. e.0) gcs;
  })

pub data Parsed : Type 0 where
  ok : Tables → Parsed
  error : ParseError → Parsed

-- A string error is reported when everything has been read.
abbrev pub finish : Outcome Tables → Parsed
finish (got t none) = ok t
finish (got t (some e)) = error (bad_string e)
finish (bad e) = error e

unfoldable pub parse : Payloads → Parsed
parse p = finish (read_tables p none)
