-- ===== src/Gocobj/Examples.antt =====
-- A small file at which the theorems on internal/gocobj hold: one function with its tables, a call
-- relocation, a data entry and a stack map.
use goc.Prelude.{ℕ, ◌+◌, ◌<◌, ◌≡◌, ◌≢◌, refl, arith, true}
use goc.Prelude.{none, some, List, [], ◌∷◌, ◌++◌, length, All, codes, bytes_eq, ◌↔◌, if◌then◌else◌}
use goc.Prelude.Int.{pos, negsuc}
use goc.Gocobj.Codec.{
  Bytes, IsU64, records, out_of_fuel, done, put_uleb, sleb_loop, put_sleb, Buf, ret, put_record,
  put_u8, uvarint_groups, sleb_groups,
}
use goc.Gocobj.Codec.{read_uleb}
use goc.Gocobj.Codec.Reads.{read_uleb-put_uleb}
use goc.Gocobj.Codec.Sleb.{sleb_loop-put_sleb}
use goc.Gocobj.Codec.RecordLoop.{records-ne-out_of_fuel}
use goc.Gocobj.Format.{PcTable, InlNode, GcMap, Func, Stackmap}
use goc.Gocobj.Format.{Reloc, DataEntry, Symbol, File}
use goc.Gocobj.Read.{str, reloc_record, data_record, stackmap_record, Decoded}
use goc.Gocobj.Read.{pcv_record, read_gc, inl_record}
use goc.Gocobj.Write.{
  Strings, no_strings, each, as_record, encode_reloc, encode_data, encode_stackmap,
}
use goc.Gocobj.Write.{
  encode_pcv, encode_gc, encode_inl, encode_func, intern, str_uleb, offset_of, encode_loc,
}
use goc.Gocobj.RoundTrip.Strings.{
  IsTable-no_strings, Extends-refl, str-StringAt, Interned, intern_lem,
}
use goc.Gocobj.RoundTrip.Encodes.{Encodes}
use goc.Gocobj.RoundTrip.Fields.{IsReloc, IsData, IsStackmap}
use goc.Gocobj.RoundTrip.Tables.{
  IsTableOf, IsPcv, Encodes-pcv, IsGcMap, Encodes-gc, IsInl, Encodes-inl,
}
use goc.Gocobj.RoundTrip.Funcs.{IsFunc}
use goc.Gocobj.RoundTrip.FuncTables.{IsWhole, SameFuncs, Fits}
use goc.Gocobj.RoundTrip.FuncList.{no_funcs, ReadBack, records-add_func}
use goc.Gocobj.Write.{
  FuncSections, add_func, add_table, encode_table, encode_entry, encode_safepoint, encode_inl_node,
}
use goc.Prelude.{foldl}
use goc.Gocobj.RoundTrip.Sections.{records-relocs, records-data, records-stackmaps}
use goc.Gocobj.Abi.{lookup_profile, find_profile, profiles}
use goc.Gocobj.Verify.{verify, check_header, check_arch, check_funcs, find_func, check_wrappers}
use goc.Gocobj.Verify.{check_stackmaps, check_reloc_place, check_width, check_elf, check_call}
use goc.Gocobj.Verify.{check_reloc, check_relocs, check_data_entry, check_data}
use goc.Gocobj.Verify.Funcs.{
  Place, check_name, check_symbol, check_file, check_ref, check_inl, check_values,
}
use goc.Gocobj.Verify.Funcs.{
  check_rows, check_order, check_tables, max_sp_rows, max_sp, check_safepoints,
}
use goc.Gocobj.Verify.Funcs.{check_gc, check_func}
use goc.Gocobj.Verify.Sound.{check_tables_iff, IsPcTable}
use goc.Gocobj.Verify.Relocs.{check_reloc_place_wraps, check_gc_wraps}
use goc.Gocobj.Verify.Whole.{verify-IsVerified, IsVerified}

abbrev callee : Reloc
callee = record {
  func = codes "f";
  offset = 8;
  width = 4;
  kind = 1;
  target = codes "g";
  addend = negsuc 3;
  flags = 1;
}

callee-IsReloc : IsReloc callee
callee-IsReloc = record {
  func = (omega arith, tt);
  offset = omega arith;
  target = (omega arith, tt);
  addend = omega arith;
}

abbrev words : DataEntry
words = record {
  name = codes "d";
  size = 24;
  log2_align = 3;
  flags = 2;
  nbits = 3;
  bitmap = 5 ∷ [];
}

words-IsData : IsData words
words-IsData = record {
  name = (omega arith, tt);
  size = omega arith;
  flags = omega arith;
  nbits = omega arith;
  bitmap = refl;
}

abbrev live : Stackmap
live = record {
  func = codes "f";
  insn_off = 12;
  id = 7;
  locs = record { kind = 3; size = 8; reg = 7; off = negsuc 15 } ∷ [];
}

live-IsStackmap : IsStackmap live
live-IsStackmap = record {
  func = (omega arith, tt);
  insn_off = omega arith;
  id = omega arith;
  count = omega arith;
  locs = (record { size = omega arith; reg = omega arith; off = omega arith }, tt);
}

-- An SP_DELTA table and a LINE table.
abbrev depth : PcTable
depth = record {
  kind = 1;
  entries = record { pc = 0; value = pos 0 } ∷ record { pc = 4; value = pos 16 } ∷ [];
}

abbrev lines : PcTable
lines = record {
  kind = 3;
  entries = record { pc = 0; value = pos 10 } ∷ record { pc = 8; value = pos 11 } ∷ [];
}

abbrev tables : List PcTable
tables = depth ∷ lines ∷ []

depth-IsTableOf : IsTableOf depth
depth-IsTableOf = record {
  count = omega arith;
  entries = (
    record { pc = omega arith; value = omega arith },
    (record { pc = omega arith; value = omega arith }, tt),
  );
  apart = (refl, tt);
}

lines-IsTableOf : IsTableOf lines
lines-IsTableOf = record {
  count = omega arith;
  entries = (
    record { pc = omega arith; value = omega arith },
    (record { pc = omega arith; value = omega arith }, tt),
  );
  apart = (refl, tt);
}

tables-IsPcv : IsPcv tables
tables-IsPcv = record { count = omega arith; tables = (depth-IsTableOf, (lines-IsTableOf, tt)) }

Encodes-pcv_example : Encodes (encode_pcv tables) (λ tab. pcv_record 17 []) ((17, tables) ∷ [])
Encodes-pcv_example = Encodes-pcv 17 [] tables tables-IsPcv

abbrev roots : GcMap
roots = record {
  nargs = 1;
  nlocals = 9;
  safepoints = record { pc = 12; args = 1 ∷ []; locals = 4 ∷ 1 ∷ []; color = 2 ∷ [] } ∷ [];
}

roots-IsGcMap : IsGcMap roots
roots-IsGcMap = record {
  nargs = omega arith;
  nlocals = omega arith;
  count = omega arith;
  safepoints = (record { pc = omega arith; args = refl; locals = refl; color = omega arith }, tt);
}

Encodes-gc_example : Encodes (encode_gc roots) (λ tab. read_gc) roots
Encodes-gc_example = Encodes-gc roots roots-IsGcMap

abbrev calls : List InlNode
calls =
    record {
      parent = negsuc 0;
      file = 0;
      line = 3;
      func = codes "h";
      parent_pc = 4;
      start_line = 2;
    }
    ∷ []

calls-IsInl : IsInl calls
calls-IsInl = record {
  count = omega arith;
  nodes = (
    record {
      parent = omega arith;
      file = omega arith;
      line = omega arith;
      func = (omega arith, tt);
      parent_pc = omega arith;
      start_line = omega arith;
    },
    tt,
  );
}

Encodes-inl_example : Encodes (encode_inl calls) (λ tab. inl_record tab 5 []) ((5, calls) ∷ [])
Encodes-inl_example = Encodes-inl 5 [] calls calls-IsInl

-- The function that has these tables, at offsets that count from 1.
abbrev entry : Func
entry = record {
  name = codes "f";
  text_size = 32;
  frame_size = 96;
  arg_size = 8;
  abi = 1;
  kind = 0;
  flags = 1;
  func_id = 0;
  file = 0;
  start_line = 10;
  sysv_ptr_regs = 3;
  sptr_slots = 8 ∷ [];
  pc_value = some tables;
  inl = some calls;
  gc = some roots;
  pcv_off = 18;
  gc_off = 1;
  inl_off = 6;
}

entry-IsFunc : IsFunc entry
entry-IsFunc = record {
  name = (omega arith, tt);
  text_size = omega arith;
  frame_size = omega arith;
  arg_size = omega arith;
  flags = omega arith;
  file = omega arith;
  start_line = omega arith;
  sysv_ptr_regs = omega arith;
  count = omega arith;
  sptr_slots = (omega arith, tt);
}

entry-IsWhole : IsWhole entry
entry-IsWhole = record {
  fields = entry-IsFunc;
  pcv = tables-IsPcv;
  gc = roots-IsGcMap;
  inl = calls-IsInl;
  some_pcv = refl;
  some_inl = refl;
}

entry-IsWhole_g : IsWhole (record entry { name = codes "g" })
entry-IsWhole_g = record {
  fields = record {
    name = (omega arith, tt);
    text_size = omega arith;
    frame_size = omega arith;
    arg_size = omega arith;
    flags = omega arith;
    file = omega arith;
    start_line = omega arith;
    sysv_ptr_regs = omega arith;
    count = omega arith;
    sptr_slots = (omega arith, tt);
  };
  pcv = tables-IsPcv;
  gc = roots-IsGcMap;
  inl = calls-IsInl;
  some_pcv = refl;
  some_inl = refl;
}

-- The sections that the writer makes of two functions with the same tables.
abbrev two_funcs : List Func
two_funcs = entry ∷ record entry { name = codes "g" } ∷ []

abbrev func_sections : FuncSections
func_sections = foldl (add_func 2) (no_funcs no_strings) two_funcs

func_strings_fit : IsU64 (length func_sections.strings.strs)
unfolding each as_record put_record put_uleb put_sleb put_u8 uvarint_groups sleb_groups str_uleb
    intern offset_of encode_func add_func add_table encode_pcv encode_table encode_entry encode_gc
    encode_safepoint encode_inl encode_inl_node
func_strings_fit = omega arith

func_sections-Fits : Fits func_sections
unfolding each as_record put_record put_uleb put_sleb put_u8 uvarint_groups sleb_groups str_uleb
    intern offset_of encode_func add_func add_table encode_pcv encode_table encode_entry encode_gc
    encode_safepoint encode_inl encode_inl_node
func_sections-Fits = record {
  funcs = omega arith;
  pcv = omega arith;
  gcm = omega arith;
  inl = omega arith;
}

records-add_func_example :
    (d : Decoded) × (gs : List Func) × ReadBack func_sections.strings.strs none func_sections d gs
    × SameFuncs two_funcs gs
records-add_func_example =
    records-add_func 2 two_funcs no_strings func_sections.strings.strs none (omega arith)
      IsTable-no_strings (entry-IsWhole, (entry-IsWhole_g, tt)) func_sections-Fits
      (Extends-refl func_sections.strings.strs) func_strings_fit

-- The section and the string table that the writer leaves for the one of them.
abbrev relocs_section : Bytes × Strings
relocs_section = each (λ x. as_record (encode_reloc x)) (callee ∷ []) no_strings

relocs_strings_fit : IsU64 (length relocs_section.1.strs)
unfolding each as_record put_record put_uleb put_sleb put_u8 uvarint_groups sleb_groups str_uleb
    intern offset_of encode_reloc
relocs_strings_fit = omega arith

relocs_section_fits : IsU64 (length relocs_section.0)
unfolding each as_record put_record put_uleb put_sleb put_u8 uvarint_groups sleb_groups str_uleb
    intern offset_of encode_reloc
relocs_section_fits = omega arith

records-relocs_example :
    records (reloc_record relocs_section.1.strs) relocs_section.0 [] none ≡ done (callee ∷ []) none
records-relocs_example =
    records-relocs no_strings IsTable-no_strings relocs_section.1.strs relocs_strings_fit none
      (callee ∷ []) (callee-IsReloc, tt) (Extends-refl relocs_section.1.strs) relocs_section_fits

-- The section and the string table that the writer leaves for the one of them.
abbrev data_section : Bytes × Strings
data_section = each (λ x. as_record (encode_data x)) (words ∷ []) no_strings

data_strings_fit : IsU64 (length data_section.1.strs)
unfolding each as_record put_record put_uleb put_sleb put_u8 uvarint_groups sleb_groups str_uleb
    intern offset_of encode_data
data_strings_fit = omega arith

data_section_fits : IsU64 (length data_section.0)
unfolding each as_record put_record put_uleb put_sleb put_u8 uvarint_groups sleb_groups str_uleb
    intern offset_of encode_data
data_section_fits = omega arith

records-data_example :
    records (data_record data_section.1.strs) data_section.0 [] none ≡ done (words ∷ []) none
records-data_example =
    records-data no_strings IsTable-no_strings data_section.1.strs data_strings_fit none
      (words ∷ []) (words-IsData, tt) (Extends-refl data_section.1.strs) data_section_fits

-- The section and the string table that the writer leaves for the one of them.
abbrev stackmaps_section : Bytes × Strings
stackmaps_section = each (λ x. as_record (encode_stackmap x)) (live ∷ []) no_strings

stackmaps_strings_fit : IsU64 (length stackmaps_section.1.strs)
unfolding each as_record put_record put_uleb put_sleb put_u8 uvarint_groups sleb_groups str_uleb
    intern offset_of encode_stackmap encode_loc
stackmaps_strings_fit = omega arith

stackmaps_section_fits : IsU64 (length stackmaps_section.0)
unfolding each as_record put_record put_uleb put_sleb put_u8 uvarint_groups sleb_groups str_uleb
    intern offset_of encode_stackmap encode_loc
stackmaps_section_fits = omega arith

records-stackmaps_example :
    records (stackmap_record stackmaps_section.1.strs) stackmaps_section.0 [] none
    ≡ done (live ∷ []) none
records-stackmaps_example =
    records-stackmaps no_strings IsTable-no_strings stackmaps_section.1.strs stackmaps_strings_fit
      none (live ∷ []) (live-IsStackmap, tt) (Extends-refl stackmaps_section.1.strs)
      stackmaps_section_fits

abbrev three_bytes : Buf
three_bytes = record { b = put_uleb 300 ++ (7 ∷ []); err = none; str_err = none }

read_uleb-put_uleb_example : read_uleb three_bytes ≡ ret 300 (record three_bytes { b = 7 ∷ [] })
read_uleb-put_uleb_example = read_uleb-put_uleb 300 (7 ∷ []) three_bytes (omega arith)

sleb_loop-put_sleb_example :
    sleb_loop (put_sleb (negsuc 299) ++ (7 ∷ [])) 0 0 ≡ (negsuc 299, none, 7 ∷ [])
sleb_loop-put_sleb_example = sleb_loop-put_sleb (negsuc 299) (7 ∷ []) (omega arith)

records-ne-out_of_fuel_example :
    records (reloc_record []) (2 ∷ 5 ∷ 6 ∷ 9 ∷ []) [] none ≢ out_of_fuel
records-ne-out_of_fuel_example =
    records-ne-out_of_fuel (reloc_record []) (2 ∷ 5 ∷ 6 ∷ 9 ∷ []) [] none

intern_lem_example :
    Interned
      (codes "f")
      no_strings
      (intern (codes "f") no_strings).0
      (intern (codes "f") no_strings).1
intern_lem_example = intern_lem (codes "f") no_strings IsTable-no_strings

abbrev reader : Buf
reader = record { b = []; err = none; str_err = none }

str-StringAt_example : str (0 ∷ b'f' ∷ 0 ∷ b'g' ∷ 0 ∷ []) 1 reader ≡ ret (codes "f") reader
str-StringAt_example =
    str-StringAt (0 ∷ b'f' ∷ 0 ∷ b'g' ∷ 0 ∷ []) 1 (codes "f") reader (omega arith, tt)
      (record { tail = b'g' ∷ 0 ∷ []; found = refl; below = omega arith })

-- The file with the one function, the relocation and the data entry.
abbrev symbol_of : ℕ → Symbol
symbol_of size = record { func = true; defined = true; size = size; count = 1 }

abbrev small_file : File
small_file = record {
  tables = record {
    header = record {
      major = 1;
      minor = 2;
      arch = 1;
      flags = 0;
      profile = codes "goabi1-amd64";
      producer = codes "goc";
    };
    files = codes "a.c" ∷ [];
    funcs = entry ∷ [];
    relocs = callee ∷ [];
    stackmaps = live ∷ [];
    wrappers = [];
    data_entries = words ∷ [];
    pcv_starts = 17 ∷ [];
    gc_starts = 0 ∷ [];
  };
  symbols = λ name. some (symbol_of (if bytes_eq name (codes "f") then 32 else 0));
  elf_relocs = λ name off. none;
}

small_file_passes : verify small_file ≡ []
unfolding verify check_header check_arch lookup_profile find_profile profiles check_funcs check_func
    check_symbol check_file check_ref check_inl check_tables check_values check_rows check_order
    check_gc max_sp max_sp_rows check_safepoints check_wrappers check_stackmaps check_data
    check_data_entry check_relocs check_reloc check_reloc_place check_width check_elf check_call
    check_name find_func
small_file_passes = refl

verify-IsVerified_example : IsVerified small_file
verify-IsVerified_example = verify-IsVerified small_file small_file_passes

check_tables_iff_example :
    (check_tables Place.header 1 0 32 tables ≡ []) ↔ All (IsPcTable 1 0 32) tables
check_tables_iff_example = check_tables_iff Place.header 1 0 32 tables

-- A relocation at 2 ^ 64 - 2 in the function of 32 bytes, and a map of 2 ^ 61 words in its frame.
abbrev far : Reloc
far = record {
  func = codes "f";
  offset = 18446744073709551614;
  width = 4;
  kind = 1;
  target = codes "g";
  addend = pos 0;
  flags = 0;
}

check_reloc_place_wraps_example :
    (check_reloc_place (Place.reloc 0) far (some entry) ≡ [])
    × (entry.text_size < far.offset + far.width)
check_reloc_place_wraps_example =
    check_reloc_place_wraps (Place.reloc 0) far entry (omega arith) (omega arith) (omega arith)
      (omega arith)

abbrev huge : GcMap
huge = record { nargs = 0; nlocals = 2305843009213693952; safepoints = [] }

check_gc_wraps_example :
    check_gc Place.header 8 entry (some huge) ≡ check_safepoints Place.header 32 none []
check_gc_wraps_example = check_gc_wraps Place.header entry huge 1 (omega arith)
