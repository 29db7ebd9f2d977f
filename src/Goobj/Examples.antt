-- ===== src/Goobj/Examples.antt =====
-- Objects, symbols and tables at which the theorems on internal/goobj and internal/gometa hold.
mod Files
mod Objects
mod Records
use goc.Prelude.{
  ℕ, ◌-◌, ◌^◌, ◌<◌, ◌≡◌, ◌≢◌, ◌↔◌, arith, true, false, some, List, [], ◌∷◌, ◌++◌, map, codes,
  length,
}
use goc.Gocobj.Codec.{Bytes, put_uleb}
use goc.Gometa.{StrMap, Meta, Arch}
use goc.Gometa.Check.{needed_relocs, needed_kinds, needed_sym_flags, needed_aux_types}
use goc.Goobj.Diff.{diff_pc_value, unfinished}
use goc.Goobj.Diff.Ends.{diff_pc_value-ne-unfinished}
use goc.Goobj.FuncInfo.{FuncInfoData, ok, panicked, put_func_info, decode_func_info}
use goc.Goobj.FuncInfo.RoundTrip.{decode_func_info-put_func_info}
use goc.Goobj.FuncInfo.Safe.{decode_func_info-ne-panicked}
use goc.Goobj.Link.{
  Kind, Sym, Link, Reloc, LinkError, done, failed, new_sym, new_link, lookup_abi, globl,
  write_bytes,
}
use goc.Goobj.Link.Contents.{byte_or_zero, overlay, write_bytes-overlay}
use goc.Goobj.Link.Interned.{Interned, LookedUp, lookup_abi-LookedUp}
use goc.Goobj.Dwarf.{uleb, append_p}
use goc.Goobj.Dwarf.Uleb.{uleb-put_uleb}
use goc.Goobj.Build.{Built, opened, stepped, name_looked_up}
use goc.Goobj.Build.Listed.{times_listed, globl-redeclared}
use goc.Goobj.Number.{number}
use goc.Goobj.Number.Blocks.{DistinctPkgs, Stands}
use goc.Goobj.Number.Traverse.{Returns}
use goc.Goobj.Number.Resolve.{number-Stands}
use goc.Goobj.Number.Listed.{number-indexed}
use goc.Goobj.Text.{cut_prefix}
use goc.Goobj.Write.{
  Writer, put, write_sym, sym_align, sym_flag, sym_flag2, kind_name, sym_ref, add_string,
}
use goc.Goobj.Write.Object.{put_reloc, put_index, each_sym}
use goc.Goobj.Write.Strings.{IsTable, add_string-IsTable}
use goc.Goobj.Le.{le_bytes}
use goc.Goobj.Read.{Reader, sym_record, reloc_record, at_block, data_of}
use goc.Goobj.Read.Records.{SymFits, as_read, sym_record-write_sym, reloc_record-put_reloc}

abbrev ones : List Bytes → StrMap ℕ
ones names = map (λ k. (k, 1)) names

abbrev pub amd64 : Arch
amd64 = record {
  ptr_size = 8;
  min_lc = 1;
  g_reg = codes "R14";
  int_args =
      codes "AX"
      ∷ codes "BX"
      ∷ codes "CX"
      ∷ codes "DI"
      ∷ codes "SI"
      ∷ codes "R8"
      ∷ codes "R9"
      ∷ codes "R10"
      ∷ codes "R11"
      ∷ [];
  float_args =
      codes "X0"
      ∷ codes "X1"
      ∷ codes "X2"
      ∷ codes "X3"
      ∷ codes "X4"
      ∷ codes "X5"
      ∷ codes "X6"
      ∷ codes "X7"
      ∷ codes "X8"
      ∷ codes "X9"
      ∷ codes "X10"
      ∷ codes "X11"
      ∷ codes "X12"
      ∷ codes "X13"
      ∷ codes "X14"
      ∷ [];
  morestack = codes "runtime.morestack_noctxt";
  stack_copy_adjusts_fp = true;
}

abbrev two_archs : StrMap Arch
two_archs =
    (codes "amd64", amd64)
    ∷ (codes "arm64", record amd64 { min_lc = 4; stack_copy_adjusts_fp = false })
    ∷ []

abbrev pub release : Meta
release = record {
  go = codes "go1.24";
  object = record {
    magic = codes "go120ld";
    blocks = codes "Autolib" ∷ codes "End" ∷ [];
    obj_flags = ones (codes "FromAssembly" ∷ []);
    sym_flags = ones needed_sym_flags;
    sym_flags2 = ones (codes "UsedInIface" ∷ codes "Itab" ∷ []);
    aux_types = ones needed_aux_types;
    pkg_idx =
        (codes "None", 1)
        ∷ (codes "Hashed64", 2)
        ∷ (codes "Hashed", 3)
        ∷ (codes "Builtin", 4)
        ∷ (codes "Self", 5)
        ∷ [];
    sym_abi_static = 65535;
    hash_size = 16;
    hash64_size = 8;
    builtins = record { name = codes "runtime.panic"; abi = 1 } ∷ [];
  };
  writer = record {
    content_hash = codes "sha1";
    asm_named_syms_linkname = false;
    align = codes "explicit";
    trim_inline_hash = false;
    asm_args_stackmap = true;
    type_prefix = codes "type:";
    itab_prefix = codes "go:itab.";
    sort_relocs = true;
    func_info_start_line = true;
    inl_file_sym_refs = false;
    func_flags = ones (codes "Asm" ∷ []);
    func_ids = [];
    runtime_func_ids = [];
  };
  kinds = ones needed_kinds;
  relocs = ones needed_relocs;
  abi = record {
    funcdata = ones (codes "ArgsPointerMaps" ∷ codes "LocalsPointerMaps" ∷ codes "ArgInfo" ∷ []);
    pcdata = ones (codes "UnsafePoint" ∷ codes "StackMapIndex" ∷ []);
    stack_small = 128;
    stack_big = 4096;
    g_offsets = (codes "stackguard0", 16) ∷ [];
  };
  arch = two_archs;
  dwarf = record {
    abbrev_function = 1;
    func_die = codes "v1";
    lines = codes "v1";
    text_addrx = [];
  };
}

-- An object with one DATA symbol `p.x`, which refers to `p.y`.
abbrev pub datum : Sym
datum = record (new_sym (codes "p.x") 0) {
  kind = Kind.sdata;
  p = 0 ∷ 0 ∷ [];
  size = 2;
  r = record { off = 0; siz = 8; type = codes "R_ADDR"; add = 16; sym = some 1 } ∷ [];
  on_list = true;
}

abbrev pub object : Link
object = record {
  meta = release;
  arch = amd64;
  pkgpath = codes "p";
  dw_text_count = 0;
  dwarf5 = false;
  regabi_wrappers = true;
  hash = [];
  funchash = [];
  text = [];
  data_syms = 0 ∷ [];
  files = [];
  file_idx = [];
  flushed = true;
  defs = [];
  hashed64 = [];
  hashed = [];
  nonpkgdefs = [];
  nonpkgrefs = [];
  next = 2;
  heap = λ _. datum;
}

diff_pc_value-ne-unfinished_example : diff_pc_value (some (2 ∷ 4 ∷ 0 ∷ [])) 1 ≢ unfinished
diff_pc_value-ne-unfinished_example = diff_pc_value-ne-unfinished (some (2 ∷ 4 ∷ 0 ∷ [])) 1

abbrev inlined : FuncInfoData
inlined = record {
  args = 16;
  locals = 32;
  func_id = 0;
  func_flag = 4;
  start_line = 7;
  files = 0 ∷ 3 ∷ [];
  inl_tree =
      record {
        parent = 4294967295;
        file = 3;
        line = 12;
        func = record { pkg_idx = 1; sym_idx = 2 };
        parent_pc = 9;
      }
      ∷ [];
}

decode_func_info-put_func_info_example :
    decode_func_info (put_func_info true inlined) true ≡ ok inlined
decode_func_info-put_func_info_example = decode_func_info-put_func_info true inlined (record {
  args = omega arith;
  locals = omega arith;
  func_id = omega arith;
  func_flag = omega arith;
  start = omega arith;
  files = (omega arith, (omega arith, tt));
  few_files = omega arith;
  tree = ((omega arith, omega arith, omega arith, omega arith, omega arith, omega arith), tt);
  few_nodes = omega arith;
})

decode_func_info-ne-panicked_example : decode_func_info (1 ∷ 2 ∷ 3 ∷ []) true ≢ panicked
decode_func_info-ne-panicked_example = decode_func_info-ne-panicked (1 ∷ 2 ∷ 3 ∷ []) true

abbrev cell : Sym
cell = record (new_sym (codes "p.x") 0) { p = 7 ∷ []; size = 1 }

write_bytes-overlay_example :
    byte_or_zero (write_bytes 3 (8 ∷ 9 ∷ []) cell).p 4
    ≡ overlay 3 (8 ∷ 9 ∷ []) (byte_or_zero (7 ∷ [])) 4
write_bytes-overlay_example = write_bytes-overlay 3 (8 ∷ 9 ∷ []) cell 4

uleb-put_uleb_example : uleb 300 cell ≡ append_p (put_uleb 300) cell
uleb-put_uleb_example = uleb-put_uleb 300 cell (omega arith)
