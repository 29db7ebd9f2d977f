-- ===== src/Goobj/Examples/Records.antt =====
-- Records of an object file at which the theorems on its writer and its reader hold.
use goc.Prelude.{◌-◌, ◌^◌, ◌≡◌, refl, arith, none, some, [], ◌∷◌, ◌++◌, codes, length}
use goc.Gometa.{find}
use goc.Goobj.Link.{Kind, Reloc, done}
use goc.Goobj.Text.{cut_prefix}
use goc.Goobj.Write.{
  Writer, write_sym, sym_align, sym_flag, sym_flag2, kind_name, sym_ref, add_string,
}
use goc.Goobj.Write.Object.{put_reloc}
use goc.Goobj.Write.Strings.{IsTable, add_string-IsTable}
use goc.Goobj.Read.{sym_record, reloc_record}
use goc.Goobj.Read.Records.{SymFits, as_read, sym_record-write_sym, reloc_record-put_reloc}
use goc.Goobj.Examples.{release, object, datum}

abbrev no_strings : Writer
no_strings = record { b = 1 ∷ 2 ∷ []; strs = [] }

no_strings-IsTable : IsTable no_strings
unfolding find
no_strings-IsTable = record { fits = omega arith; held = λ s at e. absurd (ground (arith, e)) }

abbrev table : Writer
table = add_string (codes "p.x") no_strings

table-IsTable : IsTable table
table-IsTable = add_string-IsTable (codes "p.x") no_strings (omega arith) no_strings-IsTable

name_is_added : find table.strs (codes "p.x") ≡ some 2
unfolding add_string find
name_is_added = refl

align_is_explicit : sym_align object datum (codes "p.x") ≡ done 0
unfolding sym_align
align_is_explicit = refl

kind_is_known : find release.kinds (kind_name Kind.sdata) ≡ some 1
unfolding find
kind_is_known = refl

fields_fit : SymFits object datum 1 0
unfolding sym_flag sym_flag2 find cut_prefix
fields_fit = record {
  abi = omega arith;
  kind = omega arith;
  flag = omega arith;
  flag2 = omega arith;
  size = omega arith;
  align = omega arith;
}

table_length : length table.b ≡ 5
unfolding add_string find
table_length = refl

sym_record-write_sym_example :
    (w' : Writer) × (write_sym object datum (codes "p.x") table ≡ done w')
    × (sym_record (w'.b ++ (9 ∷ [])) (length table.b)
        ≡ some (as_read object datum (codes "p.x") 1 0))
sym_record-write_sym_example =
    sym_record-write_sym object datum (codes "p.x") (9 ∷ []) table 2 1 0 table-IsTable name_is_added
      align_is_explicit kind_is_known fields_fit (omega (arith, table_length))

abbrev jump : Reloc
jump = record { off = 4; siz = 4; type = codes "R_CALL"; add = 2 ^ 64 - 1; sym = none }

call_is_known : find release.relocs (codes "R_CALL") ≡ some 1
unfolding find
call_is_known = refl

nil_has_ref : sym_ref object none ≡ done (0, 0)
unfolding sym_ref
nil_has_ref = refl

reloc_record-put_reloc_example :
    (w' : Writer) × (put_reloc object jump no_strings ≡ done w')
    × (reloc_record (w'.b ++ []) (length no_strings.b)
        ≡ some (record {
          off = 4;
          siz = 4;
          type = 1;
          add = 2 ^ 64 - 1;
          sym = record { pkg_idx = 0; sym_idx = 0 };
        }))
reloc_record-put_reloc_example =
    reloc_record-put_reloc object jump [] no_strings 1 0 0 call_is_known nil_has_ref
      (record {
        off = omega arith;
        siz = omega arith;
        type = omega arith;
        add = omega arith;
        pkg = omega arith;
        index = omega arith;
      })
      (omega arith)
