-- ===== src/Goobj/Text.antt =====
-- TEXT symbols up to `Flush` (internal/goobj/link.go): what cmd/internal/obj does for the assembler's.
pub mod Prefix
use goc.Prelude.{
  ℕ, zero, suc, ◌+◌, ◌-◌, ◌/◌, ◌%◌, ◌≤◌, Bool, true, false, not, ◌&&◌, ◌||◌, ◌==◌, ltb, leb,
  bytes_eq, codes, if◌then◌else◌,
}
use goc.Prelude.{Option, none, some, List, [], ◌∷◌, ◌++◌, length, drop, replicate}
use goc.Gocobj.Codec.{Bytes}
use goc.Gometa.{StrMap, find, int_at, or_zero, Meta}
use goc.Goobj.Link.{
  Kind, Sym, Link, FuncInfo, LinkError, Fallible, done, failed, panicked, ◌>>=◌, or_panic, new_sym,
  set, alloc, lookup, has, abi0,
}
use goc.Goobj.Dwarf.{dwarf}

abbrev pub no_split_flag : ℕ
no_split_flag = 1

abbrev pub text_dupok_flag : ℕ
text_dupok_flag = 2

-- strings.CutPrefix; HasPrefix is whether it finds one.
unfoldable pub cut_prefix : Bytes → Bytes → Option Bytes
cut_prefix name [] = some name
cut_prefix [] (c ∷ prefix) = none
cut_prefix (n ∷ name) (c ∷ prefix) = if n == c then cut_prefix name prefix else none

abbrev pub is_some {ℓ} : {A : Type ℓ} → Option A → Bool
is_some none = false
is_some (some a) = true

abbrev pub has_prefix : Bytes → Bytes → Bool
has_prefix name prefix = is_some (cut_prefix name prefix)

abbrev runtime_id : Meta → Option Bytes → Option ℕ
runtime_id m none = none
runtime_id m (some rest) = find m.writer.runtime_func_ids rest

-- `funcID`
unfoldable pub func_id : Link → Bytes → ℕ
func_id l name = elim (runtime_id l.meta (cut_prefix name (codes "runtime."))) [
  | some id ↦ id
  | none ↦ int_at l.meta.writer.func_ids (codes "Normal")
]

-- `&FuncInfo{funcdata: map[int]*Sym{}, StartLine: 1}`, with the identity and the flags.
abbrev pub new_func_info : ℕ → ℕ → FuncInfo
new_func_info id flag = record {
  args = 0;
  locals = 0;
  func_id = id;
  func_flag = flag;
  start_line = 1;
  pcsp = none;
  pcfile = none;
  pcline = none;
  pcinline = none;
  pcdata = [];
  funcdata = [];
  used_files = [];
  inl_tree = [];
  funcdata_progs = [];
  pcdata_prog = false;
  dwarf_info = none;
  dwarf_lines = none;
  dwarf_ranges = none;
  func_info_sym = none;
}

-- uint8(x)
abbrev pub u8_of : ℕ → ℕ
u8_of x = x % 256

abbrev pub text_sym : Link → ℕ → Sym → Sym
text_sym l flag s = record s {
  func = some (
      new_func_info (u8_of (func_id l s.name))
        (u8_of (int_at l.meta.writer.func_flags (codes "Asm"))));
  on_list = true;
  dupok = has flag text_dupok_flag;
  no_split = has flag no_split_flag;
  kind = Kind.stext;
}

unfoldable pub init_text : ℕ → ℕ → Link → Fallible Link
init_text a flag l =
    let s = l.heap a in
    if is_some s.func || s.on_list
    then failed LinkError.redeclared
    else done (record (set a (text_sym l flag s) l) { text = l.text ++ (a ∷ []) })

-- m[i] = d
unfoldable pub put_slot : List (ℕ × Option ℕ) → ℕ → Option ℕ → List (ℕ × Option ℕ)
put_slot [] i d = (i, d) ∷ []
put_slot ((j, e) ∷ m) i d = if j == i then (i, d) ∷ m else (j, e) ∷ put_slot m i d

unfoldable pub has_slot : List (ℕ × Option ℕ) → ℕ → Bool
has_slot [] i = false
has_slot ((j, e) ∷ m) i = (j == i) || has_slot m i

-- `Funcdata`, on the function of the symbol.
unfoldable pub funcdata : ℕ → ℕ → Option ℕ → Link → Fallible Link
funcdata a idx d l = elim ((l.heap a).func) [
  | none ↦ panicked
  | some fn ↦ done (
      set a
        (record (l.heap a) {
          func = some (record fn { funcdata_progs = put_slot fn.funcdata_progs idx d });
        })
        l)
]

-- `PCDATA`
unfoldable pub pcdata : ℕ → Link → Fallible Link
pcdata a l = elim ((l.heap a).func) [
  | none ↦ panicked
  | some fn ↦ done (set a (record (l.heap a) { func = some (record fn { pcdata_prog = true }) }) l)
]

abbrev pub pc_table : Bytes → Sym
pc_table p = record (new_sym [] 0) {
  kind = Kind.srodata;
  content_addressable = true;
  pcdata = true;
  align = 1;
  p = p;
  size = length p;
}

-- `pcsym`, and `Pctab`.
unfoldable pub pcsym : Bytes → Link → ℕ × Link
pcsym p l = alloc (pc_table p) l

unfoldable pub pctab : Bytes → Link → ℕ × Link
pctab p l = pcsym p l

-- strings.LastIndex(s, "/"), as a count: 0 is no slash, and a slash at `i` is `i + 1`.
unfoldable pub behind_slash : Bytes → ℕ
behind_slash [] = 0
behind_slash (c ∷ s) = elim (behind_slash s) [
  | zero ↦ if c == 0x2f then 1 else 0
  | suc i ↦ suc (suc i)
]

abbrev pub hex_digit : ℕ → ℕ
hex_digit d = if ltb d 10 then 48 + d else 87 + d

-- The test on the byte at `i`; `i > slash` is `behind_slash s <= i`.
abbrev pub is_escaped : ℕ → ℕ → ℕ → Bool
is_escaped slash i c =
    leb c 0x20 || (c == 0x2e && leb slash i) || (c == 0x25) || (c == 0x22) || leb 0x7f c

unfoldable pub escape_from : ℕ → ℕ → Bytes → Bytes
escape_from slash i [] = []
escape_from slash i (c ∷ s) =
    let rest = escape_from slash (i + 1) s in
    if is_escaped slash i c then 0x25 ∷ hex_digit (c / 16) ∷ hex_digit (c % 16) ∷ rest else c ∷ rest

unfoldable pub path_to_prefix : Bytes → Bytes
path_to_prefix s = escape_from (behind_slash s) 0 s

-- The members of the set, in order (sort.Slice).
unfoldable pub insert_file : ℕ → List ℕ → List ℕ
insert_file f [] = f ∷ []
insert_file f (g ∷ gs) = if leb f g then f ∷ g ∷ gs else g ∷ insert_file f gs

unfoldable pub sorted_files : List ℕ → List ℕ
sorted_files [] = []
sorted_files (f ∷ fs) = insert_file f (sorted_files fs)
