-- ===== src/Goobj/Dwarf.antt =====
-- A function's DWARF information and line program (internal/goobj/dwarf.go), as it is before the function
-- has code.
pub mod Uleb
use goc.Prelude.{
  ℕ, zero, suc, ◌+◌, ◌*◌, ◌/◌, ◌%◌, ◌^◌, Bool, true, false, not, ◌&&◌, ◌==◌, leb, bit_and, bit_or,
  bytes_eq, codes, if◌then◌else◌,
}
use goc.Prelude.{Option, none, some, List, [], ◌∷◌, ◌++◌, length, take, drop}
use goc.Gocobj.Codec.{Bytes}
use goc.Gometa.{AddrxFlavor}
use goc.Goobj.Link.{Kind, Sym, Link, FuncInfo, Reloc, new_sym, prepwrite, add_rel, alloc, set}

-- The loop of `uleb`, with `c |= 0x80` when bits are left; `c&0x80 == 0` ends it.
unfoldable pub uleb_loop : ℕ → ℕ → Bytes
uleb_loop zero v = []
uleb_loop (suc fuel) v =
    let low = bit_and v 0x7f in
    let v' = v / 2 ^ 7 in
    let c = if v' == 0 then low else bit_or low 0x80 in
    let rest = uleb_loop fuel v' in if bit_and c 0x80 == 0 then c ∷ [] else c ∷ rest

-- `s.P = append(...)` and `s.Size = int64(len(s.P))`.
abbrev pub append_p : Bytes → Sym → Sym
append_p b s = record s { p = s.p ++ b; size = length (s.p ++ b) }

-- A uint64 has at most ten groups of seven bits.
unfoldable pub uleb : ℕ → Sym → Sym
uleb v s = append_p (uleb_loop 10 v) s

-- `none` is the panic.
unfoldable pub addrx_flavor : ℕ → List AddrxFlavor → Option (Bytes × ℕ)
addrx_flavor max_funcs [] = none
addrx_flavor max_funcs (f ∷ fs) =
    if leb max_funcs f.max_funcs then some (f.reloc, f.size) else addrx_flavor max_funcs fs

-- strings.Cut(name, "#"): what stands before the mark and behind it.
unfoldable pub cut : ℕ → Bytes → Option (Bytes × Bytes)
cut mark [] = none
cut mark (c ∷ name) =
    if c == mark
    then some ([], name)
    else elim (cut mark name) [ none ↦ none | some (a, b) ↦ some (c ∷ a, b) ]

abbrev pub hash_mark : ℕ
hash_mark = 35

-- base64.StdEncoding.EncodedLen(8)
abbrev pub encoded_len : ℕ
encoded_len = 12

-- `len(b) < n+1 || b[n] != '#'`, and `b[n+1:]` where neither holds.
abbrev pub marked : Bytes → Option Bytes
marked [] = none
marked (c ∷ rest) = if c == hash_mark then some rest else none

-- `TrimInlineHash` (write.go).
unfoldable pub trim_inline_hash : Bytes → Bytes
trim_inline_hash name = elim (cut hash_mark name) [
  | none ↦ name
  | some (a, b) ↦ elim (marked (drop encoded_len b)) [ none ↦ name | some rest ↦ a ++ rest ]
]

-- A relocation at the end of the symbol, over `siz` new bytes.
abbrev pub append_addr : ℕ → Bytes → ℕ → ℕ → Sym → Sym
append_addr siz type add target s =
    add_rel (record { off = s.size; siz = siz; type = type; add = add; sym = some target })
      (prepwrite s.size siz s)

-- The low and the high pc, or an index and a length.
unfoldable pub pc_range : Link → ℕ → ℕ → Sym → Option Sym
pc_range l target size info =
    let r_addr = codes "R_ADDR" in
    if bytes_eq l.meta.dwarf.func_die (codes "v2") && l.dwarf5
    then elim (addrx_flavor (l.dw_text_count * 2) l.meta.dwarf.text_addrx) [
      | none ↦ none
      | some (type, siz) ↦ some (uleb size (append_addr siz type 0 target info))
    ]
    else some (
        append_addr l.arch.ptr_size r_addr size target
          (append_addr l.arch.ptr_size r_addr 0 target info))

abbrev pub of_kind : Kind → Sym
of_kind k = record (new_sym [] 0) { kind = k }

abbrev pub dwarf_name : Link → Sym → Bytes
dwarf_name l s = if l.meta.writer.trim_inline_hash then trim_inline_hash s.name else s.name

-- The debugging entry of the function; its size is the address `a`'s symbol's.
unfoldable pub dwarf_info_sym : Link → ℕ → FuncInfo → Option Sym
dwarf_info_sym l a fn =
    let s = l.heap a in
    let info = uleb l.meta.dwarf.abbrev_function (of_kind Kind.sdwarffcn) in
    elim (pc_range l a s.size (append_p (dwarf_name l s ++ (0 ∷ [])) info)) [
      | none ↦ none
      | some info' ↦
          let decl_file = append_p (1 ∷ 0x9c ∷ 1 ∷ 0 ∷ 0 ∷ 0 ∷ []) info' in
          let decl_line =
            if bytes_eq l.meta.dwarf.func_die (codes "v0")
            then decl_file
            else uleb fn.start_line decl_file in
          some (append_p ((if s.static then 0 else 1) ∷ 0 ∷ []) decl_line)
    ]

unfoldable pub dwarf_lines_sym : Link → ℕ → Sym
dwarf_lines_sym l a =
    let start =
      append_p (2 ∷ [])
        (uleb (1 + l.arch.ptr_size) (append_p (0 ∷ []) (of_kind Kind.sdwarflines))) in
    let lines = append_p (2 ∷ []) (append_addr l.arch.ptr_size (codes "R_ADDR") 0 a start) in
    append_p (0 ∷ 1 ∷ 1 ∷ []) (uleb (l.heap a).size lines)

-- The three symbols, at new addresses; `none` is the panic of `addrxFlavor`.
unfoldable pub dwarf : Link → ℕ → FuncInfo → Option (FuncInfo × Link)
dwarf l a fn = elim (dwarf_info_sym l a fn) [
  | none ↦ none
  | some info ↦
      let i = alloc info l in
      let n = alloc (dwarf_lines_sym l a) i.1 in
      let r = alloc (of_kind Kind.sdwarfrange) n.1 in
      some
        (record fn { dwarf_info = some i.0; dwarf_lines = some n.0; dwarf_ranges = some r.0 }, r.1)
]
