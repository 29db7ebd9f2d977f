-- ===== src/Gocobj/Read.antt =====
-- internal/gocobj/read.go: the callback of each section's records, in the order of `Parse`. `tab` is
-- the string table; the ELF container itself (debug/elf) is outside the model.
pub mod Parse
use goc.Prelude.{
  ℕ, zero, suc, ◌+◌, ◌-◌, ◌/◌, ◌%◌, ◌^◌, Bool, true, false, not, ◌&&◌, Option, none, some,
}
use goc.Prelude.{List, [], ◌∷◌, ◌++◌, length, drop, ltb, leb, ◌==◌, if◌then◌else◌}
use goc.Prelude.Int.{ℤ}
use goc.Gocobj.Codec.{Bytes, StrError, out_of_range, not_terminated, Buf, Rd, ret, stop, short}
use goc.Gocobj.Codec.{bind, ◌>>=◌, pure, read_u8, read_uleb, read_sleb, read_bytes, repeat}
use goc.Gocobj.Format.{PcEntry, PcTable, line_kind, InlNode, Safepoint, GcMap, Func, StackmapLoc}
use goc.Gocobj.Format.{Stackmap, ArgSpill, Wrapper, Reloc, DataEntry}

-- The bytes before the first NUL.
unfoldable pub until_nul : Bytes → Option Bytes
until_nul [] = none
until_nul (c ∷ cs) =
    let rest = until_nul cs in
    if c == 0 then some [] else elim rest [ none ↦ none | some v ↦ some (c ∷ v) ]

abbrev str_at : ℕ → Option Bytes → Rd Bytes
str_at off none r = ret [] (record r { str_err = some (not_terminated off) })
str_at off (some v) r = ret v r

abbrev first_error : ℕ → Option StrError → Option StrError
first_error off none = if off == 0 then none else some (out_of_range off)
first_error off (some e) = some e

-- `str`: an error does not stop the reader, it is reported at the end of `Parse`.
unfoldable pub str : Bytes → ℕ → Rd Bytes
unfolding until_nul
str tab off r =
    if leb (length tab) off
    then ret [] (record r { str_err = first_error off r.str_err })
    else str_at off (until_nul (drop off tab)) r

-- str(r.uleb())
unfoldable pub str_ref : Bytes → Rd Bytes
str_ref tab = read_uleb >>= str tab

-- len(r.b)
abbrev pub left : Rd ℕ
left r = ret (length r.b) r

-- `if c > uint64(len(r.b)) { return errShort }`
abbrev pub at_most_left : ℕ → Rd (Unit {0})
at_most_left n r = if ltb (length r.b) n then stop short else ret tt r

abbrev pub when {ℓ} : {A : Type ℓ} → Bool → Rd A → A → Rd A
when true m a = m
when false m a = pure a

abbrev pub push {ℓ} : {A : Type ℓ} → Rd A → List A → Rd (List A)
push m xs = m >>= λ x. pure (xs ++ (x ∷ []))

unfoldable pub file_record : Bytes → ℕ → List Bytes → Rd (List Bytes)
file_record tab off files = push (str_ref tab) files

-- A FILE, LINE or INL_INDEX row replaces a last row with its pc.
unfoldable pub add_row : ℕ → List PcEntry → PcEntry → List PcEntry
add_row kind [] e = e ∷ []
add_row kind (x ∷ []) e = if (x.pc == e.pc) && line_kind kind then e ∷ [] else x ∷ e ∷ []
add_row kind (x ∷ y ∷ xs) e = x ∷ add_row kind (y ∷ xs) e

unfoldable pub read_entry : Rd PcEntry
read_entry = do pc ← read_uleb; value ← read_sleb; pure (record { pc = pc; value = value })

unfoldable pub read_table : Rd PcTable
read_table = do
  kind ← read_u8
  c ← read_uleb
  _ ← at_most_left c
  entries ← repeat c (λ rows. read_entry >>= λ e. pure (add_row kind rows e)) []
  pure (record { kind = kind; entries = entries })

-- The decoded tables of a section, by the offset of their record, the last one first.
abbrev pub At {ℓ} : Type ℓ → Type ℓ
At A = List (ℕ × A)

unfoldable pub pcv_record : ℕ → At (List PcTable) → Rd (At (List PcTable))
pcv_record off pcv = do n ← read_uleb; ts ← repeat n (push read_table) []; pure ((off, ts) ∷ pcv)

-- (n + 7) / 8 in uint64, which wraps.
abbrev pub bitmap_bytes : ℕ → ℕ
bitmap_bytes n = (n + 7) % 2 ^ 64 / 8

unfoldable pub read_safepoint : ℕ → ℕ → Rd Safepoint
read_safepoint nargs nlocals = do
  pc ← read_uleb
  args ← read_bytes (bitmap_bytes nargs)
  locals ← read_bytes (bitmap_bytes nlocals)
  color ← (read_uleb >>= read_bytes)
  pure (record { pc = pc; args = args; locals = locals; color = color })

unfoldable pub read_gc : Rd GcMap
read_gc = do
  nargs ← read_uleb
  nlocals ← read_uleb
  n ← read_uleb
  _ ← at_most_left n
  safepoints ← repeat n (push (read_safepoint nargs nlocals)) []
  pure (record { nargs = nargs; nlocals = nlocals; safepoints = safepoints })

unfoldable pub gc_record : ℕ → At GcMap → Rd (At GcMap)
gc_record off gcs = do g ← read_gc; pure ((off, g) ∷ gcs)

unfoldable pub read_inl_node : Bytes → Rd InlNode
read_inl_node tab = do
  parent ← read_sleb
  file ← read_uleb
  line ← read_uleb
  func ← str_ref tab
  parent_pc ← read_uleb
  start_line ← read_uleb
  pure (record {
    parent = parent;
    file = file;
    line = line;
    func = func;
    parent_pc = parent_pc;
    start_line = start_line;
  })

unfoldable pub inl_record : Bytes → ℕ → At (List InlNode) → Rd (At (List InlNode))
inl_record tab off inls = do
  n ← read_uleb
  _ ← at_most_left n
  ns ← repeat n (push (read_inl_node tab)) []
  pure ((off, ns) ∷ inls)

abbrev pub find_at {ℓ} : {A : Type ℓ} → At A → ℕ → Option A
find_at [] off = none
find_at ((k, a) ∷ m) off = if k == off then some a else find_at m off

-- The offset field of a func record counts from 1; 0 means that there is no record.
abbrev pub find_ref {ℓ} : {A : Type ℓ} → At A → ℕ → Option A
find_ref m off = if off == 0 then none else find_at m (off - 1)

-- A table with no entry is a nil slice.
abbrev pub nil_slice {ℓ} : {A : Type ℓ} → Option (List A) → Option (List A)
nil_slice none = none
nil_slice (some []) = none
nil_slice (some (x ∷ xs)) = some (x ∷ xs)

pub record Decoded : Type 0 where
  pub pcv : At (List PcTable)
  pub gcs : At GcMap
  pub inls : At (List InlNode)

unfoldable pub read_slots : Rd (List ℕ)
read_slots = do n ← read_uleb; repeat n (push read_uleb) []

unfoldable pub read_func : Bytes → Decoded → Rd Func
read_func tab d = do
  name ← str_ref tab
  text_size ← read_uleb
  frame_size ← read_uleb
  arg_size ← read_uleb
  abi ← read_u8
  kind ← read_u8
  flags ← read_uleb
  func_id ← read_u8
  file ← read_uleb
  start_line ← read_uleb
  pcv_off ← read_uleb
  gc_off ← read_uleb
  inl_off ← read_uleb
  n ← left
  sysv_ptr_regs ← when (ltb 0 n) read_uleb 0
  m ← left
  sptr_slots ← when (ltb 0 m) read_slots []
  pure (record {
    name = name;
    text_size = text_size;
    frame_size = frame_size;
    arg_size = arg_size;
    abi = abi;
    kind = kind;
    flags = flags;
    func_id = func_id;
    file = file;
    start_line = start_line;
    sysv_ptr_regs = sysv_ptr_regs;
    sptr_slots = sptr_slots;
    pc_value = nil_slice (find_ref d.pcv pcv_off);
    inl = nil_slice (find_ref d.inls inl_off);
    gc = find_ref d.gcs gc_off;
    pcv_off = pcv_off;
    gc_off = gc_off;
    inl_off = inl_off;
  })

unfoldable pub func_record : Bytes → Decoded → ℕ → List Func → Rd (List Func)
func_record tab d off funcs = push (read_func tab d) funcs

unfoldable pub read_loc : Rd StackmapLoc
read_loc = do
  kind ← read_u8
  size ← read_uleb
  reg ← read_uleb
  off ← read_sleb
  pure (record { kind = kind; size = size; reg = reg; off = off })

unfoldable pub read_stackmap : Bytes → Rd Stackmap
read_stackmap tab = do
  func ← str_ref tab
  insn_off ← read_uleb
  id ← read_uleb
  n ← read_uleb
  locs ← repeat n (push read_loc) []
  pure (record { func = func; insn_off = insn_off; id = id; locs = locs })

unfoldable pub stackmap_record : Bytes → ℕ → List Stackmap → Rd (List Stackmap)
stackmap_record tab off stackmaps = push (read_stackmap tab) stackmaps

unfoldable pub read_spill : Bytes → Rd ArgSpill
read_spill tab = do
  reg ← str_ref tab
  off ← read_uleb
  size ← read_uleb
  ptr ← read_u8
  pure (record { reg = reg; off = off; size = size; ptr = not (ptr == 0) })

unfoldable pub read_wrapper : Bytes → Rd Wrapper
read_wrapper tab = do
  sym ← str_ref tab
  target ← str_ref tab
  from_abi ← read_u8
  to_abi ← read_u8
  n ← read_uleb
  arg_spills ← repeat n (push (read_spill tab)) []
  m ← read_uleb
  stack_ptr_args ← repeat m (push read_uleb) []
  pure (record {
    sym = sym;
    target = target;
    from_abi = from_abi;
    to_abi = to_abi;
    arg_spills = arg_spills;
    stack_ptr_args = stack_ptr_args;
  })

unfoldable pub wrapper_record : Bytes → ℕ → List Wrapper → Rd (List Wrapper)
wrapper_record tab off wrappers = push (read_wrapper tab) wrappers

unfoldable pub read_reloc : Bytes → Rd Reloc
read_reloc tab = do
  func ← str_ref tab
  offset ← read_uleb
  width ← read_u8
  kind ← read_u8
  target ← str_ref tab
  addend ← read_sleb
  flags ← read_u8
  pure (record {
    func = func;
    offset = offset;
    width = width;
    kind = kind;
    target = target;
    addend = addend;
    flags = flags;
  })

unfoldable pub reloc_record : Bytes → ℕ → List Reloc → Rd (List Reloc)
reloc_record tab off relocs = push (read_reloc tab) relocs

unfoldable pub read_data : Bytes → Rd DataEntry
read_data tab = do
  name ← str_ref tab
  size ← read_uleb
  log2_align ← read_u8
  flags ← read_uleb
  nbits ← read_uleb
  bitmap ← read_bytes (bitmap_bytes nbits)
  pure (record {
    name = name;
    size = size;
    log2_align = log2_align;
    flags = flags;
    nbits = nbits;
    bitmap = bitmap;
  })

unfoldable pub data_record : Bytes → ℕ → List DataEntry → Rd (List DataEntry)
data_record tab off entries = push (read_data tab) entries
