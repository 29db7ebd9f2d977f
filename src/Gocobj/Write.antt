-- ===== src/Gocobj/Write.antt =====
-- internal/gocobj/write.go: `Builder.Sections`, the reference writer of the `.goc.*` sections.
use goc.Prelude.{ℕ, ◌+◌, ◌/◌, ◌%◌, ◌^◌, Bool, true, false, Option, none, some, List, [], ◌∷◌, ◌++◌}
use goc.Prelude.{length, foldl, leb, if◌then◌else◌, bytes_eq}
use goc.Gocobj.Codec.{Bytes, put_u8, put_uleb, put_sleb, put_record}
use goc.Prelude.Int.{ℤ}
use goc.Gocobj.Format.{
  magic, format_major, Header, PcEntry, PcTable, InlNode, Safepoint, GcMap, Func,
}
use goc.Gocobj.Format.{StackmapLoc, Stackmap, Reloc, DataEntry}
use goc.Gocobj.Read.Parse.{Payloads, files, funcs, relocs, stackmaps, wrappers, pcvalue}
use goc.Gocobj.Read.Parse.{gcmaps, data_section, inltree}

pub record Builder : Type 0 where
  pub header : Header
  pub files : List Bytes
  pub funcs : List Func
  pub relocs : List Reloc
  pub stackmaps : List Stackmap
  pub data_entries : List DataEntry

-- The string table under construction: its bytes, and the offset of each string in it.
pub record Strings : Type 0 where
  pub strs : Bytes
  pub idx : List (Bytes × ℕ)

abbrev pub no_strings : Strings
no_strings = record { strs = 0 ∷ []; idx = ([], 0) ∷ [] }

unfoldable pub offset_of : Bytes → List (Bytes × ℕ) → Option ℕ
offset_of v [] = none
offset_of v ((k, o) ∷ m) = if bytes_eq k v then some o else offset_of v m

-- The closure `s`: the offset of a string, which is added where it is new.
unfoldable pub intern : Bytes → Strings → ℕ × Strings
intern v st = elim (offset_of v st.idx) [
  | some o ↦ (o, st)
  | none ↦ (
    length st.strs,
    record { strs = st.strs ++ (v ++ (0 ∷ [])); idx = (v, length st.strs) ∷ st.idx },
  )
]

-- What a piece of the writer appends to its `enc`, and what it does to the string table.
abbrev pub Enc : Type 0
Enc = Strings → Bytes × Strings

abbrev pub emit : Bytes → Enc
emit bs st = (bs, st)

abbrev pub after : Bytes → Bytes × Strings → Bytes × Strings
after bs (cs, st) = (bs ++ cs, st)

infixr 40 ◌▸◌
abbrev pub ◌▸◌ : Enc → Enc → Enc
◌▸◌ e f st = after (e st).0 (f (e st).1)

abbrev pub u8 : ℕ → Enc
u8 v = emit (put_u8 v)

abbrev pub uleb : ℕ → Enc
uleb v = emit (put_uleb v)

abbrev pub sleb : ℤ → Enc
sleb v = emit (put_sleb v)

-- r.uleb(s(v))
unfoldable pub str_uleb : Bytes → Enc
str_uleb v st = let (o, st') = intern v st in (put_uleb o, st')

unfoldable pub each {ℓ} : {X : Type ℓ} → (X → Enc) → List X → Enc
each f [] = emit []
each f (x ∷ xs) = f x ▸ each f xs

-- enc.record of what `f` writes
unfoldable pub as_record : Enc → Enc
as_record f st = let (body, st') = f st in (put_record body, st')

unfoldable pub encode_entry : PcEntry → Enc
encode_entry e = uleb e.pc ▸ sleb e.value

unfoldable pub encode_table : PcTable → Enc
encode_table t = u8 t.kind ▸ uleb (length t.entries) ▸ each encode_entry t.entries

unfoldable pub encode_pcv : List PcTable → Enc
encode_pcv ts = uleb (length ts) ▸ each encode_table ts

unfoldable pub encode_safepoint : Safepoint → Enc
encode_safepoint sp =
    uleb sp.pc ▸ emit sp.args ▸ emit sp.locals ▸ uleb (length sp.color) ▸ emit sp.color

unfoldable pub encode_gc : GcMap → Enc
encode_gc g =
    uleb g.nargs ▸ uleb g.nlocals ▸ uleb (length g.safepoints) ▸ each encode_safepoint g.safepoints

unfoldable pub encode_inl_node : InlNode → Enc
encode_inl_node n =
    sleb n.parent
    ▸ uleb n.file
    ▸ uleb n.line
    ▸ str_uleb n.func
    ▸ uleb n.parent_pc
    ▸ uleb n.start_line

unfoldable pub encode_inl : List InlNode → Enc
encode_inl ns = uleb (length ns) ▸ each encode_inl_node ns

abbrev pub enc_when : Bool → Enc → Enc
enc_when true f = f
enc_when false f = emit []

unfoldable pub encode_func : ℕ → Func → ℕ → ℕ → ℕ → Enc
encode_func minor fn pcv_off gc_off inl_off =
    str_uleb fn.name
    ▸ uleb fn.text_size
    ▸ uleb fn.frame_size
    ▸ uleb fn.arg_size
    ▸ u8 fn.abi
    ▸ u8 fn.kind
    ▸ uleb fn.flags
    ▸ u8 fn.func_id
    ▸ uleb fn.file
    ▸ uleb fn.start_line
    ▸ uleb pcv_off
    ▸ uleb gc_off
    ▸ uleb inl_off
    ▸ enc_when (leb 1 minor) (uleb fn.sysv_ptr_regs)
    ▸ enc_when (leb 2 minor) (uleb (length fn.sptr_slots) ▸ each uleb fn.sptr_slots)

unfoldable pub encode_reloc : Reloc → Enc
encode_reloc rl =
    str_uleb rl.func
    ▸ uleb rl.offset
    ▸ u8 rl.width
    ▸ u8 rl.kind
    ▸ str_uleb rl.target
    ▸ sleb rl.addend
    ▸ u8 rl.flags

unfoldable pub encode_loc : StackmapLoc → Enc
encode_loc l = u8 l.kind ▸ uleb l.size ▸ uleb l.reg ▸ sleb l.off

unfoldable pub encode_stackmap : Stackmap → Enc
encode_stackmap sm =
    str_uleb sm.func
    ▸ uleb sm.insn_off
    ▸ uleb sm.id
    ▸ uleb (length sm.locs)
    ▸ each encode_loc sm.locs

unfoldable pub encode_data : DataEntry → Enc
encode_data d =
    str_uleb d.name ▸ uleb d.size ▸ u8 d.log2_align ▸ uleb d.flags ▸ uleb d.nbits ▸ emit d.bitmap

-- A function's decoded table goes to a section of its own; the function refers to it by offset + 1.
unfoldable pub add_table {ℓ} :
    {A : Type ℓ} → (A → Enc) → Option A → Bytes → Strings → ℕ × Bytes × Strings
add_table f none section st = (0, section, st)
add_table f (some a) section st =
    let (body, st') = as_record (f a) st in (length section + 1, section ++ body, st')

pub record FuncSections : Type 0 where
  pub funcs : Bytes
  pub pcv : Bytes
  pub gcm : Bytes
  pub inl : Bytes
  pub strings : Strings

unfoldable pub add_func : ℕ → FuncSections → Func → FuncSections
add_func minor b fn =
    let (pcv_off, pcv, st₁) = add_table encode_pcv fn.pc_value b.pcv b.strings in
    let (gc_off, gcm, st₂) = add_table encode_gc fn.gc b.gcm st₁ in
    let (inl_off, inl, st₃) = add_table encode_inl fn.inl b.inl st₂ in
    let (body, st₄) = as_record (encode_func minor fn pcv_off gc_off inl_off) st₃ in
    record { funcs = b.funcs ++ body; pcv = pcv; gcm = gcm; inl = inl; strings = st₄ }

-- Little-endian fields of 16 and 32 bits.
abbrev pub put_le16 : ℕ → Bytes
put_le16 v = (v % 2 ^ 8) ∷ (v / 2 ^ 8 % 2 ^ 8) ∷ []

abbrev pub put_le32 : ℕ → Bytes
put_le32 v = (v % 2 ^ 8) ∷ (v / 2 ^ 8 % 2 ^ 8) ∷ (v / 2 ^ 16 % 2 ^ 8) ∷ (v / 2 ^ 24 % 2 ^ 8) ∷ []

unfoldable pub header_bytes : Header → ℕ → ℕ → Bytes
header_bytes h profile producer =
    magic
    ++ (put_le16 format_major
        ++ (put_le16 h.minor
            ++ (h.arch
                ∷ h.flags
                ∷ 0
                ∷ 0
                ∷ (put_le32 profile ++ (put_le32 producer ++ (0 ∷ 0 ∷ 0 ∷ 0 ∷ []))))))

unfoldable pub sections : Builder → Payloads
sections bd =
    let (profile, st₁) = intern bd.header.profile no_strings in
    let (producer, st₂) = intern bd.header.producer st₁ in
    let (file_bytes, st₃) = each (λ f. as_record (str_uleb f)) bd.files st₂ in
    let fs =
      foldl (add_func bd.header.minor)
        (record { funcs = []; pcv = []; gcm = []; inl = []; strings = st₃ }) bd.funcs in
    let (reloc_bytes, st₅) = each (λ rl. as_record (encode_reloc rl)) bd.relocs fs.strings in
    let (stackmap_bytes, st₆) = each (λ sm. as_record (encode_stackmap sm)) bd.stackmaps st₅ in
    let (data_bytes, st₇) = each (λ d. as_record (encode_data d)) bd.data_entries st₆ in
    record {
      header = some (header_bytes bd.header profile producer);
      strtab = st₇.strs;
      section = elim [
        | files ↦ file_bytes
        | funcs ↦ fs.funcs
        | relocs ↦ reloc_bytes
        | stackmaps ↦ stackmap_bytes
        | wrappers ↦ []
        | pcvalue ↦ fs.pcv
        | gcmaps ↦ fs.gcm
        | data_section ↦ data_bytes
        | inltree ↦ fs.inl
      ];
    }
