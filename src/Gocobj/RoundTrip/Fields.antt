-- ===== src/Gocobj/RoundTrip/Fields.antt =====
-- Each kind of record: the reader takes back what the writer wrote.
use goc.Prelude.{ℕ, ◌≤◌, ◌≡◌, refl, length, All, arith}
use goc.Prelude.Int.{IsI64}
use goc.Prelude.{All-map}
use goc.Gocobj.Format.{PcEntry, InlNode, Safepoint}
use goc.Gocobj.Read.{read_entry, read_inl_node, read_safepoint}
use goc.Gocobj.Write.{encode_entry, encode_inl_node, encode_safepoint}
use goc.Gocobj.Codec.{IsU64, put_u8}
use goc.Gocobj.Write.{Strings}
use goc.Gocobj.Format.{IsCString, Reloc, DataEntry, StackmapLoc, Stackmap}
use goc.Gocobj.Read.{bitmap_bytes, read_reloc, read_data, read_loc, read_stackmap}
use goc.Gocobj.Write.{encode_reloc, encode_data, encode_loc, encode_stackmap}
use goc.Gocobj.RoundTrip.Encodes.{Encodes, Encodes-seq, Encodes-last, Encodes-u8, Encodes-uleb}
use goc.Gocobj.RoundTrip.Encodes.{Encodes-sleb, Encodes-bytes, Encodes-str}
use goc.Gocobj.RoundTrip.Loops.{Encodes-list}

-- The fields have values of their width, and a name has no NUL.
pub record IsReloc (rl : Reloc) : Type 0 where
  pub func : IsCString rl.func
  pub offset : IsU64 rl.offset
  pub target : IsCString rl.target
  pub addend : IsI64 rl.addend

pub Encodes-reloc : (rl : Reloc) → IsReloc rl → Encodes (encode_reloc rl) read_reloc rl
unfolding encode_reloc read_reloc
Encodes-reloc rl h = Encodes-seq _ (Encodes-str rl.func h.func) (
    Encodes-seq _ (Encodes-uleb rl.offset h.offset) (
      Encodes-seq _ (Encodes-u8 rl.width) (
        Encodes-seq _ (Encodes-u8 rl.kind) (
          Encodes-seq _ (Encodes-str rl.target h.target) (
            Encodes-seq _ (Encodes-sleb rl.addend h.addend)
              (Encodes-last _ (Encodes-u8 rl.flags)))))))

pub record IsData (d : DataEntry) : Type 0 where
  pub name : IsCString d.name
  pub size : IsU64 d.size
  pub flags : IsU64 d.flags
  pub nbits : IsU64 d.nbits
  pub bitmap : length d.bitmap ≡ bitmap_bytes d.nbits

pub Encodes-data : (d : DataEntry) → IsData d → Encodes (encode_data d) read_data d
unfolding encode_data read_data
Encodes-data d h = Encodes-seq _ (Encodes-str d.name h.name) (
    Encodes-seq _ (Encodes-uleb d.size h.size) (
      Encodes-seq _ (Encodes-u8 d.log2_align) (
        Encodes-seq _ (Encodes-uleb d.flags h.flags) (
          Encodes-seq _ (Encodes-uleb d.nbits h.nbits)
            (Encodes-last _ (Encodes-bytes (bitmap_bytes d.nbits) d.bitmap h.bitmap))))))

pub record IsLoc (l : StackmapLoc) : Type 0 where
  pub size : IsU64 l.size
  pub reg : IsU64 l.reg
  pub off : IsI64 l.off

Encodes-loc : (l : StackmapLoc) → IsLoc l → Encodes (encode_loc l) (λ tab. read_loc) l
unfolding encode_loc read_loc
Encodes-loc l h = Encodes-seq _ (Encodes-u8 l.kind) (
    Encodes-seq _ (Encodes-uleb l.size h.size)
      (Encodes-seq _ (Encodes-uleb l.reg h.reg) (Encodes-last _ (Encodes-sleb l.off h.off))))

takes-loc : (l : StackmapLoc) (st : Strings) → 1 ≤ length (encode_loc l st).0
unfolding encode_loc put_u8
takes-loc l st = omega arith

pub record IsStackmap (sm : Stackmap) : Type 0 where
  pub func : IsCString sm.func
  pub insn_off : IsU64 sm.insn_off
  pub id : IsU64 sm.id
  pub count : IsU64 (length sm.locs)
  pub locs : All IsLoc sm.locs

pub Encodes-stackmap :
    (sm : Stackmap) → IsStackmap sm → Encodes (encode_stackmap sm) read_stackmap sm
unfolding encode_stackmap read_stackmap
Encodes-stackmap sm h = Encodes-seq _ (Encodes-str sm.func h.func) (
    Encodes-seq _ (Encodes-uleb sm.insn_off h.insn_off) (
      Encodes-seq _ (Encodes-uleb sm.id h.id) (
        Encodes-seq _ (Encodes-uleb (length sm.locs) h.count) (
          Encodes-last _ (
            Encodes-list encode_loc (λ tab. read_loc) sm.locs
              (All-map (λ l. Encodes-loc l) sm.locs h.locs) takes-loc)))))

pub record IsEntry (e : PcEntry) : Type 0 where
  pub pc : IsU64 e.pc
  pub value : IsI64 e.value

pub Encodes-entry : (e : PcEntry) → IsEntry e → Encodes (encode_entry e) (λ tab. read_entry) e
unfolding encode_entry read_entry
Encodes-entry e h =
    Encodes-seq _ (Encodes-uleb e.pc h.pc) (Encodes-last _ (Encodes-sleb e.value h.value))

pub record IsInlNode (n : InlNode) : Type 0 where
  pub parent : IsI64 n.parent
  pub file : IsU64 n.file
  pub line : IsU64 n.line
  pub func : IsCString n.func
  pub parent_pc : IsU64 n.parent_pc
  pub start_line : IsU64 n.start_line

pub Encodes-inl_node : (n : InlNode) → IsInlNode n → Encodes (encode_inl_node n) read_inl_node n
unfolding encode_inl_node read_inl_node
Encodes-inl_node n h = Encodes-seq _ (Encodes-sleb n.parent h.parent) (
    Encodes-seq _ (Encodes-uleb n.file h.file) (
      Encodes-seq _ (Encodes-uleb n.line h.line) (
        Encodes-seq _ (Encodes-str n.func h.func) (
          Encodes-seq _ (Encodes-uleb n.parent_pc h.parent_pc)
            (Encodes-last _ (Encodes-uleb n.start_line h.start_line))))))

pub record IsSafepoint (nargs nlocals : ℕ) (sp : Safepoint) : Type 0 where
  pub pc : IsU64 sp.pc
  pub args : length sp.args ≡ bitmap_bytes nargs
  pub locals : length sp.locals ≡ bitmap_bytes nlocals
  pub color : IsU64 (length sp.color)

pub Encodes-safepoint :
    (nargs nlocals : ℕ) (sp : Safepoint)
    → IsSafepoint nargs nlocals sp
    → Encodes (encode_safepoint sp) (λ tab. read_safepoint nargs nlocals) sp
unfolding encode_safepoint read_safepoint
Encodes-safepoint nargs nlocals sp h = Encodes-seq _ (Encodes-uleb sp.pc h.pc) (
    Encodes-seq _ (Encodes-bytes (bitmap_bytes nargs) sp.args h.args) (
      Encodes-seq _ (Encodes-bytes (bitmap_bytes nlocals) sp.locals h.locals) (
        Encodes-last _ (
          Encodes-seq _ (Encodes-uleb (length sp.color) h.color)
            (Encodes-bytes (length sp.color) sp.color refl)))))
