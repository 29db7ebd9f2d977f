-- ===== src/Gocobj/RoundTrip/Tables.antt =====
-- The decoded tables of a function: pc-value tables, pointer maps and the inlining tree.
use goc.Prelude.{ℕ, ◌≤◌, ◌≡◌, refl, ◌∙◌, ap, false, ◌&&◌, List, [], ◌∷◌, ◌++◌}
use goc.Prelude.{foldl, length, length-append, All, All-map, append_assoc, arith, ◌==◌}
use goc.Gocobj.Codec.{IsU64, put_u8, put_sleb, ◌>>=◌, pure}
use goc.Gocobj.Codec.Sleb.{length-put_sleb}
use goc.Gocobj.Format.{PcEntry, PcTable, InlNode, Safepoint, GcMap, line_kind}
use goc.Gocobj.Read.{add_row, At, read_entry, read_table, pcv_record, read_gc, inl_record}
use goc.Gocobj.Read.{read_inl_node, read_safepoint}
use goc.Gocobj.Write.{
  Strings, emit, ◌▸◌, uleb, sleb, encode_entry, encode_table, encode_pcv, encode_safepoint,
}
use goc.Gocobj.Write.{encode_gc, encode_inl_node, encode_inl}
use goc.Gocobj.RoundTrip.Encodes.{Encodes, Encodes-seq, Encodes-last, Encodes-u8, Encodes-uleb}
use goc.Gocobj.RoundTrip.Loops.{Encodes-guarded, Encodes-list, Encodes-guarded_list}
use goc.Gocobj.RoundTrip.Loops.{takes-put_uleb}
use goc.Gocobj.RoundTrip.Fields.{IsEntry, Encodes-entry, IsInlNode, Encodes-inl_node, IsSafepoint}
use goc.Gocobj.RoundTrip.Fields.{Encodes-safepoint}

-- No row of a debug-location kind shares its pc with the row before it.
abbrev pub IsApart : ℕ → List PcEntry → Type 0
IsApart kind [] = Unit
IsApart kind (x ∷ []) = Unit
IsApart kind (x ∷ y ∷ xs) = (((x.pc == y.pc) && line_kind kind) ≡ false) × IsApart kind (y ∷ xs)

add_row-append :
    (kind : ℕ) (rows : List PcEntry) (x e : PcEntry)
    → ((x.pc == e.pc) && line_kind kind) ≡ false
    → add_row kind (rows ++ (x ∷ [])) e ≡ (rows ++ (x ∷ [])) ++ (e ∷ [])
unfolding add_row
add_row-append kind [] x e h = rw h
add_row-append kind (y ∷ []) x e h = rw h
add_row-append kind (y ∷ z ∷ rows) x e h =
    ap (λ (t : List PcEntry). y ∷ t) (add_row-append kind (z ∷ rows) x e h)

add_rows :
    (kind : ℕ) (rows : List PcEntry) (x : PcEntry) (xs : List PcEntry)
    → IsApart kind (x ∷ xs)
    → foldl (add_row kind) (rows ++ (x ∷ [])) xs ≡ rows ++ (x ∷ xs)
add_rows kind rows x [] h = refl
add_rows kind rows x (y ∷ xs) h =
    rw (add_row-append kind rows x y h.0)
      (add_rows kind (rows ++ (x ∷ [])) y xs h.1 ∙ append_assoc rows (x ∷ []) (y ∷ xs))

-- Rows that are apart are all kept.
pub foldl-add_row :
    (kind : ℕ) (xs : List PcEntry) → IsApart kind xs → foldl (add_row kind) [] xs ≡ xs
unfolding add_row
foldl-add_row kind [] h = refl
foldl-add_row kind (x ∷ xs) h = add_rows kind [] x xs h

pub record IsTableOf (t : PcTable) : Type 0 where
  pub count : IsU64 (length t.entries)
  pub entries : All IsEntry t.entries
  pub apart : IsApart t.kind t.entries

takes-entry : (e : PcEntry) (st : Strings) → 1 ≤ length (encode_entry e st).0
unfolding encode_entry
takes-entry e st = takes-put_uleb e.pc (sleb e.value) st

pub Encodes-table : (t : PcTable) → IsTableOf t → Encodes (encode_table t) (λ tab. read_table) t
unfolding encode_table read_table
Encodes-table t h = Encodes-seq _ (Encodes-u8 t.kind) (
    Encodes-seq _ (Encodes-uleb (length t.entries) h.count) (
      rw (foldl-add_row t.kind t.entries h.apart) at (
        Encodes-guarded encode_entry (λ tab rows. read_entry >>= λ e. pure (add_row t.kind rows e))
          (add_row t.kind) [] {B = PcTable} (λ rows. record { kind = t.kind; entries = rows })
          t.entries
          (All-map
            (λ e v. record {
              reads = λ acc. Encodes-last (add_row t.kind acc) (Encodes-entry e v);
              takes = takes-entry e;
            })
            t.entries h.entries))))

takes-table : (t : PcTable) (st : Strings) → 1 ≤ length (encode_table t st).0
unfolding encode_table put_u8
takes-table t st = omega arith

pub record IsPcv (ts : List PcTable) : Type 0 where
  pub count : IsU64 (length ts)
  pub tables : All IsTableOf ts

-- The pc-value record that the writer makes of `ts` is read back as `ts`, under the offset of the record.
-- `IsPcv`: fields of their widths, and no two adjacent rows with one pc in a FILE, LINE or INL_INDEX table.
pub Encodes-pcv :
    (off : ℕ) (pcv : At (List PcTable)) (ts : List PcTable)
    → IsPcv ts
    → Encodes (encode_pcv ts) (λ tab. pcv_record off pcv) ((off, ts) ∷ pcv)
unfolding encode_pcv pcv_record
Encodes-pcv off pcv ts h = Encodes-seq _ (Encodes-uleb (length ts) h.count) (
    Encodes-last (λ ts'. (off, ts') ∷ pcv)
      (Encodes-list encode_table (λ tab. read_table) ts (All-map Encodes-table ts h.tables)
        takes-table))

takes-safepoint : (sp : Safepoint) (st : Strings) → 1 ≤ length (encode_safepoint sp st).0
unfolding encode_safepoint
takes-safepoint sp st =
    takes-put_uleb sp.pc (emit sp.args ▸ emit sp.locals ▸ uleb (length sp.color) ▸ emit sp.color) st

pub record IsGcMap (g : GcMap) : Type 0 where
  pub nargs : IsU64 g.nargs
  pub nlocals : IsU64 g.nlocals
  pub count : IsU64 (length g.safepoints)
  pub safepoints : All (IsSafepoint g.nargs g.nlocals) g.safepoints

-- The GC record that the writer makes of `g` is read back as `g`. `IsGcMap`: fields of their widths, and
-- bitmaps with a bit for each argument and each local.
pub Encodes-gc : (g : GcMap) → IsGcMap g → Encodes (encode_gc g) (λ tab. read_gc) g
unfolding encode_gc read_gc
Encodes-gc g h = Encodes-seq _ (Encodes-uleb g.nargs h.nargs) (
    Encodes-seq _ (Encodes-uleb g.nlocals h.nlocals) (
      Encodes-seq _ (Encodes-uleb (length g.safepoints) h.count) (
        Encodes-guarded_list encode_safepoint (λ tab. read_safepoint g.nargs g.nlocals) g.safepoints
          (All-map (Encodes-safepoint g.nargs g.nlocals) g.safepoints h.safepoints) takes-safepoint
          (λ sps. record { nargs = g.nargs; nlocals = g.nlocals; safepoints = sps }))))

pub record IsInl (ns : List InlNode) : Type 0 where
  pub count : IsU64 (length ns)
  pub nodes : All IsInlNode ns

takes-inl_node : (n : InlNode) (st : Strings) → 1 ≤ length (encode_inl_node n st).0
unfolding encode_inl_node
takes-inl_node n st = omega (arith, length-put_sleb n.parent, length-append (put_sleb n.parent) _)

-- The inline-tree record that the writer makes of `ns` is read back as `ns`, under the offset of the
-- record. `IsInl`: fields of their widths, and names with no NUL.
pub Encodes-inl :
    (off : ℕ) (inls : At (List InlNode)) (ns : List InlNode)
    → IsInl ns
    → Encodes (encode_inl ns) (λ tab. inl_record tab off inls) ((off, ns) ∷ inls)
unfolding encode_inl inl_record
Encodes-inl off inls ns h = Encodes-seq _ (Encodes-uleb (length ns) h.count) (
    Encodes-guarded_list encode_inl_node read_inl_node ns (All-map Encodes-inl_node ns h.nodes)
      takes-inl_node (λ ns'. (off, ns') ∷ inls))
