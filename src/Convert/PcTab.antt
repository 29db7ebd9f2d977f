-- ===== src/Convert/PcTab.antt =====
-- internal/convert/pctab.go: Go's pc-value tables and stack maps. A size, an `int64` in Go, is its value;
-- one below 0 is as 0.
pub mod Segments
pub mod Maps
pub mod Chain
pub mod Rows
pub mod Decode
use goc.Prelude.{
  ℕ, zero, suc, ◌+◌, ◌-◌, ◌*◌, ◌/◌, ◌%◌, ◌^◌, Bool, true, false, ◌&&◌, ltb, leb, ◌==◌,
  if◌then◌else◌,
}
use goc.Prelude.{Option, none, some, List, [], ◌∷◌, ◌++◌, length, foldl, bytes_eq, replicate}
use goc.Prelude.Int.{ℤ, pos, negsuc, eq_ℤ, signed64, pattern64}
use goc.Gocobj.Codec.{Bytes, put_uleb}
use goc.Gocobj.Format.{PcEntry, PcTable, Func, Safepoint, GcMap}
use goc.Gocobj.Read.{bitmap_bytes}
use goc.Gocobj.Write.{put_le32}

-- `seg`
pub record Seg : Type 0 where
  pub value : ℤ
  pub start : ℕ

-- One round of the first loop of `pcbytes`; `segs` has the last segment first.
abbrev pub add_behind : PcEntry → Seg → List Seg → List Seg
add_behind e last segs =
    if e.pc == last.start
    then record { value = e.value; start = last.start } ∷ segs
    else if eq_ℤ e.value last.value
    then last ∷ segs
    else record { value = e.value; start = e.pc } ∷ last ∷ segs

unfoldable pub add_segment : ℕ → List Seg → PcEntry → List Seg
add_segment size [] e = []
add_segment size (last ∷ segs) e = if leb size e.pc then last ∷ segs else add_behind e last segs

-- The segments of a table of `size` bytes, the last one first.
unfoldable pub pc_segments : ℕ → List PcEntry → List Seg
pc_segments size es = foldl (add_segment size) (record { value = negsuc 0; start = 0 } ∷ []) es

-- encoding/binary's AppendVarint: zigzag, and a uvarint.
unfoldable pub put_varint : ℤ → Bytes
put_varint (pos n) = put_uleb (2 * n)
put_varint (negsuc n) = put_uleb (2 * n + 1)

-- The difference of two int64, which wraps.
abbrev pub sub64 : ℤ → ℤ → ℤ
sub64 a b = signed64 ((pattern64 a + 2 ^ 64 - pattern64 b) % 2 ^ 64)

abbrev pub next_start : ℕ → List Seg → ℕ
next_start size [] = size
next_start size (s ∷ ss) = s.start

-- The second loop, on the segments in their order.
unfoldable pub put_segments : ℕ → ℕ → ℤ → List Seg → Bytes
put_segments min_lc size prev [] = 0 ∷ []
put_segments min_lc size prev (s ∷ ss) =
    let end = next_start size ss in
    let code = put_varint (sub64 s.value prev) ++ put_uleb ((end - s.start) / min_lc) in
    let empty = leb end s.start in
    (if empty then [] else code) ++ put_segments min_lc size (if empty then prev else s.value) ss

abbrev pub reversed : List Seg → List Seg → List Seg
reversed acc [] = acc
reversed acc (s ∷ ss) = reversed (s ∷ acc) ss

unfoldable pub pc_bytes : ℕ → ℕ → List PcEntry → Bytes
pc_bytes min_lc zero es = []
pc_bytes min_lc (suc n) es =
    put_segments min_lc (suc n) (negsuc 0) (reversed [] (pc_segments (suc n) es))

-- `pcTable`: the first table of a kind.
unfoldable pub pc_table : List PcTable → ℕ → List PcEntry
pc_table [] kind = []
pc_table (t ∷ ts) kind = if t.kind == kind then t.entries else pc_table ts kind

-- `seen`, `as` and `ls` of `stackmaps`: the different pairs of bitmaps in their order.
unfoldable pub index_of : Bytes → Bytes → List (Bytes × Bytes) → Option ℕ
index_of a l [] = none
index_of a l (r ∷ rows) =
    let rest = index_of a l rows in
    if bytes_eq r.0 a && bytes_eq r.1 l
    then some 0
    else elim rest [ none ↦ none | some i ↦ some (suc i) ]

-- The index of a safepoint holds from the byte before its return address; the difference wraps.
abbrev pub index_entry : Safepoint → ℕ → PcEntry
index_entry sp i = record { pc = (sp.pc + 2 ^ 64 - 1) % 2 ^ 64; value = pos i }

-- The place of a pair and the pairs after it.
abbrev pub place_of : Bytes → Bytes → List (Bytes × Bytes) → Option ℕ → ℕ × List (Bytes × Bytes)
place_of a l rows none = (length rows, rows ++ ((a, l) ∷ []))
place_of a l rows (some i) = (i, rows)

-- The loop over the safepoints: the pairs, and the index entries.
unfoldable pub map_loop :
    List (Bytes × Bytes) → List Safepoint → List (Bytes × Bytes) × List PcEntry
map_loop rows [] = (rows, [])
map_loop rows (sp ∷ sps) =
    let at = place_of sp.args sp.locals rows (index_of sp.args sp.locals rows) in
    let rest = map_loop at.1 sps in (rest.0, index_entry sp at.0 ∷ rest.1)

abbrev pub flat : List Bytes → Bytes
flat [] = []
flat (m ∷ ms) = m ++ flat ms

-- `blob`: a map of zeros stands for none.
unfoldable pub blob : ℕ → List Bytes → Bytes
blob nbit [] = put_le32 1 ++ (put_le32 nbit ++ replicate (bitmap_bytes nbit) 0)
blob nbit (m ∷ ms) = put_le32 (length (m ∷ ms)) ++ (put_le32 nbit ++ flat (m ∷ ms))

pub record StackMaps : Type 0 where
  pub args : Bytes
  pub locals : Bytes
  pub idx : List PcEntry

abbrev pub firsts : List (Bytes × Bytes) → List Bytes
firsts [] = []
firsts (r ∷ rows) = r.0 ∷ firsts rows

abbrev pub seconds : List (Bytes × Bytes) → List Bytes
seconds [] = []
seconds (r ∷ rows) = r.1 ∷ seconds rows

unfoldable pub stack_maps : GcMap → StackMaps
stack_maps g =
    let (rows, idx) = map_loop [] g.safepoints in
    record { args = blob g.nargs (firsts rows); locals = blob g.nlocals (seconds rows); idx = idx }
