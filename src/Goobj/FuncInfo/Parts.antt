-- ===== src/Goobj/FuncInfo/Parts.antt =====
-- Reads of words and of inlining-tree nodes at an offset, from the bytes that stand there.
use goc.Prelude.{ℕ, ◌+◌, ◌^◌, ◌<◌, ◌≡◌, refl, sym, ap, ◌∙◌, arith}
use goc.Prelude.{List, [], ◌∷◌, ◌++◌, length, All, append_assoc, length-append}
use goc.Gocobj.Codec.{Bytes}
use goc.Goobj.Le.{length-le_bytes, le_at-le_bytes}
use goc.Goobj.FuncInfo.{
  InlRef, u32, put_words, put_node, put_nodes, ok, of_option, u_at, words_at, node_at, nodes_at,
}

abbrev pub IsU32 : ℕ → Type 0
IsU32 v = v < 2 ^ 32

-- From the offset `o` on, `b` is `bs`.
pub record Rest (b : Bytes) (o : ℕ) (bs : Bytes) : Type 0 where
  pub before : Bytes
  pub eq : b ≡ before ++ bs
  pub place : length before ≡ o

pub Rest-skip :
    {b : Bytes} {o : ℕ} (xs bs : Bytes) (n : ℕ)
    → length xs ≡ n
    → Rest b o (xs ++ bs)
    → Rest b (o + n) bs
Rest-skip xs bs n len h = record {
  before = h.before ++ xs;
  eq = h.eq ∙ sym (append_assoc h.before xs bs);
  place = omega (arith, length-append h.before xs, h.place);
}

pub Rest-length : {b : Bytes} {o : ℕ} (bs : Bytes) → Rest b o bs → length b ≡ o + length bs
Rest-length bs h = omega (arith, ap length h.eq, length-append h.before bs, h.place)

pub Rest-word :
    {b : Bytes} {o : ℕ} (v : ℕ) (bs : Bytes) → IsU32 v → Rest b o (u32 v ++ bs) → u_at b o ≡ ok v
Rest-word v bs fits h =
    rw (h.eq, ← h.place) (ap of_option (le_at-le_bytes 4 v h.before bs (omega arith)))

pub Rest-next :
    {b : Bytes} {o : ℕ} (v : ℕ) (bs : Bytes) → Rest b o (u32 v ++ bs) → Rest b (o + 4) bs
Rest-next v bs h = Rest-skip (u32 v) bs 4 (length-le_bytes 4 v) h

pub words_at-put_words :
    (ws : List ℕ) (b : Bytes) (o : ℕ) (bs : Bytes)
    → All IsU32 ws
    → Rest b o (put_words ws ++ bs)
    → words_at (length ws) b o ≡ ok ws
unfolding put_words words_at
words_at-put_words [] b o bs h r = refl
words_at-put_words (w ∷ ws) b o bs h r =
    let r' = rw (append_assoc (u32 w) (put_words ws) bs) at r in
    rw
      (
        Rest-word w (put_words ws ++ bs) h.0 r',
        words_at-put_words ws b (o + 4) bs h.1 (Rest-next w _ r'),
      )
      refl

-- Like `Rest-next`, with the next offset as the code writes it.
Rest-next_at :
    {b : Bytes} {o : ℕ} (o' v : ℕ) (bs : Bytes) → o' ≡ o + 4 → Rest b o (u32 v ++ bs) → Rest b o' bs
Rest-next_at o' v bs eq h = rw eq (Rest-next v bs h)

-- The fields of a node fit 32 bits.
abbrev pub NodeFits : InlRef → Type 0
NodeFits n =
    IsU32 n.parent
    × IsU32 n.file
    × IsU32 n.line
    × IsU32 n.func.pkg_idx
    × IsU32 n.func.sym_idx
    × IsU32 n.parent_pc

put_node-append :
    (n : InlRef) (bs : Bytes)
    → put_node n ++ bs
      ≡ u32 n.parent
        ++ (u32 n.file
            ++ (u32 n.line
                ++ (u32 n.func.pkg_idx ++ (u32 n.func.sym_idx ++ (u32 n.parent_pc ++ bs)))))
unfolding put_node
put_node-append n bs =
    rw (append_assoc, append_assoc, append_assoc, append_assoc, append_assoc) refl

node_at-put_node :
    (n : InlRef) (b : Bytes) (o : ℕ) (bs : Bytes)
    → NodeFits n
    → Rest b o (put_node n ++ bs)
    → node_at b o ≡ ok n
unfolding node_at
node_at-put_node n b o bs h r =
    let r0 = rw (put_node-append n bs) at r in
    let r1 = Rest-next_at (o + 4) n.parent _ refl r0 in
    let r2 = Rest-next_at (o + 8) n.file _ (omega arith) r1 in
    let r3 = Rest-next_at (o + 12) n.line _ (omega arith) r2 in
    let r4 = Rest-next_at (o + 16) n.func.pkg_idx _ (omega arith) r3 in
    let r5 = Rest-next_at (o + 20) n.func.sym_idx _ (omega arith) r4 in
    rw
      (
        Rest-word n.parent _ h.0 r0,
        Rest-word n.file _ h.1 r1,
        Rest-word n.line _ h.2 r2,
        Rest-word n.func.pkg_idx _ h.3 r3,
        Rest-word n.func.sym_idx _ h.4 r4,
        Rest-word n.parent_pc _ h.5 r5,
      )
      refl

pub length-put_node : (n : InlRef) → length (put_node n) ≡ 24
unfolding put_node
length-put_node n =
    rw
      (
        length-append (u32 n.parent) _,
        length-append (u32 n.file) _,
        length-append (u32 n.line) _,
        length-append (u32 n.func.pkg_idx) _,
        length-append (u32 n.func.sym_idx) (u32 n.parent_pc),
        length-le_bytes 4 n.parent,
        length-le_bytes 4 n.file,
        length-le_bytes 4 n.line,
        length-le_bytes 4 n.func.pkg_idx,
        length-le_bytes 4 n.func.sym_idx,
        length-le_bytes 4 n.parent_pc,
      )
      refl

pub nodes_at-put_nodes :
    (ns : List InlRef) (b : Bytes) (o : ℕ) (bs : Bytes)
    → All NodeFits ns
    → Rest b o (put_nodes ns ++ bs)
    → nodes_at (length ns) b o ≡ ok ns
unfolding put_nodes nodes_at
nodes_at-put_nodes [] b o bs h r = refl
nodes_at-put_nodes (n ∷ ns) b o bs h r =
    let r' = rw (append_assoc (put_node n) (put_nodes ns) bs) at r in
    let next = Rest-skip (put_node n) (put_nodes ns ++ bs) 24 (length-put_node n) r' in
    rw
      (
        node_at-put_node n b o (put_nodes ns ++ bs) h.0 r',
        nodes_at-put_nodes ns b (o + 24) bs h.1 next,
      )
      refl
