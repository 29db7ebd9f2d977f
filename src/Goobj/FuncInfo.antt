-- ===== src/Goobj/FuncInfo.antt =====
-- The FuncInfo symbol of a function: its bytes (`funcInfoSyms` of internal/goobj/write.go) and
-- `decodeFuncInfo` of read.go. An int32 is its bit pattern.
pub mod Safe
mod Parts
pub mod RoundTrip
use goc.Prelude.{ℕ, zero, suc, ◌+◌, ◌*◌, ◌/◌, ◌%◌, ◌^◌, Bool, true, false, ltb, if◌then◌else◌}
use goc.Prelude.{Option, none, some, List, [], ◌∷◌, ◌++◌, length}
use goc.Gocobj.Codec.{Bytes}
use goc.Goobj.Le.{le_bytes, le_at}

-- `SymRef`
pub record SymRef : Type 0 where
  pub pkg_idx : ℕ
  pub sym_idx : ℕ

-- `RInlNode`, and `InlNode` with its function resolved by `symRef`.
pub record InlRef : Type 0 where
  pub parent : ℕ
  pub file : ℕ
  pub line : ℕ
  pub func : SymRef
  pub parent_pc : ℕ

-- `DecodedFuncInfo`; the writer's values, with the used files sorted.
pub record FuncInfoData : Type 0 where
  pub args : ℕ
  pub locals : ℕ
  pub func_id : ℕ
  pub func_flag : ℕ
  pub start_line : ℕ
  pub files : List ℕ
  pub inl_tree : List InlRef

abbrev pub u32 : ℕ → Bytes
u32 v = le_bytes 4 v

unfoldable pub put_words : List ℕ → Bytes
put_words [] = []
put_words (w ∷ ws) = u32 w ++ put_words ws

unfoldable pub put_node : InlRef → Bytes
put_node n =
    u32 n.parent
    ++ (u32 n.file
        ++ (u32 n.line ++ (u32 n.func.pkg_idx ++ (u32 n.func.sym_idx ++ u32 n.parent_pc))))

unfoldable pub put_nodes : List InlRef → Bytes
put_nodes [] = []
put_nodes (n ∷ ns) = put_node n ++ put_nodes ns

unfoldable pub put_func_info : Bool → FuncInfoData → Bytes
put_func_info start_line f =
    u32 f.args
    ++ (u32 f.locals
        ++ ((f.func_id ∷ f.func_flag ∷ 0 ∷ 0 ∷ [])
            ++ ((if start_line then u32 f.start_line else [])
                ++ (u32 (length f.files)
                    ++ (put_words f.files ++ (u32 (length f.inl_tree) ++ put_nodes f.inl_tree))))))

-- "short FuncInfo" is `short`; `panicked` is a slice out of range.
pub data Read {ℓ} (A : Type ℓ) : Type ℓ where
  ok : A → Read A
  short panicked : Read A

infixl 5 ◌>>=◌
abbrev pub ◌>>=◌ {ℓ κ} : {A : Type ℓ} {B : Type κ} → Read A → (A → Read B) → Read B
ok a >>= f = f a
short >>= f = short
panicked >>= f = panicked

abbrev pub of_option {ℓ} : {A : Type ℓ} → Option A → Read A
of_option none = panicked
of_option (some a) = ok a

-- The closure `u`, and b[o].
abbrev pub u_at : Bytes → ℕ → Read ℕ
u_at b o = of_option (le_at 4 b o)

abbrev pub byte : Bytes → ℕ → Read ℕ
byte b o = of_option (le_at 1 b o)

unfoldable pub words_at : ℕ → Bytes → ℕ → Read (List ℕ)
words_at zero b o = ok []
words_at (suc n) b o = do w ← u_at b o; ws ← words_at n b (o + 4); ok (w ∷ ws)

unfoldable pub node_at : Bytes → ℕ → Read InlRef
node_at b o = do
  parent ← u_at b o
  file ← u_at b (o + 4)
  line ← u_at b (o + 8)
  pkg ← u_at b (o + 12)
  index ← u_at b (o + 16)
  parent_pc ← u_at b (o + 20)
  ok (record {
    parent = parent;
    file = file;
    line = line;
    func = record { pkg_idx = pkg; sym_idx = index };
    parent_pc = parent_pc;
  })

unfoldable pub nodes_at : ℕ → Bytes → ℕ → Read (List InlRef)
nodes_at zero b o = ok []
nodes_at (suc n) b o = do node ← node_at b o; nodes ← nodes_at n b (o + 24); ok (node ∷ nodes)

-- `return fi, fmt.Errorf("short FuncInfo")`
abbrev pub at_least : Bytes → ℕ → Read (Unit {0})
at_least b n = if ltb (length b) n then short else ok tt

-- The two lists, from the count of files at `o` on.
unfoldable pub decode_lists : Bytes → ℕ → Read (List ℕ × List InlRef)
decode_lists b o = do
  n ← u_at b o
  _ ← at_least b (o + 4 + 4 * n + 4)
  files ← words_at n b (o + 4)
  count ← u_at b (o + 4 + 4 * n)
  _ ← at_least b (o + 4 + 4 * n + 4 + 24 * count)
  inl_tree ← nodes_at count b (o + 4 + 4 * n + 4)
  ok (files, inl_tree)

unfoldable pub decode_func_info : Bytes → Bool → Read FuncInfoData
decode_func_info b start_line = do
  let o = if start_line then 16 else 12
  _ ← at_least b (o + 4)
  args ← u_at b 0
  locals ← u_at b 4
  func_id ← byte b 8
  func_flag ← byte b 9
  line ← (if start_line then u_at b 12 else ok 0)
  lists ← decode_lists b o
  ok (record {
    args = args;
    locals = locals;
    func_id = func_id;
    func_flag = func_flag;
    start_line = line;
    files = lists.0;
    inl_tree = lists.1;
  })
