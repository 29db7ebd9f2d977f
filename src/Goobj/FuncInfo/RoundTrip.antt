-- ===== src/Goobj/FuncInfo/RoundTrip.antt =====
-- `decodeFuncInfo` on the writer's bytes.
use goc.Prelude.{ℕ, ◌+◌, ◌*◌, ◌%◌, ◌≤◌, ◌≡◌, refl, sym, ap, arith, Bool, true, false, if◌then◌else◌}
use goc.Prelude.{List, [], ◌∷◌, ◌++◌, length, All, append-nil, length-append}
use goc.Gocobj.Codec.{Bytes, IsByte}
use goc.Goobj.Le.{le_bytes, length-le_bytes, le_at-le_bytes}
use goc.Goobj.FuncInfo.{
  InlRef, FuncInfoData, u32, put_words, put_node, put_nodes, put_func_info, ok, of_option, u_at,
  byte, at_least, decode_lists, decode_func_info,
}
use goc.Goobj.FuncInfo.Parts.{
  IsU32, Rest, Rest-skip, Rest-length, Rest-word, Rest-next, words_at-put_words, NodeFits,
  length-put_node, nodes_at-put_nodes,
}

length-put_words : (ws : List ℕ) → length (put_words ws) ≡ 4 * length ws
unfolding put_words
length-put_words [] = refl
length-put_words (w ∷ ws) =
    omega (arith, length-append (u32 w) (put_words ws), length-le_bytes 4 w, length-put_words ws)

length-put_nodes : (ns : List InlRef) → length (put_nodes ns) ≡ 24 * length ns
unfolding put_nodes
length-put_nodes [] = refl
length-put_nodes (n ∷ ns) =
    omega (arith, length-append (put_node n) (put_nodes ns), length-put_node n, length-put_nodes ns)

at_least-enough : (b : Bytes) (n : ℕ) → n ≤ length b → at_least b n ≡ ok tt
at_least-enough b n h = ground arith

abbrev put_lists : List ℕ → List InlRef → Bytes
put_lists files tree =
    u32 (length files) ++ (put_words files ++ (u32 (length tree) ++ put_nodes tree))

length-put_lists :
    (files : List ℕ) (tree : List InlRef)
    → length (put_lists files tree) ≡ 4 + 4 * length files + 4 + 24 * length tree
length-put_lists files tree =
    rw
      (
        length-append (u32 (length files)) _,
        length-append (put_words files) _,
        length-append (u32 (length tree)) _,
        length-le_bytes 4 (length files),
        length-le_bytes 4 (length tree),
        length-put_words files,
        length-put_nodes tree,
      )
      (omega arith)

decode_lists-put_lists :
    (files : List ℕ) (tree : List InlRef) (b : Bytes) (o : ℕ)
    → All IsU32 files
    → All NodeFits tree
    → IsU32 (length files)
    → IsU32 (length tree)
    → Rest b o (put_lists files tree)
    → decode_lists b o ≡ ok (files, tree)
unfolding decode_lists
decode_lists-put_lists files tree b o hf ht nf nt r =
    let n = length files in
    let long = Rest-length _ r in
    let len = length-put_lists files tree in
    let r1 = Rest-next n _ r in
    let r2 = Rest-skip (put_words files) _ (4 * n) (length-put_words files) r1 in
    let r3 = Rest-next (length tree) _ r2 in
    let r4 = rw (← append-nil (put_nodes tree)) at r3 in
    rw
      (
        Rest-word n _ nf r,
        at_least-enough b (o + 4 + 4 * n + 4) (omega (arith, long, len)),
        words_at-put_words files b (o + 4) _ hf r1,
        Rest-word (length tree) _ nt r2,
        at_least-enough b (o + 4 + 4 * n + 4 + 24 * length tree) (omega (arith, long, len)),
        nodes_at-put_nodes tree b (o + 4 + 4 * n + 4) [] ht r4,
      )
      refl

-- What the writer's fields are: 32-bit words and bytes, and a start line only where the release has one.
pub record Fits (start_line : Bool) (f : FuncInfoData) : Type 0 where
  pub args : IsU32 f.args
  pub locals : IsU32 f.locals
  pub func_id : IsByte f.func_id
  pub func_flag : IsByte f.func_flag
  pub start : (if start_line then IsU32 f.start_line else f.start_line ≡ 0)
  pub files : All IsU32 f.files
  pub few_files : IsU32 (length f.files)
  pub tree : All NodeFits f.inl_tree
  pub few_nodes : IsU32 (length f.inl_tree)

le_bytes-one : (v : ℕ) → IsByte v → le_bytes 1 v ≡ v ∷ []
unfolding le_bytes
le_bytes-one v h = let eq : v % 256 ≡ v = omega arith in rw eq refl

Rest-byte :
    {b : Bytes} {o : ℕ} (v : ℕ) (bs : Bytes) → IsByte v → Rest b o (v ∷ bs) → byte b o ≡ ok v
Rest-byte v bs fits h =
    let code : (v ∷ bs) ≡ le_bytes 1 v ++ bs = rw (le_bytes-one v fits) refl in
    rw (h.eq, ← h.place, code) (ap of_option (le_at-le_bytes 1 v h.before bs (omega arith)))

-- The bytes of the identity and the flags, with two of padding, and what follows them.
head_read :
    (f : FuncInfoData) (b bs : Bytes)
    → IsByte f.func_id
    → IsByte f.func_flag
    → Rest b 8 ((f.func_id ∷ f.func_flag ∷ 0 ∷ 0 ∷ []) ++ bs)
    → (byte b 8 ≡ ok f.func_id) × (byte b 9 ≡ ok f.func_flag) × Rest b 12 bs
head_read f b bs hi hf r = (
  Rest-byte f.func_id _ hi r,
  Rest-byte f.func_flag _ hf (Rest-skip (f.func_id ∷ []) (f.func_flag ∷ 0 ∷ 0 ∷ bs) 1 refl r),
  Rest-skip (f.func_id ∷ f.func_flag ∷ 0 ∷ 0 ∷ []) bs 4 refl r,
)

-- The optional start line, and where the lists begin.
start_line_read :
    (start_line : Bool) (f : FuncInfoData) (b bs : Bytes)
    → (if start_line then IsU32 f.start_line else f.start_line ≡ 0)
    → Rest b 12 ((if start_line then u32 f.start_line else []) ++ bs)
    → ((if start_line then u_at b 12 else ok 0) ≡ ok f.start_line)
      × Rest b (if start_line then 16 else 12) bs
start_line_read true f b bs h r = (Rest-word f.start_line bs h r, Rest-next f.start_line bs r)
start_line_read false f b bs h r = (ap ok (sym h), r)

-- `decodeFuncInfo` takes back what the writer wrote, in both layouts: every field, the used files and the
-- inlining tree, for fields within 32 bits or a byte and a start line of 0 where the layout has none.
pub decode_func_info-put_func_info :
    (start_line : Bool) (f : FuncInfoData)
    → Fits start_line f
    → decode_func_info (put_func_info start_line f) start_line ≡ ok f
unfolding decode_func_info put_func_info
decode_func_info-put_func_info start_line f h =
    let b = put_func_info start_line f in
    let r0 : Rest b 0 b = record { before = []; eq = refl; place = refl } in
    let r1 = Rest-next f.args _ r0 in
    let r2 = Rest-next f.locals _ r1 in
    let r3 = head_read f b _ h.func_id h.func_flag r2 in
    let r4 = start_line_read start_line f b _ h.start r3.2 in
    let enough : (if start_line then 16 else 12) + 4 ≤ length b =
      omega (arith, Rest-length _ r4.1, length-put_lists f.files f.inl_tree) in
    rw
      (
        at_least-enough b ((if start_line then 16 else 12) + 4) enough,
        Rest-word f.args _ h.args r0,
        Rest-word f.locals _ h.locals r1,
        r3.0,
        r3.1,
        r4.0,
        decode_lists-put_lists f.files f.inl_tree b (if start_line then 16 else 12) h.files h.tree
            h.few_files h.few_nodes r4.1,
      )
      refl
