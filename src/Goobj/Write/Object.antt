-- ===== src/Goobj/Write/Object.antt =====
-- `Write` of internal/goobj/write.go: the object file, block by block. Its hash functions are
-- crypto/sha256's and crypto/sha1's, and the error of the output stream is not part of it.
use goc.Prelude.{
  ℕ, zero, suc, ◌+◌, ◌*◌, Bool, true, false, not, ◌==◌, leb, bytes_eq, codes, if◌then◌else◌,
}
use goc.Prelude.{Option, none, some, List, [], ◌∷◌, ◌++◌, length, take, replicate}
use goc.Gocobj.Codec.{Bytes}
use goc.Gometa.{find, int_at}
use goc.Goobj.Le.{le_bytes}
use goc.Goobj.Link.{Sym, Link, Reloc, LinkError, Fallible, done, failed, ◌>>=◌, splice}
use goc.Goobj.Dwarf.{trim_inline_hash}
use goc.Goobj.Number.{Traversal, traverse, number, pkg}
use goc.Goobj.Write.{
  func_info_syms, Writer, put, off, put_u32, add_string, string_ref, put_ref, AuxEnt, aux,
  write_sym, content_hash,
}

-- blk[b], with 0 for a name that is missing; of two blocks of a name the later.
unfoldable pub block_index : List Bytes → Bytes → ℕ → Option ℕ → Option ℕ
block_index [] name i found = found
block_index (b ∷ bs) name i found =
    block_index bs name (i + 1) (if bytes_eq b name then some i else found)

abbrev pub find_block : Link → Bytes → Option ℕ
find_block l name = block_index l.meta.object.blocks name 0 none

-- `_, ok := blk["End"]` and the number of blocks.
abbrev pub is_block_list : Link → Option ℕ → Bool
is_block_list l none = false
is_block_list l (some i) = length l.meta.object.blocks == i + 1

-- The writer and `offsets`.
pub record Out : Type 0 where
  pub w : Writer
  pub offsets : List ℕ

abbrev pub or_first : Option ℕ → ℕ
or_first none = 0
or_first (some i) = i

abbrev pub set_at : ℕ → ℕ → List ℕ → List ℕ
set_at i v [] = []
set_at zero v (x ∷ xs) = v ∷ xs
set_at (suc i) v (x ∷ xs) = x ∷ set_at i v xs

-- `mark`
unfoldable pub mark : Link → Bytes → Out → Out
mark l name o = record o { offsets = set_at (or_first (find_block l name)) (off o.w) o.offsets }

-- A write between two marks.
abbrev pub on_writer : (Writer → Fallible Writer) → Out → Fallible Out
on_writer f o = f o.w >>= λ w. done (record o { w = w })

-- A loop over symbols that writes for each.
unfoldable pub each_sym {ℓ} :
    {A : Type ℓ} → (A → Writer → Fallible Writer) → List A → Writer → Fallible Writer
each_sym f [] w = done w
each_sym f (a ∷ syms) w = do w' ← f a w; each_sym f syms w'

-- The name that is written.
abbrev pub written_name : Link → Sym → Bytes
written_name l s = if l.meta.writer.trim_inline_hash then trim_inline_hash s.name else s.name

abbrev pub all_flags : Traversal
all_flags = record { defs = true; refs = true; aux = true; pcdata = true }

-- The callback that adds the name of every symbol but the builtins.
unfoldable pub add_name : ℕ → Link × Writer → Fallible (Link × Writer)
add_name a (l, w) =
    let s = l.heap a in
    if s.pkg_idx == pkg l (codes "Builtin")
    then done (l, w)
    else done (l, add_string (written_name l s) w)

unfoldable pub add_files : List Bytes → Writer → Writer
add_files [] w = w
add_files (f ∷ fs) w = add_files fs (add_string f w)

-- The index of a block of records: each symbol's first one, and the end.
unfoldable pub put_index : (ℕ → ℕ) → List ℕ → ℕ → Writer → Writer
put_index count [] n w = put_u32 n w
put_index count (a ∷ syms) n w = put_index count syms (n + count a) (put_u32 n w)

unfoldable pub hash64_of : ℕ → Bytes → Bytes
hash64_of size p = take size (take 8 (p ++ replicate 8 0))

-- sort.SliceStable by offset, of int32 offsets that are not negative.
unfoldable pub insert_reloc : Reloc → List Reloc → List Reloc
insert_reloc r [] = r ∷ []
insert_reloc r (x ∷ xs) = if leb r.off x.off then r ∷ x ∷ xs else x ∷ insert_reloc r xs

unfoldable pub sort_relocs : List Reloc → List Reloc
sort_relocs [] = []
sort_relocs (r ∷ rs) = insert_reloc r (sort_relocs rs)

abbrev pub reloc_type : Option ℕ → Fallible ℕ
reloc_type none = failed LinkError.no_reloc_type
reloc_type (some t) = done t

unfoldable pub put_reloc : Link → Reloc → Writer → Fallible Writer
put_reloc l r w = do
  t ← reloc_type (find l.meta.relocs r.type)
  put_ref l r.sym
      (put (le_bytes 4 r.off ++ (le_bytes 1 r.siz ++ (le_bytes 2 t ++ le_bytes 8 r.add))) w)

unfoldable pub put_relocs : Link → ℕ → Writer → Fallible Writer
put_relocs l a w =
    let rs = (l.heap a).r in
    each_sym (put_reloc l) (if l.meta.writer.sort_relocs then sort_relocs rs else rs) w

unfoldable pub put_aux : Link → AuxEnt → Writer → Fallible Writer
put_aux l e w = put_ref l e.sym (put (le_bytes 1 e.type) w)

-- `l.defs`, `l.hashed64`, `l.hashed`, `l.nonpkgdefs`: the defined symbols in order.
abbrev pub defined : Link → List ℕ
defined l = l.defs ++ (l.hashed64 ++ (l.hashed ++ l.nonpkgdefs))

-- The offsets over the zeros that stood for them.
unfoldable pub patch : ℕ → List ℕ → Bytes → Bytes
patch at [] b = b
patch at (x ∷ offsets) b = patch (at + 4) offsets (splice at (le_bytes 4 x) b)

module _ (sha256 sha1 : Bytes → Bytes) where
  -- The blocks from the symbol definitions to the hashes.
  unfoldable pub put_symbols : Link → Out → Fallible Out
  put_symbols l o = do
    let named = λ (a : ℕ). write_sym l (l.heap a) (written_name l (l.heap a))
    o1 ← on_writer (each_sym named l.defs) (mark l (codes "Symdef") o)
    o2 ← on_writer (each_sym named l.hashed64) (mark l (codes "Hashed64def") o1)
    o3 ← on_writer (each_sym named l.hashed) (mark l (codes "Hasheddef") o2)
    o4 ← on_writer (each_sym named l.nonpkgdefs) (mark l (codes "Nonpkgdef") o3)
    o5 ← on_writer (each_sym named l.nonpkgrefs) (mark l (codes "Nonpkgref") o4)
    let short_hash =
        λ (a : ℕ) (w : Writer). done (put (hash64_of l.meta.object.hash64_size (l.heap a).p) w)
    o6 ←
        on_writer (each_sym short_hash l.hashed64)
          (mark l (codes "Hash64") (mark l (codes "RefFlags") o5))
    let hash = λ (a : ℕ) (w : Writer). content_hash sha256 sha1 l (l.heap a) >>= λ h. done (put h w)
    on_writer (each_sym hash l.hashed) (mark l (codes "Hash") o6)

  -- The index blocks, and the relocations, auxiliary symbols and contents.
  unfoldable pub put_records : Link → Out → Fallible Out
  put_records l o = do
    let index = λ (name : Bytes) (count : ℕ → ℕ).
        λ (o' : Out). on_writer (λ w. done (put_index count (defined l) 0 w)) (mark l name o')
    o1 ← index (codes "RelocIdx") (λ a. length (l.heap a).r) o
    o2 ← index (codes "AuxIdx") (λ a. length (aux l a)) o1
    o3 ← index (codes "DataIdx") (λ a. length (l.heap a).p) o2
    o4 ← on_writer (each_sym (put_relocs l) (defined l)) (mark l (codes "Reloc") o3)
    o5 ←
        on_writer (each_sym (λ a. each_sym (put_aux l) (aux l a)) (defined l))
          (mark l (codes "Aux") o4)
    o6 ←
        on_writer (each_sym (λ a w. done (put (l.heap a).p w)) (defined l))
          (mark l (codes "Data") o5)
    done (mark l (codes "End") (mark l (codes "RefName") o6))

  -- What follows the numbering.
  unfoldable pub write_numbered : Link → Fallible Bytes
  write_numbered l =
      let obj = l.meta.object in
      if not (is_block_list l (find_block l (codes "End")))
      then failed LinkError.block_list
      else let head =
          obj.magic
          ++ (replicate 8 0
              ++ (le_bytes 4 (int_at obj.obj_flags (codes "FromAssembly"))
                  ++ replicate (4 * length obj.blocks) 0)) in
        let w = add_string [] (record { b = head; strs = [] }) in
        traverse add_name all_flags (l, w) >>= λ st.
        let l' = st.0 in
        let o : Out = record {
          w = add_files l'.files st.1;
          offsets = replicate (length obj.blocks) 0;
        } in
        on_writer (string_ref []) (mark l' (codes "PkgIdx") (mark l' (codes "Autolib") o)) >>= λ o1.
        on_writer (each_sym string_ref l'.files) (mark l' (codes "File") o1) >>= λ o2.
        put_symbols l' o2 >>= λ o3.
        put_records l' o3 >>= λ o4. done (patch (length obj.magic + 8 + 4) o4.offsets o4.w.b)

  -- `Write`, to its output.
  unfoldable pub write : Link → Bytes → Fallible Bytes
  write l header =
      if not l.flushed
      then failed LinkError.write_before_flush
      else number l >>= λ l1. func_info_syms l1 >>= λ l2.
          write_numbered l2 >>= λ all. done (header ++ (codes "!\n" ++ all))
