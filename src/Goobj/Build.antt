-- ===== src/Goobj/Build.antt =====
-- The calls that build an object before `Flush` (internal/goobj/link.go), as steps of the link.
pub mod Listed
use goc.Prelude.{ℕ, ◌<◌, ◌≡◌, Option, some}
use goc.Gocobj.Codec.{Bytes}
use goc.Gometa.{Meta}
use goc.Goobj.Link.{
  Sym, Link, Reloc, done, new_link, lookup_abi, add_file, globl, set, write_int, write_bytes,
  add_rel,
}
use goc.Goobj.Text.{init_text, funcdata, pcdata, pctab}

-- A symbol is named by an address that was allocated.
pub data BuildStep : Link → Link → Type 0 where
  name_looked_up : (name : Bytes) (abi : ℕ) (l : Link) → BuildStep l (lookup_abi name abi l).1
  file_added : (name : Bytes) (l : Link) → BuildStep l (add_file name l).1
  data_declared :
      (a size flag : ℕ) (l l' : Link) → a < l.next → globl a size flag l ≡ done l' → BuildStep l l'
  text_made :
      (a flag : ℕ) (l l' : Link) → a < l.next → init_text a flag l ≡ done l' → BuildStep l l'
  bytes_written :
      (a off : ℕ) (b : Bytes) (l : Link) → BuildStep l (set a (write_bytes off b (l.heap a)) l)
  int_written :
      (a off siz v : ℕ) (s : Sym) (l : Link)
      → write_int off siz v (l.heap a) ≡ some s
      → BuildStep l (set a s l)
  related : (a : ℕ) (r : Reloc) (l : Link) → BuildStep l (set a (add_rel r (l.heap a)) l)
  funcdata_set :
      (a idx : ℕ) (d : Option ℕ) (l l' : Link) → funcdata a idx d l ≡ done l' → BuildStep l l'
  pcdata_noted : (a : ℕ) (l l' : Link) → pcdata a l ≡ done l' → BuildStep l l'
  table_made : (p : Bytes) (l : Link) → BuildStep l (pctab p l).1

-- What a client has, from `NewLink` on.
pub data Built : Link → Type 0 where
  opened : (m : Meta) (arch pkgpath : Bytes) (l : Link) → new_link m arch pkgpath ≡ done l → Built l
  stepped : {l l' : Link} → Built l → BuildStep l l' → Built l'
