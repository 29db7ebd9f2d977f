-- ===== src/Goobj/Read/Records.antt =====
-- The reader's records on the writer's bytes.
use goc.Prelude.{ℕ, ◌+◌, ◌^◌, ◌<◌, ◌≡◌, refl, ap, ◌∙◌, arith, if◌then◌else◌, append_assoc}
use goc.Prelude.{Option, some, ◌++◌, length, length-append}
use goc.Gocobj.Codec.{Bytes}
use goc.Gometa.{find}
use goc.Goobj.Le.{le_bytes, le_at, length-le_bytes}
use goc.Goobj.Link.{Sym, Link, Reloc, done}
use goc.Goobj.Write.{
  Writer, put, sym_ref, put_ref, string_ref, write_sym, sym_align, kind_name, sym_flag, sym_flag2,
  put_sym_fields, AuxEnt,
}
use goc.Goobj.Write.Object.{put_aux, put_reloc}
use goc.Goobj.Write.Strings.{
  Holds, IsTable, Holds-append, Holds-first, Holds-second, Holds-int, Holds-length, at_end,
  str_at-Holds,
}
use goc.Goobj.Read.{w32, sym_size, aux_size, reloc_size, RSym, sym_record, aux_record, reloc_record}

-- The integer at the head of what stands at an offset inside the file, and what follows it.
int_then :
    {b : Bytes} {o : ℕ} (at n v : ℕ) (rest : Bytes)
    → v < 256 ^ n
    → length b < 2 ^ 32
    → at ≡ o
    → Holds b o (le_bytes n v ++ rest)
    → (le_at n b (w32 at) ≡ some v) × Holds b (o + n) rest
int_then at n v rest fits small eq h =
    let long = Holds-length _ h in
    let same : w32 at ≡ at = omega (arith, eq, long, small) in
    (
      rw (same, eq) (Holds-int n v fits (Holds-first (le_bytes n v) rest h)),
      Holds-second _ (le_bytes n v) rest (omega (arith, length-le_bytes n v)) h,
    )

-- The integer that stands last.
int_last :
    {b : Bytes} {o : ℕ} (at n v : ℕ)
    → v < 256 ^ n
    → length b < 2 ^ 32
    → at ≡ o
    → Holds b o (le_bytes n v)
    → le_at n b (w32 at) ≡ some v
int_last at n v fits small eq h =
    let same : w32 at ≡ at = omega (arith, eq, Holds-length _ h, small) in
    rw (same, eq) (Holds-int n v fits h)

-- The fields of a symbol record are within their widths.
pub record SymFits (l : Link) (s : Sym) (k al : ℕ) : Type 0 where
  pub abi : (if s.static then l.meta.object.sym_abi_static else s.abi) < 2 ^ 16
  pub kind : k < 256
  pub flag : sym_flag l s < 256
  pub flag2 : sym_flag2 l s < 256
  pub size : s.size < 2 ^ 32
  pub align : al < 2 ^ 32

-- The record as the reader returns it.
abbrev pub as_read : Link → Sym → Bytes → ℕ → ℕ → RSym
as_read l s name kind align = record {
  name = name;
  abi = if s.static then l.meta.object.sym_abi_static else s.abi;
  type = kind;
  flag = sym_flag l s;
  flag2 = sym_flag2 l s;
  siz = s.size;
  align = align;
}

sym_record-Holds :
    (l : Link) (s : Sym) (name b : Bytes) (o at kind align : ℕ)
    → length b < 2 ^ 32
    → SymFits l s kind align
    → Holds b o ((le_bytes 4 (length name) ++ le_bytes 4 at) ++ put_sym_fields l s kind align)
    → Holds b at name
    → sym_record b o ≡ some (as_read l s name kind align)
unfolding sym_record
sym_record-Holds l s name b o at kind align small fits h held =
    let ref = le_bytes 4 (length name) ++ le_bytes 4 at in
    let ref_length = length-append (le_bytes 4 (length name)) (le_bytes 4 at) in
    let h0 = Holds-first ref _ h in
    let h8 =
      Holds-second (o + 8) ref _
        (omega (arith, ref_length, length-le_bytes 4 (length name), length-le_bytes 4 at)) h in
    let f1 = int_then (o + 8) 2 _ _ (omega (arith, fits.abi)) small (omega arith) h8 in
    let f2 = int_then (o + 10) 1 kind _ (omega (arith, fits.kind)) small (omega arith) f1.1 in
    let f3 = int_then (o + 11) 1 _ _ (omega (arith, fits.flag)) small (omega arith) f2.1 in
    let f4 = int_then (o + 12) 1 _ _ (omega (arith, fits.flag2)) small (omega arith) f3.1 in
    let f5 = int_then (o + 13) 4 s.size _ (omega (arith, fits.size)) small (omega arith) f4.1 in
    let f6 = int_last (o + 17) 4 align (omega (arith, fits.align)) small (omega arith) f5.1 in
    rw (str_at-Holds b name o at small h0 held, f1.0, f2.0, f3.0, f4.0, f5.0, f6) refl

length-record :
    (l : Link) (s : Sym) (name : Bytes) (at kind align : ℕ)
    → length ((le_bytes 4 (length name) ++ le_bytes 4 at) ++ put_sym_fields l s kind align)
      ≡ sym_size
length-record l s name at kind align =
    let abi = if s.static then l.meta.object.sym_abi_static else s.abi in
    rw
      (
        length-append (le_bytes 4 (length name) ++ le_bytes 4 at) (put_sym_fields l s kind align),
        length-append (le_bytes 4 (length name)) (le_bytes 4 at),
        length-append (le_bytes 2 abi) _,
        length-append (le_bytes 1 kind) _,
        length-append (le_bytes 1 (sym_flag l s)) _,
        length-append (le_bytes 1 (sym_flag2 l s)) _,
        length-append (le_bytes 4 s.size) (le_bytes 4 align),
        length-le_bytes 4 (length name),
        length-le_bytes 4 at,
        length-le_bytes 2 abi,
        length-le_bytes 1 kind,
        length-le_bytes 1 (sym_flag l s),
        length-le_bytes 1 (sym_flag2 l s),
        length-le_bytes 4 s.size,
        length-le_bytes 4 align,
      )
      refl

-- What was put stands where the writer was.
pub put-Holds : (bs more : Bytes) (w : Writer) → Holds ((put bs w).b ++ more) (length w.b) bs
put-Holds bs more w = Holds-append bs more (at_end bs w (length w.b) refl)

put_twice : (xs ys : Bytes) (w : Writer) → put ys (put xs w) ≡ put (xs ++ ys) w
put_twice xs ys w = ap (λ (t : Bytes). record w { b = t }) (append_assoc w.b xs ys)

-- When the string table is right and has the name, the alignment rule has an answer, the release has
-- the kind, and the fields have their widths: `writeSym` writes a record, and in a file below 4 GiB
-- the reader's `Sym` reads at that place the name out of the string table, and the ABI, kind, flags,
-- size and alignment.
pub sym_record-write_sym :
    (l : Link) (s : Sym) (name more : Bytes) (w : Writer) (at kind align : ℕ)
    → IsTable w
    → find w.strs name ≡ some at
    → sym_align l s name ≡ done align
    → find l.meta.kinds (kind_name s.kind) ≡ some kind
    → SymFits l s kind align
    → length w.b + sym_size + length more < 2 ^ 32
    → (w' : Writer) × (write_sym l s name w ≡ done w')
      × (sym_record (w'.b ++ more) (length w.b) ≡ some (as_read l s name kind align))
unfolding write_sym string_ref
sym_record-write_sym l s name more w at kind align table found aligned known fits small =
    let ref = le_bytes 4 (length name) ++ le_bytes 4 at in
    let fields = put_sym_fields l s kind align in
    let w' = put (ref ++ fields) w in
    let size : length (w'.b ++ more) < 2 ^ 32 = omega (
      arith,
      length-append w'.b more,
      length-append w.b (ref ++ fields),
      length-record l s name at kind align,
      small,
    ) in
    (
      w',
      rw (aligned, known, found) (ap done (put_twice ref fields w)),
      sym_record-Holds l s name (w'.b ++ more) (length w.b) at kind align size fits
          (put-Holds (ref ++ fields) more w)
          (Holds-append name more (Holds-append name (ref ++ fields) (table.held name at found))),
    )

-- A reference of two words, at the end of a record.
ref_record :
    {b : Bytes} {o : ℕ} (at at' p i : ℕ)
    → p < 2 ^ 32
    → i < 2 ^ 32
    → length b < 2 ^ 32
    → at ≡ o
    → at' ≡ o + 4
    → Holds b o (le_bytes 4 p ++ le_bytes 4 i)
    → (le_at 4 b (w32 at) ≡ some p) × (le_at 4 b (w32 at') ≡ some i)
ref_record at at' p i hp hi small eq eq' h =
    let f1 = int_then at 4 p (le_bytes 4 i) (omega arith) small eq h in
    (f1.0, int_last at' 4 i (omega arith) small eq' f1.1)

put_ref-bytes :
    (l : Link) (a : Option ℕ) (w : Writer) (p i : ℕ)
    → sym_ref l a ≡ done (p, i)
    → put_ref l a w ≡ done (put (le_bytes 4 p ++ le_bytes 4 i) w)
unfolding put_ref
put_ref-bytes l a w p i h = rw h (ap done (put_twice (le_bytes 4 p) (le_bytes 4 i) w))

-- An auxiliary symbol that has a number, of a type and a number within their widths, is written, and
-- in a file below 4 GiB the record of the reader's `Auxs` at that place is the same.
pub aux_record-put_aux :
    (l : Link) (e : AuxEnt) (more : Bytes) (w : Writer) (p i : ℕ)
    → sym_ref l e.sym ≡ done (p, i)
    → e.type < 256
    → p < 2 ^ 32
    → i < 2 ^ 32
    → length w.b + aux_size + length more < 2 ^ 32
    → (w' : Writer) × (put_aux l e w ≡ done w')
      × (aux_record (w'.b ++ more) (length w.b)
          ≡ some (record { type = e.type; sym = record { pkg_idx = p; sym_idx = i } }))
unfolding put_aux aux_record
aux_record-put_aux l e more w p i ref ft fp fi small =
    let bs = le_bytes 1 e.type ++ (le_bytes 4 p ++ le_bytes 4 i) in
    let w' = put bs w in
    let size : length (w'.b ++ more) < 2 ^ 32 = omega (
      arith,
      length-append w'.b more,
      length-append w.b bs,
      length-append (le_bytes 1 e.type) (le_bytes 4 p ++ le_bytes 4 i),
      length-append (le_bytes 4 p) (le_bytes 4 i),
      length-le_bytes 1 e.type,
      length-le_bytes 4 p,
      length-le_bytes 4 i,
      small,
    ) in
    let f0 = int_then (length w.b) 1 e.type _ (omega arith) size refl (put-Holds bs more w) in
    let r = ref_record (length w.b + 1) (length w.b + 5) p i fp fi size refl (omega arith) f0.1 in
    let start : w32 (length w.b) ≡ length w.b = omega (arith, small) in
    let type = rw start at f0.0 in
    (
      w',
      put_ref-bytes l e.sym (put (le_bytes 1 e.type) w) p i ref
          ∙ ap done (put_twice (le_bytes 1 e.type) _ w),
      rw (type, r.0, r.1) refl,
    )

-- A relocation's fields within their widths.
pub record RelocFits (r : Reloc) (t p i : ℕ) : Type 0 where
  pub off : r.off < 2 ^ 32
  pub siz : r.siz < 256
  pub type : t < 2 ^ 16
  pub add : r.add < 2 ^ 64
  pub pkg : p < 2 ^ 32
  pub index : i < 2 ^ 32

abbrev reloc_bytes : Reloc → ℕ → Bytes
reloc_bytes r t = le_bytes 4 r.off ++ (le_bytes 1 r.siz ++ (le_bytes 2 t ++ le_bytes 8 r.add))

length-reloc_bytes : (r : Reloc) (t : ℕ) → length (reloc_bytes r t) ≡ 15
length-reloc_bytes r t =
    rw
      (
        length-append (le_bytes 4 r.off) _,
        length-append (le_bytes 1 r.siz) _,
        length-append (le_bytes 2 t) (le_bytes 8 r.add),
        length-le_bytes 4 r.off,
        length-le_bytes 1 r.siz,
        length-le_bytes 2 t,
        length-le_bytes 8 r.add,
      )
      refl

-- A relocation whose type the release has, whose symbol has a number and whose fields have their
-- widths is written, and in a file below 4 GiB the record of the reader's `Relocs` at that place has
-- its offset, width, type, addend and symbol.
pub reloc_record-put_reloc :
    (l : Link) (r : Reloc) (more : Bytes) (w : Writer) (t p i : ℕ)
    → find l.meta.relocs r.type ≡ some t
    → sym_ref l r.sym ≡ done (p, i)
    → RelocFits r t p i
    → length w.b + reloc_size + length more < 2 ^ 32
    → (w' : Writer) × (put_reloc l r w ≡ done w')
      × (reloc_record (w'.b ++ more) (length w.b)
          ≡ some (record {
            off = r.off;
            siz = r.siz;
            type = t;
            add = r.add;
            sym = record { pkg_idx = p; sym_idx = i };
          }))
unfolding put_reloc reloc_record
reloc_record-put_reloc l r more w t p i known ref fits small =
    let target = le_bytes 4 p ++ le_bytes 4 i in
    let head = reloc_bytes r t in
    let w' = put (head ++ target) w in
    let size : length (w'.b ++ more) < 2 ^ 32 = omega (
      arith,
      length-append w'.b more,
      length-append w.b (head ++ target),
      length-append head target,
      length-reloc_bytes r t,
      length-append (le_bytes 4 p) (le_bytes 4 i),
      length-le_bytes 4 p,
      length-le_bytes 4 i,
      small,
    ) in
    let o = length w.b in
    let all = put-Holds (head ++ target) more w in
    let h15 = Holds-second (o + 15) head target (omega (arith, length-reloc_bytes r t)) all in
    let f0 =
      int_then o 4 r.off _ (omega (arith, fits.off)) size refl (Holds-first head target all) in
    let f1 = int_then (o + 4) 1 r.siz _ (omega (arith, fits.siz)) size refl f0.1 in
    let f2 = int_then (o + 5) 2 t _ (omega (arith, fits.type)) size (omega arith) f1.1 in
    let f3 = int_last (o + 7) 8 r.add (omega (arith, fits.add)) size (omega arith) f2.1 in
    let sym_ref_read =
      ref_record (o + 15) (o + 19) p i fits.pkg fits.index size refl (omega arith) h15 in
    let start : w32 o ≡ o = omega (arith, small) in
    let off = rw start at f0.0 in
    (
      w',
      rw known (put_ref-bytes l r.sym (put head w) p i ref ∙ ap done (put_twice head target w)),
      rw (off, f1.0, f2.0, f3, sym_ref_read.0, sym_ref_read.1) refl,
    )
