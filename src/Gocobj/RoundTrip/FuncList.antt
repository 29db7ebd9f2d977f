-- ===== src/Gocobj/RoundTrip/FuncList.antt =====
-- The list of functions, one after the other, as `Sections` writes it and `Parse` reads it (internal/gocobj).
use goc.Prelude.{
  ℕ, ◌≤◌, ◌≡◌, refl, arith, Option, List, [], ◌∷◌, ◌++◌, length, length-append, append-nil,
  append_assoc, foldl, All,
}
use goc.Gocobj.Codec.{Bytes, IsU64, StrError, put_record, records, done}
use goc.Gocobj.Codec.RecordLoop.{Taken, no_more, records-Taken, le-length-put_record}
use goc.Gocobj.Format.{Func}
use goc.Gocobj.Read.{Decoded, pcv_record, gc_record, inl_record, func_record}
use goc.Gocobj.Write.{Strings, FuncSections, add_func}
use goc.Gocobj.RoundTrip.Strings.{Extends, Extends-trans, IsTable}
use goc.Gocobj.RoundTrip.Encodes.{Encodes-last}
use goc.Gocobj.RoundTrip.Funcs.{referring}
use goc.Gocobj.RoundTrip.AddTable.{
  Taken-last, Below, Keeps, Keeps-refl, Keeps-trans, Refers-Keeps, with_table,
}
use goc.Gocobj.RoundTrip.FuncTables.{
  IsWhole, placed, SameFuncs, SameFuncs-snoc, referring-placed, Fits, Longer-Fits, pcv_added,
  gc_added, inl_added, pcv-Placed, gc-Placed, inl-Placed, func_bytes, add_func_lem,
}
use goc.Gocobj.RoundTrip.FuncStep.{
  foldl-Longer, pcv-Added, gc-Added, inl-Added, Encodes-fn, add_func-Grown, foldl-Extends,
}

-- Each decoded table stays at its offset.
record KeepsAll (d d' : Decoded) : Type 0 where
  pcv : Keeps d.pcv d'.pcv
  gcs : Keeps d.gcs d'.gcs
  inls : Keeps d.inls d'.inls

module _ (minor : ℕ) (new : 2 ≤ minor) (tab : Bytes) (small : IsU64 (length tab))
    (se : Option StrError) where
  -- The sections hold the functions `fns`, which are read as `gs` with the tables `d` or more.
  record State (b : FuncSections) (d : Decoded) (fns gs : List Func) : Type 0 where
    table : IsTable b.strings
    pcv : Taken pcv_record 0 b.pcv [] se d.pcv
    gcm : Taken gc_record 0 b.gcm [] se d.gcs
    inl : Taken (inl_record tab) 0 b.inl [] se d.inls
    pcv_below : Below (length b.pcv) d.pcv
    gcs_below : Below (length b.gcm) d.gcs
    inls_below : Below (length b.inl) d.inls
    funcs : (d' : Decoded) → KeepsAll d d' → Taken (func_record tab d') 0 b.funcs [] se gs
    same : SameFuncs fns gs

  -- The tables with those of one function more.
  abbrev with_func : FuncSections → Decoded → Func → Decoded
  with_func b d fn = record {
    pcv = with_table fn.pc_value (length b.pcv) d.pcv;
    gcs = with_table fn.gc (length b.gcm) d.gcs;
    inls = with_table fn.inl (length b.inl) d.inls;
  }

  abbrev read_as : FuncSections → Func → Func
  read_as b fn = placed fn (pcv_added minor b fn).0 (gc_added minor b fn).0 (inl_added minor b fn).0

  module _ (b : FuncSections) (d : Decoded) (fns gs : List Func) (fn : Func) (s : State b d fns gs)
      (h : IsWhole fn) (fits : Fits (add_func minor b fn))
      (ext : Extends (add_func minor b fn).strings.strs tab) where
    with_func-Keeps : KeepsAll d (with_func b d fn)
    with_func-Keeps = record {
      pcv = (pcv-Placed minor b fn).keeps d.pcv s.pcv_below;
      gcs = (gc-Placed minor b fn).keeps d.gcs s.gcs_below;
      inls = (inl-Placed minor b fn).keeps d.inls s.inls_below;
    }

    -- In any tables that keep those, the references of the new function are resolved.
    read_as-referring :
        (d' : Decoded)
        → KeepsAll (with_func b d fn) d'
        → referring d' fn (pcv_added minor b fn).0 (gc_added minor b fn).0 (inl_added minor b fn).0
          ≡ read_as b fn
    read_as-referring d' k =
        referring-placed d' fn _ _ _ h
          (Refers-Keeps _ fn.pc_value ((pcv-Placed minor b fn).refers d.pcv) k.pcv)
          (Refers-Keeps _ fn.gc ((gc-Placed minor b fn).refers d.gcs) k.gcs)
          (Refers-Keeps _ fn.inl ((inl-Placed minor b fn).refers d.inls) k.inls)

    func-Taken :
        (d' : Decoded)
        → KeepsAll (with_func b d fn) d'
        → Taken
            (func_record tab d')
            0
            (b.funcs ++ put_record (func_bytes minor b fn).0)
            []
            se
            (gs ++ (read_as b fn ∷ []))
    unfolding func_record
    func-Taken d' k =
        let ext' = rw (add_func_lem minor b fn) at ext in
        let fits' = rw (add_func_lem minor b fn) at fits in
        let body = (func_bytes minor b fn).0 in
        let tables = inl-Added minor new b fn s.table h fits in
        let w =
          (Encodes-last (λ y. gs ++ (y ∷ [])) (Encodes-fn minor new b fn s.table h fits d')).at
            (inl_added minor b fn).2 tables.table in
        let before = s.funcs d' (record {
          pcv = Keeps-trans with_func-Keeps.pcv k.pcv;
          gcs = Keeps-trans with_func-Keeps.gcs k.gcs;
          inls = Keeps-trans with_func-Keeps.inls k.inls;
        }) in
        let reads = (w.reads tab ext' small).at [] se in
        let reads' = rw (read_as-referring d' k, append-nil body) at reads in
        Taken-last body before
          (omega (
            arith,
            fits'.funcs,
            length-append b.funcs (put_record body),
            le-length-put_record body,
          ))
          reads'

    add_func-State :
        State
          (add_func minor b fn)
          (with_func b d fn)
          (fns ++ (fn ∷ []))
          (gs ++ (read_as b fn ∷ []))
    add_func-State =
        let ext' = rw (add_func_lem minor b fn) at ext in
        let fits' = rw (add_func_lem minor b fn) at fits in
        let pcvs = pcv-Added minor new b fn s.table h fits in
        let gcs = gc-Added minor new b fn s.table h fits in
        let inls = inl-Added minor new b fn s.table h fits in
        let grown = add_func-Grown minor new b fn s.table h fits in
        let w =
          (Encodes-fn minor new b fn s.table h fits d).at (inl_added minor b fn).2 inls.table in
        let ext3 = Extends-trans w.grows ext' in
        let ext2 = Extends-trans inls.grows ext3 in
        rw (add_func_lem minor b fn) (record {
          table = rw (add_func_lem minor b fn) at grown.table;
          pcv = pcvs.taken tab d.pcv se (Extends-trans gcs.grows ext2) small fits'.pcv s.pcv;
          gcm = gcs.taken tab d.gcs se ext2 small fits'.gcm s.gcm;
          inl = inls.taken tab d.inls se ext3 small fits'.inl s.inl;
          pcv_below = (pcv-Placed minor b fn).below d.pcv s.pcv_below;
          gcs_below = (gc-Placed minor b fn).below d.gcs s.gcs_below;
          inls_below = (inl-Placed minor b fn).below d.inls s.inls_below;
          funcs = func-Taken;
          same = SameFuncs-snoc fns gs fn (read_as b fn) s.same (_, _, _, refl);
        })

  foldl-State :
      (rest : List Func) (b : FuncSections) (d : Decoded) (fns gs : List Func)
      → State b d fns gs
      → All IsWhole rest
      → Fits (foldl (add_func minor) b rest)
      → Extends (foldl (add_func minor) b rest).strings.strs tab
      → (d' : Decoded) × (gs' : List Func) × State
          (foldl (add_func minor) b rest)
          d'
          (fns ++ rest)
          gs'
  foldl-State [] b d fns gs s h fits ext = (d, gs, rw (append-nil fns) s)
  foldl-State (fn ∷ rest) b d fns gs s h fits ext =
      let b' = add_func minor b fn in
      let fits' = Longer-Fits b' _ (foldl-Longer minor rest b') fits in
      let grown = add_func-Grown minor new b fn s.table h.0 fits' in
      let ext' = Extends-trans (foldl-Extends minor rest b' new grown.table h.1 fits) ext in
      let s' = add_func-State b d fns gs fn s h.0 fits' ext' in
      let (d'', gs'', out) =
        foldl-State rest b' (with_func b d fn) (fns ++ (fn ∷ [])) (gs ++ (read_as b fn ∷ [])) s' h.1
          fits ext in
      (d'', gs'', rw (append_assoc fns (fn ∷ []) rest) at out)

-- The sections before the first function.
abbrev pub no_funcs : Strings → FuncSections
no_funcs st = record { funcs = []; pcv = []; gcm = []; inl = []; strings = st }

-- What `Parse` reads of the sections `b`: the tables `d` of three of them, and with these the functions `gs`.
pub record ReadBack (tab : Bytes) (se : Option StrError) (b : FuncSections) (d : Decoded)
    (gs : List Func) : Type 0 where
  pub pcv : records pcv_record b.pcv [] se ≡ done d.pcv se
  pub gcs : records gc_record b.gcm [] se ≡ done d.gcs se
  pub inls : records (inl_record tab) b.inl [] se ≡ done d.inls se
  pub funcs : records (func_record tab d) b.funcs [] se ≡ done gs se

-- For a string table `st` that holds its own index, a minor version of 2 or more, functions whose fields
-- have their widths and whose tables can be written and are nil or not empty, sections of less than
-- 2 ^ 64 bytes, and any table `tab` of less than 2 ^ 64 bytes that goes on from the strings that the writer
-- leaves: what `Sections` makes of the functions, one after the other, is read back by `Parse`'s loops over
-- the pc-value, GC, inline and function sections, with no error. The functions come back in order, with
-- every field and with their own tables; only the offsets of the tables are the writer's.
pub records-add_func :
    (minor : ℕ) (fns : List Func) (st : Strings) (tab : Bytes) (se : Option StrError)
    → 2 ≤ minor
    → IsTable st
    → All IsWhole fns
    → Fits (foldl (add_func minor) (no_funcs st) fns)
    → Extends (foldl (add_func minor) (no_funcs st) fns).strings.strs tab
    → IsU64 (length tab)
    → (d : Decoded) × (gs : List Func) × ReadBack tab se
        (foldl (add_func minor) (no_funcs st) fns)
        d
        gs
      × SameFuncs fns gs
records-add_func minor fns st tab se new t h fits ext small =
    let none_yet : Decoded = record { pcv = []; gcs = []; inls = [] } in
    let start : State minor new tab small se (no_funcs st) none_yet [] [] = record {
      table = t;
      pcv = no_more;
      gcm = no_more;
      inl = no_more;
      pcv_below = refl;
      gcs_below = refl;
      inls_below = refl;
      funcs = λ d' k. no_more;
      same = refl;
    } in
    let (d, gs, s) =
      foldl-State minor new tab small se fns (no_funcs st) none_yet [] [] start h fits ext in
    let own : KeepsAll d d = record {
      pcv = Keeps-refl d.pcv;
      gcs = Keeps-refl d.gcs;
      inls = Keeps-refl d.inls;
    } in
    (
      d,
      gs,
      record {
        pcv = records-Taken _ s.pcv;
        gcs = records-Taken _ s.gcm;
        inls = records-Taken _ s.inl;
        funcs = records-Taken _ (s.funcs d own);
      },
      s.same,
    )
