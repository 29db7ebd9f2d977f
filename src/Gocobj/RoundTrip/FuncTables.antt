-- ===== src/Gocobj/RoundTrip/FuncTables.antt =====
-- The functions with their tables: `Sections`' loop over them (internal/gocobj/write.go) and `Parse`'s loops
-- over `.goc.pcvalue`, `.goc.gcmaps`, `.goc.inltree` and `.goc.funcs` (read.go).
use goc.Prelude.{
  ℕ, ◌≤◌, ◌≡◌, refl, ◌∙◌, ap, arith, Option, none, some, List, [], ◌∷◌, ◌++◌, length, length-append,
  true,
}
use goc.Gocobj.Codec.{Bytes, IsU64, put_record}
use goc.Gocobj.Format.{GcMap, Func}
use goc.Gocobj.Read.{At, find_ref, nil_slice, Decoded, gc_record}
use goc.Gocobj.Write.{
  Strings, as_record, encode_pcv, encode_gc, encode_inl, encode_func, add_table, FuncSections,
  add_func,
}
use goc.Gocobj.RoundTrip.Encodes.{Encodes, Encodes-last}
use goc.Gocobj.RoundTrip.Tables.{IsPcv, IsGcMap, Encodes-gc, IsInl}
use goc.Gocobj.RoundTrip.Funcs.{IsFunc, referring}
use goc.Gocobj.RoundTrip.AddTable.{Refers, Placed, add_table-Placed, Holds}

-- A slice that is not nil is not empty.
abbrev pub NotEmpty {ℓ} : {A : Type ℓ} → Option (List A) → Type 0
NotEmpty none = true ≡ true
NotEmpty (some []) = ⊥
NotEmpty (some (x ∷ xs)) = true ≡ true

-- A function that can be written: fields of their widths, and tables that can be.
pub record IsWhole (fn : Func) : Type 0 where
  pub fields : IsFunc fn
  pub pcv : Holds IsPcv fn.pc_value
  pub gc : Holds IsGcMap fn.gc
  pub inl : Holds IsInl fn.inl
  pub some_pcv : NotEmpty fn.pc_value
  pub some_inl : NotEmpty fn.inl

-- The function with other offsets.
abbrev pub placed : Func → ℕ → ℕ → ℕ → Func
placed fn p g i = record fn { pcv_off = p; gc_off = g; inl_off = i }

-- The functions that are read are the written ones, tables included, but for the offsets of their tables.
abbrev pub SameFuncs : List Func → List Func → Type 0
SameFuncs [] [] = true ≡ true
SameFuncs [] (g ∷ gs) = ⊥
SameFuncs (f ∷ fs) [] = ⊥
SameFuncs (f ∷ fs) (g ∷ gs) =
    ((pcv : ℕ) × (gc : ℕ) × (inl : ℕ) × (g ≡ placed f pcv gc inl)) × SameFuncs fs gs

pub SameFuncs-snoc :
    (fs gs : List Func) (f g : Func)
    → SameFuncs fs gs
    → ((pcv : ℕ) × (gc : ℕ) × (inl : ℕ) × (g ≡ placed f pcv gc inl))
    → SameFuncs (fs ++ (f ∷ [])) (gs ++ (g ∷ []))
SameFuncs-snoc [] [] f g h one = (one, refl)
SameFuncs-snoc [] (g' ∷ gs) f g h one = absurd h
SameFuncs-snoc (f' ∷ fs) [] f g h one = absurd h
SameFuncs-snoc (f' ∷ fs) (g' ∷ gs) f g h one = (h.0, SameFuncs-snoc fs gs f g h.1 one)

-- A reference to a table is resolved to it.
find_ref-Refers :
    {A : Type 0} (m : At A) (off : ℕ) (o : Option A) → Refers m off o → find_ref m off ≡ o
find_ref-Refers m off none h = rw h refl
find_ref-Refers m off (some a) h = ground (arith, h)

nil_slice-NotEmpty : {A : Type 0} (o : Option (List A)) → NotEmpty o → nil_slice o ≡ o
nil_slice-NotEmpty none h = refl
nil_slice-NotEmpty (some []) h = absurd h
nil_slice-NotEmpty (some (x ∷ xs)) h = refl

pub referring-placed :
    (d : Decoded) (fn : Func) (p g i : ℕ)
    → IsWhole fn
    → Refers d.pcv p fn.pc_value
    → Refers d.gcs g fn.gc
    → Refers d.inls i fn.inl
    → referring d fn p g i ≡ placed fn p g i
referring-placed d fn p g i h hp hg hi =
    let e1 =
      ap nil_slice (find_ref-Refers d.pcv p fn.pc_value hp)
      ∙ nil_slice-NotEmpty fn.pc_value h.some_pcv in
    let e2 = find_ref-Refers d.gcs g fn.gc hg in
    let e3 =
      ap nil_slice (find_ref-Refers d.inls i fn.inl hi) ∙ nil_slice-NotEmpty fn.inl h.some_inl in
    rw (e1, e2, e3) refl

pub Encodes-gc_record :
    (off : ℕ) (gcs : At GcMap) (g : GcMap)
    → IsGcMap g
    → Encodes (encode_gc g) (λ tab. gc_record off gcs) ((off, g) ∷ gcs)
unfolding gc_record
Encodes-gc_record off gcs g h = Encodes-last (λ x. (off, x) ∷ gcs) (Encodes-gc g h)

-- The sections fit: they are below 2 ^ 64 bytes.
pub record Fits (b : FuncSections) : Type 0 where
  pub funcs : IsU64 (length b.funcs)
  pub pcv : IsU64 (length b.pcv)
  pub gcm : IsU64 (length b.gcm)
  pub inl : IsU64 (length b.inl)

-- Every section of `b'` is at least as long.
pub record Longer (b b' : FuncSections) : Type 0 where
  pub funcs : length b.funcs ≤ length b'.funcs
  pub pcv : length b.pcv ≤ length b'.pcv
  pub gcm : length b.gcm ≤ length b'.gcm
  pub inl : length b.inl ≤ length b'.inl

pub Longer-Fits : (b b' : FuncSections) → Longer b b' → Fits b' → Fits b
Longer-Fits b b' l h = record {
  funcs = omega (arith, l.funcs, h.funcs);
  pcv = omega (arith, l.pcv, h.pcv);
  gcm = omega (arith, l.gcm, h.gcm);
  inl = omega (arith, l.inl, h.inl);
}

pub Longer-trans : (b b' b'' : FuncSections) → Longer b b' → Longer b' b'' → Longer b b''
Longer-trans b b' b'' l h = record {
  funcs = omega (arith, l.funcs, h.funcs);
  pcv = omega (arith, l.pcv, h.pcv);
  gcm = omega (arith, l.gcm, h.gcm);
  inl = omega (arith, l.inl, h.inl);
}

module _ (minor : ℕ) (b : FuncSections) (fn : Func) where
  -- The three tables of a function, in the order they are written.
  abbrev pub pcv_added : ℕ × Bytes × Strings
  pcv_added = add_table encode_pcv fn.pc_value b.pcv b.strings

  abbrev pub gc_added : ℕ × Bytes × Strings
  gc_added = add_table encode_gc fn.gc b.gcm pcv_added.2

  abbrev pub inl_added : ℕ × Bytes × Strings
  inl_added = add_table encode_inl fn.inl b.inl gc_added.2

  pub pcv-Placed : Placed fn.pc_value b.pcv pcv_added
  pcv-Placed = add_table-Placed encode_pcv fn.pc_value b.pcv b.strings

  pub gc-Placed : Placed fn.gc b.gcm gc_added
  gc-Placed = add_table-Placed encode_gc fn.gc b.gcm pcv_added.2

  pub inl-Placed : Placed fn.inl b.inl inl_added
  inl-Placed = add_table-Placed encode_inl fn.inl b.inl gc_added.2

  abbrev pub func_bytes : Bytes × Strings
  func_bytes = encode_func minor fn pcv_added.0 gc_added.0 inl_added.0 inl_added.2

  pub add_func_lem : add_func minor b fn ≡ record {
    funcs = b.funcs ++ put_record func_bytes.0;
    pcv = pcv_added.1;
    gcm = gc_added.1;
    inl = inl_added.1;
    strings = func_bytes.1;
  }
  unfolding add_func as_record
  add_func_lem = refl

  pub add_func-Longer : Longer b (add_func minor b fn)
  add_func-Longer = rw add_func_lem (record {
    funcs = omega (arith, length-append b.funcs (put_record func_bytes.0));
    pcv = pcv-Placed.longer;
    gcm = gc-Placed.longer;
    inl = inl-Placed.longer;
  })
