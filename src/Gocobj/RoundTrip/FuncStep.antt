-- ===== src/Gocobj/RoundTrip/FuncStep.antt =====
-- One function of the loop in `Sections` (internal/gocobj/write.go): its tables, its record and the strings.
use goc.Prelude.{ℕ, ◌≤◌, arith, List, [], ◌∷◌, length, foldl, All}
use goc.Gocobj.Codec.{IsU64}
use goc.Gocobj.Format.{Func}
use goc.Gocobj.Read.{Decoded, pcv_record, gc_record, inl_record, read_func}
use goc.Gocobj.Write.{
  Strings, encode_pcv, encode_gc, encode_inl, encode_func, FuncSections, add_func,
}
use goc.Gocobj.RoundTrip.Strings.{Extends, Extends-refl, Extends-trans, IsTable}
use goc.Gocobj.RoundTrip.Encodes.{Encodes}
use goc.Gocobj.RoundTrip.Tables.{IsPcv, Encodes-pcv, IsGcMap, IsInl, Encodes-inl}
use goc.Gocobj.RoundTrip.Funcs.{referring, Encodes-func}
use goc.Gocobj.RoundTrip.AddTable.{Added, add_table-Added}
use goc.Gocobj.RoundTrip.FuncTables.{
  IsWhole, Encodes-gc_record, Fits, Longer, Longer-Fits, Longer-trans, pcv_added, gc_added,
  inl_added, pcv-Placed, gc-Placed, inl-Placed, add_func_lem, add_func-Longer,
}

pub foldl-Longer :
    (minor : ℕ) (fns : List Func) (b : FuncSections) → Longer b (foldl (add_func minor) b fns)
foldl-Longer minor [] b = record {
  funcs = omega arith;
  pcv = omega arith;
  gcm = omega arith;
  inl = omega arith;
}
foldl-Longer minor (fn ∷ fns) b =
    Longer-trans b (add_func minor b fn) _ (add_func-Longer minor b fn)
      (foldl-Longer minor fns (add_func minor b fn))

-- The strings after one function more.
pub record Grown (st st' : Strings) : Type 0 where
  pub table : IsTable st'
  pub grows : Extends st.strs st'.strs

module _ (minor : ℕ) (new : 2 ≤ minor) (b : FuncSections) (fn : Func) (t : IsTable b.strings)
    (h : IsWhole fn) (fits : Fits (add_func minor b fn)) where
  after_fits :
      IsU64 (length (pcv_added minor b fn).1)
      × IsU64 (length (gc_added minor b fn).1)
      × IsU64 (length (inl_added minor b fn).1)
  after_fits = let f = rw (add_func_lem minor b fn) at fits in (f.pcv, f.gcm, f.inl)

  pub pcv-Added :
      Added (λ tab off m. pcv_record off m) fn.pc_value b.pcv b.strings (pcv_added minor b fn)
  pcv-Added =
      add_table-Added encode_pcv (λ tab off m. pcv_record off m) IsPcv fn.pc_value b.pcv b.strings
        (λ a off m k. Encodes-pcv off m a k) h.pcv t

  pub gc-Added :
      Added
        (λ tab off m. gc_record off m)
        fn.gc
        b.gcm
        (pcv_added minor b fn).2
        (gc_added minor b fn)
  gc-Added =
      add_table-Added encode_gc (λ tab off m. gc_record off m) IsGcMap fn.gc b.gcm
        (pcv_added minor b fn).2 (λ a off m k. Encodes-gc_record off m a k) h.gc pcv-Added.table

  pub inl-Added : Added inl_record fn.inl b.inl (gc_added minor b fn).2 (inl_added minor b fn)
  inl-Added =
      add_table-Added encode_inl inl_record IsInl fn.inl b.inl (gc_added minor b fn).2
        (λ a off m k. Encodes-inl off m a k) h.inl gc-Added.table

  pub Encodes-fn :
      (d : Decoded)
      → Encodes
          (encode_func minor fn
            (pcv_added minor b fn).0
            (gc_added minor b fn).0
            (inl_added minor b fn).0)
          (λ tab. read_func tab d)
          (referring d fn (pcv_added minor b fn).0 (gc_added minor b fn).0 (inl_added minor b fn).0)
  Encodes-fn d =
      Encodes-func minor fn d (pcv_added minor b fn).0 (gc_added minor b fn).0
        (inl_added minor b fn).0 new h.fields
        (omega (arith, after_fits.0, (pcv-Placed minor b fn).inside))
        (omega (arith, after_fits.1, (gc-Placed minor b fn).inside))
        (omega (arith, after_fits.2, (inl-Placed minor b fn).inside))

  pub add_func-Grown : Grown b.strings (add_func minor b fn).strings
  add_func-Grown =
      let w =
        (Encodes-fn (record { pcv = []; gcs = []; inls = [] })).at (inl_added minor b fn).2
          inl-Added.table in
      rw (add_func_lem minor b fn) (record {
        table = w.table;
        grows =
            Extends-trans pcv-Added.grows
              (Extends-trans gc-Added.grows (Extends-trans inl-Added.grows w.grows));
      })

pub foldl-Extends :
    (minor : ℕ) (fns : List Func) (b : FuncSections)
    → 2 ≤ minor
    → IsTable b.strings
    → All IsWhole fns
    → Fits (foldl (add_func minor) b fns)
    → Extends b.strings.strs (foldl (add_func minor) b fns).strings.strs
foldl-Extends minor [] b new t h fits = Extends-refl b.strings.strs
foldl-Extends minor (fn ∷ fns) b new t h fits =
    let b' = add_func minor b fn in
    let fits' = Longer-Fits b' _ (foldl-Longer minor fns b') fits in
    let one = add_func-Grown minor new b fn t h.0 fits' in
    Extends-trans one.grows (foldl-Extends minor fns b' new one.table h.1 fits)
