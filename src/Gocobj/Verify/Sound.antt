-- ===== src/Gocobj/Verify/Sound.antt =====
-- What a file without violations satisfies, and when a table has none.
use goc.Prelude.{ℕ, ◌+◌, ◌<◌, ◌≡◌, ◌↔◌, refl, Bool, true, false}
use goc.Prelude.{List, [], ◌∷◌, ◌++◌, All, arith}
use goc.Prelude.Int.{ℤ, pos, negsuc, ◌≤ℤ◌, ltb_ℤ}
use goc.Gocobj.Format.{PcEntry, PcTable}
use goc.Gocobj.Format.PcKind
use goc.Gocobj.Verify.Funcs.{Violation, bad_if, Place, Fault, check_values, check_rows, check_order}
use goc.Gocobj.Verify.Funcs.{check_tables}

pub append-eq-nil : (xs ys : List Violation) → (xs ++ ys ≡ []) ↔ ((xs ≡ []) × (ys ≡ []))
append-eq-nil [] ys = (λ h. (refl, h), λ h. h.1)
append-eq-nil (x ∷ xs) ys = (λ h. cc, λ h. cc)

pub bad_if-eq-nil : (b : Bool) (w : Place) (e : Fault) → (bad_if b w e ≡ []) ↔ (b ≡ false)
bad_if-eq-nil true w e = (λ h. cc, λ h. cc)
bad_if-eq-nil false w e = (λ h. refl, λ h. refl)

-- A row behind one at `prev`: later, and inside the function if its size is known.
pub record IsNext (text_size prev : ℕ) (e : PcEntry) : Type 0 where
  pub later : prev < e.pc
  pub inside : 0 < text_size → e.pc < text_size

abbrev pub IsRows : ℕ → ℕ → List PcEntry → Type 0
IsRows text_size prev [] = Unit
IsRows text_size prev (e ∷ es) = IsNext text_size prev e × IsRows text_size e.pc es

check_rows_iff :
    (w : Place) (text_size prev j : ℕ) (es : List PcEntry)
    → (check_rows w text_size prev j es ≡ []) ↔ IsRows text_size prev es
unfolding check_rows
check_rows_iff w ts prev j [] = (λ h. tt, λ h. refl)
check_rows_iff w ts prev j (e ∷ es) =
    let (sound, complete) = check_rows_iff w ts e.pc (j + 1) es in
    (
      λ h. (record { later = ground arith; inside = λ p. ground arith }, sound (ground arith)),
      λ h. ground (arith, complete h.1),
    )

-- The rows of a table: from pc 0, in order, inside the function.
abbrev pub IsOrdered : ℕ → List PcEntry → Type 0
IsOrdered text_size [] = Unit
IsOrdered text_size (e ∷ es) = (e.pc ≡ 0) × IsRows text_size e.pc es

check_order_iff :
    (w : Place) (text_size : ℕ) (es : List PcEntry)
    → (check_order w text_size es ≡ []) ↔ IsOrdered text_size es
unfolding check_order
check_order_iff w ts [] = (λ h. tt, λ h. refl)
check_order_iff w ts (e ∷ es) =
    let (sound, complete) = check_rows_iff w ts e.pc 1 es in
    (λ h. (ground arith, sound (ground arith)), λ h. ground (arith, complete h.1))

-- A FILE row names a file or an INL_INDEX row an inlined call, -1 being none.
pub record IsValue (nfiles ninl kind : ℕ) (v : ℤ) : Type 0 where
  pub file : kind ≡ PcKind.file → (pos 0 ≤ℤ v) × (ltb_ℤ v (pos nfiles) ≡ true)
  pub call : kind ≡ PcKind.inl_index → (negsuc 0 ≤ℤ v) × (ltb_ℤ v (pos ninl) ≡ true)

check_values_iff :
    (w : Place) (nfiles ninl kind : ℕ) (es : List PcEntry)
    → (check_values w nfiles ninl kind es ≡ []) ↔ All (λ e. IsValue nfiles ninl kind e.value) es
unfolding check_values
check_values_iff w nf ni kind [] = (λ h. tt, λ h. refl)
check_values_iff w nf ni kind (e ∷ es) =
    let (sound, complete) = check_values_iff w nf ni kind es in
    (
      λ h. (record { file = λ p. ground arith; call = λ p. ground arith }, sound (ground arith)),
      λ h. ground (arith, complete h.1, h.0.file, h.0.call),
    )

-- What the format's documentation asks of a pc-value table.
pub record IsPcTable (nfiles ninl text_size : ℕ) (t : PcTable) : Type 0 where
  pub kind : (0 < t.kind) × (t.kind < PcKind.last)
  pub order : IsOrdered text_size t.entries
  pub values : All (λ e. IsValue nfiles ninl t.kind e.value) t.entries

-- `Verify` finds nothing in the pc-value tables of a function exactly when each of them has a known kind,
-- has rows from pc 0 in increasing order, inside the function where its size is known, and in a FILE or
-- INL_INDEX table values that are a file or an inlined call, or -1 for no call.
pub check_tables_iff :
    (w : Place) (nfiles ninl text_size : ℕ) (ts : List PcTable)
    → (check_tables w nfiles ninl text_size ts ≡ []) ↔ All (IsPcTable nfiles ninl text_size) ts
unfolding check_tables
check_tables_iff w nf ni size [] = (λ h. tt, λ h. refl)
check_tables_iff w nf ni size (t ∷ ts) =
    let (sound, complete) = check_tables_iff w nf ni size ts in
    let (v_sound, v_complete) = check_values_iff w nf ni t.kind t.entries in
    let (o_sound, o_complete) = check_order_iff w size t.entries in
    (
      λ h.
          let (hv, h') = (append-eq-nil _ _).0 h in
          let (hk, h'') = (append-eq-nil _ _).0 h' in
          let (ho, hr) = (append-eq-nil _ _).0 h'' in
          (record { kind = ground arith; order = o_sound ho; values = v_sound hv }, sound hr),
      λ h. ground (
        arith,
        v_complete h.0.values,
        o_complete h.0.order,
        complete h.1,
        h.0.kind.0,
        h.0.kind.1,
      ),
    )
