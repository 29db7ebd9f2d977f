-- ===== src/Gocobj/Verify/Whole.antt =====
-- What a file satisfies in which `Verify` finds nothing.
use goc.Prelude.{ℕ, ◌*◌, ◌^◌, ◌≤◌, ◌<◌, ◌≡◌, ◌≢◌, Bool, true, false}
use goc.Prelude.{
  Option, none, some, List, [], ◌∷◌, All, arith, bytes_eq, bytes_eq_self, length, ap, ltb,
}
use goc.Gocobj.Codec.{Bytes}
use goc.Gocobj.Abi.{lookup_profile}
use goc.Gocobj.Format.{File, Func, GcMap, Safepoint, Symbol, DataEntry, abi_internal}
use goc.Gocobj.Verify.{listed, check_funcs, check_data_entry, check_data, verify, pointer_size}
use goc.Gocobj.Verify.{checked_in_code}
use goc.Gocobj.Verify.Funcs.{Place, Fault, bad_if, slice, check_symbol, check_safepoints, check_gc}
use goc.Prelude.{bit_and, ◌==◌, not, ◌&&◌}
use goc.Gocobj.Format.{func_needs_stack_check}
use goc.Gocobj.Verify.Funcs.{check_ref, check_inl, has_stack_check}
use goc.Gocobj.Verify.Funcs.{check_func, max_sp}
use goc.Gocobj.Verify.Sound.{append-eq-nil, bad_if-eq-nil, IsPcTable, check_tables_iff}
use goc.Gocobj.Verify.Relocs.{IsNamed, check_name-IsNamed, IsRelocOf, check_relocs-IsRelocOf}

-- Safepoints behind one at `prev`: increasing, and at the end of an instruction of the function.
abbrev pub IsSafepoints : ℕ → ℕ → List Safepoint → Type 0
IsSafepoints text_size prev [] = Unit
IsSafepoints text_size prev (sp ∷ sps) =
    (prev < sp.pc) × (sp.pc ≤ text_size) × IsSafepoints text_size sp.pc sps

behind_sound :
    (w : Place) (size prev : ℕ) (sps : List Safepoint)
    → check_safepoints w size (some prev) sps ≡ []
    → IsSafepoints size prev sps
unfolding check_safepoints
behind_sound w size prev [] h = tt
behind_sound w size prev (sp ∷ sps) h =
    (ground arith, ground arith, behind_sound w size sp.pc sps (ground arith))

check_safepoints-IsSafepoints :
    (w : Place) (size : ℕ) (sps : List Safepoint)
    → check_safepoints w size none sps ≡ []
    → IsSafepoints size 0 sps
unfolding check_safepoints
check_safepoints-IsSafepoints w size [] h = tt
check_safepoints-IsSafepoints w size (sp ∷ sps) h =
    (ground arith, ground arith, behind_sound w size sp.pc sps (ground arith))

pub record IsGcOf (ptr : ℕ) (fn : Func) (g : GcMap) : Type 0 where
  pub locals : g.nlocals * ptr < 2 ^ 64 → g.nlocals * ptr ≤ max_sp fn.frame_size (slice fn.pc_value)
  pub safepoints : IsSafepoints fn.text_size 0 g.safepoints

gc_sound :
    (w : Place) (ptr : ℕ) (fn : Func) (o : Option GcMap) (g : GcMap)
    → check_gc w ptr fn o ≡ []
    → o ≡ some g
    → IsGcOf ptr fn g
unfolding check_gc
gc_sound w ptr fn none g h e = cc
gc_sound w ptr fn (some g') g h e =
    let same : g' ≡ g = ground arith in
    let (hl, hs) = (append-eq-nil _ _).0 h in
    rw (← same) (record {
      locals = λ small. ground arith;
      safepoints = check_safepoints-IsSafepoints w fn.text_size g'.safepoints hs;
    })

symbol_sound :
    (w : Place) (fn : Func) (o : Option Symbol) (s : Symbol)
    → check_symbol w fn o ≡ []
    → o ≡ some s
    → (s.func ≡ true) × (s.defined ≡ true) × (s.size ≡ fn.text_size)
unfolding check_symbol
symbol_sound w fn none s h e = cc
symbol_sound w fn (some t) s h e = (ground arith, ground arith, ground arith)

abi_sound :
    (w : Place) (fn : Func) (e : Fault)
    → bad_if (ltb abi_internal fn.abi) w e ≡ []
    → fn.abi ≤ abi_internal
abi_sound w fn e h = ground arith

pub record IsFuncOf (f : File) (ptr : ℕ) (fn : Func) : Type 0 where
  pub named : IsNamed f fn.name
  pub symbol :
      (s : Symbol)
      → f.symbols fn.name ≡ some s
      → (s.func ≡ true) × (s.defined ≡ true) × (s.size ≡ fn.text_size)
  pub abi : fn.abi ≤ abi_internal
  pub tables :
      All
        (IsPcTable (length f.tables.files) (length (slice fn.inl)) fn.text_size)
        (slice fn.pc_value)
  pub gc : (g : GcMap) → fn.gc ≡ some g → IsGcOf ptr fn g

check_func-IsFuncOf :
    (f : File) (ptr : ℕ) (checked twice : Bool) (fn : Func)
    → check_func f ptr checked twice fn ≡ []
    → (twice ≡ false) × IsFuncOf f ptr fn
unfolding check_func
check_func-IsFuncOf f ptr checked twice fn h =
    let w = Place.func fn.name in
    let (h0, r0) = (append-eq-nil _ _).0 h in
    let (h1, r1) = (append-eq-nil _ _).0 r0 in
    let (h2, r2) = (append-eq-nil _ _).0 r1 in
    let (h3, r3) = (append-eq-nil _ _).0 r2 in
    let (h4, r4) = (append-eq-nil _ _).0 r3 in
    let (h5, r5) =
      (append-eq-nil (check_ref w Fault.bad_pcv_offset f.tables.pcv_starts fn.pcv_off) _).0 r4 in
    let (h6, r6) =
      (append-eq-nil (check_ref w Fault.bad_gc_offset f.tables.gc_starts fn.gc_off) _).0 r5 in
    let (h7, r7) =
      (append-eq-nil (check_inl w (length f.tables.files) fn 0 (slice fn.inl)) _).0 r6 in
    let (h8, r8) = (append-eq-nil _ _).0 r7 in
    let (h9, r9) =
      (append-eq-nil (check_gc w ptr fn fn.gc) (
          bad_if
            (checked
              && (not (bit_and fn.flags func_needs_stack_check == 0) && not (has_stack_check fn)))
            w Fault.no_stack_check)).0
        r8 in
    (
      (bad_if-eq-nil twice w _).0 h0,
      record {
        named = check_name-IsNamed f w fn.name h1;
        symbol = λ s. symbol_sound w fn _ s h2;
        abi = abi_sound w fn _ h4;
        tables = (check_tables_iff w _ _ fn.text_size (slice fn.pc_value)).0 h8;
        gc = λ g. gc_sound w ptr fn fn.gc g h9;
      },
    )

-- No function has the name of one before it.
abbrev pub AreDistinct : List Func → List Func → Type 0
AreDistinct before [] = Unit
AreDistinct before (fn ∷ fns) = All (λ g. g.name ≢ fn.name) before × AreDistinct (fn ∷ before) fns

not_listed :
    (name : Bytes) (fns : List Func) → listed name fns ≡ false → All (λ g. g.name ≢ name) fns
not_listed name [] h = tt
not_listed name (fn ∷ fns) h = (
  λ e. ground (arith, bytes_eq_self name, ap (λ (t : Bytes). bytes_eq t name) e),
  not_listed name fns (ground arith),
)

check_funcs-IsFuncOf :
    (f : File) (ptr : ℕ) (checked : Bool) (before fns : List Func)
    → check_funcs f ptr checked before fns ≡ []
    → AreDistinct before fns × All (IsFuncOf f ptr) fns
unfolding check_funcs
check_funcs-IsFuncOf f ptr checked before [] h = (tt, tt)
check_funcs-IsFuncOf f ptr checked before (fn ∷ fns) h =
    let (h0, h1) = (append-eq-nil _ _).0 h in
    let (once, good) = check_func-IsFuncOf f ptr checked _ fn h0 in
    let (distinct, all_good) = check_funcs-IsFuncOf f ptr checked (fn ∷ before) fns h1 in
    ((not_listed fn.name before once, distinct), (good, all_good))

data_sound :
    (f : File) (ptr : ℕ) (ds : List DataEntry)
    → check_data f ptr ds ≡ []
    → All (λ d. IsNamed f d.name) ds
unfolding check_data check_data_entry
data_sound f ptr [] h = tt
data_sound f ptr (d ∷ ds) h =
    let (h0, h1) = (append-eq-nil _ _).0 h in
    let (hn, hb) = (append-eq-nil _ _).0 h0 in
    (check_name-IsNamed f (Place.data_entry d.name) d.name hn, data_sound f ptr ds h1)

pub record IsVerified (f : File) : Type 0 where
  pub distinct : AreDistinct [] f.tables.funcs
  pub funcs :
      All (IsFuncOf f (pointer_size (lookup_profile f.tables.header.profile))) f.tables.funcs
  pub relocs : All (IsRelocOf f) f.tables.relocs
  pub data_entries : All (λ d. IsNamed f d.name) f.tables.data_entries

-- A file in which `Verify` finds nothing: its functions have names of their own, each with one ELF symbol
-- that is a defined function of that size, a valid abi, well-formed pc-value tables, and a GC map whose
-- safepoints increase inside the function and, unless `NLocals * ptr` wraps, fit the frame; its
-- relocations are as `check_relocs-IsRelocOf` says; its data entries have a name with one ELF symbol.
pub verify-IsVerified : (f : File) → verify f ≡ [] → IsVerified f
unfolding verify
verify-IsVerified f h =
    let prof = lookup_profile f.tables.header.profile in
    let ptr = pointer_size prof in
    let (h0, r0) = (append-eq-nil _ _).0 h in
    let (h1, r1) = (append-eq-nil _ _).0 r0 in
    let (h2, r2) = (append-eq-nil _ _).0 r1 in
    let (h3, r3) = (append-eq-nil _ _).0 r2 in
    let (h4, h5) = (append-eq-nil _ _).0 r3 in
    let (distinct, good) =
      check_funcs-IsFuncOf f ptr (checked_in_code f.tables.header prof) [] f.tables.funcs h1 in
    record {
      distinct = distinct;
      funcs = good;
      relocs = check_relocs-IsRelocOf f 0 f.tables.relocs h4;
      data_entries = data_sound f ptr f.tables.data_entries h5;
    }
