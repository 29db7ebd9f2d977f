-- ===== src/Gocobj/Verify/Relocs.antt =====
-- What `Verify` asks of relocations, and where its sums wrap.
use goc.Prelude.{ℕ, ◌+◌, ◌*◌, ◌^◌, ◌≤◌, ◌<◌, ◌≡◌, ◌≢◌, ◌⊎◌, inl, inr, refl, true}
use goc.Prelude.{Option, none, some, List, [], ◌∷◌, All, arith, bit_and, Option-cases, bytes_eq→eq}
use goc.Gocobj.Codec.{Bytes}
use goc.Gocobj.Format.{File, Func, GcMap, Safepoint, Symbol, Reloc, reloc_safepoint}
use goc.Gocobj.Format.RelocKind
use goc.Gocobj.Verify.{find_func, has_safepoint, gc_has, reloc_end, check_reloc_place, check_width}
use goc.Gocobj.Verify.{check_elf, check_call, check_reloc, check_relocs}
use goc.Gocobj.Verify.Funcs.{Place, check_name, check_gc, check_safepoints}
use goc.Gocobj.Verify.Sound.{append-eq-nil}

-- One of the function's safepoints is at `pc`.
abbrev pub AnySafepoint : ℕ → List Safepoint → Type 0
AnySafepoint pc [] = ⊥
AnySafepoint pc (sp ∷ sps) = (sp.pc ≡ pc) ⊎ AnySafepoint pc sps

abbrev pub GcHas : ℕ → Option GcMap → Type 0
GcHas pc none = ⊥
GcHas pc (some g) = AnySafepoint pc g.safepoints

has_safepoint→Any :
    (pc : ℕ) (sps : List Safepoint) → has_safepoint pc sps ≡ true → AnySafepoint pc sps
has_safepoint→Any pc [] h = cc
has_safepoint→Any pc (sp ∷ sps) h = ground (arith, has_safepoint→Any pc sps)

gc_has→GcHas : (pc : ℕ) (g : Option GcMap) → gc_has pc g ≡ true → GcHas pc g
gc_has→GcHas pc none h = cc
gc_has→GcHas pc (some g) h = has_safepoint→Any pc g.safepoints h

-- A name that the tables use: not empty, and of one ELF symbol.
pub record IsNamed (f : File) (name : Bytes) : Type 0 where
  pub symbol : Symbol
  pub found : f.symbols name ≡ some symbol
  pub unique : symbol.count ≤ 1
  pub not_empty : name ≢ []

pub check_name-IsNamed :
    (f : File) (w : Place) (name : Bytes) → check_name f w name ≡ [] → IsNamed f name
unfolding check_name
check_name-IsNamed f w [] h = cc
check_name-IsNamed f w (c ∷ cs) h = elim (Option-cases (f.symbols (c ∷ cs))) [
  | inl e ↦ cc (rw (e, check_name) at h)
  | inr (s, e) ↦ record { symbol = s; found = e; unique = ground arith; not_empty = λ p. cc }
]

-- The function that the relocation is in, and its safepoint at the end of a call that is one.
pub record IsPlaced (f : File) (r : Reloc) : Type 0 where
  pub func : Func
  pub found : find_func r.func f.tables.funcs ≡ some func
  pub inside : r.offset + r.width < 2 ^ 64 → r.offset + r.width ≤ func.text_size
  pub safepoint :
      r.offset + r.width < 2 ^ 64
      → bit_and r.flags reloc_safepoint ≢ 0
      → GcHas (r.offset + r.width) func.gc

pub record IsRelocOf (f : File) (r : Reloc) : Type 0 where
  pub placed : IsPlaced f r
  pub kind : (0 < r.kind) × (r.kind < RelocKind.last)
  pub call_length : r.kind ≡ RelocKind.call_indirect_mark → (0 < r.width) × (r.width ≤ 15)
  pub width :
      r.kind ≢ RelocKind.call_indirect_mark
      → (r.width ≡ 1) ⊎ (r.width ≡ 2) ⊎ (r.width ≡ 4) ⊎ (r.width ≡ 8)
  pub target : r.kind ≢ RelocKind.call_indirect_mark → IsNamed f r.target
  pub elf : (t : Bytes) → f.elf_relocs r.func r.offset ≡ some t → t ≡ r.target

module _ (f : File) (w : Place) (r : Reloc) where
  check_reloc_place-IsPlaced :
      (fn : Option Func)
      → find_func r.func f.tables.funcs ≡ fn
      → check_reloc_place w r fn ≡ []
      → check_call w r fn ≡ []
      → IsPlaced f r
  unfolding check_reloc_place check_call
  check_reloc_place-IsPlaced none e hp hc = cc
  check_reloc_place-IsPlaced (some fn) e hp hc = record {
    func = fn;
    found = e;
    inside = λ small. ground arith;
    safepoint = λ small flag. ground (arith, gc_has→GcHas (reloc_end r) fn.gc);
  }

  elf_sound : (o : Option Bytes) (t : Bytes) → check_elf w r o ≡ [] → o ≡ some t → t ≡ r.target
  unfolding check_elf
  elf_sound none t h e = cc
  elf_sound (some u) t h e = ground (arith, bytes_eq→eq u r.target)

  width_sound :
      check_width w r ≡ []
      → r.kind ≢ RelocKind.call_indirect_mark
      → (r.width ≡ 1) ⊎ (r.width ≡ 2) ⊎ (r.width ≡ 4) ⊎ (r.width ≡ 8)
  unfolding check_width
  width_sound h k = ground arith

  length_sound :
      check_width w r ≡ [] → r.kind ≡ RelocKind.call_indirect_mark → (0 < r.width) × (r.width ≤ 15)
  unfolding check_width
  length_sound h k = ground arith

-- A relocation with no violation: stated without the wrap-around of `offset + width`.
check_reloc-IsRelocOf : (f : File) (i : ℕ) (r : Reloc) → check_reloc f i r ≡ [] → IsRelocOf f r
unfolding check_reloc
check_reloc-IsRelocOf f i r h =
    let w = Place.reloc i in
    let (hp, h₁) = (append-eq-nil _ _).0 h in
    let (hw, h₂) = (append-eq-nil _ _).0 h₁ in
    let (hk, h₃) = (append-eq-nil _ _).0 h₂ in
    let (hn, h₄) = (append-eq-nil _ _).0 h₃ in
    let (he, hc) = (append-eq-nil _ _).0 h₄ in
    record {
      placed = check_reloc_place-IsPlaced f w r _ refl hp hc;
      kind = ground arith;
      call_length = length_sound f w r hw;
      width = width_sound f w r hw;
      target = λ k. check_name-IsNamed f w r.target (ground arith);
      elf = λ t. elf_sound f w r _ t he;
    }

-- When `Verify` finds nothing in the relocations, each names a function of the file, has a kind and a
-- width that fit, has a named target that is the ELF relocation's where there is one, and, unless
-- `offset + width` wraps around 2 ^ 64, ends inside the function, at a safepoint if it is flagged as one.
-- A CALL_INDIRECT_MARK has a call length in place of a width and no target.
pub check_relocs-IsRelocOf :
    (f : File) (i : ℕ) (rs : List Reloc) → check_relocs f i rs ≡ [] → All (IsRelocOf f) rs
unfolding check_relocs
check_relocs-IsRelocOf f i [] h = tt
check_relocs-IsRelocOf f i (r ∷ rs) h =
    let (hr, hs) = (append-eq-nil _ _).0 h in
    (check_reloc-IsRelocOf f i r hr, check_relocs-IsRelocOf f (i + 1) rs hs)

-- An offset below 2 ^ 64 whose end is not wraps: the range check passes a relocation that begins behind
-- the end of its function, if the function has `width` bytes.
pub check_reloc_place_wraps :
    (w : Place) (r : Reloc) (fn : Func)
    → r.offset < 2 ^ 64
    → 2 ^ 64 ≤ r.offset + r.width
    → r.width ≤ fn.text_size
    → fn.text_size < r.offset
    → (check_reloc_place w r (some fn) ≡ []) × (fn.text_size < r.offset + r.width)
unfolding check_reloc_place
check_reloc_place_wraps w r fn ho hw ht hb = (ground arith, ground arith)

-- NLocals * 8 wraps too: a map of a multiple of 2 ^ 61 locals passes the frame check on every frame,
-- and only its safepoints are checked.
pub check_gc_wraps :
    (w : Place) (fn : Func) (g : GcMap) (k : ℕ)
    → g.nlocals ≡ k * 2 ^ 61
    → check_gc w 8 fn (some g) ≡ check_safepoints w fn.text_size none g.safepoints
unfolding check_gc
check_gc_wraps w fn g k e = ground arith
