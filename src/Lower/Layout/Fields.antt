-- ===== src/Lower/Layout/Fields.antt =====
-- The layout of an aggregate: its fields are in order, aligned, apart and inside.
use goc.Prelude.{ℕ, suc, ◌+◌, ◌*◌, ◌%◌, ◌^◌, ◌≤◌, ◌<◌, ◌≡◌, ◌≢◌, inl, inr, refl, ap, arith}
use goc.Prelude.{Bool, true, false, some, List, [], ◌∷◌, length, All, Option-cases, Bool-cases}
use goc.Prelude.{ltb, if◌then◌else◌, ◌&&◌, codes}
use goc.Prelude.{◌++◌, drop, length-drop}
use goc.Lower.Types.{split_loop, split_top_level, trim_left, trim_right, trim_space, drop_space}
use goc.Lower.Types.{pop_match, opener, last_part}
use goc.Lower.Layout.{but_last, body_fields}
use goc.Lower.Types.{Text, ScalarInfo, scalar, has_prefix}
use goc.Lower.Layout.{FieldLay, AggLay, Res, ok, unsupported, panicked, ◌>>=◌, align_up}
use goc.Lower.Layout.{lay_fields, crosses, repeats, contains, first_eightbyte, last_eightbyte}
use goc.Lower.Layout.{finish_layout, layout_of_fields, aggregate_layout, ends_with}
use goc.Lower.Layout.Align.{IsAlign, Aligned, align_up-Aligned, scalar_shape}

pub >>=-eq-ok {ℓ κ} :
    {A : Type ℓ} {B : Type κ} (r : Res A) (k : A → Res B) {end : B}
    → (r >>= k) ≡ ok end
    → (x : A) × (r ≡ ok x) × (k x ≡ ok end)
>>=-eq-ok (ok x) k h = (x, refl, h)
>>=-eq-ok (unsupported why) k h = cc
>>=-eq-ok panicked k h = cc

pub >>=-ne-panicked {ℓ κ} :
    {A : Type ℓ} {B : Type κ} (m : Res A) (f : A → Res B)
    → m ≢ panicked
    → ((a : A) → m ≡ ok a → f a ≢ panicked)
    → (m >>= f) ≢ panicked
>>=-ne-panicked (ok a) f h g = g a refl
>>=-ne-panicked (unsupported r) f h g = λ e. cc
>>=-ne-panicked panicked f h g = absurd (h refl)

-- The fields stand behind `from`, each behind the one before and at a multiple of its size, which is
-- its alignment; the last one ends at `end`.
abbrev pub Laid : ℕ → List FieldLay → ℕ → Type 0
Laid from [] end = from ≡ end
Laid from (f ∷ fs) end =
    (from ≤ f.offset) × (f.offset % f.size ≡ 0) × IsAlign f.size × Laid (f.offset + f.size) fs end

pub Laid-le : (from : ℕ) (fs : List FieldLay) (end : ℕ) → Laid from fs end → from ≤ end
Laid-le from [] end h = omega arith
Laid-le from (f ∷ fs) end h = omega (arith, Laid-le (f.offset + f.size) fs end h.3)

IsAlign-max : (a b : ℕ) → IsAlign a → IsAlign b → IsAlign (if ltb a b then b else a)
IsAlign-max a b ha hb = elim (Bool-cases (ltb a b)) [ inl e ↦ rw e hb | inr e ↦ rw e ha ]

small_align : (a : ℕ) → IsAlign a → (0 < a) × (a ≤ 8)
small_align a h = (omega arith, omega arith)

pub record LaidAs (from : ℕ) (tys : List Text) (r : List FieldLay × ℕ × ℕ) : Type 0 where
  pub laid : Laid from r.0 r.1
  pub align : IsAlign r.2
  pub count : length r.0 ≡ length tys
  pub bound : r.1 ≤ from + 16 * length tys

module _ (info : ScalarInfo) (from align : ℕ) (tys : List Text)
    (room : from + 16 * suc (length tys) < 2 ^ 63)
    (shape : IsAlign info.align × (info.size ≡ info.align)) where
  -- The place of one field.
  field_place : Aligned from info.size (align_up from info.align)
  field_place = rw (shape.1) (align_up-Aligned from info.align shape.0 (omega arith))

pub lay_fields_lem :
    (tys : List Text) (from align : ℕ) {r : List FieldLay × ℕ × ℕ}
    → IsAlign align
    → from + 16 * length tys < 2 ^ 63
    → lay_fields from align tys ≡ ok r
    → LaidAs from tys r
unfolding lay_fields
lay_fields_lem [] from align {r} ha room h =
    let e : r ≡ ([], from, align) = ground arith in
    rw e (record { laid = refl; align = ha; count = refl; bound = omega arith })
lay_fields_lem (ty ∷ tys) from align {r} ha room h = elim (Option-cases (scalar ty)) [
  | inl e ↦ cc (rw (e, lay_fields) at h)
  | inr (info, e) ↦
      let shape = scalar_shape ty info e in
      let p = field_place info from align tys room shape in
      let at = align_up from info.align in
      let (rest, he, hr) =
        >>=-eq-ok (lay_fields (at + info.size) _ tys) _ (rw (e, lay_fields) at h) in
      let (pos_size, small_size) = small_align info.align shape.0 in
      let q =
        lay_fields_lem tys (at + info.size) _ (IsAlign-max align info.align ha shape.0)
          (omega (arith, p.near, shape.1)) he in
      let f : FieldLay = record { type = ty; bank = info.bank; size = info.size; offset = at } in
      let eq : r ≡ (f ∷ rest.0, rest.1, rest.2) = ground arith in
      rw eq (record {
        laid = (p.above, p.multiple, rw (shape.1) (shape.0), q.laid);
        align = q.align;
        count = ap suc q.count;
        bound = omega (arith, q.bound, p.near, shape.1);
      })
]

-- No field crosses an eightbyte, and no two share one.
abbrev pub OneEach : List ℕ → List FieldLay → Type 0
OneEach seen [] = Unit
OneEach seen (f ∷ fs) =
    (first_eightbyte f ≡ last_eightbyte f)
    × All (λ e. e ≢ first_eightbyte f) seen
    × OneEach (first_eightbyte f ∷ seen) fs

not_contained : (a : ℕ) (xs : List ℕ) → contains a xs ≡ false → All (λ e. e ≢ a) xs
not_contained a [] h = tt
not_contained a (x ∷ xs) h = (ground arith, not_contained a xs (ground arith))

one_each :
    (seen : List ℕ) (fs : List FieldLay)
    → crosses fs ≡ false
    → repeats seen fs ≡ false
    → OneEach seen fs
unfolding crosses repeats
one_each seen [] hc hr = tt
one_each seen (f ∷ fs) hc hr = (
  ground arith,
  not_contained (first_eightbyte f) seen (ground arith),
  one_each (first_eightbyte f ∷ seen) fs (ground arith) (ground arith),
)

-- What `aggregateLayout` promises of a layout.
pub record IsLayout (limit : Bool) (agg : AggLay) : Type 0 where
  pub end : ℕ
  pub laid : Laid 0 agg.fields end
  pub align : IsAlign agg.alignment
  pub size : Aligned end agg.alignment agg.size
  pub one_each : OneEach [] agg.fields
  pub limited : limit ≡ true → agg.size ≤ 16

finish_lem :
    (limit : Bool) (tys : List Text) (r : List FieldLay × ℕ × ℕ) {agg : AggLay}
    → LaidAs 0 tys r
    → 16 * length tys < 2 ^ 63
    → finish_layout limit r ≡ ok (some agg)
    → IsLayout limit agg
unfolding finish_layout
finish_lem limit tys (laid, end, align) {agg} l room h =
    let size = align_up end align in
    let eq : agg ≡ record { fields = laid; size = size; alignment = align } = ground arith in
    rw eq (record {
      end = end;
      laid = l.laid;
      align = l.align;
      size = align_up-Aligned end align l.align (omega (arith, l.bound));
      one_each = one_each [] laid (ground arith) (ground arith);
      limited = λ e. ground arith;
    })

fields_of_text :
    (limit : Bool) (tys : List Text) {agg : AggLay}
    → 16 * length tys < 2 ^ 63
    → layout_of_fields limit tys ≡ ok (some agg)
    → IsLayout limit agg
fields_of_text limit [] room h = cc
fields_of_text limit (ty ∷ tys) {agg} room h =
    let (r, hl, hf) = >>=-eq-ok (lay_fields 0 1 (ty ∷ tys)) (finish_layout limit) h in
    let l = lay_fields_lem (ty ∷ tys) 0 1 (inl refl) (omega arith) hl in
    finish_lem limit (ty ∷ tys) r l room hf

-- A text has at most as many parts as bytes, and one more.
length-split_loop : (s cur : Text) (stack : List ℕ) → length (split_loop s cur stack) ≤ length s + 1
unfolding split_loop
length-split_loop [] cur stack = last (trim_space cur)
  where
    last : (t : Text) → length (last_part t) ≤ 0 + 1
    last [] = omega arith
    last (c ∷ cs) = omega arith
length-split_loop (c ∷ cs) cur stack = ground (
  arith,
  length-split_loop cs (cur ++ (c ∷ [])) (c ∷ stack),
  length-split_loop cs (cur ++ (c ∷ [])) (pop_match (opener c) stack),
  length-split_loop cs [] stack,
  length-split_loop cs (cur ++ (c ∷ [])) stack,
)

length-trim_left : (s : Text) → length (trim_left s) ≤ length s
unfolding trim_left
length-trim_left [] = omega arith
length-trim_left (c ∷ cs) = ground (arith, length-trim_left cs)

length-drop_space : (c : ℕ) (s : Text) → length (drop_space c s) ≤ length s + 1
length-drop_space c [] = ground arith
length-drop_space c (d ∷ ds) = omega arith

length-trim_right : (s : Text) → length (trim_right s) ≤ length s
unfolding trim_right
length-trim_right [] = omega arith
length-trim_right (c ∷ cs) =
    omega (arith, length-trim_right cs, length-drop_space c (trim_right cs))

length-but_last : (s : Text) → length (but_last s) ≤ length s
unfolding but_last
length-but_last [] = omega arith
length-but_last (c ∷ []) = omega arith
length-but_last (c ∷ d ∷ s) = omega (arith, length-but_last (d ∷ s))

length-body_fields : (s : Text) → length (body_fields s) ≤ length s + 1
unfolding split_top_level
length-body_fields [] = omega arith
length-body_fields (c ∷ cs) = length-split_loop (c ∷ cs) [] []

length-trim_space : (s : Text) → length (trim_space s) ≤ length s
unfolding trim_space
length-trim_space s = omega (arith, length-trim_right (trim_left s), length-trim_left s)

-- An aggregate that `aggregateLayout` accepts has its fields in order and apart, each at a multiple of
-- its size, none across an eightbyte and no two in one, a size that is the least multiple of the
-- alignment behind the last field, and as a result at most 16 bytes. The text has less than 2 ^ 58 bytes.
pub aggregate_layout-IsLayout :
    (ty : Text) (limit : Bool) {agg : AggLay}
    → length ty < 2 ^ 58
    → aggregate_layout ty limit ≡ ok (some agg)
    → IsLayout limit agg
unfolding aggregate_layout
aggregate_layout-IsLayout ty limit {agg} small h =
    let inner = but_last (drop 1 ty) in
    let room : 16 * length (body_fields (trim_space inner)) < 2 ^ 63 = omega (
      arith,
      length-body_fields (trim_space inner),
      length-trim_space inner,
      length-but_last (drop 1 ty),
      length-drop 1 ty,
    ) in
    elim (Bool-cases (has_prefix ty (codes "<{"))) [
      | inl p ↦ cc (rw (p, aggregate_layout) at h)
      | inr p ↦ elim (Bool-cases (has_prefix ty (codes "{") && ends_with ty b'}')) [
        | inl q ↦ fields_of_text limit (body_fields (trim_space inner)) room (rw (p, q) at h)
        | inr q ↦ cc (rw (p, q) at h)
      ]
    ]
