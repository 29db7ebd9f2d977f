-- ===== src/Goobj/Write/Appends.antt =====
-- The loops of `Write` (internal/goobj/write.go) over relocations, auxiliary symbols and contents: what they leave alone.
use goc.Prelude.{
  ℕ, zero, suc, ◌+◌, ◌-◌, ◌≤◌, ◌≡◌, ◌≢◌, refl, sym, ap, ◌∙◌, arith, false, Bool-cases, Option-cases,
  inl, inr, ◌⊎◌, bytes_eq, bytes_eq→eq, bytes_eq_self, codes, if◌then◌else◌, append-nil,
  append_assoc, Option, none, some, List, [], ◌∷◌, ◌++◌, get_elem?,
}
use goc.Gocobj.Codec.{Bytes}
use goc.Gometa.{find}
use goc.Goobj.Le.{le_bytes}
use goc.Goobj.Link.{Link, Reloc, Fallible, done, failed, panicked, ◌>>=◌}
use goc.Goobj.Build.Listed.{done_injective}
use goc.Goobj.Write.{Writer, put, off, put_u32, put_ref, sym_ref, AuxEnt}
use goc.Goobj.Write.Object.{
  block_index, find_block, Out, or_first, set_at, mark, on_writer, each_sym, reloc_type, put_reloc,
  put_relocs, put_aux,
}

-- A result that is there was made of one that was there.
pub done_bind {ℓ κ} :
    {A : Type ℓ} {B : Type κ} (m : Fallible A) (k : A → Fallible B) (b : B)
    → (m >>= k) ≡ done b
    → (a : A) × (m ≡ done a) × (k a ≡ done b)
done_bind (done a) k b h = (a, refl, h)
done_bind (failed e) k b h = absurd (ground arith)
done_bind panicked k b h = absurd (ground arith)

pub record Appends (w w' : Writer) : Type 0 where
  pub more : Bytes
  pub eq : w'.b ≡ w.b ++ more

pub Appends-refl : (w : Writer) → Appends w w
Appends-refl w = record { more = []; eq = sym (append-nil w.b) }

pub Appends-trans : (w w' w'' : Writer) → Appends w w' → Appends w' w'' → Appends w w''
Appends-trans w w' w'' p q = record {
  more = p.more ++ q.more;
  eq = q.eq ∙ ap (λ (t : Bytes). t ++ q.more) p.eq ∙ append_assoc w.b p.more q.more;
}

pub put-Appends : (bs : Bytes) (w : Writer) → Appends w (put bs w)
put-Appends bs w = record { more = bs; eq = refl }

pub done-Appends : (w v w' : Writer) → done v ≡ done w' → Appends w v → Appends w w'
done-Appends w v w' h p = rw (done_injective _ _ h) at p

pub each_sym-Appends {ℓ} :
    {A : Type ℓ} (f : A → Writer → Fallible Writer)
    → ((a : A) (w w' : Writer) → f a w ≡ done w' → Appends w w')
    → (xs : List A) (w w' : Writer) → each_sym f xs w ≡ done w'
    → Appends w w'
unfolding each_sym
each_sym-Appends f each [] w w' h = done-Appends w w w' h (Appends-refl w)
each_sym-Appends f each (x ∷ xs) w w' h =
    let (v, e, rest) = done_bind (f x w) (each_sym f xs) w' h in
    Appends-trans w v w' (each x w v e) (each_sym-Appends f each xs v w' rest)

put_ref-Appends : (l : Link) (a : Option ℕ) (w w' : Writer) → put_ref l a w ≡ done w' → Appends w w'
unfolding put_ref
put_ref-Appends l a w w' h =
    let (r, e, rest) = done_bind (sym_ref l a) (λ r. done (put_u32 r.1 (put_u32 r.0 w))) w' h in
    done-Appends w _ w' rest (
      Appends-trans w (put_u32 r.0 w) _ (put-Appends (le_bytes 4 r.0) w)
        (put-Appends (le_bytes 4 r.1) (put_u32 r.0 w)))

put_reloc-Appends :
    (l : Link) (r : Reloc) (w w' : Writer) → put_reloc l r w ≡ done w' → Appends w w'
unfolding put_reloc
put_reloc-Appends l r w w' h =
    let (t, e, rest) = done_bind (reloc_type (find l.meta.relocs r.type)) _ w' h in
    let bs = le_bytes 4 r.off ++ (le_bytes 1 r.siz ++ (le_bytes 2 t ++ le_bytes 8 r.add)) in
    Appends-trans w (put bs w) w' (put-Appends bs w) (put_ref-Appends l r.sym (put bs w) w' rest)

pub put_relocs-Appends :
    (l : Link) (a : ℕ) (w w' : Writer) → put_relocs l a w ≡ done w' → Appends w w'
unfolding put_relocs
put_relocs-Appends l a w w' h = each_sym-Appends (put_reloc l) (put_reloc-Appends l) _ w w' h

pub put_aux-Appends :
    (l : Link) (e : AuxEnt) (w w' : Writer) → put_aux l e w ≡ done w' → Appends w w'
unfolding put_aux
put_aux-Appends l e w w' h =
    Appends-trans w _ w' (put-Appends (le_bytes 1 e.type) w) (put_ref-Appends l e.sym _ w' h)

pub on_writer-done :
    (f : Writer → Fallible Writer) (o o' : Out)
    → on_writer f o ≡ done o'
    → (w : Writer) × (f o.w ≡ done w) × (o' ≡ record o { w = w })
on_writer-done f o o' h =
    let (w, e, rest) = done_bind (f o.w) (λ w. done (record o { w = w })) o' h in
    (w, e, sym (done_injective _ _ rest))

-- The index that a name is found at holds the name.
block_index-get :
    (bs : List Bytes) (name : Bytes) (i k : ℕ) (found : Option ℕ)
    → block_index bs name i found ≡ some k
    → (found ≡ some k) ⊎ ((i ≤ k) × (get_elem? bs (k - i) ≡ some name))
unfolding block_index
block_index-get [] name i k found h = inl h
block_index-get (b ∷ bs) name i k found h =
    elim (block_index-get bs name (i + 1) k (if bytes_eq b name then some i else found) h) [
      | inl e ↦ elim (Bool-cases (bytes_eq b name)) [
        | inl t ↦
            let here : some i ≡ some k = rw t at e in
            let same : i ≡ k = ground (arith, here) in
            let z : k - i ≡ 0 = omega (arith, same) in
            inr (omega (arith, same), rw (z, bytes_eq→eq b name t) refl)
        | inr f ↦ inl (rw f at e)
      ]
      | inr g ↦
          let next : k - i ≡ suc (k - (i + 1)) = omega (arith, g.0) in
          inr (omega (arith, g.0), rw next g.1)
    ]

pub find_block-get :
    (l : Link) (name : Bytes) (k : ℕ)
    → find_block l name ≡ some k
    → get_elem? l.meta.object.blocks k ≡ some name
find_block-get l name k h = elim (block_index-get l.meta.object.blocks name 0 k none h) [
  | inl e ↦ absurd (ground (arith, e))
  | inr g ↦ let z : k - 0 ≡ k = omega arith in rw z at g.1
]

get-set_at_same : (i v : ℕ) (xs : List ℕ) {x : ℕ} → get_elem? (set_at i v xs) i ≡ some x → x ≡ v
get-set_at_same i v [] h = absurd (ground arith)
get-set_at_same zero v (y ∷ xs) h = ground (arith, h)
get-set_at_same (suc i) v (y ∷ xs) h = get-set_at_same i v xs h

get-set_at_other : (i k v : ℕ) (xs : List ℕ) → i ≢ k → get_elem? (set_at i v xs) k ≡ get_elem? xs k
get-set_at_other i k v [] ne = refl
get-set_at_other zero zero v (y ∷ xs) ne = absurd (ne refl)
get-set_at_other zero (suc k) v (y ∷ xs) ne = refl
get-set_at_other (suc i) zero v (y ∷ xs) ne = refl
get-set_at_other (suc i) (suc k) v (y ∷ xs) ne = get-set_at_other i k v xs (λ e. ne (ap suc e))

-- A mark is the place that is recorded for its block.
pub mark-same :
    (l : Link) (name : Bytes) (o : Out) (k x : ℕ)
    → find_block l name ≡ some k
    → get_elem? (mark l name o).offsets k ≡ some x
    → x ≡ off o.w
unfolding mark
mark-same l name o k x e h = get-set_at_same k (off o.w) o.offsets (rw e at h)

different_names : {a b : Bytes} → bytes_eq a b ≡ false → ¬ (some a ≡ some b)
different_names {a} {b} differs e =
    let same : a ≡ b = ground (arith, e) in ground (arith, bytes_eq_self b, (rw same at differs))

-- Of another block it says nothing. A block that is missing counts as the first.
pub mark-other :
    (l : Link) (name mine : Bytes) (o : Out) (k : ℕ)
    → get_elem? l.meta.object.blocks 0 ≡ some (codes "Autolib")
    → find_block l mine ≡ some k
    → bytes_eq mine (codes "Autolib") ≡ false
    → bytes_eq mine name ≡ false
    → get_elem? (mark l name o).offsets k ≡ get_elem? o.offsets k
unfolding mark
mark-other l name mine o k first e no_autolib differs =
    let own = find_block-get l mine k e in
    get-set_at_other (or_first (find_block l name)) k (off o.w) o.offsets
      (elim (Option-cases (find_block l name)) [
        | inl n ↦ rw n (λ z.
            let same : some mine ≡ some (codes "Autolib") = sym (rw (← z) at own) ∙ first in
            different_names no_autolib same)
        | inr (i, n) ↦ rw n (λ z.
            let same : some mine ≡ some name = sym (rw (← z) at own) ∙ find_block-get l name i n in
            different_names differs same)
      ])
