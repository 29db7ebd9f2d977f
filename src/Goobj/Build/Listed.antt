-- ===== src/Goobj/Build/Listed.antt =====
-- Text and Data list each symbol at most once, and `onList` says which.
use goc.Prelude.{
  ℕ, suc, ◌+◌, ◌≤◌, ◌<◌, ◌≡◌, refl, sym, ap, ◌∙◌, arith, Bool, true, false, ◌||◌, ◌==◌,
  if◌then◌else◌, Option-cases, inl, inr, ◌↔◌, bytes_eq,
}
use goc.Prelude.{Option, none, some, List, [], ◌∷◌, ◌++◌}
use goc.Gocobj.Codec.{Bytes}
use goc.Gometa.{Meta, find}
use goc.Goobj.Link.{
  Sym, Link, LinkError, Fallible, done, failed, panicked, new_link, lookup_abi, looked_up, intern,
  is_func, names_in, new_sym, alloc, add_file, added_file, globl, set, write_int, write_bytes,
  add_rel, prepwrite, FuncInfo, globl_sym,
}
use goc.Goobj.Text.{
  put_slot, is_some, text_sym, init_text, funcdata, pcdata, pctab, pcsym, pc_table,
}
use goc.Goobj.Build.{
  BuildStep, name_looked_up, file_added, data_declared, text_made, bytes_written, int_written,
  related, funcdata_set, pcdata_noted, table_made, Built, opened, stepped,
}

abbrev pub count : ℕ → List ℕ → ℕ
count a [] = 0
count a (x ∷ xs) = if a == x then suc (count a xs) else count a xs

abbrev pub times_listed : ℕ → Link → ℕ
times_listed a l = count a l.text + count a l.data_syms

pub record Listed (l : Link) : Type 0 where
  pub listed : (a : ℕ) → times_listed a l ≡ (if (l.heap a).on_list then 1 else 0)
  pub fresh : (a : ℕ) → l.next ≤ a → (l.heap a).on_list ≡ false

count-append :
    (a x : ℕ) (xs : List ℕ) → count a (xs ++ (x ∷ [])) ≡ count a xs + (if a == x then 1 else 0)
count-append a x [] = ground arith
count-append a x (y ∷ ys) = ground (arith, count-append a x ys)

-- A step that lists nothing and marks nothing.
unlisted_step :
    (l l' : Link)
    → l'.text ≡ l.text
    → l'.data_syms ≡ l.data_syms
    → ((a : ℕ) → (l'.heap a).on_list ≡ (l.heap a).on_list)
    → l.next ≤ l'.next
    → Listed l
    → Listed l'
unlisted_step l l' text data_syms same le h = record {
  listed = λ a. rw (text, data_syms, same a) (h.listed a);
  fresh = λ a far. rw (same a) (h.fresh a (omega (arith, le, far)));
}

set-on_list :
    (a : ℕ) (s : Sym) (l : Link)
    → s.on_list ≡ (l.heap a).on_list
    → (b : ℕ) → ((set a s l).heap b).on_list ≡ (l.heap b).on_list
set-on_list a s l same b = ground (arith, same)

set-Listed :
    (a : ℕ) (s : Sym) (l : Link) → s.on_list ≡ (l.heap a).on_list → Listed l → Listed (set a s l)
set-Listed a s l same h =
    unlisted_step l (set a s l) refl refl (set-on_list a s l same) (omega arith) h

alloc-Listed : (s : Sym) (l : Link) → s.on_list ≡ false → Listed l → Listed (alloc s l).1
alloc-Listed s l new h =
    unlisted_step l (alloc s l).1 refl refl
      (set-on_list l.next s l (new ∙ sym (h.fresh l.next (omega arith)))) (omega arith) h

intern-Listed : (f : Bool) (name : Bytes) (a : ℕ) (l : Link) → Listed l → Listed (intern f name a l)
intern-Listed true name a l h = record { listed = h.listed; fresh = h.fresh }
intern-Listed false name a l h = record { listed = h.listed; fresh = h.fresh }

looked_up-Listed :
    (o : Option ℕ) (name : Bytes) (abi : ℕ) (l : Link)
    → Listed l
    → Listed (looked_up o name abi l).1
looked_up-Listed none name abi l h =
    intern-Listed (is_func abi) name l.next (alloc (new_sym name abi) l).1
      (alloc-Listed (new_sym name abi) l refl h)
looked_up-Listed (some a) name abi l h = h

added_file-Listed :
    (o : Option ℕ) (name : Bytes) (l : Link) → Listed l → Listed (added_file o name l).1
added_file-Listed none name l h = record { listed = h.listed; fresh = h.fresh }
added_file-Listed (some i) name l h = h

-- A symbol that was not listed is marked and put at the end of one of the lists.
marked_step :
    (a : ℕ) (s : Sym) (l l' : Link)
    → a < l.next
    → (l.heap a).on_list ≡ false
    → s.on_list ≡ true
    → l'.next ≡ l.next
    → ((b : ℕ) → l'.heap b ≡ (set a s l).heap b)
    → ((b : ℕ) → times_listed b l' ≡ times_listed b l + (if b == a then 1 else 0))
    → Listed l
    → Listed l'
marked_step a s l l' lt off on next heap times h = record {
  listed = λ b. ground (arith, times b, heap b, h.listed b, off, on);
  fresh = λ b far. ground (arith, heap b, h.fresh b, next, lt, far);
}

value_or {ℓ} : {A : Type ℓ} → A → Fallible A → A
value_or d (done a) = a
value_or d (failed e) = d
value_or d panicked = d

pub done_injective {ℓ} : {A : Type ℓ} (a b : A) → done a ≡ done b → a ≡ b
unfolding value_or
done_injective a b e = ap (value_or a) e

-- An `if` that returns an error was not taken.
went_on {ℓ} :
    {A : Type ℓ} (b : Bool) (err : LinkError) (m : Fallible A) (a : A)
    → (if b then failed err else m) ≡ done a
    → (b ≡ false) × (m ≡ done a)
went_on true err m a h = absurd (ground arith)
went_on false err m a h = (refl, h)

globl-Listed :
    (a size flag : ℕ) (l l' : Link)
    → a < l.next
    → globl a size flag l ≡ done l'
    → Listed l
    → Listed l'
unfolding globl
globl-Listed a size flag l l' lt e h =
    let s' = globl_sym size flag (l.heap a) in
    let m : Link = record (set a s' l) { data_syms = l.data_syms ++ (a ∷ []) } in
    let r = went_on (l.heap a).on_list LinkError.redeclared (done m) l' e in
    rw (← done_injective m l' r.1) (
      marked_step a s' l m lt r.0 refl refl (λ b. refl)
        (λ b. omega (arith, count-append b a l.data_syms)) h)

init_text-Listed :
    (a flag : ℕ) (l l' : Link) → a < l.next → init_text a flag l ≡ done l' → Listed l → Listed l'
unfolding init_text
init_text-Listed a flag l l' lt e h =
    let s' = text_sym l flag (l.heap a) in
    let m : Link = record (set a s' l) { text = l.text ++ (a ∷ []) } in
    let r =
      went_on (is_some (l.heap a).func || (l.heap a).on_list) LinkError.redeclared (done m) l' e in
    rw (← done_injective m l' r.1) (
      marked_step a s' l m lt (ground (arith, r.0)) refl refl (λ b. refl)
        (λ b. omega (arith, count-append b a l.text)) h)

on_func-Listed :
    (a : ℕ) (o : Option FuncInfo) (f : FuncInfo → FuncInfo) (l l' : Link)
    → (elim o [
      | none ↦ panicked
      | some fn ↦ done (set a (record (l.heap a) { func = some (f fn) }) l)
    ])
      ≡ done l'
    → Listed l
    → Listed l'
on_func-Listed a none f l l' e h = absurd (ground arith)
on_func-Listed a (some fn) f l l' e h =
    rw (← done_injective _ l' e) (set-Listed a (record (l.heap a) { func = some (f fn) }) l refl h)

write_bytes-on_list : (off : ℕ) (b : Bytes) (s : Sym) → (write_bytes off b s).on_list ≡ s.on_list
unfolding write_bytes prepwrite
write_bytes-on_list off [] s = refl
write_bytes-on_list off (b ∷ bs) s = refl

write_int-on_list :
    (off siz v : ℕ) (s s' : Sym) → write_int off siz v s ≡ some s' → s'.on_list ≡ s.on_list
unfolding write_int prepwrite
write_int-on_list off siz v s s' e = ground (arith, e)

step-Listed : {l l' : Link} → BuildStep l l' → Listed l → Listed l'
unfolding lookup_abi add_file add_rel funcdata pcdata pctab pcsym
step-Listed (name_looked_up name abi l) h =
    looked_up-Listed (find (names_in (is_func abi) l) name) name abi l h
step-Listed (file_added name l) h = added_file-Listed (find l.file_idx name) name l h
step-Listed (data_declared a size flag l l' lt e) h = globl-Listed a size flag l l' lt e h
step-Listed (text_made a flag l l' lt e) h = init_text-Listed a flag l l' lt e h
step-Listed (bytes_written a off b l) h =
    set-Listed a (write_bytes off b (l.heap a)) l (write_bytes-on_list off b (l.heap a)) h
step-Listed (int_written a off siz v s l e) h =
    set-Listed a s l (write_int-on_list off siz v (l.heap a) s e) h
step-Listed (related a r l) h = set-Listed a (add_rel r (l.heap a)) l refl h
step-Listed (funcdata_set a idx d l l' e) h =
    on_func-Listed a (l.heap a).func
      (λ fn. record fn { funcdata_progs = put_slot fn.funcdata_progs idx d }) l l' e h
step-Listed (pcdata_noted a l l' e) h =
    on_func-Listed a (l.heap a).func (λ fn. record fn { pcdata_prog = true }) l l' e h
step-Listed (table_made p l) h = alloc-Listed (pc_table p) l refl h

opened-Listed :
    (m : Meta) (arch pkgpath : Bytes) (l : Link) → new_link m arch pkgpath ≡ done l → Listed l
unfolding new_link
opened-Listed m arch pkgpath l e = elim (Option-cases (find m.arch arch)) [
  | inl x ↦ absurd (ground (arith, (rw (x, new_link) at e)))
  | inr (ar, x) ↦
      let r =
        went_on (bytes_eq pkgpath []) LinkError.empty_package_path _ l (rw (x, new_link) at e) in
      rw (← done_injective _ l r.1) (record { listed = λ a. refl; fresh = λ a far. refl })
]

-- However an object is built, the lists of TEXT and DATA symbols together hold each symbol at most once:
-- once when its mark says so and otherwise not at all; and no address that is yet to be allocated is listed.
pub Built-Listed : {l : Link} → Built l → Listed l
Built-Listed (opened m arch pkgpath l e) = opened-Listed m arch pkgpath l e
Built-Listed (stepped b s) = step-Listed s (Built-Listed b)

-- In an object so built, `Globl` returns an error exactly for the symbols that a list already holds.
pub globl-redeclared :
    {l : Link}
    → Built l
    → (a size flag : ℕ)
    → (globl a size flag l ≡ failed LinkError.redeclared) ↔ (times_listed a l ≡ 1)
unfolding globl
globl-redeclared {l} b a size flag = let h = (Built-Listed b).listed a in ground (arith, h)
