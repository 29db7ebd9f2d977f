-- ===== src/Goobj/Number/Traverse.antt =====
-- What a traversal keeps: every property that its callback and the lookups of file symbols keep.
use goc.Prelude.{
  ℕ, Bool, true, false, ◌&&◌, if◌then◌else◌, Option-cases, inl, inr, Option, none, some, List, [],
  ◌∷◌, get_elem?, ◌==◌,
}
use goc.Gocobj.Codec.{Bytes}
use goc.Goobj.Link.{
  Link, FuncInfo, InlNode, Reloc, Fallible, done, failed, panicked, ◌>>=◌, or_panic, lookup,
}
use goc.Goobj.Text.{sorted_files}
use goc.Goobj.Number.{
  Traversal, is_text, visit, visit_all, visit_relocs, visit_file, visit_files, visit_inl_tree,
  visit_dwarf, traverse_func_aux, visit_pcdata, with_func, traverse_sym, traverse_list, traverse,
}

-- The value, when there is one, has the property.
abbrev pub Returns {ℓ κ} : {A : Type ℓ} → (A → Type κ) → Fallible A → Type κ
Returns P (done a) = P a
Returns P (failed e) = Unit
Returns P panicked = Unit

pub Returns-bind {ℓ κ μ ν} :
    {A : Type ℓ} {B : Type κ} (P : A → Type μ) (Q : B → Type ν) (m : Fallible A)
    (k : A → Fallible B)
    → Returns P m
    → ((a : A) → P a → Returns Q (k a))
    → Returns Q (m >>= k)
Returns-bind P Q (done a) k h g = g a h
Returns-bind P Q (failed e) k h g = tt
Returns-bind P Q panicked k h g = tt

pub Returns-if {ℓ κ} :
    {A : Type ℓ} (P : A → Type κ) (b : Bool) (m n : Fallible A)
    → Returns P m
    → Returns P n
    → Returns P (if b then m else n)
Returns-if P true m n hm hn = hm
Returns-if P false m n hm hn = hn

module _ {A : Type 0} (fn : ℕ → Link × A → Fallible (Link × A)) (P : Link × A → Type 0)
    (keeps : (a : ℕ) (st : Link × A) → P st → Returns P (fn a st))
    (looks_up : (name : Bytes) (l : Link) (acc : A) → P (l, acc) → P ((lookup name l).1, acc)) where
  visit-keeps : (d : Option ℕ) (st : Link × A) → P st → Returns P (visit fn d st)
  visit-keeps none st h = h
  visit-keeps (some a) st h = keeps a st h

  pub visit_all-keeps :
      (ds : List (Option ℕ)) (st : Link × A) → P st → Returns P (visit_all fn ds st)
  unfolding visit_all
  visit_all-keeps [] st h = h
  visit_all-keeps (d ∷ ds) st h =
      Returns-bind P P (visit fn d st) _ (visit-keeps d st h) (λ st'. visit_all-keeps ds st')

  visit_relocs-keeps : (rs : List Reloc) (st : Link × A) → P st → Returns P (visit_relocs fn rs st)
  unfolding visit_relocs
  visit_relocs-keeps [] st h = h
  visit_relocs-keeps (r ∷ rs) st h =
      Returns-bind P P (visit fn r.sym st) _ (visit-keeps r.sym st h)
        (λ st'. visit_relocs-keeps rs st')

  visit_named :
      (o : Option Bytes) (l : Link) (acc : A)
      → P (l, acc)
      → Returns P (or_panic o >>= λ name. fn (lookup name l).0 ((lookup name l).1, acc))
  visit_named none l acc h = tt
  visit_named (some name) l acc h =
      keeps (lookup name l).0 ((lookup name l).1, acc) (looks_up name l acc h)

  visit_file-keeps : (i : ℕ) (st : Link × A) → P st → Returns P (visit_file fn i st)
  unfolding visit_file
  visit_file-keeps i st h = visit_named (get_elem? st.0.files i) st.0 st.1 h

  visit_files-keeps : (is : List ℕ) (st : Link × A) → P st → Returns P (visit_files fn is st)
  unfolding visit_files
  visit_files-keeps [] st h = h
  visit_files-keeps (i ∷ is) st h =
      Returns-bind P P (visit_file fn i st) _ (visit_file-keeps i st h)
        (λ st'. visit_files-keeps is st')

  visit_inl_tree-keeps :
      (ns : List InlNode) (st : Link × A) → P st → Returns P (visit_inl_tree fn ns st)
  unfolding visit_inl_tree
  visit_inl_tree-keeps [] st h = h
  visit_inl_tree-keeps (n ∷ ns) st h =
      Returns-bind P P (visit fn n.func st) _ (visit-keeps n.func st h) (λ st' h'.
        Returns-bind P P
          (if st'.0.meta.writer.inl_file_sym_refs then visit_file fn n.file st' else done st') _
          (Returns-if P st'.0.meta.writer.inl_file_sym_refs _ _ (visit_file-keeps n.file st' h') h')
          (λ st''. visit_inl_tree-keeps ns st''))

  visit_dwarf-keeps :
      (refs : Bool) (d : Option ℕ) (st : Link × A) → P st → Returns P (visit_dwarf fn refs d st)
  unfolding visit_dwarf
  visit_dwarf-keeps refs none st h = h
  visit_dwarf-keeps refs (some a) st h =
      let relocs =
        λ (st' : Link × A). if refs then visit_relocs fn (st'.0.heap a).r st' else done st' in
      Returns-if P ((st.0.heap a).size == 0) (done st) (fn a st >>= relocs) h (
        Returns-bind P P (fn a st) relocs (keeps a st h) (λ st' h'.
          Returns-if P refs (visit_relocs fn (st'.0.heap a).r st') (done st')
            (visit_relocs-keeps (st'.0.heap a).r st' h') h'))

  traverse_func_aux-keeps :
      (refs : Bool) (f : FuncInfo) (st : Link × A)
      → P st
      → Returns P (traverse_func_aux fn refs f st)
  unfolding traverse_func_aux
  traverse_func_aux-keeps refs f st h =
      Returns-bind P P (visit_all fn f.funcdata st) _ (visit_all-keeps f.funcdata st h) (λ st1 h1.
        Returns-bind P P (visit_files fn (sorted_files f.used_files) st1) _
          (visit_files-keeps _ st1 h1)
          (λ st2 h2.
            Returns-bind P P (visit_inl_tree fn f.inl_tree st2) _
              (visit_inl_tree-keeps f.inl_tree st2 h2)
              (λ st3 h3.
                Returns-bind P P (visit_dwarf fn refs f.dwarf_ranges st3) _
                  (visit_dwarf-keeps refs f.dwarf_ranges st3 h3)
                  (λ st4 h4.
                    Returns-bind P P (visit_dwarf fn refs f.dwarf_lines st4) _
                      (visit_dwarf-keeps refs f.dwarf_lines st4 h4)
                      (λ st5. visit_dwarf-keeps refs f.dwarf_info st5)))))

  pub with_func-keeps :
      (a : ℕ) (k : FuncInfo → Link × A → Fallible (Link × A)) (st : Link × A)
      → ((f : FuncInfo) → Returns P (k f st))
      → Returns P (with_func fn a k st)
  with_func-keeps a k st h = elim (Option-cases (st.0.heap a).func) [
    | inl e ↦ rw e tt
    | inr (f, e) ↦ rw e (h f)
  ]

  pub traverse_sym-keeps :
      (flag : Traversal) (a : ℕ) (st : Link × A) → P st → Returns P (traverse_sym fn flag a st)
  unfolding traverse_sym visit_pcdata
  traverse_sym-keeps flag a st h =
      Returns-bind P P (if flag.defs then fn a st else done st) _
        (Returns-if P flag.defs (fn a st) (done st) (keeps a st h) h)
        (λ st1 h1.
          let relocs = visit_relocs fn (st1.0.heap a).r st1 in
          Returns-bind P P (if flag.refs then relocs else done st1) _
            (Returns-if P flag.refs relocs (done st1) (visit_relocs-keeps (st1.0.heap a).r st1 h1)
              h1)
            (λ st2 h2.
              let is_aux = flag.aux && is_text (st2.0.heap a).kind in
              let aux = with_func fn a (traverse_func_aux fn flag.refs) st2 in
              Returns-bind P P (if is_aux then aux else done st2) _
                (Returns-if P is_aux aux (done st2)
                  (with_func-keeps a (traverse_func_aux fn flag.refs) st2
                    (λ f. traverse_func_aux-keeps flag.refs f st2 h2))
                  h2)
                (λ st3 h3.
                  Returns-if P (flag.pcdata && is_text (st3.0.heap a).kind)
                    (with_func fn a (visit_pcdata fn) st3) (done st3)
                    (with_func-keeps a (visit_pcdata fn) st3 (λ f.
                      visit_all-keeps (f.pcsp ∷ f.pcfile ∷ f.pcline ∷ f.pcinline ∷ f.pcdata) st3
                        h3))
                    h3)))

  pub traverse_list-keeps :
      (flag : Traversal) (syms : List ℕ) (st : Link × A)
      → P st
      → Returns P (traverse_list fn flag syms st)
  unfolding traverse_list
  traverse_list-keeps flag [] st h = h
  traverse_list-keeps flag (a ∷ syms) st h =
      Returns-bind P P (traverse_sym fn flag a st) _ (traverse_sym-keeps flag a st h)
        (λ st'. traverse_list-keeps flag syms st')

  pub traverse-keeps : (flag : Traversal) (st : Link × A) → P st → Returns P (traverse fn flag st)
  unfolding traverse
  traverse-keeps flag st h =
      Returns-bind P P (traverse_list fn flag st.0.text st) _
        (traverse_list-keeps flag st.0.text st h)
        (λ st'. traverse_list-keeps flag st.0.data_syms st')
