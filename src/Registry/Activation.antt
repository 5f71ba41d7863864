-- ===== src/Registry/Activation.antt =====
-- Activating a mapping leaves no other active mapping of its model and source.
use altr_stream.Base.{
  Text, text_eq, text_eq_iff, Bool, true, false, ◌&&◌, not, List, [], ◌∷◌, Option, none, some, ◌≡◌,
  refl, sym, subst, ◌∙◌, &&-eq-true,
}
use altr_stream.Base.Result.{Result, ok, err}
use altr_stream.Mapping.{SourceMapping, is_active, is_validated, find}
use altr_stream.Registry.{RegistryError, Store}
use altr_stream.Registry.Repository.{
  filter, selects, get_source_mapping_by_id, list_source_mappings, written, other_mappings,
  store_row, store_mapping,
}
use altr_stream.Registry.Activate.{
  competes, demote, activated, activate_validated, activate_found, activate_if,
  activate_source_mapping,
}
use altr_stream.Registry.OneActive.{clash, OneActive, All-filter, OneActive-filter}
use altr_stream.Registry.Demotion.{
  any, rivals, Covered, Covered-filter, find-test, of_not, After, demote-After,
}

apart_of_rivals :
    (i s s' a g g' : Bool)
    → i ≡ false
    → (s' ≡ true → s ≡ true)
    → (g' ≡ true → g ≡ true)
    → (((not i && s && a) && g) ≡ true → false ≡ true)
    → (a && (g' && s')) ≡ false
apart_of_rivals i s s' false g g' e f k h = refl
apart_of_rivals i s s' true g false e f k h = refl
apart_of_rivals i s false true g true e f k h = refl
apart_of_rivals i s true true g true e f k h = cc (h (rw (e, f refl, k refl) refl))

text_eq_swap : (s t : Text) → text_eq s t ≡ true → text_eq t s ≡ true
text_eq_swap s t h = (text_eq_iff t s).1 (sym ((text_eq_iff s t).0 h))

-- The mapping, once activated, clashes with none of the others that the loop leaves.
activated-apart :
    (m n : SourceMapping)
    → text_eq n.id m.id ≡ false
    → (rivals m n ≡ true → any (λ o. text_eq o.id n.id && competes m o) [] ≡ true)
    → clash (written false (activated m) m) n ≡ false
unfolding clash written any rivals competes activated
activated-apart m n e h =
    apart_of_rivals (text_eq n.id m.id) (text_eq n.source_id m.source_id)
      (text_eq m.source_id n.source_id) (is_active n.status)
      (text_eq n.logical_model_id m.logical_model_id)
      (text_eq m.logical_model_id n.logical_model_id) e (text_eq_swap m.source_id n.source_id)
      (text_eq_swap m.logical_model_id n.logical_model_id) h

store-OneActive :
    (m : SourceMapping) (s : Store)
    → find (λ n. text_eq n.id m.id) s.mappings ≡ some m
    → Covered m [] s.mappings
    → OneActive s.mappings
    → OneActive (store_mapping false (activated m) s).1.mappings
unfolding store_mapping get_source_mapping_by_id store_row other_mappings Covered activated
store-OneActive m s e covered apart =
    subst (λ row. OneActive (store_row false (activated m) row s).1.mappings) (sym e)
      (
        All-filter _ _ (λ n. not (text_eq n.id m.id)) s.mappings
            (λ n t c. activated-apart m n (of_not _ t) c) covered,
        OneActive-filter _ s.mappings apart,
      )

-- The mapping that is activated is the one that is stored under its id.
found_self :
    (mapping_id : Text) (m : SourceMapping) (ms : List SourceMapping)
    → find (λ n. text_eq n.id mapping_id) ms ≡ some m
    → find (λ n. text_eq n.id m.id) ms ≡ some m
found_self mapping_id m ms e =
    subst (λ k. find (λ n. text_eq n.id k) ms ≡ some m)
      (sym ((text_eq_iff m.id mapping_id).0 (find-test (λ n. text_eq n.id mapping_id) ms m e))) e

selects_same : (k v : Text) → text_eq v k ≡ true → selects (some k) v ≡ true
unfolding selects
selects_same [] v h = refl
selects_same (c ∷ k) v h = h

rivals-selects :
    (m n : SourceMapping)
    → rivals m n ≡ true
    → (selects (some m.logical_model_id) n.logical_model_id && selects none n.source_id) ≡ true
unfolding rivals selects
rivals-selects m n r =
    let same =
      ((&&-eq-true (competes m n) (text_eq n.logical_model_id m.logical_model_id)).0 r).1 in
    rw (selects_same m.logical_model_id n.logical_model_id same) refl

-- The end of an activation, where the loop passed or raised.
ended-OneActive :
    (m : SourceMapping) (os : List SourceMapping) (s : Store)
    (out : Result RegistryError (Unit {0}) × Store)
    → find (λ n. text_eq n.id m.id) s.mappings ≡ some m
    → Covered m os s.mappings
    → OneActive s.mappings
    → After m os s out
    → OneActive
        (elim out.0 as (λ _. Result RegistryError SourceMapping × Store) [
          | ok u ↦ store_mapping false (activated m) out.1
          | err e ↦ (err e, out.1)
        ]).1.mappings
ended-OneActive m os s (ok u, t) e covered h a =
    store-OneActive m t (a.same_row ∙ e) (a.covered refl covered) (a.apart h)
ended-OneActive m os s (err x, t) e covered h a = a.apart h

activate_validated-OneActive :
    (m : SourceMapping) (s : Store)
    → find (λ n. text_eq n.id m.id) s.mappings ≡ some m
    → OneActive s.mappings
    → OneActive (activate_validated m s).1.mappings
unfolding activate_validated list_source_mappings
activate_validated-OneActive m s e h =
    let test : SourceMapping → Bool =
      λ n. selects (some m.logical_model_id) n.logical_model_id && selects none n.source_id in
    let os = filter test s.mappings in
    ended-OneActive m os s (demote m os s) e
      (Covered-filter m test s.mappings (λ n r. rivals-selects m n r)) h (demote-After m os s)

-- Activating a mapping keeps it that no two active mappings have the same model and source, also
-- where the call raises.
pub activate_source_mapping-OneActive :
    (mapping_id : Text) (s : Store)
    → OneActive s.mappings
    → OneActive (activate_source_mapping mapping_id s).1.mappings
unfolding activate_source_mapping get_source_mapping_by_id activate_found
activate_source_mapping-OneActive mapping_id s h =
    by_row (find (λ m. text_eq m.id mapping_id) s.mappings) refl
  where
    by_status :
        (b : Bool) (m : SourceMapping)
        → find (λ n. text_eq n.id m.id) s.mappings ≡ some m
        → OneActive (activate_found b m s).1.mappings
    by_status true m e = activate_validated-OneActive m s e h
    by_status false m e = h

    by_row :
        (row : Option SourceMapping)
        → find (λ m. text_eq m.id mapping_id) s.mappings ≡ row
        → OneActive (activate_if mapping_id row s).1.mappings
    by_row none e = h
    by_row (some m) e = by_status (is_validated m.status) m (found_self mapping_id m s.mappings e)
