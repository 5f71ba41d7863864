-- ===== src/Registry/OneActive.antt =====
-- At most one mapping of a model and a source is active.
use altr_stream.Base.{
  text_eq, Bool, true, false, ◌&&◌, List, [], ◌∷◌, Option, none, some, All, ◌≡◌, refl, inl, inr,
  Bool-cases,
}
use altr_stream.Mapping.{SourceMapping, is_active, find}
use altr_stream.Registry.{Store}
use altr_stream.Registry.Repository.{
  filter, get_source_mapping_by_id, written, other_mappings, store_row, store_mapping,
}

-- Both are active, for the same model and source.
unfoldable pub clash : SourceMapping → SourceMapping → Bool
unfolding text_eq
clash m n =
    is_active m.status
    && (is_active n.status
        && (text_eq m.logical_model_id n.logical_model_id && text_eq m.source_id n.source_id))

abbrev pub OneActive : List SourceMapping → Type 0
OneActive [] = Unit {0}
OneActive (m ∷ ms) = All (λ n. clash m n ≡ false) ms × OneActive ms

pub All-filter :
    {A : Type 0} (P Q : A → Type 0) (test : A → Bool) (xs : List A)
    → ((x : A) → test x ≡ true → P x → Q x)
    → All P xs
    → All Q (filter test xs)
unfolding filter
All-filter P Q test [] f h = tt
All-filter P Q test (x ∷ xs) f h = elim (Bool-cases (test x)) [
  | inl e ↦ rw e (f x e h.0, All-filter P Q test xs f h.1)
  | inr e ↦ rw e (All-filter P Q test xs f h.1)
]

pub OneActive-filter :
    (test : SourceMapping → Bool) (ms : List SourceMapping)
    → OneActive ms
    → OneActive (filter test ms)
unfolding filter
OneActive-filter test [] h = tt
OneActive-filter test (m ∷ ms) h = elim (Bool-cases (test m)) [
  | inl e ↦ rw e (All-filter _ _ test ms (λ n t c. c) h.0, OneActive-filter test ms h.1)
  | inr e ↦ rw e (OneActive-filter test ms h.1)
]

and_false : (b c : Bool) → b ≡ false → (b && c) ≡ false
and_false b c e = rw e refl

-- A mapping that is not active clashes with none.
inactive-All :
    (m : SourceMapping) (ms : List SourceMapping)
    → is_active m.status ≡ false
    → All (λ n. clash m n ≡ false) ms
unfolding clash
inactive-All m [] h = tt
inactive-All m (n ∷ ms) h = (and_false (is_active m.status) _ h, inactive-All m ms h)

pub store_row-OneActive :
    (replace : Bool) (m : SourceMapping) (row : Option SourceMapping) (s : Store)
    → is_active m.status ≡ false
    → OneActive s.mappings
    → OneActive (store_row replace m row s).1.mappings
unfolding store_row other_mappings
store_row-OneActive replace m none s inactive h = h
store_row-OneActive replace m (some row) s inactive h = (
  inactive-All (written replace m row) (other_mappings m.id s.mappings)
      (unfold written in inactive),
  OneActive-filter _ s.mappings h,
)

-- Storing a mapping that is not active keeps the others apart.
pub store_mapping-OneActive :
    (replace : Bool) (m : SourceMapping) (s : Store)
    → is_active m.status ≡ false
    → OneActive s.mappings
    → OneActive (store_mapping replace m s).1.mappings
unfolding store_mapping get_source_mapping_by_id
store_mapping-OneActive replace m s inactive h =
    store_row-OneActive replace m (find (λ n. text_eq n.id m.id) s.mappings) s inactive h
