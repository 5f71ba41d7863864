-- ===== src/Registry/Demotion.antt =====
-- The loop of an activation over the other mappings of the model.
use altr_stream.Base.{
  Text, text_eq, text_eq_iff, Bool, true, false, ◌&&◌, ◌||◌, not, List, [], ◌∷◌, none, some, All,
  All-map, ◌≡◌, refl, sym, ap, subst, ◌∙◌, inl, inr, Bool-cases, Option-cases, if◌then◌else◌, arith,
}
use altr_stream.Base.Result.{Result, ok, err}
use altr_stream.Mapping.{SourceMapping, MappingStatus, is_active, find}
use altr_stream.Registry.{RegistryError, Store, ◌>>◌, pure}
use altr_stream.Registry.Repository.{
  filter, get_source_mapping_by_id, written, other_mappings, store_row, store_mapping,
}
use altr_stream.Registry.Activate.{competes, demote_if, demote}
use altr_stream.Registry.OneActive.{OneActive, All-filter, store_row-OneActive}

unfoldable pub any : {A : Type 0} → (A → Bool) → List A → Bool
any test [] = false
any test (x ∷ xs) = test x || any test xs

drop_left : (a b c : Bool) → a ≡ false → ((a && b) || c) ≡ true → c ≡ true
drop_left true b c e h = cc
drop_left false b c e h = h

drop_right : (a b c : Bool) → b ≡ false → ((a && b) || c) ≡ true → c ≡ true
drop_right a true c e h = cc
drop_right true false c e h = h
drop_right false false c e h = h

middle_false : (a b c d : Bool) → c ≡ false → ((a && b && c) && d) ≡ false
middle_false a b true d e = cc
middle_false true true false d e = refl
middle_false true false false d e = refl
middle_false false b false d e = refl

any-cons :
    {A : Type 0} (p test : A → Bool) (x : A) (xs : List A)
    → any p xs ≡ true
    → any p (if test x then x ∷ xs else xs) ≡ true
unfolding any
any-cons p test x xs h = elim (Bool-cases (test x)) [
  | inl e ↦ rw e (elim (Bool-cases (p x)) [ inl g ↦ rw g refl | inr g ↦ rw g h ])
  | inr e ↦ rw e h
]

text_eq_refl : (s : Text) → text_eq s s ≡ true
text_eq_refl s = (text_eq_iff s s).1 refl

text_eq_sym : (s t : Text) → text_eq s t ≡ false → text_eq t s ≡ false
text_eq_sym s t h = elim (Bool-cases (text_eq t s)) [
  | inl e ↦ cc (h, (text_eq_iff s t).1 (sym ((text_eq_iff t s).0 e)))
  | inr e ↦ e
]

-- A competitor for the same model.
unfoldable pub rivals : SourceMapping → SourceMapping → Bool
unfolding competes
rivals m n = competes m n && text_eq n.logical_model_id m.logical_model_id

pub of_not : (b : Bool) → not b ≡ true → b ≡ false
of_not true h = cc
of_not false h = refl

true_of_not : (b : Bool) → not b ≡ false → b ≡ true
true_of_not true h = refl
true_of_not false h = cc

first_of_three : (a b c : Bool) → (not a && b && c) ≡ true → a ≡ false
first_of_three true b c h = cc
first_of_three false b c h = refl

competes-other_id : (m n : SourceMapping) → competes m n ≡ true → text_eq n.id m.id ≡ false
unfolding competes
competes-other_id m n h =
    first_of_three (text_eq n.id m.id) (text_eq n.source_id m.source_id) (is_active n.status) h

not-rivals : (m n : SourceMapping) → is_active n.status ≡ false → rivals m n ≡ false
unfolding rivals competes
not-rivals m n e =
    middle_false (not (text_eq n.id m.id)) (text_eq n.source_id m.source_id) (is_active n.status)
      (text_eq n.logical_model_id m.logical_model_id) e

-- Every rival among `ms` is still to be demoted.
unfoldable pub Covered : SourceMapping → List SourceMapping → List SourceMapping → Type 0
unfolding rivals any
Covered m os ms =
    All (λ n. rivals m n ≡ true → any (λ o. text_eq o.id n.id && competes m o) os ≡ true) ms

-- The list that the loop runs over has every rival.
pub Covered-filter :
    (m : SourceMapping) (test : SourceMapping → Bool) (ms : List SourceMapping)
    → ((n : SourceMapping) → rivals m n ≡ true → test n ≡ true)
    → Covered m (filter test ms) ms
unfolding Covered filter any rivals
Covered-filter m test [] f = tt
Covered-filter m test (x ∷ xs) f = (
  λ r. rw (f x r) (grind (arith, text_eq_refl x.id)),
  All-map (λ n h r. any-cons (λ o. text_eq o.id n.id && competes m o) test x (filter test xs) (h r))
      xs (Covered-filter m test xs f),
)

-- One step of the loop: `other` is no rival any more.
demoted-Covered :
    (m other row : SourceMapping) (os ms : List SourceMapping)
    → Covered m (other ∷ os) ms
    → Covered m os (
        written false (record other { status = MappingStatus.validated }) row
        ∷ other_mappings other.id ms)
unfolding Covered any written other_mappings
demoted-Covered m other row os ms h = (
  λ r. cc (
    r,
    not-rivals m (written false (record other { status = MappingStatus.validated }) row) refl,
  ),
  All-filter _ _ (λ n. not (text_eq n.id other.id)) ms
      (λ n t c r. drop_left _ _ _ (text_eq_sym n.id other.id (of_not _ t)) (c r)) h,
)

kept-Covered :
    (m other : SourceMapping) (os ms : List SourceMapping)
    → competes m other ≡ false
    → Covered m (other ∷ os) ms
    → Covered m os ms
unfolding Covered any
kept-Covered m other os ms e h = All-map (λ n c r. drop_right _ (competes m other) _ e (c r)) ms h

find-filter :
    {A : Type 0} (p test : A → Bool) (xs : List A)
    → ((x : A) → test x ≡ false → p x ≡ false)
    → find p (filter test xs) ≡ find p xs
unfolding find filter
find-filter p test [] f = refl
find-filter p test (x ∷ xs) f = elim (Bool-cases (test x)) [
  | inl e ↦ rw (e, find-filter p test xs f) refl
  | inr e ↦ rw (e, f x e, find-filter p test xs f) refl
]

pub find-test : {A : Type 0} (p : A → Bool) (xs : List A) (x : A) → find p xs ≡ some x → p x ≡ true
unfolding find
find-test p [] x h = cc
find-test p (y ∷ xs) x h = elim (Bool-cases (p y)) [
  | inl e ↦ ground (arith, e, h)
  | inr e ↦ ground (arith, e, h, find-test p xs x)
]

-- What the loop leaves: no clash that was not there, no rival if it ends, the mapping's own row.
pub record After (m : SourceMapping) (os : List SourceMapping) (s : Store)
    (out : Result RegistryError (Unit {0}) × Store) : Type 0 where
  pub apart : OneActive s.mappings → OneActive out.1.mappings
  pub covered : out.0 ≡ ok tt → Covered m os s.mappings → Covered m [] out.1.mappings
  pub same_row :
      find (λ n. text_eq n.id m.id) out.1.mappings ≡ find (λ n. text_eq n.id m.id) s.mappings

abbrev with_status : SourceMapping → MappingStatus → SourceMapping
with_status m status = record m { status = status }

-- The store after a row is demoted.
abbrev demoted : SourceMapping → SourceMapping → Store → Store
demoted other row s = record s {
  mappings =
      written false (with_status other MappingStatus.validated) row
      ∷ other_mappings other.id s.mappings;
}

demoted-same_row :
    (m other row : SourceMapping) (s : Store)
    → competes m other ≡ true
    → find (λ n. text_eq n.id other.id) s.mappings ≡ some row
    → find (λ n. text_eq n.id m.id) (demoted other row s).mappings
      ≡ find (λ n. text_eq n.id m.id) s.mappings
unfolding find other_mappings written
demoted-same_row m other row s c e = rw (own) (
    find-filter (λ n. text_eq n.id m.id) (λ n. not (text_eq n.id other.id)) s.mappings
      (λ n t. rw ((text_eq_iff n.id other.id).0 (true_of_not _ t)) (other_id c)))
  where
    other_id : competes m other ≡ true → text_eq other.id m.id ≡ false
    other_id c = competes-other_id m other c

    own : text_eq row.id m.id ≡ false
    own =
        rw
          ((text_eq_iff row.id other.id).0
            (find-test (λ n. text_eq n.id other.id) s.mappings row e))
          (other_id c)

demoted-After :
    (m other row : SourceMapping) (os : List SourceMapping) (s : Store)
    (out : Result RegistryError (Unit {0}) × Store)
    → competes m other ≡ true
    → find (λ n. text_eq n.id other.id) s.mappings ≡ some row
    → After m os (demoted other row s) out
    → After m (other ∷ os) s out
unfolding store_row
demoted-After m other row os s out c e a = record {
  apart = λ h.
      a.apart
        (store_row-OneActive false (with_status other MappingStatus.validated) (some row) s refl h);
  covered = λ o h. a.covered o (demoted-Covered m other row os s.mappings h);
  same_row = a.same_row ∙ demoted-same_row m other row s c e;
}

demote_if-none :
    (other : SourceMapping) (s : Store)
    → find (λ n. text_eq n.id other.id) s.mappings ≡ none
    → demote_if other true s ≡ (err (RegistryError.source_mapping_not_found other.id), s)
unfolding demote_if store_mapping get_source_mapping_by_id store_row
demote_if-none other s e =
    ap (λ x. (store_row false (with_status other MappingStatus.validated) x >> pure tt) s) e

demote_if-some :
    (other row : SourceMapping) (s : Store)
    → find (λ n. text_eq n.id other.id) s.mappings ≡ some row
    → demote_if other true s ≡ (ok tt, demoted other row s)
unfolding demote_if store_mapping get_source_mapping_by_id store_row
demote_if-some other row s e =
    ap (λ x. (store_row false (with_status other MappingStatus.validated) x >> pure tt) s) e

-- The rest of the loop, after a step.
abbrev rest_of :
    SourceMapping
    → List SourceMapping
    → Result RegistryError (Unit {0}) × Store
    → Result RegistryError (Unit {0}) × Store
rest_of m os out = elim out.0 [ ok a ↦ demote m os out.1 | err e ↦ (err e, out.1) ]

kept-After :
    (m other : SourceMapping) (os : List SourceMapping) (s : Store)
    (out : Result RegistryError (Unit {0}) × Store)
    → competes m other ≡ false
    → After m os s out
    → After m (other ∷ os) s out
kept-After m other os s out c a = record {
  apart = a.apart;
  covered = λ o h. a.covered o (kept-Covered m other os s.mappings c h);
  same_row = a.same_row;
}

pub demote-After :
    (m : SourceMapping) (os : List SourceMapping) (s : Store) → After m os s (demote m os s)
unfolding demote
demote-After m [] s = record { apart = λ h. h; covered = λ o h. h; same_row = refl }
demote-After m (other ∷ os) s = elim (Bool-cases (competes m other)) [
  | inr c ↦ rw c (kept-After m other os s (demote m os s) c (demote-After m os s))
  | inl c ↦ rw c (elim (Option-cases (find (λ n. text_eq n.id other.id) s.mappings)) [
    | inl e ↦
        subst (λ out. After m (other ∷ os) s (rest_of m os out)) (sym (demote_if-none other s e))
          (record { apart = λ h. h; covered = λ o h. cc; same_row = refl })
    | inr (row, e) ↦
        subst (λ out. After m (other ∷ os) s (rest_of m os out))
          (sym (demote_if-some other row s e))
          (demoted-After m other row os s (demote m os (demoted other row s)) c e
            (demote-After m os (demoted other row s)))
  ])
]
