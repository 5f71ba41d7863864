-- ===== src/Semver/Sorting.antt =====
-- The lists of the resolver: what the sort, the loop over repeated versions and the filters keep.
use mathlib.Core.Path.{subst}
use altr_stream.Base.{
  Text, Bool, true, false, List, [], ◌∷◌, Option, none, some, All, All-map, ◌≡◌, refl, ap, ◌⊎◌, inl,
  inr, Bool-cases, if◌then◌else◌, arith, text_eq_iff,
}
use altr_stream.Semver.{Digits, SemVer, lt, eq, same_core, prerelease_eq}
use altr_stream.Semver.Order.{lt_irrefl, lt_trans}
use altr_stream.Semver.Resolver.{ReleaseInfo, keep, last, insert, sort, seen, unique_from}

-- A test that says `if b then y else z`, by its two answers.
All-if :
    {A : Type 0} (P : A → Type 0) (b : Bool) (xs ys : List A)
    → (b ≡ true → All P xs)
    → (b ≡ false → All P ys)
    → All P (if b then xs else ys)
All-if P true xs ys h k = h refl
All-if P false xs ys h k = k refl

module _ {A : Type 0} (p : A → Bool) where
  pub All-keep :
      (P : A → Type 0) (xs : List A) → All P xs → All (λ x. P x × (p x ≡ true)) (keep p xs)
  unfolding keep
  All-keep P [] h = tt
  All-keep P (x ∷ xs) h =
      All-if _ (p x) (x ∷ keep p xs) (keep p xs) (λ e. ((h.0, e), All-keep P xs h.1))
        (λ e. All-keep P xs h.1)

  -- What holds of all that is kept holds of all for which the test holds.
  pub All-of-keep :
      (P : A → Type 0) (xs : List A) → All P (keep p xs) → All (λ x. p x ≡ true → P x) xs
  unfolding keep
  All-of-keep P [] h = tt
  All-of-keep P (x ∷ xs) h = elim (Bool-cases (p x)) [
    | inl e ↦ let both = rw e at h in (λ _. both.0, All-of-keep P xs both.1)
    | inr e ↦ (λ t. cc, All-of-keep P xs (rw e at h))
  ]

some_injective : {A : Type 0} {x y : A} → some x ≡ some y → x ≡ y
some_injective e = cc

pub All-last :
    {A : Type 0} (P : A → Type 0) (xs : List A) (r : A) → last xs ≡ some r → All P xs → P r
unfolding last
All-last P [] r e h = cc
All-last P (x ∷ []) r e h = subst P (some_injective e) h.0
All-last P (x ∷ y ∷ ys) r e h = All-last P (y ∷ ys) r e h.1

pub last-none : {A : Type 0} (xs : List A) → last xs ≡ none → xs ≡ []
unfolding last
last-none [] e = refl
last-none (x ∷ []) e = cc
last-none (x ∷ y ∷ ys) e = cc (last-none (y ∷ ys) e)

prerelease_eq-≡ : (p q : Option Text) → prerelease_eq p q ≡ true → p ≡ q
unfolding prerelease_eq
prerelease_eq-≡ none none h = refl
prerelease_eq-≡ none (some t) h = cc
prerelease_eq-≡ (some s) none h = cc
prerelease_eq-≡ (some s) (some t) h = ap some ((text_eq_iff s t).0 h)

eq_of_fields :
    (v w : SemVer)
    → v.major ≡ w.major
    → v.minor ≡ w.minor
    → v.patch ≡ w.patch
    → v.prerelease ≡ w.prerelease
    → v ≡ w
eq_of_fields v w a b c e = rw (a, b, c, e)

pub eq-≡ : (v w : SemVer) → eq v w ≡ true → v ≡ w
unfolding eq same_core
eq-≡ v w h =
    eq_of_fields v w (ground arith) (ground arith) (ground arith)
      (prerelease_eq-≡ v.prerelease w.prerelease (ground arith))

module _ (digits : Digits) where
  -- Of two versions one is less, or they are the same.
  unfoldable pub IsComparable : SemVer → SemVer → Type 0
  IsComparable v w = (lt digits v w ≡ true) ⊎ ((v ≡ w) ⊎ (lt digits w v ≡ true))

  -- No release is less than one before it.
  unfoldable pub IsSorted : List ReleaseInfo → Type 0
  IsSorted [] = Unit {0}
  IsSorted (r ∷ rs) = All (λ s. lt digits s.version r.version ≡ false) rs × IsSorted rs

  pub not_lt_trans :
      (v w x : SemVer)
      → IsComparable v w
      → lt digits w v ≡ false
      → lt digits x w ≡ false
      → lt digits x v ≡ false
  unfolding IsComparable
  not_lt_trans v w x (inl less) h k = ground (arith, lt_trans digits x v w, less)
  not_lt_trans v w x (inr (inl same)) h k = rw same k
  not_lt_trans v w x (inr (inr less)) h k = cc

  pub All-insert :
      (P : ReleaseInfo → Type 0) (r : ReleaseInfo) (rs : List ReleaseInfo)
      → P r
      → All P rs
      → All P (insert digits r rs)
  unfolding insert
  All-insert P r [] h hs = (h, tt)
  All-insert P r (s ∷ rs) h hs =
      All-if P (lt digits s.version r.version) (s ∷ insert digits r rs) (r ∷ s ∷ rs)
        (λ _. (hs.0, All-insert P r rs h hs.1)) (λ _. (h, hs))

  All-of-insert :
      (P : ReleaseInfo → Type 0) (r : ReleaseInfo) (rs : List ReleaseInfo)
      → All P (insert digits r rs)
      → P r × All P rs
  unfolding insert
  All-of-insert P r [] h = h
  All-of-insert P r (s ∷ rs) h = elim (Bool-cases (lt digits s.version r.version)) [
    | inl e ↦
        let both = rw e at h in let rest = All-of-insert P r rs both.1 in (rest.0, (both.0, rest.1))
    | inr e ↦ rw e at h
  ]

  pub All-sort :
      (P : ReleaseInfo → Type 0) (rs : List ReleaseInfo) → All P rs → All P (sort digits rs)
  unfolding sort
  All-sort P [] h = tt
  All-sort P (r ∷ rs) h = All-insert P r (sort digits rs) h.0 (All-sort P rs h.1)

  pub All-of-sort :
      (P : ReleaseInfo → Type 0) (rs : List ReleaseInfo) → All P (sort digits rs) → All P rs
  unfolding sort
  All-of-sort P [] h = tt
  All-of-sort P (r ∷ rs) h =
      let both = All-of-insert P r (sort digits rs) h in (both.0, All-of-sort P rs both.1)

  IsSorted-insert :
      (r : ReleaseInfo) (rs : List ReleaseInfo)
      → All (λ s. IsComparable r.version s.version) rs
      → IsSorted rs
      → IsSorted (insert digits r rs)
  unfolding insert IsSorted
  IsSorted-insert r [] c h = (tt, tt)
  IsSorted-insert r (s ∷ rs) c h = elim (Bool-cases (lt digits s.version r.version)) [
    | inl e ↦
        let after =
          All-insert (λ x. lt digits x.version s.version ≡ false) r rs
            (ground
              (arith, lt_trans digits r.version s.version r.version, lt_irrefl digits r.version, e))
            h.0 in
        rw e (after, IsSorted-insert r rs c.1 h.1)
    | inr e ↦
        let later = All-map (λ x k. not_lt_trans r.version s.version x.version c.0 e k) rs h.0 in
        rw e ((e, later), h)
  ]

  pub IsSorted-sort :
      (rs : List ReleaseInfo)
      → All (λ r. All (λ s. IsComparable r.version s.version) rs) rs
      → IsSorted (sort digits rs)
  unfolding sort IsSorted
  IsSorted-sort [] c = tt
  IsSorted-sort (r ∷ rs) c =
      IsSorted-insert r (sort digits rs) (All-sort (λ s. IsComparable r.version s.version) rs c.0.1)
        (IsSorted-sort rs (All-map (λ x k. k.1) rs c.1))

  pub All-unique_from :
      (P : ReleaseInfo → Type 0) (vs : List SemVer) (rs : List ReleaseInfo)
      → All P rs
      → All P (unique_from vs rs)
  unfolding unique_from
  All-unique_from P vs [] h = tt
  All-unique_from P vs (r ∷ rs) h =
      All-if P (seen vs r.version) (unique_from vs rs) (r ∷ unique_from (r.version ∷ vs) rs)
        (λ _. All-unique_from P vs rs h.1) (λ _. (h.0, All-unique_from P (r.version ∷ vs) rs h.1))

  pub IsSorted-unique_from :
      (vs : List SemVer) (rs : List ReleaseInfo) → IsSorted rs → IsSorted (unique_from vs rs)
  unfolding unique_from IsSorted
  IsSorted-unique_from vs [] h = tt
  IsSorted-unique_from vs (r ∷ rs) h = elim (Bool-cases (seen vs r.version)) [
    | inl e ↦ rw e (IsSorted-unique_from vs rs h.1)
    | inr e ↦ rw e (
      All-unique_from (λ s. lt digits s.version r.version ≡ false) (r.version ∷ vs) rs h.0,
      IsSorted-unique_from (r.version ∷ vs) rs h.1,
    )
  ]

  pub IsSorted-keep :
      (p : ReleaseInfo → Bool) (rs : List ReleaseInfo) → IsSorted rs → IsSorted (keep p rs)
  unfolding keep IsSorted
  IsSorted-keep p [] h = tt
  IsSorted-keep p (r ∷ rs) h = elim (Bool-cases (p r)) [
    | inl e ↦
        let later =
          All-map (λ x k. k.0) _ (All-keep p (λ s. lt digits s.version r.version ≡ false) rs h.0) in
        rw e (later, IsSorted-keep p rs h.1)
    | inr e ↦ rw e (IsSorted-keep p rs h.1)
  ]

  -- The last release of a sorted list is not less than any of it.
  pub IsSorted-last :
      (rs : List ReleaseInfo) (r : ReleaseInfo)
      → last rs ≡ some r
      → IsSorted rs
      → All (λ s. lt digits r.version s.version ≡ false) rs
  unfolding last IsSorted
  IsSorted-last [] r e h = cc
  IsSorted-last (s ∷ []) r e h = (rw (some_injective e) (lt_irrefl digits r.version), tt)
  IsSorted-last (s ∷ t ∷ rs) r e h = (
    All-last (λ x. lt digits x.version s.version ≡ false) (t ∷ rs) r e h.0,
    IsSorted-last (t ∷ rs) r e h.1,
  )

-- What holds of the versions seen and of those of the releases that are left in holds of all.
All-seen : (P : SemVer → Type 0) (vs : List SemVer) (v : SemVer) → seen vs v ≡ true → All P vs → P v
unfolding seen
All-seen P [] v e h = cc
All-seen P (w ∷ vs) v e h = elim (Bool-cases (eq v w)) [
  | inl same ↦ rw (eq-≡ v w same) h.0
  | inr other ↦ All-seen P vs v (rw other at e) h.1
]

pub All-of-unique_from :
    (P : SemVer → Type 0) (vs : List SemVer) (rs : List ReleaseInfo)
    → All P vs
    → All (λ r. P r.version) (unique_from vs rs)
    → All (λ r. P r.version) rs
unfolding unique_from
All-of-unique_from P vs [] hs h = tt
All-of-unique_from P vs (r ∷ rs) hs h = elim (Bool-cases (seen vs r.version)) [
  | inl e ↦ (All-seen P vs r.version e hs, All-of-unique_from P vs rs hs (rw e at h))
  | inr e ↦
      let both = rw e at h in (both.0, All-of-unique_from P (r.version ∷ vs) rs (both.0, hs) both.1)
]
