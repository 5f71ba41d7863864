-- ===== src/Semver/Order.antt =====
-- The order of versions is strict.
use altr_stream.Base.{
  Text, text_eq, text_gt, text_eq_iff, Bool, true, false, List, [], ◌∷◌, Option, none, some, ◌≡◌,
  refl, inl, inr, Bool-cases, if◌then◌else◌, arith,
}
use altr_stream.Semver.{
  Digits, SemVer, split_from, is_num, part_lt_as, part_lt, parts_lt, prerelease_lt, same_core,
  core_lt, lt, prerelease_eq, eq,
}

text_gt_irrefl : (s : Text) → text_gt s s ≡ false
unfolding text_gt
text_gt_irrefl [] = refl
text_gt_irrefl (c ∷ s) = ground (arith, text_gt_irrefl s)

text_gt_trans : (s t u : Text) → text_gt s t ≡ true → text_gt t u ≡ true → text_gt s u ≡ true
unfolding text_gt
text_gt_trans [] t u h k = cc
text_gt_trans (c ∷ s) [] u h k = cc
text_gt_trans (c ∷ s) (e ∷ t) [] h k = refl
text_gt_trans (c ∷ s) (e ∷ t) (f ∷ u) h k = ground (arith, text_gt_trans s t u)

module _ (digits : Digits) where
  part_lt_irrefl : (s : Text) → part_lt digits s s ≡ false
  unfolding part_lt
  part_lt_irrefl s = by_kind (is_num digits s)
    where
      by_kind : (a : Bool) → part_lt_as digits a a s s ≡ false
      by_kind true = ground arith
      by_kind false = text_gt_irrefl s

  part_lt_trans :
      (s t u : Text)
      → part_lt digits s t ≡ true
      → part_lt digits t u ≡ true
      → part_lt digits s u ≡ true
  unfolding part_lt
  part_lt_trans s t u = by_kind (is_num digits s) (is_num digits t) (is_num digits u)
    where
      by_kind :
          (a b c : Bool)
          → part_lt_as digits a b s t ≡ true
          → part_lt_as digits b c t u ≡ true
          → part_lt_as digits a c s u ≡ true
      by_kind true true true h k = ground arith
      by_kind true b false h k = refl
      by_kind true false true h k = cc
      by_kind false true c h k = cc
      by_kind false false true h k = cc
      by_kind false false false h k = text_gt_trans u t s k h

  parts_lt_irrefl : (ss : List Text) → parts_lt digits ss ss ≡ false
  unfolding parts_lt
  parts_lt_irrefl [] = refl
  parts_lt_irrefl (s ∷ ss) = rw ((text_eq_iff s s).1 refl) (parts_lt_irrefl ss)

  -- Two lists compared by their first parts, and the rest where these are equal.
  first_lt : Bool → Bool → Bool → Bool
  first_lt equal rest first = if equal then rest else first

  first_lt_trans :
      (s t u : Text) (st tu su : Bool)
      → (st ≡ true → tu ≡ true → su ≡ true)
      → first_lt (text_eq s t) st (part_lt digits s t) ≡ true
      → first_lt (text_eq t u) tu (part_lt digits t u) ≡ true
      → first_lt (text_eq s u) su (part_lt digits s u) ≡ true
  unfolding first_lt
  first_lt_trans s t u st tu su rest h k = elim (Bool-cases (text_eq s t)) [
    | inl e ↦
        let same = (text_eq_iff s t).0 e in
        elim (Bool-cases (text_eq t u)) [
          | inl f ↦ rw (same, f) (rest (rw e at h) (rw f at k))
          | inr f ↦ rw (same, f) (rw f at k)
        ]
    | inr e ↦
        let less = rw e at h in
        elim (Bool-cases (text_eq t u)) [
          | inl f ↦ let same = (text_eq_iff t u).0 f in rw (← same, e) less
          | inr f ↦
              let later = part_lt_trans s t u less (rw f at k) in
              elim (Bool-cases (text_eq s u)) [
                | inl g ↦ cc (part_lt_irrefl u, rw ((text_eq_iff s u).0 g) at later)
                | inr g ↦ rw g later
              ]
        ]
  ]

  parts_lt_trans :
      (ss ts us : List Text)
      → parts_lt digits ss ts ≡ true
      → parts_lt digits ts us ≡ true
      → parts_lt digits ss us ≡ true
  unfolding parts_lt first_lt
  parts_lt_trans [] [] us h k = cc
  parts_lt_trans [] (t ∷ ts) [] h k = cc
  parts_lt_trans [] (t ∷ ts) (u ∷ us) h k = refl
  parts_lt_trans (s ∷ ss) [] us h k = cc
  parts_lt_trans (s ∷ ss) (t ∷ ts) [] h k = cc
  parts_lt_trans (s ∷ ss) (t ∷ ts) (u ∷ us) h k =
      first_lt_trans s t u (parts_lt digits ss ts) (parts_lt digits ts us) (parts_lt digits ss us)
        (parts_lt_trans ss ts us) h k

  prerelease_lt_irrefl : (p : Option Text) → prerelease_lt digits p p ≡ false
  unfolding prerelease_lt
  prerelease_lt_irrefl none = refl
  prerelease_lt_irrefl (some s) = parts_lt_irrefl (split_from [] s)

  prerelease_lt_trans :
      (p q r : Option Text)
      → prerelease_lt digits p q ≡ true
      → prerelease_lt digits q r ≡ true
      → prerelease_lt digits p r ≡ true
  unfolding prerelease_lt
  prerelease_lt_trans none none r h k = cc
  prerelease_lt_trans none (some t) r h k = cc
  prerelease_lt_trans (some s) none none h k = cc
  prerelease_lt_trans (some s) none (some u) h k = cc
  prerelease_lt_trans (some s) (some t) none h k = refl
  prerelease_lt_trans (some s) (some t) (some u) h k =
      parts_lt_trans (split_from [] s) (split_from [] t) (split_from [] u) h k

  pub lt_irrefl : (v : SemVer) → lt digits v v ≡ false
  unfolding lt same_core core_lt
  lt_irrefl v = ground (arith, prerelease_lt_irrefl v.prerelease)

  pub lt_trans :
      (v w x : SemVer) → lt digits v w ≡ true → lt digits w x ≡ true → lt digits v x ≡ true
  unfolding lt same_core core_lt
  lt_trans v w x h k = ground (arith, prerelease_lt_trans v.prerelease w.prerelease x.prerelease)

  pub eq-lt : (v w : SemVer) → eq v w ≡ true → lt digits v w ≡ false
  unfolding eq lt same_core
  eq-lt v w h = ground (arith, prerelease_eq-lt v.prerelease w.prerelease)
    where
      prerelease_eq-lt :
          (p q : Option Text) → prerelease_eq p q ≡ true → prerelease_lt digits p q ≡ false
      prerelease_eq-lt none none e = prerelease_lt_irrefl none
      prerelease_eq-lt none (some t) e = cc
      prerelease_eq-lt (some s) none e = cc
      prerelease_eq-lt (some s) (some t) e =
          rw ((text_eq_iff s t).0 e) (prerelease_lt_irrefl (some t))

  -- The order is strict: with `v < w` and `w < x` it has `v < x`, not `x < v`, and `v` and `x` are
  -- not equal.
  pub lt_strict :
      (v w x : SemVer)
      → lt digits v w ≡ true
      → lt digits w x ≡ true
      → (lt digits v x ≡ true) × (lt digits x v ≡ false) × (eq v x ≡ false)
  lt_strict v w x h k =
      let less = lt_trans v w x h k in
      (less, ground (arith, lt_trans v x v, lt_irrefl v), ground (arith, eq-lt v x))
