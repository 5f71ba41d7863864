-- ===== src/Semver/Sound.antt =====
-- The upgrade that the resolver chooses.
use altr_stream.Base.{
  Text, text_eq_iff, Bool, true, false, List, [], ◌∷◌, Option, none, some, All, All-map, ◌≡◌, refl,
  sym, ◌∙◌, inl, inr, Bool-cases, arith,
}
use altr_stream.Semver.{Digits, SemVer, lt, eq, gt, same_core, prerelease_eq}
use altr_stream.Semver.Order.{lt_irrefl, lt_trans, eq-lt}
use altr_stream.Semver.Resolver.{
  ReleaseChannel, ReleaseInfo, is_channel_allowed, channel, keep, last, sort, target_channel,
  unique_releases, plan_of, resolve_direct_upgrade,
}
use altr_stream.Semver.Sorting.{
  All-keep, All-of-keep, All-last, last-none, eq-≡, IsComparable, IsSorted, All-sort, All-of-sort,
  IsSorted-sort, All-unique_from, All-of-unique_from, IsSorted-unique_from, IsSorted-keep,
  IsSorted-last,
}

-- The release stands in the list.
pub data Among : ReleaseInfo → List ReleaseInfo → Type 0 where
  here : {r : ReleaseInfo} {rs : List ReleaseInfo} → Among r (r ∷ rs)
  there : {r s : ReleaseInfo} {rs : List ReleaseInfo} → Among r rs → Among r (s ∷ rs)

All-Among : (rs : List ReleaseInfo) → All (λ r. Among r rs) rs
All-Among [] = tt
All-Among (r ∷ rs) = (here, All-map (λ x h. there h) rs (All-Among rs))

All-zip :
    {A : Type 0} (P Q : A → Type 0) (xs : List A) → All P xs → All Q xs → All (λ x. P x × Q x) xs
All-zip P Q [] h k = tt
All-zip P Q (x ∷ xs) h k = ((h.0, k.0), All-zip P Q xs h.1 k.1)

eq_refl : (v : SemVer) → eq v v ≡ true
unfolding eq same_core
eq_refl v = ground (arith, same v.prerelease)
  where
    same : (p : Option Text) → prerelease_eq p p ≡ true
    same none = refl
    same (some s) = (text_eq_iff s s).1 refl

module _ (digits : Digits) where
  gt-of-less : (w v : SemVer) → lt digits w v ≡ true → gt digits v w ≡ true
  unfolding gt
  gt-of-less w v h =
      let back = lt_trans digits w v w h in
      let same = eq-lt digits v w in
      elim (Bool-cases (eq v w)) [
        | inl e ↦ cc (lt_irrefl digits w, rw (eq-≡ v w e) at h)
        | inr e ↦ ground (arith, e, back, lt_irrefl digits w)
      ]

  gt-of-lt : (v w : SemVer) → lt digits v w ≡ true → gt digits v w ≡ false
  unfolding gt
  gt-of-lt v w h = ground (arith, h)

  gt_irrefl : (v : SemVer) → gt digits v v ≡ false
  unfolding gt
  gt_irrefl v = ground (arith, eq_refl v)

  gt-of-not-lt :
      (v w : SemVer) → IsComparable digits w v → lt digits w v ≡ false → gt digits v w ≡ false
  unfolding IsComparable
  gt-of-not-lt v w (inl less) h = cc
  gt-of-not-lt v w (inr (inl same)) h = rw same (gt_irrefl v)
  gt-of-not-lt v w (inr (inr less)) h = gt-of-lt v w less

  lt-of-gt : (v w : SemVer) → IsComparable digits w v → gt digits v w ≡ true → lt digits w v ≡ true
  unfolding IsComparable
  lt-of-gt v w (inl less) h = less
  lt-of-gt v w (inr (inl same)) h = cc (gt_irrefl v, rw same at h)
  lt-of-gt v w (inr (inr less)) h = cc (gt-of-lt v w less)

  -- What is not newer than `w` is not newer than what is.
  gt-of-gt :
      (v w x : SemVer)
      → IsComparable digits w x
      → IsComparable digits w v
      → gt digits v w ≡ true
      → gt digits x w ≡ false
      → gt digits x v ≡ false
  unfolding IsComparable
  gt-of-gt v w x (inl less) c h k = cc (gt-of-less w x less, k)
  gt-of-gt v w x (inr (inl same)) c h k = gt-of-lt x v (rw (← same) (lt-of-gt v w c h))
  gt-of-gt v w x (inr (inr less)) c h k =
      gt-of-lt x v (lt_trans digits x w v less (lt-of-gt v w c h))

  unfoldable pub Comparable : SemVer → List ReleaseInfo → Type 0
  Comparable current available =
      All (λ r. IsComparable digits current r.version) available
      × All (λ r. All (λ s. IsComparable digits r.version s.version) available) available

module _ (digits : Digits) (lower : Text → Text) (current : SemVer) (available : List ReleaseInfo)
    (c : Option ReleaseChannel) where
  -- The user's channel admits the release.
  abbrev pub Allowed : ReleaseInfo → Type 0
  unfolding is_channel_allowed channel
  Allowed r =
      is_channel_allowed (channel lower r.version) (target_channel digits lower current c) ≡ true

  compatible : List ReleaseInfo
  compatible =
      keep
        (λ r. is_channel_allowed (channel lower r.version) (target_channel digits lower current c))
        available

  target_release-plan_of :
      (unique : List ReleaseInfo) (r : Option ReleaseInfo)
      → (plan_of digits lower current
          (target_channel digits lower current c)
          unique
          r).target_release
        ≡ r
  unfolding plan_of
  target_release-plan_of unique none = refl
  target_release-plan_of unique (some r) = refl

  All-unique_releases :
      (P : ReleaseInfo → Type 0)
      → All P available
      → All (λ r. P r × Allowed r) (unique_releases digits lower current available c)
  unfolding unique_releases compatible
  All-unique_releases P h =
      All-unique_from digits (λ r. P r × Allowed r) [] (sort digits compatible)
        (All-sort digits (λ r. P r × Allowed r) compatible (All-keep _ P available h))

  newer : List ReleaseInfo
  newer = keep (λ r. gt digits r.version current) (unique_releases digits lower current available c)

  last-newer :
      (r : Option ReleaseInfo)
      → (resolve_direct_upgrade digits lower current available c).target_release ≡ r
      → last newer ≡ r
  unfolding resolve_direct_upgrade newer
  last-newer r h =
      sym (target_release-plan_of (unique_releases digits lower current available c) (last newer))
      ∙ h

  -- What holds of the versions that are left of the allowed releases holds of all allowed ones.
  All-of-unique_releases :
      (P : SemVer → Type 0)
      → All (λ r. P r.version) (unique_releases digits lower current available c)
      → All (λ r. Allowed r → P r.version) available
  unfolding unique_releases compatible
  All-of-unique_releases P h =
      All-of-keep _ (λ r. P r.version) available
        (All-of-sort digits (λ r. P r.version) compatible
          (All-of-unique_from P [] (sort digits compatible) tt h))

  IsSorted-newer : Comparable digits current available → IsSorted digits newer
  unfolding newer unique_releases Comparable compatible
  IsSorted-newer h =
      let inner =
        All-keep _ (λ r. All (λ s. IsComparable digits r.version s.version) available) available
          h.1 in
      let pairs =
        All-map
          (λ r k.
            All-map (λ s j. j.0) compatible
              (All-keep _ (λ s. IsComparable digits r.version s.version) available k.0))
          compatible inner in
      IsSorted-keep digits _ _ (
        IsSorted-unique_from digits [] (sort digits compatible)
          (IsSorted-sort digits compatible pairs))

  -- What is known of a release that the resolver may choose.
  All-newer :
      (P : ReleaseInfo → Type 0)
      → All P available
      → All (λ r. (P r × Allowed r) × (gt digits r.version current ≡ true)) newer
  unfolding newer
  All-newer P h = All-keep _ (λ r. P r × Allowed r) _ (All-unique_releases P h)

  -- With no target, no release that the user's channel admits is newer than the current version.
  pub resolve_direct_upgrade-none :
      (resolve_direct_upgrade digits lower current available c).target_release ≡ none
      → All (λ r. Allowed r → gt digits r.version current ≡ false) available
  unfolding newer
  resolve_direct_upgrade-none h =
      let empty = last-none newer (last-newer none h) in
      let kept =
        All-of-keep (λ r. gt digits r.version current) (λ r. gt digits r.version current ≡ false)
          (unique_releases digits lower current available c) (rw empty tt) in
      All-of-unique_releases (λ v. gt digits v current ≡ false)
        (All-map (λ r k. not_kept _ k) _ kept)
    where
      not_kept : (b : Bool) → (b ≡ true → b ≡ false) → b ≡ false
      not_kept true k = k refl
      not_kept false k = refl

  -- Of the newer releases none is newer than the last one.
  newest :
      (r : ReleaseInfo)
      → Comparable digits current available
      → last newer ≡ some r
      → All (λ s. gt digits s.version r.version ≡ false) newer
  unfolding Comparable
  newest r h e =
      let known =
        All-newer (λ x. All (λ s. IsComparable digits x.version s.version) available) h.1 in
      let own = All-last _ newer r e known in
      let others = All-newer (λ s. IsComparable digits r.version s.version) own.0.0 in
      let after = IsSorted-last digits newer r e (IsSorted-newer h) in
      All-map (λ s k. gt-of-not-lt digits s.version r.version k.0.0.0 k.1) newer
        (All-zip _ (λ s. lt digits r.version s.version ≡ false) newer others after)

  -- With a target, and where each two of the versions are comparable, the target is one of the
  -- releases, the user's channel admits it, it is newer than the current version, and no release that
  -- the channel admits is newer than it.
  pub resolve_direct_upgrade-some :
      (r : ReleaseInfo)
      → Comparable digits current available
      → (resolve_direct_upgrade digits lower current available c).target_release ≡ some r
      → Among r available
        × Allowed r
        × (gt digits r.version current ≡ true)
        × All (λ s. Allowed s → gt digits s.version r.version ≡ false) available
  unfolding newer Comparable
  resolve_direct_upgrade-some r h eq =
      let e = last-newer (some r) eq in
      let known = All-last _ newer r e (
        All-newer (λ s. Among s available × IsComparable digits current s.version)
          (All-zip _ _ available (All-Among available) h.0)) in
      let kept =
        All-of-keep (λ s. gt digits s.version current) (λ s. gt digits s.version r.version ≡ false)
          (unique_releases digits lower current available c) (newest r h e) in
      let current_known = All-unique_releases (λ s. IsComparable digits current s.version) h.0 in
      let all =
        All-map (λ s k. older r.version s.version known.0.0.1 known.1 k.1.0 k.0) _
          (All-zip _ _ (unique_releases digits lower current available c) kept current_known) in
      (
        known.0.0.0,
        known.0.1,
        known.1,
        All-of-unique_releases (λ v. gt digits v r.version ≡ false) all,
      )
    where
      older :
          (v x : SemVer)
          → IsComparable digits current v
          → gt digits v current ≡ true
          → IsComparable digits current x
          → (gt digits x current ≡ true → gt digits x v ≡ false)
          → gt digits x v ≡ false
      older v x c1 g c2 k = elim (Bool-cases (gt digits x current)) [
        | inl t ↦ k t
        | inr f ↦ gt-of-gt digits v current x c2 c1 g f
      ]
