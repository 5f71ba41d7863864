-- ===== src/Semver/Resolver.antt =====
-- DirectUpgradeResolver of src/altr_stream/domain/semver.py.
use altr_stream.Base.{
  Text, codes, ◌==◌, Bool, true, false, ◌&&◌, ◌||◌, List, [], ◌∷◌, Option, none, some,
  if◌then◌else◌,
}
use altr_stream.Semver.{Digits, SemVer, lt, eq, gt}

pub data ReleaseChannel : Type 0 where
  alpha beta stable : ReleaseChannel

-- What the resolver reads of a release.
pub record ReleaseInfo : Type 0 where
  pub version : SemVer
  pub tag_name : Text

-- `sub in s`
unfoldable pub starts_with : Text → Text → Bool
starts_with [] s = true
starts_with (c ∷ sub) [] = false
starts_with (c ∷ sub) (e ∷ s) = c == e && starts_with sub s

unfoldable pub has_text : Text → Text → Bool
unfolding starts_with
has_text sub [] = starts_with sub []
has_text sub (c ∷ s) = starts_with sub (c ∷ s) || has_text sub s

-- `channel`, where `lower` is str.lower
unfoldable pub channel : (Text → Text) → SemVer → ReleaseChannel
unfolding has_text
channel lower v = elim v.prerelease [
  | none ↦ ReleaseChannel.stable
  | some s ↦
      if has_text (codes "alpha") (lower s)
      then ReleaseChannel.alpha
      else if has_text (codes "beta") (lower s) || has_text (codes "rc") (lower s)
      then ReleaseChannel.beta
      else ReleaseChannel.alpha
]

unfoldable pub is_channel_allowed : ReleaseChannel → ReleaseChannel → Bool
is_channel_allowed release ReleaseChannel.alpha = true
is_channel_allowed ReleaseChannel.alpha ReleaseChannel.beta = false
is_channel_allowed release ReleaseChannel.beta = true
is_channel_allowed ReleaseChannel.stable ReleaseChannel.stable = true
is_channel_allowed release ReleaseChannel.stable = false

pub record UpgradePlan : Type 0 where
  pub current_version : SemVer
  pub target_version : Option SemVer
  pub update_available : Bool
  pub channel : ReleaseChannel
  pub target_release : Option ReleaseInfo
  pub all_releases : List ReleaseInfo
  pub latest_version : SemVer

-- The list with what the test holds for.
unfoldable pub keep : {A : Type 0} → (A → Bool) → List A → List A
keep p [] = []
keep p (x ∷ xs) = let rest = keep p xs in if p x then x ∷ rest else rest

-- `[-1]` of a list, `none` for an empty one
unfoldable pub last : {A : Type 0} → List A → Option A
last [] = none
last (x ∷ []) = some x
last (x ∷ y ∷ ys) = last (y ∷ ys)

module _ (digits : Digits) where
  -- `sort(key=lambda r: r.version)`: a stable sort by `<`
  unfoldable pub insert : ReleaseInfo → List ReleaseInfo → List ReleaseInfo
  unfolding lt
  insert r [] = r ∷ []
  insert r (s ∷ rs) =
      let later = s ∷ insert r rs in if lt digits s.version r.version then later else r ∷ s ∷ rs

  unfoldable pub sort : List ReleaseInfo → List ReleaseInfo
  unfolding insert
  sort [] = []
  sort (r ∷ rs) = insert r (sort rs)

unfoldable pub seen : List SemVer → SemVer → Bool
unfolding eq
seen [] v = false
seen (w ∷ ws) v = eq v w || seen ws v

-- The loop that leaves out repeated versions.
unfoldable pub unique_from : List SemVer → List ReleaseInfo → List ReleaseInfo
unfolding seen
unique_from versions [] = []
unique_from versions (r ∷ rs) =
    let skipped = unique_from versions rs in
    let kept = r ∷ unique_from (r.version ∷ versions) rs in
    if seen versions r.version then skipped else kept

module _ (digits : Digits) (lower : Text → Text) where
  unfoldable pub target_channel : SemVer → Option ReleaseChannel → ReleaseChannel
  unfolding channel
  target_channel current none = channel lower current
  target_channel current (some c) = c

  unfoldable pub unique_releases :
      SemVer → List ReleaseInfo → Option ReleaseChannel → List ReleaseInfo
  unfolding keep is_channel_allowed channel sort unique_from target_channel
  unique_releases current available c = unique_from [] (
      sort digits (
        keep (λ r. is_channel_allowed (channel lower r.version) (target_channel current c))
          available))

  abbrev pub version_or : SemVer → Option ReleaseInfo → SemVer
  version_or current none = current
  version_or current (some r) = r.version

  -- The plan, for the releases without repetitions and the last one that is newer.
  unfoldable pub plan_of :
      SemVer → ReleaseChannel → List ReleaseInfo → Option ReleaseInfo → UpgradePlan
  unfolding last
  plan_of current c unique none = record {
    current_version = current;
    target_version = none;
    update_available = false;
    channel = c;
    target_release = none;
    all_releases = unique;
    latest_version = version_or current (last unique);
  }
  plan_of current c unique (some highest) = record {
    current_version = current;
    target_version = some highest.version;
    update_available = true;
    channel = c;
    target_release = some highest;
    all_releases = unique;
    latest_version = highest.version;
  }

  unfoldable pub resolve_direct_upgrade :
      SemVer → List ReleaseInfo → Option ReleaseChannel → UpgradePlan
  unfolding unique_releases keep last gt plan_of target_channel
  resolve_direct_upgrade current available c =
      let unique = unique_releases current available c in
      plan_of current (target_channel current c) unique
        (last (keep (λ r. gt digits r.version current) unique))
