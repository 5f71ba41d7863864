-- ===== src/Tests/Versions.antt =====
-- Versions and upgrades at concrete releases.
use altr_stream.Base.{
  Text, codes, ltb, ◌&&◌, ℕ, true, false, not, List, [], ◌∷◌, Option, none, some, length, All, ◌≡◌,
  refl, inl, inr,
}
use altr_stream.Semver.{Digits, SemVer, lt, eq, gt}
use altr_stream.Semver.Order.{lt_strict}
use altr_stream.Semver.Resolver.{ReleaseChannel, ReleaseInfo, resolve_direct_upgrade}
use altr_stream.Semver.Sorting.{IsComparable}
use altr_stream.Semver.Sound.{
  Among, Allowed, Comparable, resolve_direct_upgrade-some, resolve_direct_upgrade-none,
}

-- Numbers of one digit.
abbrev one_digit : Digits
one_digit = record { is_digit = λ c. not (ltb c 48) && ltb c 58; int = λ s. length s }

abbrev version : ℕ → ℕ → Option Text → SemVer
version major minor prerelease = record {
  major = major;
  minor = minor;
  patch = 0;
  prerelease = prerelease;
}

abbrev release_candidate : ReleaseInfo
release_candidate = record {
  version = version 1 2 (some (codes "rc.1"));
  tag_name = codes "v1.2.0-rc.1";
}

abbrev stable_release : ReleaseInfo
stable_release = record { version = version 1 1 none; tag_name = codes "v1.1.0" }

abbrev releases : List ReleaseInfo
releases = release_candidate ∷ stable_release ∷ []

abbrev lower : Text → Text
lower s = s

-- 1.1.0 < 1.2.0-rc.1 < 1.2.0
lt_strict_example :
    (lt one_digit (version 1 1 none) (version 1 2 none) ≡ true)
    × (lt one_digit (version 1 2 none) (version 1 1 none) ≡ false)
    × (eq (version 1 1 none) (version 1 2 none) ≡ false)
unfolding lt
lt_strict_example =
    lt_strict one_digit (version 1 1 none) (version 1 2 (some (codes "rc.1"))) (version 1 2 none)
      refl refl

releases-Comparable : Comparable one_digit (version 1 0 none) releases
unfolding Comparable IsComparable lt
releases-Comparable = (
  (inl refl, (inl refl, tt)),
  ((inr (inl refl), (inr (inr refl), tt)), ((inl refl, (inr (inl refl), tt)), tt)),
)

resolve_direct_upgrade-some_example :
    Among release_candidate releases
    × Allowed one_digit lower
        (version 1 0 none)
        releases
        (some ReleaseChannel.beta)
        release_candidate
    × (gt one_digit release_candidate.version (version 1 0 none) ≡ true)
    × All
        (λ s.
          Allowed one_digit lower (version 1 0 none) releases (some ReleaseChannel.beta) s
          → gt one_digit s.version release_candidate.version ≡ false)
        releases
unfolding resolve_direct_upgrade
resolve_direct_upgrade-some_example =
    resolve_direct_upgrade-some one_digit lower (version 1 0 none) releases
      (some ReleaseChannel.beta) release_candidate releases-Comparable refl

-- A stable user on 1.1.0 has nothing to upgrade to.
resolve_direct_upgrade-none_example :
    All
      (λ r.
        Allowed one_digit lower (version 1 1 none) releases none r
        → gt one_digit r.version (version 1 1 none) ≡ false)
      releases
unfolding resolve_direct_upgrade
resolve_direct_upgrade-none_example =
    resolve_direct_upgrade-none one_digit lower (version 1 1 none) releases none refl
