-- ===== src/Semver/Parse.antt =====
-- `parse`, `try_parse` and `_format_str` of domain/semver.py, around the match of the regular
-- expression.
use altr_stream.Base.{Text, codes, ℕ, [], ◌∷◌, ◌++◌, Option, none, some}
use altr_stream.Semver.{Digits, SemVer}

-- The named groups of a match of `_SEMVER_REGEX`.
pub record Groups : Type 0 where
  pub major : Text
  pub minor : Text
  pub patch : Text
  pub prerelease : Option Text
  pub buildmetadata : Option Text

-- What the parser uses of Python: `_SEMVER_REGEX.match`, str.strip, and str of an int.
pub record Matching : Type 0 where
  pub digits : Digits
  pub match : Text → Option Groups
  pub strip : Text → Text
  pub show : ℕ → Text

-- A version with the parts that no comparison reads.
pub record Parsed : Type 0 where
  pub version : SemVer
  pub build : Option Text
  pub raw : Text

-- `text or None`
abbrev pub or_none : Option Text → Option Text
or_none (some (c ∷ s)) = some (c ∷ s)
or_none _ = none

-- SemVer.__init__
unfoldable pub from_groups : Matching → Text → Groups → Parsed
from_groups matching clean g = record {
  version = record {
    major = matching.digits.int g.major;
    minor = matching.digits.int g.minor;
    patch = matching.digits.int g.patch;
    prerelease = or_none g.prerelease;
  };
  build = or_none g.buildmetadata;
  raw = clean;
}

abbrev pub from_match : Matching → Text → Option Groups → Option Parsed
unfolding from_groups
from_match matching clean none = none
from_match matching clean (some g) = some (from_groups matching clean g)

-- `try_parse`: none where `parse` raises a ValueError
unfoldable pub try_parse : Matching → Text → Option Parsed
unfolding from_groups
try_parse matching [] = none
try_parse matching (c ∷ s) =
    from_match matching (matching.strip (c ∷ s)) (matching.match (matching.strip (c ∷ s)))

abbrev pub suffix : Text → Option Text → Text
suffix mark none = []
suffix mark (some s) = mark ++ s

-- `_format_str`, which is also `str(version)`
unfoldable pub format_str : Matching → Parsed → Text
format_str matching p =
    matching.show p.version.major
    ++ (codes "."
        ++ (matching.show p.version.minor
            ++ (codes "."
                ++ (matching.show p.version.patch
                    ++ (suffix (codes "-") p.version.prerelease ++ suffix (codes "+") p.build)))))
