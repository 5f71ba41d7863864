-- ===== src/Semver.antt =====
-- src/altr_stream/domain/semver.py: semantic versions, their order, and the choice of an upgrade.
-- A version is what `SemVer.__init__` stores and a comparison reads.
pub mod Parse
pub mod Order
pub mod Resolver
pub mod Sorting
pub mod Sound
use altr_stream.Base.{
  Text, text_eq, text_gt, ltb, ◌==◌, ℕ, Bool, true, false, ◌&&◌, ◌||◌, not, List, [], ◌∷◌, ◌++◌,
  Option, none, some, if◌then◌else◌,
}

-- What the order uses of Python: str.isdigit of one character, and int(s) of a text of digits.
pub record Digits : Type 0 where
  pub is_digit : ℕ → Bool
  pub int : Text → ℕ

-- `prerelease` is none or a text that is not empty; build metadata and the raw text, which no
-- comparison reads, are left out.
pub record SemVer : Type 0 where
  pub major : ℕ
  pub minor : ℕ
  pub patch : ℕ
  pub prerelease : Option Text

-- `s.split(".")`, where `part` is what was read of the first part
unfoldable pub split_from : Text → Text → List Text
split_from part [] = part ∷ []
split_from part (c ∷ s) =
    let rest = split_from [] s in
    let longer = split_from (part ++ c ∷ []) s in if c == b'.' then part ∷ rest else longer

unfoldable pub all_digits : Digits → Text → Bool
all_digits digits [] = true
all_digits digits (c ∷ s) = digits.is_digit c && all_digits digits s

-- `s.isdigit()`
unfoldable pub is_num : Digits → Text → Bool
unfolding all_digits
is_num digits [] = false
is_num digits (c ∷ s) = all_digits digits (c ∷ s)

-- The order of two identifiers that differ, where `a` and `b` say which one is numeric.
abbrev pub part_lt_as : Digits → Bool → Bool → Text → Text → Bool
unfolding text_gt
part_lt_as digits true true s t = ltb (digits.int s) (digits.int t)
part_lt_as digits true false s t = true
part_lt_as digits false true s t = false
part_lt_as digits false false s t = text_gt t s

unfoldable pub part_lt : Digits → Text → Text → Bool
unfolding is_num part_lt_as
part_lt digits s t = part_lt_as digits (is_num digits s) (is_num digits t) s t

-- The loop over `zip(self_parts, other_parts)`, and the comparison of the lengths after it.
unfoldable pub parts_lt : Digits → List Text → List Text → Bool
unfolding part_lt text_eq
parts_lt digits [] [] = false
parts_lt digits [] (t ∷ ts) = true
parts_lt digits (s ∷ ss) [] = false
parts_lt digits (s ∷ ss) (t ∷ ts) =
    let rest = parts_lt digits ss ts in if text_eq s t then rest else part_lt digits s t

-- Steps 2 and 3 of `__lt__`.
unfoldable pub prerelease_lt : Digits → Option Text → Option Text → Bool
unfolding parts_lt split_from
prerelease_lt digits none none = false
prerelease_lt digits none (some t) = false
prerelease_lt digits (some s) none = true
prerelease_lt digits (some s) (some t) = parts_lt digits (split_from [] s) (split_from [] t)

unfoldable pub same_core : SemVer → SemVer → Bool
same_core v w = v.major == w.major && v.minor == w.minor && v.patch == w.patch

-- `<` of two tuples of three numbers
unfoldable pub core_lt : SemVer → SemVer → Bool
core_lt v w =
    ltb v.major w.major
    || (v.major == w.major && (ltb v.minor w.minor || (v.minor == w.minor && ltb v.patch w.patch)))

-- `__lt__`
unfoldable pub lt : Digits → SemVer → SemVer → Bool
unfolding same_core core_lt prerelease_lt
lt digits v w =
    if same_core v w then prerelease_lt digits v.prerelease w.prerelease else core_lt v w

abbrev pub prerelease_eq : Option Text → Option Text → Bool
unfolding text_eq
prerelease_eq none none = true
prerelease_eq (some s) (some t) = text_eq s t
prerelease_eq _ _ = false

-- `__eq__`
unfoldable pub eq : SemVer → SemVer → Bool
unfolding same_core prerelease_eq
eq v w = same_core v w && prerelease_eq v.prerelease w.prerelease

-- `__gt__` of `total_ordering`
unfoldable pub gt : Digits → SemVer → SemVer → Bool
unfolding lt eq
gt digits v w = not (lt digits v w) && not (eq v w)
