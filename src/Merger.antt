-- ===== src/Merger.antt =====
-- query_engine/planning/merger.py: rows of several sources, normalized, sorted and paged. A row is an
-- association list, with the last value of a key that is written twice in the place of the first.
pub mod Merge
pub mod Paging
pub mod Ordering
use altr_stream.Base.{
  Text, text_eq, contains, text_gt, ℕ, zero, suc, ◌+◌, ◌-◌, ℤ, Bool, true, false, ◌&&◌, ◌||◌, not,
  List, [], ◌∷◌, ◌++◌, map, Option, none, some, if◌then◌else◌,
}
use altr_stream.Ast.{
  AltrQueryIr, FieldSelection, SortClause, SortDirection, RankingClause, RankingDirection,
}

-- What the code uses of Python, for values of type `V` that are not None.
pub record Values (V : Type 0) : Type 0 where
  -- `a < b` and `a > b`, none for a TypeError
  pub less : V → V → Option Bool
  pub greater : V → V → Option Bool
  pub str : V → Text
  -- str.lower
  pub lower : Text → Text

-- A dictionary.
abbrev pub Dict : Type 0 → Type 0
Dict A = List (Text × A)

unfoldable pub get : {A : Type 0} → Text → Dict A → Option A
get k [] = none
get k ((j, v) ∷ d) = if text_eq k j then some v else get k d

-- `d[k] = v`
unfoldable pub put : {A : Type 0} → Text → A → Dict A → Dict A
put k v [] = (k, v) ∷ []
put k v ((j, w) ∷ d) = let rest = put k v d in if text_eq k j then (j, v) ∷ d else (j, w) ∷ rest

abbrev pub or_else : {A : Type 0} → Option A → Option A → Option A
or_else none q = q
or_else (some a) q = some a

-- The sign of a comparator's result.
pub data Sign : Type 0 where
  negative zero_sign positive : Sign

unfoldable pub negate : Sign → Sign
negate Sign.negative = Sign.positive
negate Sign.zero_sign = Sign.zero_sign
negate Sign.positive = Sign.negative

unfoldable pub leaf_of : Text → List Text → Text
leaf_of s [] = s
leaf_of s (t ∷ ts) = leaf_of t ts

-- `path.leaf`: a path has a segment.
abbrev pub path_leaf : List Text → Text
unfolding leaf_of
path_leaf segments = leaf_of [] segments

module _ {V : Type 0} (values : Values V) where
  abbrev pub sign_of_tests : Bool → Bool → Sign
  sign_of_tests true b = Sign.negative
  sign_of_tests false true = Sign.positive
  sign_of_tests false false = Sign.zero_sign

  -- The comparison as strings, on a TypeError.
  unfoldable pub compare_texts : Text → Text → Sign
  unfolding text_gt
  compare_texts s t = sign_of_tests (text_gt t s) (text_gt s t)

  abbrev pub compare_with : Option Bool → Option Bool → Sign → Sign
  compare_with none q fallback = fallback
  compare_with (some true) q fallback = Sign.negative
  compare_with (some false) none fallback = fallback
  compare_with (some false) (some b) fallback = sign_of_tests false b

  -- `_compare_values`
  unfoldable pub compare_values : Option V → Option V → Sign
  unfolding compare_texts
  compare_values none none = Sign.zero_sign
  compare_values none (some b) = Sign.negative
  compare_values (some a) none = Sign.positive
  compare_values (some a) (some b) =
      compare_with (values.less a b) (values.greater a b)
        (compare_texts (values.str a) (values.str b))

  abbrev pub is_desc : SortDirection → Bool
  is_desc SortDirection.desc = true
  is_desc SortDirection.asc = false

  abbrev pub is_top : RankingDirection → Bool
  is_top RankingDirection.top = true
  is_top RankingDirection.bottom = false

  -- `sort_specs`
  unfoldable pub sort_specs : List SortClause → Option RankingClause → List (Text × Bool)
  unfolding leaf_of
  sort_specs [] none = []
  sort_specs [] (some r) = (path_leaf r.field.segments, is_top r.direction) ∷ []
  sort_specs (s ∷ ss) r = map (λ x. (path_leaf x.field.segments, is_desc x.direction)) (s ∷ ss)

  abbrev pub add_alias : Text → Option Text → Dict Text → Dict Text
  unfolding put
  add_alias leaf none d = d
  add_alias leaf (some []) d = d
  add_alias leaf (some (c ∷ a)) d =
      put (values.lower leaf) (c ∷ a)
        (put leaf (c ∷ a) (put (values.lower (c ∷ a)) leaf (put (c ∷ a) leaf d)))

  unfoldable pub alias_map_from : Dict Text → List FieldSelection → Dict Text
  unfolding put leaf_of
  alias_map_from d [] = d
  alias_map_from d (sel ∷ sels) =
      alias_map_from (add_alias (path_leaf sel.path.segments) sel.alias d) sels

  -- `row.get(k)`: a missing key is None.
  unfoldable pub value_at : Text → Dict (Option V) → Option V
  unfolding get
  value_at k row = elim (get k row) [ none ↦ none | some v ↦ v ]

  -- `val`, or what the row has under the alias of the name
  abbrev pub or_alias : Option V → Option Text → Dict (Option V) → Option V
  unfolding value_at
  or_alias none (some k) row = value_at k row
  or_alias v _ row = v

  unfoldable pub sort_value : Dict Text → Text → Dict (Option V) → Option V
  unfolding value_at get
  sort_value aliases name row =
      or_alias (or_alias (value_at name row) (get name aliases) row)
        (get (values.lower name) aliases) row

  abbrev pub or_next : Sign → Sign → Sign
  or_next Sign.zero_sign next = next
  or_next s next = s

  -- `comparator`
  unfoldable pub compare_rows :
      Dict Text → List (Text × Bool) → Dict (Option V) → Dict (Option V) → Sign
  unfolding compare_values sort_value negate
  compare_rows aliases [] a b = Sign.zero_sign
  compare_rows aliases ((name, desc) ∷ specs) a b =
      let res = compare_values (sort_value aliases name a) (sort_value aliases name b) in
      or_next (if desc then negate res else res) (compare_rows aliases specs a b)
