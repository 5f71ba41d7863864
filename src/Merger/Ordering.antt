-- ===== src/Merger/Ordering.antt =====
-- The order of merged rows.
use altr_stream.Base.{
  Text, text_gt, ℕ, zero, suc, ℤ, Bool, true, false, List, [], ◌∷◌, Option, none, some, ◌≡◌, refl,
  inl, inr, Bool-cases, if◌then◌else◌, arith,
}
use altr_stream.Ast.{AltrQueryIr, RankingClause}
use altr_stream.Merger.{
  Values, Dict, Sign, negate, sign_of_tests, compare_texts, compare_with, compare_values,
  sort_value, or_next, compare_rows, sort_specs, alias_map_from,
}
use altr_stream.Merger.Merge.{
  format_rows, normalized_rows, projected_aliases, merge_federated_results, drop, take, skip_offset,
  row_limit, take_limit, count_of, page, ResultRow, is_negative, insert_row, sort_rows, sort_by,
  merged_rows,
}

-- Python's `a > b` is `b < a`, and not both `a < b` and `b < a`.
pub record Lawful {V : Type 0} (values : Values V) : Type 0 where
  pub swapped : (a b : V) → values.greater a b ≡ values.less b a
  pub exclusive : (a b : V) → values.less a b ≡ some true → values.less b a ≡ some false
  -- A TypeError does not depend on the side.
  pub both_fail : (a b : V) → values.less a b ≡ none → values.less b a ≡ none

text_gt_asym : (s t : Text) → text_gt s t ≡ true → text_gt t s ≡ false
unfolding text_gt
text_gt_asym [] t h = cc
text_gt_asym (c ∷ s) [] h = refl
text_gt_asym (c ∷ s) (e ∷ t) h = ground (arith, text_gt_asym s t)

module _ {V : Type 0} (values : Values V) where
  compare_texts_swap : (s t : Text) → compare_texts values t s ≡ negate (compare_texts values s t)
  unfolding compare_texts negate
  compare_texts_swap s t = signs (text_gt s t) (text_gt t s) (text_gt_asym s t)
    where
      signs :
          (a b : Bool)
          → (a ≡ true → b ≡ false)
          → sign_of_tests values a b ≡ negate (sign_of_tests values b a)
      signs true true h = cc (h refl)
      signs true false h = refl
      signs false true h = refl
      signs false false h = refl

  compare_values_swap :
      Lawful values
      → (a b : Option V) → compare_values values b a ≡ negate (compare_values values a b)
  unfolding compare_values negate
  compare_values_swap law none none = refl
  compare_values_swap law none (some b) = refl
  compare_values_swap law (some a) none = refl
  compare_values_swap law (some a) (some b) =
      rw (law.swapped b a, law.swapped a b)
        (tests (values.less a b) (values.less b a) (law.exclusive a b) (law.exclusive b a)
          (law.both_fail a b) (law.both_fail b a))
    where
      tests :
          (l r : Option Bool)
          → (l ≡ some true → r ≡ some false)
          → (r ≡ some true → l ≡ some false)
          → (l ≡ none → r ≡ none)
          → (r ≡ none → l ≡ none)
          → compare_with values r l (compare_texts values (values.str b) (values.str a))
            ≡ negate (compare_with values l r (compare_texts values (values.str a) (values.str b)))
      tests none r h k f g = rw (f refl) (compare_texts_swap (values.str a) (values.str b))
      tests (some true) r h k f g = rw (h refl)
      tests (some false) none h k f g = cc (g refl)
      tests (some false) (some true) h k f g = refl
      tests (some false) (some false) h k f g = refl

  compare_rows_swap :
      Lawful values
      → (aliases : Dict Text) (specs : List (Text × Bool)) (a b : ResultRow V)
      → compare_rows values aliases specs b a ≡ negate (compare_rows values aliases specs a b)
  unfolding compare_rows negate
  compare_rows_swap law aliases [] a b = refl
  compare_rows_swap law aliases ((name, desc) ∷ specs) a b =
      rw
        (
          compare_values_swap law (sort_value values aliases name a)
              (sort_value values aliases name b),
          compare_rows_swap law aliases specs a b,
        )
        (signs desc
          (compare_values values (sort_value values aliases name a)
            (sort_value values aliases name b))
          (compare_rows values aliases specs a b))
    where
      signs :
          (d : Bool) (s n : Sign)
          → or_next values (if d then negate (negate s) else negate s) (negate n)
            ≡ negate (or_next values (if d then negate s else s) n)
      signs true Sign.negative n = refl
      signs true Sign.zero_sign n = refl
      signs true Sign.positive n = refl
      signs false Sign.negative n = refl
      signs false Sign.zero_sign n = refl
      signs false Sign.positive n = refl

module _ {A : Type 0} (cmp : A → A → Sign) where
  -- The next row is not less.
  unfoldable pub Follows : A → List A → Type 0
  Follows x [] = Unit {0}
  Follows x (y ∷ ys) = is_negative (cmp y x) ≡ false

  -- No row is less than the row before it.
  unfoldable pub Ordered : List A → Type 0
  unfolding Follows
  Ordered [] = Unit {0}
  Ordered (x ∷ xs) = Follows x xs × Ordered xs

  module _ (asym : (a b : A) → is_negative (cmp a b) ≡ true → is_negative (cmp b a) ≡ false) where
    Follows-insert_row :
        (x r : A) (rows : List A)
        → is_negative (cmp r x) ≡ false
        → Follows x rows
        → Follows x (insert_row cmp r rows)
    unfolding Follows insert_row
    Follows-insert_row x r [] h k = h
    Follows-insert_row x r (s ∷ rows) h k = elim (Bool-cases (is_negative (cmp s r))) [
      | inl e ↦ rw e k
      | inr e ↦ rw e h
    ]

    Ordered-insert_row : (r : A) (rows : List A) → Ordered rows → Ordered (insert_row cmp r rows)
    unfolding Ordered insert_row
    Ordered-insert_row r [] h = (tt, tt)
    Ordered-insert_row r (s ∷ rows) h = elim (Bool-cases (is_negative (cmp s r))) [
      | inl e ↦ rw e (Follows-insert_row s r rows (asym s r e) h.0, Ordered-insert_row r rows h.1)
      | inr e ↦ rw e (e, h)
    ]

    Ordered-sort_rows : (rows : List A) → Ordered (sort_rows cmp rows)
    unfolding Ordered sort_rows
    Ordered-sort_rows [] = tt
    Ordered-sort_rows (r ∷ rows) =
        Ordered-insert_row r (sort_rows cmp rows) (Ordered-sort_rows rows)

  Ordered-drop : (n : ℕ) (rows : List A) → Ordered rows → Ordered (drop n rows)
  unfolding Ordered drop
  Ordered-drop zero rows h = h
  Ordered-drop (suc n) [] h = h
  Ordered-drop (suc n) (r ∷ rows) h = Ordered-drop n rows h.1

  Follows-take : (n : ℕ) (x : A) (rows : List A) → Follows x rows → Follows x (take n rows)
  unfolding Follows take
  Follows-take zero x rows h = tt
  Follows-take (suc n) x [] h = h
  Follows-take (suc n) x (r ∷ rows) h = h

  Ordered-take : (n : ℕ) (rows : List A) → Ordered rows → Ordered (take n rows)
  unfolding Ordered take
  Ordered-take zero rows h = tt
  Ordered-take (suc n) [] h = h
  Ordered-take (suc n) (r ∷ rows) h = (Follows-take n r rows h.0, Ordered-take n rows h.1)

  Ordered-page :
      (offset limit : Option ℤ) (ranking : Option RankingClause) (rows : List A)
      → Ordered rows
      → Ordered (page offset limit ranking rows)
  unfolding page take_limit
  Ordered-page offset limit ranking rows h =
      by_limit (row_limit limit (count_of ranking)) (by_offset offset)
    where
      by_offset : (o : Option ℤ) → Ordered (skip_offset o rows)
      by_offset none = h
      by_offset (some (ℤ.pos n)) = Ordered-drop n rows h
      by_offset (some (ℤ.negsuc n)) = h

      by_limit :
          (n : Option ℕ)
          → Ordered (skip_offset offset rows)
          → Ordered (take_limit n (skip_offset offset rows))
      by_limit none k = k
      by_limit (some n) k = Ordered-take n (skip_offset offset rows) k

module _ {V : Type 0} (values : Values V) where
  -- The comparator of a query's SORT and TOP or BOTTOM clauses.
  abbrev pub comparator : {F : Type 0} → AltrQueryIr F → ResultRow V → ResultRow V → Sign
  unfolding compare_rows alias_map_from sort_specs
  comparator ir =
      compare_rows values (alias_map_from values [] ir.projection)
        (sort_specs values ir.sort ir.ranking)

  -- With nothing to sort by, all rows are equal.
  Ordered-unsorted :
      (aliases : Dict Text) (rows : List (ResultRow V))
      → Ordered (compare_rows values aliases []) rows
  unfolding Ordered Follows compare_rows
  Ordered-unsorted aliases [] = tt
  Ordered-unsorted aliases (r ∷ []) = (tt, tt)
  Ordered-unsorted aliases (r ∷ s ∷ rows) = (refl, Ordered-unsorted aliases (s ∷ rows))

  Ordered-sort_by :
      Lawful values
      → (aliases : Dict Text) (specs : List (Text × Bool)) (rows : List (ResultRow V))
      → Ordered (compare_rows values aliases specs) (sort_by values aliases specs rows)
  unfolding sort_by
  Ordered-sort_by law aliases [] rows = Ordered-unsorted aliases rows
  Ordered-sort_by law aliases (spec ∷ specs) rows =
      Ordered-sort_rows (compare_rows values aliases (spec ∷ specs))
        (λ a b h.
          asym (compare_rows values aliases (spec ∷ specs) a b)
            (compare_rows values aliases (spec ∷ specs) b a)
            (compare_rows_swap values law aliases (spec ∷ specs) a b) h)
        rows
    where
      asym : (s t : Sign) → t ≡ negate s → is_negative s ≡ true → is_negative t ≡ false
      asym Sign.negative t e h = rw e
      asym Sign.zero_sign t e h = cc
      asym Sign.positive t e h = cc

  -- Where Python's comparisons of the values agree with each other, no row of a merge is less than the
  -- row before it, by the comparator of the query's SORT, TOP or BOTTOM clause.
  pub merge_federated_results-Ordered :
      {F : Type 0} (ir : AltrQueryIr F) (plans : List (List Text))
      (results : List (Dict Text × List (ResultRow V)))
      → Lawful values
      → Ordered (comparator ir) ((merge_federated_results values ir plans results).1)
  unfolding merge_federated_results merged_rows
  merge_federated_results-Ordered ir plans results law =
      Ordered-page (comparator ir) ir.offset ir.limit ir.ranking (merged_rows values ir results) (
        Ordered-sort_by law (alias_map_from values [] ir.projection)
          (sort_specs values ir.sort ir.ranking)
          (format_rows values ir.projection
            (normalized_rows values (projected_aliases values ir.projection) results)))
