-- ===== src/Merger/Merge.antt =====
-- `normalize_row` and `merge_federated_results` of query_engine/planning/merger.py.
use altr_stream.Base.{
  Text, codes, text_eq, contains, ℕ, zero, suc, ℤ, Bool, true, false, ◌&&◌, not, is_some, List, [],
  ◌∷◌, ◌++◌, map, Option, none, some, if◌then◌else◌,
}
use altr_stream.Ast.{AltrQueryIr, FieldSelection, RankingClause}
use altr_stream.Merger.{
  Values, Dict, get, put, leaf_of, path_leaf, Sign, compare_rows, sort_specs, alias_map_from,
}

-- `xs[n:]` and `xs[:n]`
unfoldable pub drop : {A : Type 0} → ℕ → List A → List A
drop zero xs = xs
drop (suc n) [] = []
drop (suc n) (x ∷ xs) = drop n xs

unfoldable pub take : {A : Type 0} → ℕ → List A → List A
take zero xs = []
take (suc n) [] = []
take (suc n) (x ∷ xs) = x ∷ take n xs

-- `if offset is not None and offset > 0: rows = rows[offset:]`
unfoldable pub skip_offset : {A : Type 0} → Option ℤ → List A → List A
unfolding drop
skip_offset (some (ℤ.pos n)) rows = drop n rows
skip_offset _ rows = rows

-- The limit, or the count of the ranking, of those that are not negative.
unfoldable pub row_limit : Option ℤ → Option ℤ → Option ℕ
row_limit (some (ℤ.pos n)) count = some n
row_limit _ (some (ℤ.pos n)) = some n
row_limit _ _ = none

unfoldable pub take_limit : {A : Type 0} → Option ℕ → List A → List A
unfolding take
take_limit none rows = rows
take_limit (some n) rows = take n rows

abbrev pub count_of : Option RankingClause → Option ℤ
count_of none = none
count_of (some r) = some r.count

-- Section 3 of the merge.
unfoldable pub page : {A : Type 0} → Option ℤ → Option ℤ → Option RankingClause → List A → List A
unfolding skip_offset row_limit take_limit
page offset limit ranking rows =
    take_limit (row_limit limit (count_of ranking)) (skip_offset offset rows)

abbrev pub is_negative : Sign → Bool
is_negative Sign.negative = true
is_negative _ = false

-- `rows.sort(key=cmp_to_key(comparator))`: stable, by `comparator(a, b) < 0`
unfoldable pub insert_row : {A : Type 0} → (A → A → Sign) → A → List A → List A
insert_row cmp r [] = r ∷ []
insert_row cmp r (s ∷ rows) =
    let later = s ∷ insert_row cmp r rows in if is_negative (cmp s r) then later else r ∷ s ∷ rows

unfoldable pub sort_rows : {A : Type 0} → (A → A → Sign) → List A → List A
unfolding insert_row
sort_rows cmp [] = []
sort_rows cmp (r ∷ rows) = insert_row cmp r (sort_rows cmp rows)

-- A row, whose values may be None.
abbrev pub ResultRow : Type 0 → Type 0
ResultRow V = Dict (Option V)

module _ {V : Type 0} (values : Values V) where
  unfoldable pub lower_keys : Dict Text → Dict Text → Dict Text
  unfolding put
  lower_keys d [] = d
  lower_keys d ((k, v) ∷ rest) = lower_keys (put (values.lower k) v d) rest

  unfoldable pub lower_values : Dict Text → Dict Text → Dict Text
  unfolding put
  lower_values d [] = d
  lower_values d ((k, v) ∷ rest) = lower_values (put (values.lower v) v d) rest

  unfoldable pub lower_aliases : Dict Text → List Text → Dict Text
  unfolding put
  lower_aliases d [] = d
  lower_aliases d (a ∷ rest) = lower_aliases (put (values.lower a) a d) rest

  -- The key that a column is written under, if it is kept: the chain of `elif`s.
  unfoldable pub logical_key : Dict Text → List Text → Text → Option Text
  unfolding get lower_keys lower_values lower_aliases
  logical_key mapping aliases col =
      let by_alias = get (values.lower col) (lower_aliases [] aliases) in
      let by_column = get col mapping in
      let by_lower = get (values.lower col) (lower_keys [] mapping) in
      let by_name = get (values.lower col) (lower_values [] mapping) in
      if contains col aliases
      then some col
      else if is_some by_alias
      then by_alias
      else if is_some by_column
      then by_column
      else if is_some by_lower
      then by_lower
      else if contains col (map (λ x. x.1) mapping)
      then some col
      else by_name

  -- `_id`, unless some lookup has it
  unfoldable pub is_internal : Dict Text → List Text → Text → Bool
  unfolding get lower_keys lower_values lower_aliases
  is_internal mapping aliases col =
      text_eq col (codes "_id")
      && not (is_some (get (codes "_id") mapping))
      && not (is_some (get (codes "_id") (lower_keys [] mapping)))
      && not (is_some (get (codes "_id") (lower_values [] mapping)))
      && not (is_some (get (codes "_id") (lower_aliases [] aliases)))

  abbrev pub put_if : Option Text → Option V → ResultRow V → ResultRow V
  unfolding put
  put_if none v row = row
  put_if (some k) v row = put k v row

  -- The loop of `normalize_row`, with `preserve_unmapped` false.
  unfoldable pub normalize_from : Dict Text → List Text → ResultRow V → ResultRow V → ResultRow V
  unfolding is_internal logical_key put
  normalize_from mapping aliases done [] = done
  normalize_from mapping aliases done ((col, v) ∷ row) =
      let skipped = normalize_from mapping aliases done row in
      let kept =
        normalize_from mapping aliases (put_if (logical_key mapping aliases col) v done) row in
      if is_internal mapping aliases col then skipped else kept

  unfoldable pub normalize_row : Dict Text → List Text → ResultRow V → ResultRow V
  unfolding normalize_from
  normalize_row mapping aliases row = normalize_from mapping aliases [] row

  -- `sel.alias or sel.path.leaf`
  abbrev pub out_column : FieldSelection → Text
  unfolding leaf_of
  out_column sel = elim sel.alias [ some (c ∷ a) ↦ c ∷ a | _ ↦ path_leaf sel.path.segments ]

  abbrev pub first_of : List (Option (Option V)) → Option (Option V)
  first_of [] = none
  first_of (some v ∷ rest) = some v
  first_of (none ∷ rest) = first_of rest

  abbrev pub put_found : Text → Option (Option V) → ResultRow V → ResultRow V
  unfolding put
  put_found k none row = row
  put_found k (some v) row = put k v row

  -- The loop over the projection that makes an ordered row.
  unfoldable pub ordered_from : List FieldSelection → ResultRow V → ResultRow V → ResultRow V
  unfolding get put leaf_of
  ordered_from [] nr done = done
  ordered_from (sel ∷ sels) nr done =
      let out_col = out_column sel in
      let src_key = path_leaf sel.path.segments in
      let found = first_of (
        get out_col nr
        ∷ get src_key nr
        ∷ get (values.lower out_col) nr
        ∷ get (values.lower src_key) nr
        ∷ []) in
      ordered_from sels nr (put_found out_col found done)

  -- The aliases of a projection.
  unfoldable pub projected_aliases : List FieldSelection → List Text
  projected_aliases [] = []
  projected_aliases (sel ∷ sels) =
      let rest = projected_aliases sels in
      elim sel.alias [ some (c ∷ a) ↦ (c ∷ a) ∷ rest | _ ↦ rest ]

  -- The rows that a plan's mapping and its result give.
  unfoldable pub normalized_rows :
      List Text → List (Dict Text × List (ResultRow V)) → List (ResultRow V)
  unfolding normalize_row
  normalized_rows aliases [] = []
  normalized_rows aliases ((mapping, rows) ∷ results) =
      map (normalize_row mapping aliases) rows ++ normalized_rows aliases results

  -- The loop that appends the names that are not seen yet.
  unfoldable pub add_columns : List Text → List Text → List Text
  add_columns columns [] = columns
  add_columns columns (k ∷ ks) =
      let same = add_columns columns ks in
      let longer = add_columns (columns ++ k ∷ []) ks in if contains k columns then same else longer

  unfoldable pub add_row_columns : List Text → List (ResultRow V) → List Text
  unfolding add_columns
  add_row_columns columns [] = columns
  add_row_columns columns (r ∷ rows) = add_row_columns (add_columns columns (map (λ x. x.0) r)) rows

  -- The columns: of the projection, or, without one, of the first plan's mapping and of the rows.
  unfoldable pub columns_of :
      List FieldSelection → List (List Text) → List (ResultRow V) → List Text
  unfolding add_columns add_row_columns
  columns_of [] [] rows = add_row_columns [] rows
  columns_of [] (keys ∷ plans) rows = add_row_columns (add_columns [] keys) rows
  columns_of (sel ∷ sels) plans rows = map out_column (sel ∷ sels)

  unfoldable pub format_rows : List FieldSelection → List (ResultRow V) → List (ResultRow V)
  unfolding ordered_from
  format_rows [] rows = rows
  format_rows (sel ∷ sels) rows = map (λ nr. ordered_from (sel ∷ sels) nr []) rows

  -- The global sort, where there is something to sort by.
  unfoldable pub sort_by : Dict Text → List (Text × Bool) → List (ResultRow V) → List (ResultRow V)
  unfolding sort_rows compare_rows
  sort_by aliases [] rows = rows
  sort_by aliases (spec ∷ specs) rows = sort_rows (compare_rows values aliases (spec ∷ specs)) rows

  -- All rows of all sources, in their final order.
  unfoldable pub merged_rows :
      {F : Type 0} → AltrQueryIr F → List (Dict Text × List (ResultRow V)) → List (ResultRow V)
  unfolding normalized_rows projected_aliases format_rows sort_by alias_map_from sort_specs
  merged_rows ir results =
      sort_by (alias_map_from values [] ir.projection) (sort_specs values ir.sort ir.ranking)
        (format_rows ir.projection (normalized_rows (projected_aliases ir.projection) results))

  -- The columns and the rows, for the keys of each plan's logical_to_physical_map and the results.
  unfoldable pub merge_federated_results :
      {F : Type 0}
      → AltrQueryIr F
      → List (List Text)
      → List (Dict Text × List (ResultRow V))
      → List Text × List (ResultRow V)
  unfolding merged_rows page columns_of normalized_rows projected_aliases
  merge_federated_results ir plans results = (
    columns_of ir.projection plans (normalized_rows (projected_aliases ir.projection) results),
    page ir.offset ir.limit ir.ranking (merged_rows ir results),
  )
