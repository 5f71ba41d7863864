-- ===== src/Planning.antt =====
-- `_compute_federated_plan_ir_updates` of query_engine/planning/planner.py: the query that each source
-- of a federated query gets.
pub mod Sorted
pub mod Pushdown
use altr_stream.Base.{
  ℕ, zero, suc, ◌+◌, ◌-◌, leb, ℤ, Bool, true, false, ◌&&◌, ◌||◌, List, [], ◌∷◌, Option, none, some,
  if◌then◌else◌,
}
use altr_stream.Merger.Merge.{count_of}
use altr_stream.Ast.{AltrQueryIr, SortClause, SortDirection, RankingClause, RankingDirection}

abbrev pub has_sort : List SortClause → Option RankingClause → Bool
has_sort [] none = false
has_sort [] (some r) = true
has_sort (s ∷ ss) ranking = true

abbrev pub is_count : ℤ → Bool
is_count (ℤ.pos n) = true
is_count (ℤ.negsuc n) = false

-- Of the limit and the count of the ranking.
abbrev pub has_limit : Option ℤ → Option ℤ → Bool
has_limit none none = false
has_limit none (some c) = is_count c
has_limit (some l) none = is_count l
has_limit (some l) (some c) = is_count l || is_count c

abbrev pub limit_value : Option ℤ → Option ℤ → ℤ
limit_value (some l) count = l
limit_value none (some c) = c
limit_value none none = ℤ.pos 0

abbrev pub offset_value : Option ℤ → ℕ
offset_value (some (ℤ.pos n)) = n
offset_value _ = 0

-- `n + z`
abbrev pub add_to : ℕ → ℤ → ℤ
add_to n (ℤ.pos m) = ℤ.pos (n + m)
add_to n (ℤ.negsuc m) = if leb (suc m) n then ℤ.pos (n - suc m) else ℤ.negsuc (m - n)

-- The limit for each source, where there is a sort or not.
unfoldable pub pushed_limit : Bool → Option ℤ → Option ℤ → Option ℤ → Option ℤ
pushed_limit sorted limit count offset =
    if sorted && has_limit limit count
    then some (add_to (offset_value offset) (limit_value limit count))
    else none

abbrev pub order_direction : RankingDirection → SortDirection
order_direction RankingDirection.top = SortDirection.desc
order_direction RankingDirection.bottom = SortDirection.asc

-- A ranking becomes a sort, where there is none.
abbrev pub pushed_sort : List SortClause → Option RankingClause → List SortClause
pushed_sort [] (some r) = record { field = r.field; direction = order_direction r.direction } ∷ []
pushed_sort sort ranking = sort

-- `ir.model_copy(update=updates)`
unfoldable pub federated_plan_ir : {F : Type 0} → AltrQueryIr F → AltrQueryIr F
unfolding pushed_limit
federated_plan_ir ir = record ir {
  offset = none;
  limit = pushed_limit (has_sort ir.sort ir.ranking) ir.limit (count_of ir.ranking) ir.offset;
  sort = pushed_sort ir.sort ir.ranking;
  ranking = none;
}
