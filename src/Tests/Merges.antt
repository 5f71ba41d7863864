-- ===== src/Tests/Merges.antt =====
-- A merge of two sources.
use altr_stream.Base.{
  Text, codes, text_eq, contains, ℕ, ltb, ℤ, List, [], ◌∷◌, Option, none, some, ◌≡◌, refl, arith,
}
use altr_stream.Ast.{AltrQueryIr, SortDirection, QueryOperation}
use altr_stream.Merger.{Values, Dict}
use altr_stream.Merger.Merge.{ResultRow, merge_federated_results}
use altr_stream.Merger.Ordering.{Lawful, Ordered, comparator, merge_federated_results-Ordered}

abbrev pub numbers : Values ℕ
numbers = record {
  less = λ a b. some (ltb a b);
  greater = λ a b. some (ltb b a);
  str = λ n. n ∷ [];
  lower = λ s. s;
}

numbers-Lawful : Lawful numbers
numbers-Lawful = record {
  swapped = λ a b. refl;
  exclusive = λ a b h. ground arith;
  both_fail = λ a b h. cc;
}

-- GET marks, sorted by age, at most two rows.
abbrev pub by_age : AltrQueryIr ℕ
by_age = record {
  operation = QueryOperation.read;
  entity = codes "marks";
  projection = [];
  where_clause = none;
  assignments = [];
  records = [];
  sort =
      record { field = record { segments = codes "age" ∷ [] }; direction = SortDirection.asc } ∷ [];
  ranking = none;
  limit = some (ℤ.pos 2);
  offset = none;
}

abbrev aged : Text → Option ℕ → ResultRow ℕ
aged col n = (col, n) ∷ []

-- One source calls the field `years`.
abbrev two_sources : List (Dict Text × List (ResultRow ℕ))
two_sources =
    ((codes "age", codes "age") ∷ [], aged (codes "age") (some 7) ∷ aged (codes "age") none ∷ [])
    ∷ ((codes "years", codes "age") ∷ [], aged (codes "years") (some 3) ∷ [])
    ∷ []

-- NULL comes first, then the row of the second source.
by_age-rows :
    (merge_federated_results numbers by_age [] two_sources).1
    ≡ aged (codes "age") none ∷ aged (codes "age") (some 3) ∷ []
unfolding merge_federated_results text_eq contains
by_age-rows = refl

merge_federated_results-Ordered_example :
    Ordered (comparator numbers by_age) ((merge_federated_results numbers by_age [] two_sources).1)
merge_federated_results-Ordered_example =
    merge_federated_results-Ordered numbers by_age [] two_sources numbers-Lawful
