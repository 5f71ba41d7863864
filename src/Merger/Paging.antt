-- ===== src/Merger/Paging.antt =====
-- How many rows a merge returns, and which of the rows of all sources they are.
use altr_stream.Base.{
  Text, ℕ, ◌+◌, ◌-◌, ℤ, List, [], ◌∷◌, length, leb, Option, none, some, if◌then◌else◌,
}
use altr_stream.Merger.{Dict}
use altr_stream.Merger.Merge.{ResultRow}

-- The rows that the sources returned.
unfoldable pub row_count : {V : Type 0} → List (Dict Text × List (ResultRow V)) → ℕ
row_count [] = 0
row_count ((mapping, rows) ∷ results) = length rows + row_count results

unfoldable pub smaller : ℕ → ℕ → ℕ
smaller a b = if leb a b then a else b

-- The number of rows on a page of `total` rows.
abbrev pub skipped : Option ℤ → ℕ
skipped (some (ℤ.pos n)) = n
skipped _ = 0

unfoldable pub page_length : Option ℤ → Option ℕ → ℕ → ℕ
unfolding smaller
page_length offset none total = total - skipped offset
page_length offset (some n) total = smaller n (total - skipped offset)
