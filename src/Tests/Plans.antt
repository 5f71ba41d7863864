-- ===== src/Tests/Plans.antt =====
-- A page of two sources, each asked for its first rows.
use altr_stream.Base.{
  ℕ, ltb, ℤ, List, [], ◌∷◌, map, none, some, All, ◌≡◌, refl, if◌then◌else◌, arith,
}
use altr_stream.Ast.{AltrQueryIr}
use altr_stream.Merger.{Sign}
use altr_stream.Merger.Merge.{page, sort_rows}
use altr_stream.Merger.Ordering.{Follows, Ordered}
use altr_stream.Planning.{federated_plan_ir}
use altr_stream.Planning.Sorted.{joined, NotLess}
use altr_stream.Planning.Pushdown.{answer, page-federated_plan_ir}
use altr_stream.Tests.Merges.{by_age}

abbrev by_number : ℕ → ℕ → Sign
by_number a b = if ltb a b then Sign.negative else Sign.zero_sign

by_number_trans :
    (a b c : ℕ) → NotLess by_number a b → NotLess by_number b c → NotLess by_number a c
by_number_trans a b c h k = ground (arith, h, k)

-- The second page: the offset is one, the limit two.
abbrev second_page : AltrQueryIr ℕ
second_page = record by_age { offset = some (ℤ.pos 1) }

abbrev two_lists : List (List ℕ)
two_lists = (1 ∷ 4 ∷ 6 ∷ 8 ∷ []) ∷ (2 ∷ 3 ∷ 5 ∷ 7 ∷ []) ∷ []

asked_lists :
    map (answer (federated_plan_ir second_page).limit) two_lists
    ≡ (1 ∷ 4 ∷ 6 ∷ []) ∷ (2 ∷ 3 ∷ 5 ∷ []) ∷ []
unfolding answer federated_plan_ir
asked_lists = refl

two_lists-Ordered : All (Ordered by_number) two_lists
unfolding Ordered Follows
two_lists-Ordered = ((refl, (refl, (refl, (tt, tt)))), ((refl, (refl, (refl, (tt, tt)))), tt))

page-federated_plan_ir_example :
    page
      (some (ℤ.pos 1))
      (some (ℤ.pos 2))
      none
      (sort_rows by_number (joined (map (answer (federated_plan_ir second_page).limit) two_lists)))
    ≡ page (some (ℤ.pos 1)) (some (ℤ.pos 2)) none (sort_rows by_number (joined two_lists))
page-federated_plan_ir_example =
    page-federated_plan_ir by_number by_number_trans second_page two_lists tt two_lists-Ordered
