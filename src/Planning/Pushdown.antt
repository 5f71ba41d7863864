-- ===== src/Planning/Pushdown.antt =====
-- The limit that each source gets loses no row of the page.
use altr_stream.Base.{
  ℕ, zero, suc, ◌+◌, ℤ, Bool, true, false, List, [], ◌∷◌, map, Option, none, some, All, ◌≡◌, refl,
  sym, ap, subst, ◌∙◌, arith,
}
use altr_stream.Ast.{AltrQueryIr}
use altr_stream.Merger.{Sign}
use altr_stream.Merger.Merge.{
  drop, take, skip_offset, row_limit, take_limit, count_of, page, sort_rows,
}
use altr_stream.Merger.Ordering.{Ordered}
use altr_stream.Planning.{has_sort, offset_value, pushed_limit, federated_plan_ir}
use altr_stream.Planning.Sorted.{joined, NotLess, take-sort_rows}

-- What a source answers: its rows, or the first of them where it gets a limit.
unfoldable pub answer : {A : Type 0} → Option ℤ → List A → List A
unfolding row_limit take_limit
answer limit rows = take_limit (row_limit limit none) rows

zero_add : (n : ℕ) → 0 + n ≡ n
zero_add n = omega arith

map-same : {A : Type 0} (f : A → A) (xs : List A) → ((x : A) → f x ≡ x) → map f xs ≡ xs
map-same f [] h = refl
map-same f (x ∷ xs) h = rw (h x, map-same f xs h) refl

-- The limit of a query is none, or a number.
abbrev pub IsCount : Option ℤ → Type 0
IsCount (some (ℤ.negsuc n)) = ⊥
IsCount _ = Unit {0}

take-drop :
    {A : Type 0} (o n k : ℕ) (xs : List A) → k ≡ o + n → take n (drop o xs) ≡ drop o (take k xs)
unfolding take drop
take-drop zero n k xs e = let same : k ≡ n = omega (arith, e) in rw same refl
take-drop (suc o) n zero xs e = absurd (omega arith)
take-drop (suc o) zero (suc k) [] e = refl
take-drop (suc o) (suc n) (suc k) [] e = refl
take-drop (suc o) n (suc k) (x ∷ xs) e = take-drop o n k xs (omega (arith, e))

-- A page is of the first rows only.
take-skip_offset :
    {A : Type 0} (offset : Option ℤ) (n : ℕ) (before after : List A)
    → take (offset_value offset + n) before ≡ take (offset_value offset + n) after
    → take n (skip_offset offset before) ≡ take n (skip_offset offset after)
unfolding skip_offset
take-skip_offset none n before after h = subst (λ k. take k before ≡ take k after) (zero_add n) h
take-skip_offset (some (ℤ.pos m)) n before after h =
    take-drop m n (m + n) before refl ∙ ap (drop m) h ∙ sym (take-drop m n (m + n) after refl)
take-skip_offset (some (ℤ.negsuc m)) n before after h =
    subst (λ k. take k before ≡ take k after) (zero_add n) h

module _ {A : Type 0} (cmp : A → A → Sign)
    (trans : (a b c : A) → NotLess cmp a b → NotLess cmp b c → NotLess cmp a c) where
  -- The rows of all sources in order, each source asked for `limit` rows.
  abbrev asked : Option ℤ → List (List A) → List A
  asked limit sources = sort_rows cmp (joined (map (answer limit) sources))

  unlimited : (sources : List (List A)) → asked none sources ≡ sort_rows cmp (joined sources)
  unfolding answer row_limit take_limit
  unlimited sources =
      ap (λ xss. sort_rows cmp (joined xss)) (map-same (answer none) sources (λ xs. refl))

  limited :
      (offset : Option ℤ) (n : ℕ) (sources : List (List A))
      → All (Ordered cmp) sources
      → take n (skip_offset offset (asked (some (ℤ.pos (offset_value offset + n))) sources))
        ≡ take n (skip_offset offset (sort_rows cmp (joined sources)))
  unfolding answer row_limit take_limit
  limited offset n sources h =
      take-skip_offset offset n _ _
        (sym (take-sort_rows cmp trans (offset_value offset + n) sources h))

  page-asked :
      (sorted : Bool) (limit count offset : Option ℤ) (sources : List (List A))
      → IsCount limit
      → All (Ordered cmp) sources
      → take_limit
          (row_limit limit count)
          (skip_offset offset (asked (pushed_limit sorted limit count offset) sources))
        ≡ take_limit (row_limit limit count) (skip_offset offset (sort_rows cmp (joined sources)))
  unfolding pushed_limit row_limit take_limit
  page-asked false limit count offset sources c h =
      ap (λ rows. take_limit (row_limit limit count) (skip_offset offset rows)) (unlimited sources)
  page-asked true none none offset sources c h = ap (skip_offset offset) (unlimited sources)
  page-asked true none (some (ℤ.pos n)) offset sources c h = limited offset n sources h
  page-asked true none (some (ℤ.negsuc n)) offset sources c h =
      ap (skip_offset offset) (unlimited sources)
  page-asked true (some (ℤ.pos n)) none offset sources c h = limited offset n sources h
  page-asked true (some (ℤ.pos n)) (some k) offset sources c h = limited offset n sources h
  page-asked true (some (ℤ.negsuc n)) count offset sources c h = absurd c

  -- Where the sources have their rows in the order of the merger's comparator, which is transitive,
  -- and a limit is not negative: a page of the rows that each source answers with the limit of its
  -- physical query is the page of all rows of all sources, offset, ties and their order included.
  pub page-federated_plan_ir :
      {F : Type 0} (ir : AltrQueryIr F) (sources : List (List A))
      → IsCount ir.limit
      → All (Ordered cmp) sources
      → page ir.offset ir.limit ir.ranking
          (sort_rows cmp (joined (map (answer (federated_plan_ir ir).limit) sources)))
        ≡ page ir.offset ir.limit ir.ranking (sort_rows cmp (joined sources))
  unfolding page federated_plan_ir
  page-federated_plan_ir ir sources c h =
      page-asked (has_sort ir.sort ir.ranking) ir.limit (count_of ir.ranking) ir.offset sources c h
