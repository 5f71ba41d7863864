-- ===== src/Semantic/Checks.antt =====
-- What the small checks of the validator accept: tests on lists and options, distinct names, paging.
use altr_stream.Base.{
  Text, text_eq_iff, contains, text_eq, ℤ, le_zero, ◌≡◌, ◌↔◌, ◌⊎◌, inl, inr, refl, false, List, [],
  ◌∷◌, Option, none, some, All, ◌≤◌, ltb, length, is_some, arith, ◌||◌, ||-eq-false, Bool-cases,
}
use altr_stream.Base.Result.{ok, err, ◌>>◌, raise_if, Passes, Passes->>, Passes-raise_if}
use altr_stream.Ast.{RankingClause, AltrQueryIr, SortClause}
use altr_stream.Semantic.Validator.{
  Check, SemanticError, check_distinct, validate_sort_and_ranking_mutual_exclusion, validate_offset,
  validate_limit, validate_ranking, reject_sort_and_paging,
}
use altr_stream.Semantic.WellFormed.{Fresh, Distinct, IsPositive, IsNonnegative, IsPositiveRanking}

-- Two steps that run one after the other, each with its own description.
pub and_then :
    {m k : Check} {P Q : Type 0} → Passes m ↔ P → Passes k ↔ Q → Passes (m >> k) ↔ (P × Q)
and_then {m} {k} p q =
    let both = Passes->> m k in
    (λ h. let r = both.0 h in (p.0 r.0, q.0 r.1), λ h. both.1 (p.1 h.0, q.1 h.1))

pub pass : {P : Type 0} → P → Passes {E = SemanticError} (ok tt) ↔ P
pass p = (λ _. p, λ _. refl)

pub reject : {P : Type 0} (e : SemanticError) → ¬ P → Passes (err e) ↔ P
reject e n = (λ h. cc, λ h. absurd (n h))

pub raise_nonempty :
    {A : Type 0} (xs : List A) (e : SemanticError)
    → Passes (raise_if (ltb 0 (length xs)) e) ↔ (xs ≡ [])
raise_nonempty [] e = pass refl
raise_nonempty (x ∷ xs) e = (λ h. ground arith, λ h. cc)

pub raise_empty :
    {A : Type 0} (xs : List A) (e : SemanticError)
    → Passes (raise_if (ltb (length xs) 1) e) ↔ (1 ≤ length xs)
raise_empty [] e = reject e (omega arith)
raise_empty (x ∷ xs) e = (λ h. omega arith, λ h. ground arith)

pub raise_some :
    {A : Type 0} (o : Option A) (e : SemanticError) → Passes (raise_if (is_some o) e) ↔ (o ≡ none)
raise_some none e = pass refl
raise_some (some a) e = (λ h. cc, λ h. cc)

-- Membership in the set of names seen.
contains-eq-false :
    (name : Text) (seen : List Text) → (contains name seen ≡ false) ↔ Fresh name seen
unfolding contains
contains-eq-false name [] = (λ _. tt, λ _. refl)
contains-eq-false name (other ∷ seen) =
    let both = ||-eq-false (text_eq name other) (contains name seen) in
    let rest = contains-eq-false name seen in
    let differ = text_eq_iff name other in
    (
      λ h. (λ e. cc ((both.0 h).0, differ.1 e), rest.0 (both.0 h).1),
      λ h. both.1 (
        elim (Bool-cases (text_eq name other)) [
          | inl same ↦ absurd (h.0 (differ.0 same))
          | inr other ↦ other
        ],
        rest.1 h.1,
      ),
    )

-- To be fresh for a longer set of seen names.
Fresh-cons :
    (name : Text) (seen names : List Text)
    → All (λ n. Fresh n (name ∷ seen)) names ↔ (Fresh name names × All (λ n. Fresh n seen) names)
Fresh-cons name seen [] = (λ _. (tt, tt), λ _. tt)
Fresh-cons name seen (n ∷ names) =
    let rest = Fresh-cons name seen names in
    (
      λ h. let r = rest.0 h.1 in ((λ e. h.0.0 (cc), r.0), (h.0.1, r.1)),
      λ h. ((λ e. h.0.0 (cc), h.1.0), rest.1 (h.0.1, h.1.1)),
    )

pub check_distinct_iff :
    (duplicate : Text → SemanticError) (seen names : List Text)
    → Passes (check_distinct duplicate seen names)
      ↔ (All (λ n. Fresh n seen) names × Distinct names)
unfolding check_distinct
check_distinct_iff duplicate seen [] = (λ _. (tt, tt), λ _. refl)
check_distinct_iff duplicate seen (name ∷ names) =
    let first = Passes-raise_if (contains name seen) (duplicate name) in
    let fresh = contains-eq-false name seen in
    let step = and_then first (check_distinct_iff duplicate (name ∷ seen) names) in
    let cons = Fresh-cons name seen names in
    (
      λ h. let r = step.0 h in let c = cons.0 r.1.0 in ((fresh.0 r.0, c.1), (c.0, r.1.1)),
      λ h. step.1 (fresh.1 h.0.0, (cons.1 (h.1.0, h.0.1), h.1.1)),
    )

All-Fresh : (names : List Text) → All (λ n. Fresh n []) names
All-Fresh [] = tt
All-Fresh (n ∷ names) = (tt, All-Fresh names)

pub distinct :
    (duplicate : Text → SemanticError) (names : List Text)
    → Passes (check_distinct duplicate [] names) ↔ Distinct names
distinct duplicate names =
    let e = check_distinct_iff duplicate [] names in (λ h. (e.0 h).1, λ h. e.1 (All-Fresh names, h))

pub ranking_iff : (r : Option RankingClause) → Passes (validate_ranking r) ↔ IsPositiveRanking r
unfolding validate_ranking
ranking_iff none = pass tt
ranking_iff (some r) = Passes-raise_if _ _

pub offset_iff : (n : Option ℤ) → Passes (validate_offset n) ↔ IsNonnegative n
unfolding validate_offset
offset_iff none = pass tt
offset_iff (some n) = Passes-raise_if _ _

pub limit_iff :
    (n : Option ℤ) (r : Option RankingClause)
    → Passes (validate_limit n r) ↔ (IsPositive n × ((n ≡ none) ⊎ (r ≡ none)))
unfolding validate_limit
limit_iff none r = pass (tt, inl refl)
limit_iff (some n) r =
    let e =
      and_then (Passes-raise_if (le_zero n) SemanticError.limit_not_positive)
        (raise_some r SemanticError.limit_with_ranking) in
    (λ h. let p = e.0 h in (p.0, inr p.1), λ h. e.1 (h.0, elim h.1 [ inl p ↦ cc | inr p ↦ p ]))

no_sort :
    (sort : List SortClause) (r : Option RankingClause)
    → Passes (raise_if (ltb 0 (length sort) || is_some r) SemanticError.sort_not_allowed)
      ↔ ((sort ≡ []) × (r ≡ none))
no_sort [] none = pass (refl, refl)
no_sort [] (some r) = (λ h. cc, λ h. cc (h.1))
no_sort (s ∷ sort) r = (λ h. absurd (ground arith), λ h. cc (h.0))

module _ {F : Type 0} where
  pub exclusion_iff :
      (ir : AltrQueryIr F)
      → Passes (validate_sort_and_ranking_mutual_exclusion ir)
        ↔ ((ir.sort ≡ []) ⊎ (ir.ranking ≡ none))
  unfolding validate_sort_and_ranking_mutual_exclusion
  exclusion_iff ir = (λ h. ground arith, λ h. ground arith)

  pub no_read_clause_iff :
      (ir : AltrQueryIr F)
      → Passes (reject_sort_and_paging ir)
        ↔ (((ir.sort ≡ []) × (ir.ranking ≡ none)) × ((ir.limit ≡ none) × (ir.offset ≡ none)))
  unfolding reject_sort_and_paging
  no_read_clause_iff ir =
      and_then (no_sort ir.sort ir.ranking)
        (and_then (raise_some ir.limit _) (raise_some ir.offset _))
