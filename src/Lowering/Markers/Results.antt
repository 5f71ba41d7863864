-- ===== src/Lowering/Markers/Results.antt =====
-- What the three lowerers return: each query with the numbers of its markers.
use altr_stream.Base.{
  Text, ℕ, zero, suc, Bool, ◌+◌, List, [], ◌∷◌, length, All, ◌≡◌, refl, ◌∙◌, ap, arith,
}
use altr_stream.Base.Result.{Result, ok, err, ◌>>=◌, >>=-eq-ok, ok-injective}
use altr_stream.Ast.{QueryOperation, ComparisonOperator, Operand}
use altr_stream.BoundAst.{BoundCreateRecord, BoundAltrQueryIr}
use altr_stream.Lowering.Sql.{Param, Lower, LowerError, Host, Sql, text, markers}
use altr_stream.Lowering.Dialect.{Dialect, lower_literal}
use altr_stream.Lowering.Queries.{Comparing}
use altr_stream.Lowering.Creates.{
  PhysicalQuery, PhysicalQueryResult, queries_of, Group, row_values, group_sql, as_query, run_query,
  group_queries, as_result, lower_create, lower_single, with_columns, create_records, group_records,
  lower_as, lower,
}
use altr_stream.Lowering.Markers.{Numbered, done, next, Marked, Marks, Marks-text, All-Marks-map}
use altr_stream.Lowering.Markers.Parts.{part_rules, Marks-lower_literal, Marks-grouped}
use altr_stream.Lowering.Markers.Statements.{
  Marks-lower_update, Marks-lower_delete, Marks-lower_read,
}

-- `n + 1`, `n + 2`, ..., `n + k`
unfoldable pub count : ℕ → ℕ → List ℕ
count n zero = []
count n (suc k) = suc n ∷ count (suc n) k

Numbered-count :
    {n m : ℕ} {ks : List ℕ} → Numbered n ks m → (k : ℕ) × (m ≡ n + k) × (ks ≡ count n k)
unfolding count
Numbered-count done = (zero, omega arith, refl)
Numbered-count (next {n} p) =
    let (k, size, list) = Numbered-count p in (suc k, omega arith, ap (λ x. suc n ∷ x) list)

-- The markers are 1, 2, ..., up to the number of parameters.
abbrev pub InOrder : {D F : Type 0} → PhysicalQuery D F → Type 0
unfolding markers count
InOrder q = markers q.query ≡ count 0 (length q.parameters)

module _ {D F : Type 0} (d : Dialect D F) where
  InOrder-as_query :
      (q : BoundAltrQueryIr F) (sql : Sql) (ps : List (Param D F))
      → Numbered 0 (markers sql) (length ps)
      → InOrder (as_query d q (sql, ps))
  unfolding InOrder
  InOrder-as_query q sql ps h =
      let (k, size, list) = Numbered-count h in list ∙ ap (count 0) (omega (arith, size))

  run_query-InOrder :
      (q : BoundAltrQueryIr F) (m : Lower (Param D F) Sql) (out : PhysicalQuery D F)
      → Marks m
      → run_query d q m ≡ ok out
      → InOrder out
  unfolding run_query Marked
  run_query-InOrder q m out h eq = finished (m []) (h.run []) eq
    where
      finished :
          (made : Result LowerError (Sql × List (Param D F)))
          → Marked [] made
          → (made >>= λ x. ok (as_query d q x)) ≡ ok out
          → InOrder out
      finished (ok (sql, ps)) n e = rw (← (ok-injective e)) (InOrder-as_query q sql ps n)
      finished (err x) n e = cc

  Marks-row_values : (r : BoundCreateRecord F) → Marks (row_values d r)
  unfolding row_values
  Marks-row_values r = Marks-grouped d _ _ (
      All-Marks-map (λ a. lower_literal d a.value) r.assignments λ a. Marks-lower_literal d a.value)

  Marks-group_sql : (q : BoundAltrQueryIr F) (g : Group F) → Marks (group_sql d q g)
  unfolding group_sql
  Marks-group_sql q g =
      let columns =
        All-Marks-map {P = Param D F} (λ col. text (d.quote_ident col)) g.0
          (λ col. Marks-text (d.quote_ident col)) in
      search (part_rules, columns, Marks-row_values) depth 12

  group_queries-InOrder :
      (q : BoundAltrQueryIr F) (gs : List (Group F)) (out : List (PhysicalQuery D F))
      → group_queries d q gs ≡ ok out
      → All InOrder out
  unfolding group_queries
  group_queries-InOrder q [] out eq = rw (← (ok-injective eq)) tt
  group_queries-InOrder q (g ∷ gs) out eq =
      let (first, one, eq1) =
        >>=-eq-ok (run_query d q (group_sql d q g))
          (λ first. group_queries d q gs >>= λ rest. ok (first ∷ rest)) eq in
      let (rest, more, eq2) = >>=-eq-ok (group_queries d q gs) (λ rest. ok (first ∷ rest)) eq1 in
      rw (← (ok-injective eq2)) (
        run_query-InOrder q (group_sql d q g) first (Marks-group_sql q g) one,
        group_queries-InOrder q gs rest more,
      )

  as_result-InOrder :
      (q : BoundAltrQueryIr F) (qs : List (PhysicalQuery D F))
      → All InOrder qs
      → All InOrder (queries_of (as_result d q qs))
  unfolding queries_of
  as_result-InOrder q [] h = h
  as_result-InOrder q (p ∷ []) h = h
  as_result-InOrder q (p ∷ r ∷ qs) h = h

  lower_create-InOrder :
      (q : BoundAltrQueryIr F) (out : PhysicalQueryResult D F)
      → lower_create d q ≡ ok out
      → All InOrder (queries_of out)
  unfolding lower_create
  lower_create-InOrder q out eq =
      let (rows, _, eq1) =
        >>=-eq-ok (with_columns (create_records q))
          (λ rows. group_queries d q (group_records rows) >>= λ qs. ok (as_result d q qs)) eq in
      let (qs, runs, eq2) =
        >>=-eq-ok (group_queries d q (group_records rows)) (λ qs. ok (as_result d q qs)) eq1 in
      rw (← (ok-injective eq2))
        (as_result-InOrder q qs (group_queries-InOrder q (group_records rows) qs runs))

  lower_single-InOrder :
      (q : BoundAltrQueryIr F) (m : Lower (Param D F) Sql) (out : PhysicalQueryResult D F)
      → Marks m
      → lower_single d q m ≡ ok out
      → All InOrder (queries_of out)
  unfolding queries_of run_query
  lower_single-InOrder q m out h eq =
      let (one, runs, eq1) =
        >>=-eq-ok (run_query d q m) (λ p. ok (PhysicalQueryResult.single p)) eq in
      rw (← (ok-injective eq1)) (run_query-InOrder q m one h runs, tt)

module _ {D F : Type 0} (host : Host D F) (d : Dialect D F) (comparing : Comparing D F)
    (Marks-comparing : (col : Text) (t : Bool) (op : ComparisonOperator) (o : Operand F)
      → Marks (comparing col t op o)) where
  pub lower-InOrder :
      (q : BoundAltrQueryIr F) (out : PhysicalQueryResult D F)
      → lower host d comparing q ≡ ok out
      → All InOrder (queries_of out)
  unfolding lower
  lower-InOrder q out = by_operation q.operation
    where
      by_operation :
          (op : QueryOperation)
          → lower_as host d comparing q op ≡ ok out
          → All InOrder (queries_of out)
      by_operation QueryOperation.create = lower_create-InOrder d q out
      by_operation QueryOperation.update =
          lower_single-InOrder d q _ out (Marks-lower_update host d comparing Marks-comparing q)
      by_operation QueryOperation.delete =
          lower_single-InOrder d q _ out (Marks-lower_delete host d comparing Marks-comparing q)
      by_operation QueryOperation.read =
          lower_single-InOrder d q _ out (Marks-lower_read host d comparing Marks-comparing q)
