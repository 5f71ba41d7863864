-- ===== src/Lowering/Creates.antt =====
-- `lower` of the three lowerers, as a whole, with CREATE: consecutive records with the same columns
-- become one INSERT.
use altr_stream.Base.{
  Text, codes, text_eq, Bool, true, false, ◌&&◌, List, [], ◌∷◌, ◌++◌, map, if◌then◌else◌,
}
use altr_stream.Base.Result.{Result, ok, err, ◌>>=◌}
use altr_stream.Ast.{QueryOperation}
use altr_stream.BoundAst.{BoundMutationAssignment, BoundCreateRecord, BoundAltrQueryIr}
use altr_stream.Lowering.Sql.{Param, Lower, LowerError, index_error, Host, Sql, text, ◌<>◌, joined}
use altr_stream.Lowering.Dialect.{lit, Dialect, last_segment, lower_literal, grouped}
use altr_stream.Lowering.Queries.{Comparing, lower_update, lower_delete, lower_read}

pub record PhysicalQuery (D F : Type 0) : Type 0 where
  pub dialect : Text
  pub query : Sql
  pub parameters : List (Param D F)
  pub source_id : Text
  pub source_name : Text

pub record PhysicalQueryBatch (D F : Type 0) : Type 0 where
  pub dialect : Text
  pub queries : List (PhysicalQuery D F)
  pub source_id : Text
  pub source_name : Text

pub data PhysicalQueryResult (D F : Type 0) : Type 0 where
  single : PhysicalQuery D F → PhysicalQueryResult D F
  batch : PhysicalQueryBatch D F → PhysicalQueryResult D F

-- The queries that are run, in order.
unfoldable pub queries_of : {D F : Type 0} → PhysicalQueryResult D F → List (PhysicalQuery D F)
queries_of (PhysicalQueryResult.single q) = q ∷ []
queries_of (PhysicalQueryResult.batch b) = b.queries

-- Equality of two tuples of columns.
unfoldable pub columns_eq : List Text → List Text → Bool
columns_eq [] [] = true
columns_eq (c ∷ cs) (e ∷ es) = text_eq c e && columns_eq cs es
columns_eq _ _ = false

-- `path.leaf`
unfoldable pub leaf : List Text → Result LowerError Text
unfolding last_segment
leaf [] = err index_error
leaf (s ∷ ss) = ok (last_segment s ss)

-- A record with its columns.
abbrev pub Row : Type 0 → Type 0
Row F = List Text × BoundCreateRecord F

-- A group: the columns of its first record, and its records.
abbrev pub Group : Type 0 → Type 0
Group F = List Text × List (BoundCreateRecord F)

module _ {F : Type 0} where
  -- `tuple(a.field.path.leaf for a in assignments)`
  unfoldable pub leaves : List (BoundMutationAssignment F) → Result LowerError (List Text)
  unfolding leaf
  leaves [] = ok []
  leaves (a ∷ assignments) =
      leaf a.field.path.segments >>= λ s. leaves assignments >>= λ ss. ok (s ∷ ss)

  unfoldable pub with_columns : List (BoundCreateRecord F) → Result LowerError (List (Row F))
  unfolding leaves
  with_columns [] = ok []
  with_columns (r ∷ rs) =
      leaves r.assignments >>= λ cols. with_columns rs >>= λ rest. ok ((cols, r) ∷ rest)

  -- The loop over the records, with the last group at hand.
  unfoldable pub group_from : Group F → List (Row F) → List (Group F)
  unfolding columns_eq
  group_from (previous_cols, recs) [] = (previous_cols, recs) ∷ []
  group_from (previous_cols, recs) ((cols, rec) ∷ rows) =
      let extended = group_from (previous_cols, recs ++ rec ∷ []) rows in
      let closed = (previous_cols, recs) ∷ group_from (cols, rec ∷ []) rows in
      if columns_eq previous_cols cols then extended else closed

  unfoldable pub group_records : List (Row F) → List (Group F)
  unfolding group_from
  group_records [] = []
  group_records ((cols, rec) ∷ rows) = group_from (cols, rec ∷ []) rows

  -- `query.records`, or one record of the assignments, if there are any
  unfoldable pub create_records : BoundAltrQueryIr F → List (BoundCreateRecord F)
  create_records q = elim q.records [
    | r ∷ rs ↦ r ∷ rs
    | [] ↦ elim q.assignments [
      | [] ↦ []
      | a ∷ assignments ↦ record { assignments = a ∷ assignments } ∷ []
    ]
  ]

module _ {D F : Type 0} (d : Dialect D F) where
  -- `({row_vals})` of a record
  unfoldable pub row_values : BoundCreateRecord F → Lower (Param D F) Sql
  unfolding lower_literal grouped
  row_values rec = grouped d (codes ", ") (map (λ a. lower_literal d a.value) rec.assignments)

  unfoldable pub group_sql : BoundAltrQueryIr F → Group F → Lower (Param D F) Sql
  unfolding text ◌<>◌ joined grouped row_values
  group_sql q group =
      lit "INSERT INTO "
      <> text (d.target_table q.entity)
      <> lit " "
      <> grouped d (codes ", ") (map (λ col. text (d.quote_ident col)) group.0)
      <> lit " VALUES "
      <> joined (codes ", ") (map row_values group.1)
      <> text d.returning
      <> lit ";"

  abbrev pub as_query : BoundAltrQueryIr F → Sql × List (Param D F) → PhysicalQuery D F
  as_query q made = record {
    dialect = d.name;
    query = made.0;
    parameters = made.1;
    source_id = q.source_id;
    source_name = q.source_name;
  }

  -- The query that the code makes, starting with no parameter.
  unfoldable pub run_query :
      BoundAltrQueryIr F → Lower (Param D F) Sql → Result LowerError (PhysicalQuery D F)
  run_query q m = m [] >>= λ made. ok (as_query q made)

  unfoldable pub group_queries :
      BoundAltrQueryIr F → List (Group F) → Result LowerError (List (PhysicalQuery D F))
  unfolding run_query group_sql
  group_queries q [] = ok []
  group_queries q (g ∷ gs) =
      run_query q (group_sql q g) >>= λ first. group_queries q gs >>= λ rest. ok (first ∷ rest)

  abbrev pub as_result : BoundAltrQueryIr F → List (PhysicalQuery D F) → PhysicalQueryResult D F
  as_result q (first ∷ []) = PhysicalQueryResult.single first
  as_result q qs = PhysicalQueryResult.batch record {
    dialect = d.name;
    queries = qs;
    source_id = q.source_id;
    source_name = q.source_name;
  }

  unfoldable pub lower_create : BoundAltrQueryIr F → Result LowerError (PhysicalQueryResult D F)
  unfolding create_records with_columns group_records group_queries
  lower_create q = with_columns (create_records q) >>= λ rows.
      group_queries q (group_records rows) >>= λ qs. ok (as_result q qs)

  abbrev pub lower_single :
      BoundAltrQueryIr F → Lower (Param D F) Sql → Result LowerError (PhysicalQueryResult D F)
  unfolding run_query
  lower_single q m = run_query q m >>= λ out. ok (PhysicalQueryResult.single out)

module _ {D F : Type 0} (host : Host D F) (d : Dialect D F) (comparing : Comparing D F) where
  -- The dispatch on `query.operation`.
  unfoldable pub lower_as :
      BoundAltrQueryIr F → QueryOperation → Result LowerError (PhysicalQueryResult D F)
  unfolding lower_create lower_update lower_delete lower_read
  lower_as q QueryOperation.create = lower_create d q
  lower_as q QueryOperation.update = lower_single d q (lower_update host d comparing q)
  lower_as q QueryOperation.delete = lower_single d q (lower_delete host d comparing q)
  lower_as q QueryOperation.read = lower_single d q (lower_read host d comparing q)

  unfoldable pub lower : BoundAltrQueryIr F → Result LowerError (PhysicalQueryResult D F)
  unfolding lower_as
  lower q = lower_as q q.operation
