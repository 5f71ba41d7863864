-- ===== src/Classification/Confirmation.antt =====
-- When a query that was validated and bound must be confirmed by the user.
use altr_stream.Base.{◌≡◌, ◌↔◌, refl, sym, arith, true, Option, none, some}
use altr_stream.Base.Result.{ok, Passes, >>=-eq-ok, ok-injective}
use altr_stream.Base.Python.{Python}
use altr_stream.Schema.{EntitySchema, SourceSchema}
use altr_stream.Ast.{Expression, QueryOperation, AltrQueryIr, read, create, update, delete}
use altr_stream.BoundAst.{BoundExpression, BoundAltrQueryIr}
use altr_stream.Semantic.Validator.{validate_ir}
use altr_stream.Semantic.WellFormed.{WellFormedAs}
use altr_stream.Semantic.Accepts.{validate_ir-WellFormed}
use altr_stream.Binding.Binder.{bind_altrql, bind_where, bind_expression}
use altr_stream.Binding.Kept.{bind_altrql-Bound}
use altr_stream.Classification.{classify, classify_query}

module _ {F : Type 0} where
  -- Binding adds no WHERE clause and drops none.
  bind_where-none :
      (entity : EntitySchema) (w : Option (Expression F)) (b : Option (BoundExpression F))
      → bind_where entity w ≡ ok b
      → (b ≡ none) ↔ (w ≡ none)
  unfolding bind_where
  bind_where-none entity none b h = (λ _. refl, λ _. sym (ok-injective h))
  bind_where-none entity (some e) b h =
      let (c, p, q) = >>=-eq-ok (bind_expression entity e) _ h in
      (λ e. cc (ok-injective q), λ e. cc)

  -- Only an UPDATE or a DELETE with no WHERE clause needs one.
  abbrev IsMass : QueryOperation → BoundAltrQueryIr F → Type 0
  IsMass update b = b.where_clause ≡ none
  IsMass delete b = b.where_clause ≡ none
  IsMass _ b = ⊥

  classify-IsMass :
      (op : QueryOperation) (b : BoundAltrQueryIr F)
      → ((classify op b).requires_confirmation ≡ true) ↔ IsMass op b
  unfolding classify
  classify-IsMass read b = (λ h. cc, λ h. absurd h)
  classify-IsMass create b = (λ h. cc, λ h. absurd h)
  classify-IsMass update b = (λ h. ground arith, λ h. ground arith)
  classify-IsMass delete b = (λ h. ground arith, λ h. ground arith)

module _ {F : Type 0} ⦃py : Python F⦄ where
  IsMass-delete :
      (op : QueryOperation) (ir : AltrQueryIr F) (b : BoundAltrQueryIr F)
      → WellFormedAs op ir
      → (b.where_clause ≡ none) ↔ (ir.where_clause ≡ none)
      → IsMass op b ↔ ((op ≡ delete) × (ir.where_clause ≡ none))
  IsMass-delete read ir b g w = (λ h. absurd h, λ h. cc (h.0))
  IsMass-delete create ir b g w = (λ h. absurd h, λ h. cc (h.0))
  IsMass-delete update ir b g w = (λ h. absurd (g.has_where (w.0 h)), λ h. cc (h.0))
  IsMass-delete delete ir b g w = (λ h. (refl, w.0 h), λ h. w.1 h.1)

  -- Of the queries that pass the validator and are bound, exactly those are marked for
  -- confirmation that are DELETE queries with no WHERE clause.
  pub confirmation_iff :
      (ir : AltrQueryIr F) (schema : SourceSchema) (b : BoundAltrQueryIr F)
      → Passes (validate_ir ir)
      → bind_altrql ir schema ≡ ok b
      → ((classify_query b).requires_confirmation ≡ true)
        ↔ ((ir.operation ≡ delete) × (ir.where_clause ≡ none))
  unfolding classify_query
  confirmation_iff ir schema b valid bound =
      let r = bind_altrql-Bound ir schema b bound in
      let w = bind_where-none r.entity ir.where_clause b.where_clause r.where_clause in
      let g = (validate_ir-WellFormed ir).0 valid in
      let m = IsMass-delete ir.operation ir b g w in
      let c = classify-IsMass ir.operation b in
      (λ h. m.0 (c.0 (simp r.operation at h)), λ h. simp r.operation (c.1 (m.1 h)))
