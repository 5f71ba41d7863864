-- ===== src/Lowering/Raising.antt =====
-- Where lowering raises: a compound constraint in `= {...}` of the SQLite lowerer.
use altr_stream.Base.{
  Text, codes, Bool, true, false, List, [], ◌∷◌, ◌++◌, map, ◌≡◌, refl, inl, inr, Bool-cases,
  if◌then◌else◌,
}
use altr_stream.Base.Result.{Result, ok, err}
use altr_stream.Ast.{Constraint, Element, Operand, ComparisonOperator}
use altr_stream.Lowering.Sql.{
  Param, Lower, LowerError, Host, Sql, raise, text, followed, ◌<>◌, joined, unbound_local,
}
use altr_stream.Lowering.Dialect.{lit, grouped, has_null, non_null, is_null, is_null_test}
use altr_stream.Lowering.Dialects.{sqlite, sqlite_comparing}
use altr_stream.Lowering.InLists.{
  is_simple, simple_scalars, other_elems, scalars_part, other_equal, parts_equal, one_or_grouped,
  set_equal, comparison_predicate,
}

-- The code raises, whatever the parameters before it.
pub record Raises {P : Type 0} (m : Lower P Sql) : Type 0 where
  pub run : (ps : List P) → (e : LowerError) × (m ps ≡ err e)

-- One of the parts raises.
pub data SomeRaises {P : Type 0} : List (Lower P Sql) → Type 0 where
  here : {m : Lower P Sql} {ms : List (Lower P Sql)} → Raises m → SomeRaises (m ∷ ms)
  there : {m : Lower P Sql} {ms : List (Lower P Sql)} → SomeRaises ms → SomeRaises (m ∷ ms)

module _ {P : Type 0} where
  Raises-raise : (e : LowerError) → Raises {P = P} (raise e)
  Raises-raise e = record { run = λ ps. (e, refl) }

  Raises-first : (m l : Lower P Sql) → Raises m → Raises (m <> l)
  unfolding ◌<>◌
  Raises-first m l h = record { run = λ ps. let raised = h.run ps in (raised.0, rw (raised.1)) }

  Raises-second : (m l : Lower P Sql) → Raises l → Raises (m <> l)
  unfolding ◌<>◌
  Raises-second m l h = record { run = λ ps. by_first (m ps) }
    where
      by_first : (r : Result LowerError (Sql × List P)) → (e : LowerError) × (followed r l ≡ err e)
      by_first (ok (a, qs)) = let raised = h.run qs in (raised.0, rw (raised.1))
      by_first (err e) = (e, refl)

  Raises-joined : (sep : Text) (ms : List (Lower P Sql)) → SomeRaises ms → Raises (joined sep ms)
  unfolding joined
  Raises-joined sep [] h = elim h [ ]
  Raises-joined sep (m ∷ []) (here h) = h
  Raises-joined sep (m ∷ []) (there h) = elim h [ ]
  Raises-joined sep (m ∷ l ∷ ms) (here h) = Raises-first m _ h
  Raises-joined sep (m ∷ l ∷ ms) (there h) =
      Raises-second m _ (Raises-second (text sep) _ (Raises-joined sep (l ∷ ms) h))

  SomeRaises-++ : (ms ls : List (Lower P Sql)) → SomeRaises ls → SomeRaises (ms ++ ls)
  SomeRaises-++ [] ls h = h
  SomeRaises-++ (m ∷ ms) ls h = there (SomeRaises-++ ms ls h)

-- A value set with a compound constraint.
pub data HasCompound {F : Type 0} : List (Element F) → Type 0 where
  first :
      {cs : List (Constraint F)} {es : List (Element F)}
      → HasCompound (Element.compound_and cs ∷ es)
  later : {e : Element F} {es : List (Element F)} → HasCompound es → HasCompound (e ∷ es)

module _ {D F : Type 0} (host : Host D F) where
  HasCompound-non_null : (es : List (Element F)) → HasCompound es → HasCompound (non_null es)
  unfolding non_null
  HasCompound-non_null [] h = elim h [ ]
  HasCompound-non_null (Element.compound_and cs ∷ es) first = first
  HasCompound-non_null (e ∷ es) (later h) = elim (Bool-cases (is_null e)) [
    | inl n ↦ rw n (HasCompound-non_null es h)
    | inr n ↦ rw n (later (HasCompound-non_null es h))
  ]

  HasCompound-other_elems :
      (t : Bool) (es : List (Element F)) → HasCompound es → HasCompound (other_elems t es)
  unfolding other_elems is_simple
  HasCompound-other_elems t [] h = elim h [ ]
  HasCompound-other_elems t (Element.compound_and cs ∷ es) first = first
  HasCompound-other_elems t (e ∷ es) (later h) = elim (Bool-cases (is_simple t e)) [
    | inl n ↦ rw n (HasCompound-other_elems t es h)
    | inr n ↦ rw n (later (HasCompound-other_elems t es h))
  ]

  SomeRaises-other_equal :
      (col : Text) (es : List (Element F))
      → HasCompound es
      → SomeRaises (map (other_equal host (sqlite host) (λ c cs. raise unbound_local) col) es)
  unfolding other_equal
  SomeRaises-other_equal col [] h = elim h [ ]
  SomeRaises-other_equal col (Element.compound_and cs ∷ es) first =
      here (Raises-raise unbound_local)
  SomeRaises-other_equal col (e ∷ es) (later h) = there (SomeRaises-other_equal col es h)

  Raises-one_or_grouped :
      (sep : Text) (ms : List (Lower (Param D F) Sql))
      → SomeRaises ms
      → Raises (one_or_grouped host (sqlite host) (λ c cs. raise unbound_local) sep ms)
  unfolding one_or_grouped grouped
  Raises-one_or_grouped sep [] h = elim h [ ]
  Raises-one_or_grouped sep (m ∷ []) (here h) = h
  Raises-one_or_grouped sep (m ∷ []) (there h) = elim h [ ]
  Raises-one_or_grouped sep (m ∷ l ∷ ms) h =
      Raises-second (lit "(") _
        (Raises-first (joined sep (m ∷ l ∷ ms)) (lit ")") (Raises-joined sep (m ∷ l ∷ ms) h))

  SomeRaises-if :
      (b : Bool) (m : Lower (Param D F) Sql) (ms : List (Lower (Param D F) Sql))
      → SomeRaises ms
      → SomeRaises (if b then m ∷ ms else ms)
  SomeRaises-if true m ms h = there h
  SomeRaises-if false m ms h = h

  SomeRaises-parts_equal :
      (col : Text) (t : Bool) (es : List (Element F))
      → HasCompound es
      → SomeRaises (parts_equal host (sqlite host) (λ c cs. raise unbound_local) col t es)
  unfolding parts_equal
  SomeRaises-parts_equal col t es h =
      SomeRaises-++
        (scalars_part host (sqlite host) (λ c cs. raise unbound_local) col (codes " IN ")
          (simple_scalars t (non_null es)))
        _
        (SomeRaises-other_equal col (other_elems t (non_null es))
          (HasCompound-other_elems t (non_null es) (HasCompound-non_null es h)))

  -- The SQLite lowerer raises for every `=` with a value set that has a compound constraint, whatever
  -- the column, the other elements and the parameters before it.
  pub sqlite_comparing-HasCompound :
      (col : Text) (is_timestamp : Bool) (es : List (Element F)) (ps : List (Param D F))
      → HasCompound es
      → (e : LowerError) × (sqlite_comparing host col is_timestamp ComparisonOperator.eq
            (Operand.value_set es)
            ps
          ≡ err e)
  unfolding sqlite_comparing comparison_predicate set_equal
  sqlite_comparing-HasCompound col is_timestamp es ps h =
      let parts =
        parts_equal host (sqlite host) (λ c cs. raise unbound_local) col is_timestamp es in
      let some_raises =
        SomeRaises-if (has_null es) (is_null_test (sqlite host) col) parts
          (SomeRaises-parts_equal col is_timestamp es h) in
      (Raises-one_or_grouped (codes " OR ")
          (if has_null es then is_null_test (sqlite host) col ∷ parts else parts) some_raises).run
        ps
