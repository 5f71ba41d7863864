-- ===== src/Lowering/Groups.antt =====
-- CREATE: the groups of consecutive records with the same columns.
use altr_stream.Base.{
  Text, text_eq_iff, true, false, List, [], ◌∷◌, ◌++◌, append_assoc, map, All, All-append, ◌≡◌, ◌≢◌,
  refl, ap, ◌∙◌, ◌↔◌, inl, inr, Bool-cases, arith,
}
use altr_stream.Base.Result.{ok, ◌>>=◌, >>=-eq-ok, ok-injective}
use altr_stream.BoundAst.{BoundCreateRecord}
use altr_stream.Lowering.Creates.{
  Row, Group, columns_eq, leaves, with_columns, group_from, group_records,
}

columns_eq_iff : (cs es : List Text) → (columns_eq cs es ≡ true) ↔ (cs ≡ es)
unfolding columns_eq
columns_eq_iff [] [] = (λ _. refl, λ _. refl)
columns_eq_iff [] (e ∷ es) = (λ h. cc, λ h. cc)
columns_eq_iff (c ∷ cs) [] = (λ h. cc, λ h. cc)
columns_eq_iff (c ∷ cs) (e ∷ es) =
    let first = text_eq_iff c e in
    let rest = columns_eq_iff cs es in (ground (arith, first, rest), ground (arith, first, rest))

columns_eq-false : (cs es : List Text) → columns_eq cs es ≡ false → cs ≢ es
columns_eq-false cs es h eq = cc ((columns_eq_iff cs es).1 eq)

module _ {F : Type 0} where
  -- The records of all groups, in order.
  unfoldable pub ungrouped : List (Group F) → List (BoundCreateRecord F)
  ungrouped [] = []
  ungrouped (g ∷ gs) = g.1 ++ ungrouped gs

  -- The columns of a record.
  abbrev pub HasColumns : List Text → BoundCreateRecord F → Type 0
  unfolding leaves
  HasColumns cols r = leaves r.assignments ≡ ok cols

  -- Each record of a group has the group's columns.
  abbrev pub IsUniform : Group F → Type 0
  IsUniform g = All (HasColumns g.0) g.1

  -- Two groups side by side have different columns.
  unfoldable pub Alternating : List (Group F) → Type 0
  Alternating [] = Unit {0}
  Alternating (g ∷ []) = Unit {0}
  Alternating (g ∷ h ∷ gs) = (g.0 ≢ h.0) × Alternating (h ∷ gs)

  -- What the loop makes of the group at hand and the rows that are left.
  IsGrouping : Group F → List (Row F) → List (Group F) → Type 0
  IsGrouping (cols, recs) rows gs =
      (ungrouped gs ≡ recs ++ map (λ row. row.1) rows)
      × All IsUniform gs
      × Alternating gs
      × ((recs' : List (BoundCreateRecord F)) × (rest : List (Group F)) × (gs
            ≡ (cols, recs') ∷ rest))

  Alternating-∷ :
      (g : Group F) (cols : List Text) (recs : List (BoundCreateRecord F))
      (gs rest : List (Group F))
      → gs ≡ (cols, recs) ∷ rest
      → g.0 ≢ cols
      → Alternating gs
      → Alternating (g ∷ gs)
  unfolding Alternating
  Alternating-∷ g cols recs gs rest eq differ h = rw eq (differ, rw eq at h)

  group_from-IsGrouping :
      (cols : List Text) (recs : List (BoundCreateRecord F)) (rows : List (Row F))
      → All (HasColumns cols) recs
      → All (λ row. HasColumns row.0 row.1) rows
      → IsGrouping (cols, recs) rows (group_from (cols, recs) rows)
  unfolding group_from IsGrouping ungrouped Alternating
  group_from-IsGrouping cols recs [] h k = (refl, (h, tt), tt, (recs, [], refl))
  group_from-IsGrouping cols recs ((cols1, r) ∷ rows) h k =
      elim (Bool-cases (columns_eq cols cols1)) [
        | inl e ↦
            let own = rw (← ((columns_eq_iff cols cols1).0 e)) at k.0 in
            let longer = All-append (HasColumns cols) recs (r ∷ []) h (own, tt) in
            let rest = group_from-IsGrouping cols (recs ++ r ∷ []) rows longer k.1 in
            rw e (rest.0 ∙ append_assoc recs (r ∷ []) _, rest.1, rest.2, rest.3)
        | inr e ↦
            let rest = group_from-IsGrouping cols1 (r ∷ []) rows (k.0, tt) k.1 in
            let (recs1, gs, eq) = rest.3 in
            let differ = columns_eq-false cols cols1 e in
            rw e (
              ap (λ x. recs ++ x) rest.0,
              (h, rest.1),
              Alternating-∷ (cols, recs) cols1 recs1 _ gs eq differ rest.2,
              (recs, _, refl),
            )
      ]

  with_columns-HasColumns :
      (rs : List (BoundCreateRecord F)) (rows : List (Row F))
      → with_columns rs ≡ ok rows
      → (map (λ row. row.1) rows ≡ rs) × All (λ row. HasColumns row.0 row.1) rows
  unfolding with_columns
  with_columns-HasColumns [] rows eq = rw (← (ok-injective eq)) (refl, tt)
  with_columns-HasColumns (r ∷ rs) rows eq =
      let (cols, own, eq1) =
        >>=-eq-ok (leaves r.assignments) (λ cols. with_columns rs >>= λ rest. ok ((cols, r) ∷ rest))
          eq in
      let (rest, more, eq2) = >>=-eq-ok (with_columns rs) (λ rest. ok ((cols, r) ∷ rest)) eq1 in
      let hyp = with_columns-HasColumns rs rest more in
      rw (← (ok-injective eq2)) (ap (λ x. r ∷ x) hyp.0, (own, hyp.1))

  -- Where each record of a CREATE has its columns, the groups together hold the records in their
  -- order, each record of a group has the group's columns, and groups side by side differ in theirs.
  pub group_records-with_columns :
      (rs : List (BoundCreateRecord F)) (rows : List (Row F))
      → with_columns rs ≡ ok rows
      → (ungrouped (group_records rows) ≡ rs)
        × All IsUniform (group_records rows)
        × Alternating (group_records rows)
  unfolding group_records group_from ungrouped Alternating IsGrouping
  group_records-with_columns rs rows eq =
      let (same, columns) = with_columns-HasColumns rs rows eq in
      let groups = grouping rows columns in (groups.0 ∙ same, groups.1, groups.2)
    where
      grouping :
          (rows : List (Row F))
          → All (λ row. HasColumns row.0 row.1) rows
          → (ungrouped (group_records rows) ≡ map (λ row. row.1) rows)
            × All IsUniform (group_records rows)
            × Alternating (group_records rows)
      grouping [] h = (refl, tt, tt)
      grouping ((cols, r) ∷ rows) h =
          let rest = group_from-IsGrouping cols (r ∷ []) rows (h.0, tt) h.1 in
          (rest.0, rest.1, rest.2)
