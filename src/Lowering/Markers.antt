-- ===== src/Lowering/Markers.antt =====
-- The numbers of the markers in a statement, against the parameters that its code appends.
pub mod Parts
mod Predicates
pub mod Comparisons
pub mod PostgresSets
pub mod Statements
pub mod Results
use altr_stream.Base.{
  Text, ℕ, zero, suc, ◌+◌, Bool, true, false, List, [], ◌∷◌, ◌++◌, length, length-append, map, ◌≡◌,
  refl, if◌then◌else◌, All, arith,
}
use altr_stream.Base.Result.{Result, ok, err}
use altr_stream.Lowering.Sql.{
  Param, Lower, LowerError, Sql, Piece, raw, marker, raise, text, add_param, prefixed, followed,
  ◌<>◌, joined, amended, edited, markers,
}

-- `n + 1`, and so on, up to `m`.
pub data Numbered : ℕ → List ℕ → ℕ → Type 0 where
  done : {n : ℕ} → Numbered n [] n
  next : {n m : ℕ} {ks : List ℕ} → Numbered (suc n) ks m → Numbered n (suc n ∷ ks) m

pub Numbered-++ :
    {n m l : ℕ} {js ks : List ℕ} → Numbered n js m → Numbered m ks l → Numbered n (js ++ ks) l
Numbered-++ done q = q
Numbered-++ (next p) q = next (Numbered-++ p q)

-- The markers of a text, from the parameters before it to those after it.
abbrev pub Marked : {P : Type 0} → List P → Result LowerError (Sql × List P) → Type 0
unfolding markers
Marked ps (ok (sql, qs)) = Numbered (length ps) (markers sql) (length qs)
Marked ps (err e) = Unit {0}

-- Each parameter has one marker, and they appear in the order of the parameters.
pub record Marks {P : Type 0} (m : Lower P Sql) : Type 0 where
  pub run : (ps : List P) → Marked ps (m ps)

pub markers-++ : (a b : Sql) → markers (a ++ b) ≡ markers a ++ markers b
unfolding markers
markers-++ [] b = refl
markers-++ (raw s ∷ a) b = markers-++ a b
markers-++ (marker n ∷ a) b = rw (markers-++ a b)

module _ {P : Type 0} where
  pub Marks-raise : (e : LowerError) → Marks {P = P} (raise e)
  unfolding Marked
  Marks-raise e = record { run = λ ps. tt }

  pub Marks-text : (s : Text) → Marks {P = P} (text s)
  unfolding text markers
  Marks-text s = record { run = λ ps. done }

  pub Marks-add_param : (p : P) → Marks (add_param p)
  unfolding add_param markers
  Marks-add_param p = record {
    run = λ ps. let one = length-append ps (p ∷ []) in grind (arith, done, next, one);
  }

  pub Marks-<> : (m l : Lower P Sql) → Marks m → Marks l → Marks (m <> l)
  unfolding ◌<>◌ Marked
  Marks-<> m l hm hl = record { run = λ ps. followed-Marked ps (m ps) (hm.run ps) }
    where
      prefixed-Marked :
          (ps qs : List P) (a : Sql) (out : Result LowerError (Sql × List P))
          → Numbered (length ps) (markers a) (length qs)
          → Marked qs out
          → Marked ps (prefixed a out)
      prefixed-Marked ps qs a (ok (b, rs)) h g = rw (markers-++ a b) (Numbered-++ h g)
      prefixed-Marked ps qs a (err e) h g = tt

      followed-Marked :
          (ps : List P) (out : Result LowerError (Sql × List P))
          → Marked ps out
          → Marked ps (followed out l)
      followed-Marked ps (ok (a, qs)) h = prefixed-Marked ps qs a (l qs) h (hl.run qs)
      followed-Marked ps (err e) h = tt

  pub Marks-if : (b : Bool) (m l : Lower P Sql) → Marks m → Marks l → Marks (if b then m else l)
  Marks-if true m l hm hl = hm
  Marks-if false m l hm hl = hl

  pub Marks-joined : (sep : Text) (ms : List (Lower P Sql)) → All Marks ms → Marks (joined sep ms)
  unfolding joined
  Marks-joined sep [] h = Marks-text []
  Marks-joined sep (m ∷ []) h = h.0
  Marks-joined sep (m ∷ l ∷ ms) h =
      Marks-<> _ _ (h.0) (Marks-<> _ _ (Marks-text sep) (Marks-joined sep (l ∷ ms) (h.1)))

  -- Code that rewrites a text and keeps its markers.
  pub Marks-edited :
      (f : Sql → Sql) (m : Lower P Sql)
      → ((a : Sql) → markers (f a) ≡ markers a)
      → Marks m
      → Marks (edited f m)
  unfolding edited Marked
  Marks-edited f m keeps h = record { run = λ ps. amended-Marked ps (m ps) (h.run ps) }
    where
      amended-Marked :
          (ps : List P) (out : Result LowerError (Sql × List P))
          → Marked ps out
          → Marked ps (amended f out)
      amended-Marked ps (ok (a, qs)) h = rw (keeps a) h
      amended-Marked ps (err e) h = tt

  pub All-Marks-map :
      {A : Type 0} (f : A → Lower P Sql) (xs : List A)
      → ((x : A) → Marks (f x))
      → All Marks (map f xs)
  All-Marks-map f [] h = tt
  All-Marks-map f (x ∷ xs) h = (h x, All-Marks-map f xs h)
