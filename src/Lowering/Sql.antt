-- ===== src/Lowering/Sql.antt =====
-- Statements under construction: the text with its parameter markers, the list of parameters that
-- `add_param` appends to, and f-strings as sequences of actions.

use altr_stream.Base.{Text, ℕ, suc, ℤ, Bool, List, [], ◌∷◌, ◌++◌, length, Option}
use altr_stream.Base.Result.{Result, ok, err}
use altr_stream.Ast.{Literal}

-- What the lowerers use of Python: `D` is the type of datetimes, `F` that of floats. An operation
-- that may raise returns an `Option`.
pub record Host (D F : Type 0) : Type 0 where
  -- datetime.fromisoformat(s)
  pub datetime_of : Text → Option D
  -- date.fromisoformat(s), at midnight
  pub midnight : Text → Option D
  -- d + timedelta(days=1)
  pub next_day : D → Option D
  pub isoformat : D → Text
  -- str(n)
  pub str_of_int : ℤ → Text
  -- str(getattr(literal, "value", "")) of a literal that is no string
  pub str_of_value : Literal F → Text
  -- str(literal), of the object
  pub str_of_object : Literal F → Text
  pub lower_case : Text → Text

-- A parameter that is handed to the driver.
pub data Param (D F : Type 0) : Type 0 where
  integer : ℤ → Param D F
  float : F → Param D F
  string : Text → Param D F
  boolean : Bool → Param D F
  -- None
  null : Param D F
  -- datetime.date.fromisoformat(s)
  date : Text → Param D F
  datetime : D → Param D F

-- Text, or the marker of the parameter with this number.
pub data Piece : Type 0 where
  raw : Text → Piece
  marker : ℕ → Piece

abbrev pub Sql : Type 0
Sql = List Piece

pub data LowerError : Type 0 where
  -- `segments[-1]` of a path with no segment
  index_error : LowerError
  -- the ValueError or OverflowError of a date
  date_error : Text → LowerError
  unbound_local : LowerError

-- Code that may append to the parameters.
abbrev pub Lower : Type 0 → Type 0 → Type 0
Lower P A = List P → Result LowerError (A × List P)

module _ {P : Type 0} where
  abbrev pub raise : {A : Type 0} → LowerError → Lower P A
  raise e ps = err e

  unfoldable pub text : Text → Lower P Sql
  text s ps = ok (raw s ∷ [], ps)

  -- `params.append(val); return <marker>`
  unfoldable pub add_param : P → Lower P Sql
  add_param p ps = ok (marker (suc (length ps)) ∷ [], ps ++ p ∷ [])

  abbrev pub prefixed : Sql → Result LowerError (Sql × List P) → Result LowerError (Sql × List P)
  prefixed a (ok (b, ps)) = ok (a ++ b, ps)
  prefixed a (err e) = err e

  abbrev pub followed :
      Result LowerError (Sql × List P) → Lower P Sql → Result LowerError (Sql × List P)
  followed (ok (a, ps)) q = prefixed a (q ps)
  followed (err e) q = err e

  -- Two parts of an f-string, from left to right.
  infixr 60 ◌<>◌
  unfoldable pub ◌<>◌ : Lower P Sql → Lower P Sql → Lower P Sql
  ◌<>◌ p q ps = followed (p ps) q

  -- sep.join(parts)
  unfoldable pub joined : Text → List (Lower P Sql) → Lower P Sql
  unfolding ◌<>◌ text
  joined sep [] = text []
  joined sep (m ∷ []) = m
  joined sep (m ∷ l ∷ ms) = m <> text sep <> joined sep (l ∷ ms)

  abbrev pub amended :
      (Sql → Sql) → Result LowerError (Sql × List P) → Result LowerError (Sql × List P)
  amended f (ok (a, ps)) = ok (f a, ps)
  amended f (err e) = err e

  -- Code that rewrites the text that other code returns.
  unfoldable pub edited : (Sql → Sql) → Lower P Sql → Lower P Sql
  edited f m ps = amended f (m ps)

-- The text, where `show` writes a marker.
unfoldable pub render : (ℕ → Text) → Sql → Text
render show [] = []
render show (raw s ∷ sql) = s ++ render show sql
render show (marker n ∷ sql) = show n ++ render show sql

-- The markers in their order of appearance.
unfoldable pub markers : Sql → List ℕ
markers [] = []
markers (raw s ∷ sql) = markers sql
markers (marker n ∷ sql) = n ∷ markers sql
