-- ===== src/Base/Python.antt =====
-- What the code uses of Python itself: character classes, number parsing, floats, dates.
-- `F` is the type of floats. An operation that may raise returns an `Option`.
use Prim.Native.Nat.{ℕ}
use mathlib.Core.Bool.{Bool}
use mathlib.Core.Option.{Option}
use altr_stream.Base.Int.{ℤ}
use altr_stream.Base.Texts.{Text}

pub record Python (F : Type 0) : Type 0 where
  -- str.isdigit, str.isalpha, str.isalnum of one character, and `\d` of `re`
  pub is_digit : ℕ → Bool
  pub is_alpha : ℕ → Bool
  pub is_alnum : ℕ → Bool
  pub is_decimal : ℕ → Bool
  pub upper : Text → Text
  -- int(s) and float(s), `none` for a ValueError
  pub int : Text → Option ℕ
  pub float : Text → Option F
  -- float(n), `none` for an OverflowError
  pub float_of_int : ℤ → Option F
  pub float_gt : F → F → Bool
  -- datetime.date.fromisoformat(s) does not raise
  pub is_iso_date : Text → Bool
