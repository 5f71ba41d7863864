-- ===== src/Tests/Ascii.antt =====
-- An instance of `Python` for ASCII texts: decimal numbers, floats in thousandths.
use altr_stream.Base.{
  Text, ℕ, ◌+◌, ◌-◌, ◌*◌, ℤ, pos, negsuc, Bool, true, ◌&&◌, ◌||◌, [], ◌∷◌, Option, none, some, map,
  leb, ltb, ◌==◌, if◌then◌else◌,
}
use altr_stream.Base.Python.{Python}

abbrev pub digit : ℕ → Bool
digit c = leb b'0' c && leb c b'9'

abbrev pub letter : ℕ → Bool
letter c = (leb b'a' c && leb c b'z') || (leb b'A' c && leb c b'Z')

abbrev pub upper_letter : ℕ → ℕ
upper_letter c = if leb b'a' c && leb c b'z' then c - 32 else c

abbrev pub decimal : ℕ → Text → Option ℕ
decimal n [] = some n
decimal n (c ∷ cs) = if digit c then decimal (n * 10 + (c - b'0')) cs else none

-- Up to three digits after the point.
abbrev pub thousandths : ℕ → ℕ → Text → Option ℕ
thousandths unit n [] = some n
thousandths unit n (c ∷ cs) =
    if c == b'.'
    then decimal n cs
    else if digit c
    then thousandths unit (n * 10 + unit * (c - b'0')) cs
    else none

abbrev pub float_of : ℤ → Option ℕ
float_of (pos n) = some (n * 1000)
float_of (negsuc n) = none

instance abbrev pub ascii : Python ℕ
ascii = record {
  is_digit = digit;
  is_alpha = letter;
  is_alnum = λ c. digit c || letter c;
  is_decimal = digit;
  upper = map upper_letter;
  int = decimal 0;
  float = thousandths 1000 0;
  float_of_int = float_of;
  float_gt = λ x y. ltb y x;
  is_iso_date = λ s. true;
}
