-- ===== src/Tokens.antt =====
-- The tokens of src/altr_stream/query_engine/parser/lexer.py. A token's type and value are one
-- `Kind`, since the value's type goes with the token's type.
use altr_stream.Base.{
  Text, codes, ℕ, Bool, List, [], ◌∷◌, Option, none, some, text_eq, ◌==◌, if◌then◌else◌,
}

pub data TokenType : Type 0 where
  lparen rparen lbrace rbrace comma semicolon dot colon ampersand dotdot : TokenType
  eq neq gt lt gte lte : TokenType
  identifier string integer float temporal_literal : TokenType
  get_kw create_kw update_kw delete_kw where_kw and_kw or_kw sort_kw asc_kw desc_kw : TokenType
  top_kw bottom_kw by_kw limit_kw offset_kw as_kw not_kw has_kw starts_kw ends_kw : TokenType
  true_kw false_kw null_kw today_kw now_kw : TokenType
  eof : TokenType

-- The position of a type in the enumeration.
abbrev pub type_code : TokenType → ℕ
type_code TokenType.lparen = 1
type_code TokenType.rparen = 2
type_code TokenType.lbrace = 3
type_code TokenType.rbrace = 4
type_code TokenType.comma = 5
type_code TokenType.semicolon = 6
type_code TokenType.dot = 7
type_code TokenType.colon = 8
type_code TokenType.ampersand = 9
type_code TokenType.dotdot = 10
type_code TokenType.eq = 11
type_code TokenType.neq = 12
type_code TokenType.gt = 13
type_code TokenType.lt = 14
type_code TokenType.gte = 15
type_code TokenType.lte = 16
type_code TokenType.identifier = 17
type_code TokenType.string = 18
type_code TokenType.integer = 19
type_code TokenType.float = 20
type_code TokenType.temporal_literal = 21
type_code TokenType.get_kw = 22
type_code TokenType.create_kw = 23
type_code TokenType.update_kw = 24
type_code TokenType.delete_kw = 25
type_code TokenType.where_kw = 26
type_code TokenType.and_kw = 27
type_code TokenType.or_kw = 28
type_code TokenType.sort_kw = 29
type_code TokenType.asc_kw = 30
type_code TokenType.desc_kw = 31
type_code TokenType.top_kw = 32
type_code TokenType.bottom_kw = 33
type_code TokenType.by_kw = 34
type_code TokenType.limit_kw = 35
type_code TokenType.offset_kw = 36
type_code TokenType.as_kw = 37
type_code TokenType.not_kw = 38
type_code TokenType.has_kw = 39
type_code TokenType.starts_kw = 40
type_code TokenType.ends_kw = 41
type_code TokenType.true_kw = 42
type_code TokenType.false_kw = 43
type_code TokenType.null_kw = 44
type_code TokenType.today_kw = 45
type_code TokenType.now_kw = 46
type_code TokenType.eof = 47

abbrev pub type_eq : TokenType → TokenType → Bool
type_eq s t = type_code s == type_code t

-- The type of a token with its value. A token of a `fixed` type has its lexeme for a value.
pub data Kind (F : Type 0) : Type 0 where
  fixed : TokenType → Kind F
  identifier string temporal_literal : Text → Kind F
  integer : ℕ → Kind F
  float : F → Kind F

abbrev pub type_of : {F : Type 0} → Kind F → TokenType
type_of (Kind.fixed t) = t
type_of (Kind.identifier _) = TokenType.identifier
type_of (Kind.string _) = TokenType.string
type_of (Kind.temporal_literal _) = TokenType.temporal_literal
type_of (Kind.integer _) = TokenType.integer
type_of (Kind.float _) = TokenType.float

pub record Position : Type 0 where
  pub line : ℕ
  pub column : ℕ

pub record Token (F : Type 0) : Type 0 where
  pub kind : Kind F
  pub at : Position
  pub lexeme : Text

abbrev pub reserved_keywords : List (Text × TokenType)
reserved_keywords =
    (codes "GET", TokenType.get_kw)
    ∷ (codes "CREATE", TokenType.create_kw)
    ∷ (codes "UPDATE", TokenType.update_kw)
    ∷ (codes "DELETE", TokenType.delete_kw)
    ∷ (codes "WHERE", TokenType.where_kw)
    ∷ (codes "AND", TokenType.and_kw)
    ∷ (codes "OR", TokenType.or_kw)
    ∷ (codes "SORT", TokenType.sort_kw)
    ∷ (codes "ASC", TokenType.asc_kw)
    ∷ (codes "DESC", TokenType.desc_kw)
    ∷ (codes "TOP", TokenType.top_kw)
    ∷ (codes "BOTTOM", TokenType.bottom_kw)
    ∷ (codes "BY", TokenType.by_kw)
    ∷ (codes "LIMIT", TokenType.limit_kw)
    ∷ (codes "OFFSET", TokenType.offset_kw)
    ∷ (codes "AS", TokenType.as_kw)
    ∷ (codes "NOT", TokenType.not_kw)
    ∷ (codes "HAS", TokenType.has_kw)
    ∷ (codes "STARTS", TokenType.starts_kw)
    ∷ (codes "ENDS", TokenType.ends_kw)
    ∷ (codes "TRUE", TokenType.true_kw)
    ∷ (codes "FALSE", TokenType.false_kw)
    ∷ (codes "NULL", TokenType.null_kw)
    ∷ (codes "TODAY", TokenType.today_kw)
    ∷ (codes "NOW", TokenType.now_kw)
    ∷ []

unfoldable pub find_keyword : Text → List (Text × TokenType) → Option TokenType
unfolding text_eq
find_keyword word [] = none
find_keyword word ((w, t) ∷ ws) = if text_eq w word then some t else find_keyword word ws
