-- ===== src/Statements.antt =====
-- domain/query_validation.py: a text of SQL is split into statements, and must be one.
pub mod Splitting
use altr_stream.Base.{
  Text, codes, text_eq, ltb, leb, ℕ, zero, suc, ◌-◌, ◌==◌, Bool, true, false, ◌&&◌, ◌||◌, not, List,
  [], ◌∷◌, ◌++◌, length, Option, none, some, if◌then◌else◌,
}
use altr_stream.Base.Result.{Result, ok, err}

-- Where the scan stands: outside of quotes and comments, or in one.
pub data Mode : Type 0 where
  outside single_quote double_quote line_comment block_comment : Mode
  -- the tag after its first sign, up to its second one
  dollar_quote : Text → Mode

-- A round appends a text to the statement, and moves the cursor over the character and the `n` that
-- follow it; or it ends the statement.
pub data Action : Type 0 where
  go : (next : Mode) (appended : Text) (n : ℕ) → Action
  cut : Action

-- `next_c == d`
abbrev pub next_is : ℕ → Text → Bool
next_is d [] = false
next_is d (e ∷ s) = e == d

-- `[A-Za-z_]` and `[A-Za-z0-9_]`
abbrev pub is_tag_start : ℕ → Bool
is_tag_start c = (leb 65 c && leb c 90) || ((leb 97 c && leb c 122) || c == b'_')

abbrev pub is_tag_character : ℕ → Bool
is_tag_character c = is_tag_start c || (leb 48 c && leb c 57)

abbrev pub push : ℕ → Option Text → Option Text
push c none = none
push c (some tag) = some (c ∷ tag)

-- The rest of a tag up to its second sign.
unfoldable pub tag_tail : Text → Option Text
tag_tail [] = none
tag_tail (c ∷ s) =
    let longer = push c (tag_tail s) in
    if c == b'$' then some (c ∷ []) else if is_tag_character c then longer else none

-- `re.match` of a tag, without its first sign, for the text after that
unfoldable pub dollar_tag : Text → Option Text
unfolding tag_tail
dollar_tag [] = none
dollar_tag (c ∷ s) = if c == b'$' || is_tag_start c then tag_tail (c ∷ s) else none

-- `s.startswith(tag)`
unfoldable pub has_prefix : Text → Text → Bool
has_prefix [] s = true
has_prefix (t ∷ tag) [] = false
has_prefix (t ∷ tag) (c ∷ s) = t == c && has_prefix tag s

abbrev pub open_dollar : ℕ → Option Text → Action
open_dollar c none = Action.go Mode.outside (c ∷ []) 0
open_dollar c (some tag) = Action.go (Mode.dollar_quote tag) (b'$' ∷ tag) (length tag)

-- The tests outside of quotes and comments, in their order.
unfoldable pub step_outside : ℕ → Text → Action
unfolding dollar_tag
step_outside c s =
    if c == b'-' && next_is b'-' s
    then Action.go Mode.line_comment (c ∷ b'-' ∷ []) 1
    else if c == b'/' && next_is b'*' s
    then Action.go Mode.block_comment (c ∷ b'*' ∷ []) 1
    else if c == 39
    then Action.go Mode.single_quote (c ∷ []) 0
    else if c == b'"'
    then Action.go Mode.double_quote (c ∷ []) 0
    else if c == b'$'
    then open_dollar c (dollar_tag s)
    else if c == b';'
    then Action.cut
    else Action.go Mode.outside (c ∷ []) 0

-- In a quote that its own sign ends, unless it is doubled.
abbrev pub in_quote : ℕ → Mode → ℕ → Text → Action
in_quote q mode c s =
    if c == q
    then (if next_is q s then Action.go mode (c ∷ q ∷ []) 1 else Action.go Mode.outside (c ∷ []) 0)
    else Action.go mode (c ∷ []) 0

-- One round of the loop, at the character `c` before the text `s`.
unfoldable pub step : Mode → ℕ → Text → Action
unfolding step_outside has_prefix
step Mode.line_comment c s =
    if c == 10 then Action.go Mode.outside (c ∷ []) 0 else Action.go Mode.line_comment (c ∷ []) 0
step Mode.block_comment c s =
    if c == b'*' && next_is b'/' s
    then Action.go Mode.outside (c ∷ b'/' ∷ []) 1
    else Action.go Mode.block_comment (c ∷ []) 0
step Mode.single_quote c s = in_quote 39 Mode.single_quote c s
step Mode.double_quote c s = in_quote b'"' Mode.double_quote c s
step (Mode.dollar_quote tag) c s =
    if c == b'$' && has_prefix tag s
    then Action.go Mode.outside (b'$' ∷ tag) (length tag)
    else Action.go (Mode.dollar_quote tag) (c ∷ []) 0
step Mode.outside c s = step_outside c s

-- The loop, for what is done with the text of a statement before the others; the cursor is still to
-- move over `k` characters.
unfoldable pub scan : (Text → List Text → List Text) → Mode → ℕ → Text → Text → List Text
unfolding step
scan emit mode k current [] = emit current []
scan emit mode (suc k) current (c ∷ s) = scan emit mode k current s
scan emit mode zero current (c ∷ s) = elim (step mode c s) [
  | Action.go next appended n ↦ scan emit next n (current ++ appended) s
  | Action.cut ↦ emit current (scan emit Mode.outside 0 [] s)
]

abbrev pub one_more : Option ℕ → Option ℕ
one_more none = none
one_more (some n) = some (suc n)

-- `re.sub(r"/\*[\s\S]*?\*/", " ", sql)`: the length of a comment, for the text after its start
unfoldable pub close_block : Text → Option ℕ
close_block [] = none
close_block (c ∷ s) =
    let later = one_more (close_block s) in if c == b'*' && next_is b'/' s then some 2 else later

abbrev pub comment_length : ℕ → Text → Option ℕ
unfolding close_block
comment_length c [] = none
comment_length c (e ∷ s) = if c == b'/' && e == b'*' then close_block s else none

-- The text without block comments, where the next `k` characters belong to one.
unfoldable pub strip_blocks : ℕ → Text → Text
unfolding close_block
strip_blocks k [] = []
strip_blocks (suc k) (c ∷ s) = strip_blocks k s
strip_blocks zero (c ∷ s) = elim (comment_length c s) [
  | none ↦ c ∷ strip_blocks 0 s
  | some n ↦ 32 ∷ strip_blocks (suc n) s
]

-- `re.sub(r"--[^\n]*", " ", sql)`, in a comment or not
unfoldable pub strip_lines : Bool → Text → Text
strip_lines b [] = []
strip_lines true (c ∷ s) =
    let rest = strip_lines true s in
    let after = c ∷ strip_lines false s in if c == 10 then after else rest
strip_lines false (c ∷ s) =
    let comment = 32 ∷ strip_lines true s in
    let kept = c ∷ strip_lines false s in if c == b'-' && next_is b'-' s then comment else kept

pub data QueryError : Type 0 where
  empty_query multi_statement : QueryError

module _ (is_space : ℕ → Bool) where
  -- `s.lstrip()`
  unfoldable pub strip_start : Text → Text
  strip_start [] = []
  strip_start (c ∷ s) = let rest = strip_start s in if is_space c then rest else c ∷ s

  -- `s.rstrip()`
  unfoldable pub strip_end : Text → Text
  strip_end [] = []
  strip_end (c ∷ s) = elim (strip_end s) [
    | [] ↦ (if is_space c then [] else c ∷ [])
    | e ∷ t ↦ c ∷ e ∷ t
  ]

  unfoldable pub strip : Text → Text
  unfolding strip_start strip_end
  strip s = strip_end (strip_start s)

  unfoldable pub strip_sql_comments : Text → Text
  unfolding strip_blocks strip_lines strip
  strip_sql_comments sql = strip (strip_lines false (strip_blocks 0 sql))

  abbrev pub is_empty : Text → Bool
  is_empty [] = true
  is_empty (c ∷ s) = false

  -- `statements.append(stmt)`, of a statement that is not blank
  unfoldable pub emit_statement : Text → List Text → List Text
  unfolding strip
  emit_statement current rest = if is_empty (strip current) then rest else strip current ∷ rest

  -- `[s for s in statements if strip_sql_comments(s)]`
  unfoldable pub without_comments : List Text → List Text
  unfolding strip_sql_comments
  without_comments [] = []
  without_comments (s ∷ ss) =
      let rest = without_comments ss in if is_empty (strip_sql_comments s) then rest else s ∷ rest

  unfoldable pub split_sql_statements : Text → List Text
  unfolding without_comments scan emit_statement
  split_sql_statements sql = without_comments (scan emit_statement Mode.outside 0 [] sql)

  abbrev pub only_statement : List Text → Result QueryError Text
  unfolding strip
  only_statement [] = err empty_query
  only_statement (s ∷ []) = ok (strip s)
  only_statement (s ∷ t ∷ ss) = err multi_statement

  unfoldable pub validate_query : Text → Result QueryError Text
  unfolding strip strip_sql_comments split_sql_statements
  validate_query query =
      if is_empty (strip query)
      then err empty_query
      else if is_empty (strip_sql_comments query)
      then err empty_query
      else only_statement (split_sql_statements query)
