-- ===== src/Statements/Splitting.antt =====
-- What the split of a text of SQL keeps.
use altr_stream.Base.{
  Text, ℕ, zero, suc, ◌==◌, Bool, true, false, ◌&&◌, ◌||◌, length, if◌then◌else◌, subst, List, [],
  ◌∷◌, ◌++◌, append_assoc, append-nil, ◌≡◌, Option, none, some, refl, sym, ap, ◌∙◌, inl, inr,
  Bool-cases, arith,
}
use altr_stream.Lowering.Dialect.{replace}
use altr_stream.Statements.{
  Mode, Action, next_is, push, tag_tail, is_tag_start, is_tag_character, has_prefix, in_quote,
  open_dollar, dollar_tag, step_outside, step, scan,
}

-- The pieces with a semicolon between them.
unfoldable pub unsplit : List Text → Text
unsplit [] = []
unsplit (p ∷ []) = p
unsplit (p ∷ q ∷ ps) = p ++ b';' ∷ unsplit (q ∷ ps)

-- The scan that keeps every piece as it is.
abbrev pub pieces : Mode → ℕ → Text → Text → List Text
unfolding scan
pieces = scan (λ current rest. current ∷ rest)

-- A scan returns a piece, and the pieces make up the text.
MakesUp : List Text → Text → Type 0
MakesUp ps s = (p : Text) × (rest : List Text) × (ps ≡ p ∷ rest) × (unsplit ps ≡ s)

-- The text that the cursor has still to read.
unfoldable pub beyond : ℕ → Text → Text
beyond zero s = s
beyond (suc n) [] = []
beyond (suc n) (c ∷ s) = beyond n s

-- What a round appends is what the cursor moves over, and only a semicolon ends a statement.
abbrev Takes : Action → ℕ → Text → Type 0
Takes (Action.go next appended n) c s = appended ++ beyond n s ≡ c ∷ s
Takes Action.cut c s = c ≡ b';'

Takes-if :
    (b : Bool) (x y : Action) (c : ℕ) (s : Text)
    → (b ≡ true → Takes x c s)
    → (b ≡ false → Takes y c s)
    → Takes (if b then x else y) c s
Takes-if true x y c s taken other = taken refl
Takes-if false x y c s taken other = other refl

and_parts : (a b : Bool) → (a && b) ≡ true → (a ≡ true) × (b ≡ true)
and_parts true b h = (refl, h)
and_parts false b h = cc

next_is_taken : (d : ℕ) (s : Text) → next_is d s ≡ true → d ∷ beyond 1 s ≡ s
unfolding beyond
next_is_taken d [] h = cc
next_is_taken d (e ∷ s) h = ap (λ x. x ∷ s) (ground arith)

-- A sign of two characters.
pair_taken : (c d e : ℕ) (s : Text) → (c == d && next_is e s) ≡ true → c ∷ e ∷ beyond 1 s ≡ c ∷ s
pair_taken c d e s h = ap (λ x. c ∷ x) (next_is_taken e s (and_parts (c == d) (next_is e s) h).1)

prefix_taken : (tag s : Text) → has_prefix tag s ≡ true → tag ++ beyond (length tag) s ≡ s
unfolding has_prefix beyond
prefix_taken [] s h = refl
prefix_taken (t ∷ tag) [] h = cc
prefix_taken (t ∷ tag) (c ∷ s) h =
    let (same, rest) = and_parts (t == c) (has_prefix tag s) h in
    let first : t ≡ c = ground arith in cc (first, prefix_taken tag s rest)

in_quote-Takes : (q : ℕ) (mode : Mode) (c : ℕ) (s : Text) → Takes (in_quote q mode c s) c s
unfolding beyond
in_quote-Takes q mode c s =
    Takes-if (c == q) _ _ c s
      (λ h. Takes-if (next_is q s) _ _ c s (λ n. ap (λ x. c ∷ x) (next_is_taken q s n)) (λ n. refl))
      (λ h. refl)

push-some :
    (c : ℕ) (s : Text) (o : Option Text) (tag : Text)
    → push c o ≡ some tag
    → ((t : Text) → o ≡ some t → t ++ beyond (length t) s ≡ s)
    → tag ++ beyond (length tag) (c ∷ s) ≡ c ∷ s
unfolding beyond
push-some c s none tag h rest = cc
push-some c s (some t) tag h rest =
    let same : c ∷ t ≡ tag = cc in
    subst (λ x. x ++ beyond (length x) (c ∷ s) ≡ c ∷ s) same (ap (λ x. c ∷ x) (rest t refl))

tag_tail_taken : (s tag : Text) → tag_tail s ≡ some tag → tag ++ beyond (length tag) s ≡ s
unfolding tag_tail beyond
tag_tail_taken [] tag h = cc
tag_tail_taken (c ∷ s) tag h = elim (Bool-cases (c == b'$')) [
  | inl e ↦
      let same : c ∷ [] ≡ tag = cc (rw e at h) in
      subst (λ x. x ++ beyond (length x) (c ∷ s) ≡ c ∷ s) same refl
  | inr e ↦ elim (Bool-cases (is_tag_character c)) [
    | inl f ↦ push-some c s (tag_tail s) tag (rw (e, f) at h) (λ t. tag_tail_taken s t)
    | inr f ↦ cc (rw (e, f) at h)
  ]
]

dollar_tag_taken : (s tag : Text) → dollar_tag s ≡ some tag → tag ++ beyond (length tag) s ≡ s
unfolding dollar_tag
dollar_tag_taken [] tag h = cc
dollar_tag_taken (c ∷ s) tag h = elim (Bool-cases (c == b'$' || is_tag_start c)) [
  | inl e ↦ tag_tail_taken (c ∷ s) tag (rw e at h)
  | inr e ↦ cc (rw e at h)
]

open_dollar-Takes :
    (c : ℕ) (s : Text) (o : Option Text) → c ≡ b'$' → dollar_tag s ≡ o → Takes (open_dollar c o) c s
unfolding beyond
open_dollar-Takes c s none e h = refl
open_dollar-Takes c s (some tag) e h = cc (e, dollar_tag_taken s tag h)

step_outside-Takes : (c : ℕ) (s : Text) → Takes (step_outside c s) c s
unfolding step_outside beyond
step_outside-Takes c s =
    Takes-if (c == b'-' && next_is b'-' s) _ _ c s (pair_taken c b'-' b'-' s) (λ _.
      Takes-if (c == b'/' && next_is b'*' s) _ _ c s (pair_taken c b'/' b'*' s) (λ _.
        Takes-if (c == 39) _ _ c s (λ _. refl)
          (λ _.
            Takes-if (c == b'"') _ _ c s (λ _. refl)
              (λ _.
                Takes-if (c == b'$') _ _ c s
                  (λ h. open_dollar-Takes c s (dollar_tag s) (ground arith) refl)
                  (λ _. Takes-if (c == b';') _ _ c s (λ h. ground arith) (λ _. refl))))))

step-Takes : (mode : Mode) (c : ℕ) (s : Text) → Takes (step mode c s) c s
unfolding step beyond
step-Takes Mode.outside c s = step_outside-Takes c s
step-Takes Mode.single_quote c s = in_quote-Takes 39 Mode.single_quote c s
step-Takes Mode.double_quote c s = in_quote-Takes b'"' Mode.double_quote c s
step-Takes Mode.line_comment c s = Takes-if (c == 10) _ _ c s (λ _. refl) (λ _. refl)
step-Takes Mode.block_comment c s =
    Takes-if (c == b'*' && next_is b'/' s) _ _ c s (pair_taken c b'*' b'/' s) (λ _. refl)
step-Takes (Mode.dollar_quote tag) c s =
    Takes-if (c == b'$' && has_prefix tag s) _ _ c s
      (λ h.
        let (dollar, prefix) = and_parts (c == b'$') (has_prefix tag s) h in
        let sign : c ≡ b'$' = ground arith in cc (sign, prefix_taken tag s prefix))
      (λ _. refl)

MakesUp-piece :
    (current : Text) (rest : List Text) (s : Text)
    → MakesUp rest s
    → MakesUp (current ∷ rest) (current ++ b';' ∷ s)
unfolding MakesUp unsplit
MakesUp-piece current rest s (p, ps, eq, whole) = (current, rest, refl, first eq)
  where
    first : rest ≡ p ∷ ps → unsplit (current ∷ rest) ≡ current ++ b';' ∷ s
    first e = rw e (ap (λ x. current ++ b';' ∷ x) (rw e at whole))

-- One round of the scan, by what the step says.
MakesUp-action :
    (a : Action) (current : Text) (c : ℕ) (s : Text)
    → Takes a c s
    → ((next : Mode) (n : ℕ) (t : Text) → MakesUp (pieces next n t s) (t ++ beyond n s))
    → MakesUp
        (elim a [
          | Action.go next appended n ↦ pieces next n (current ++ appended) s
          | Action.cut ↦ current ∷ pieces Mode.outside 0 [] s
        ])
        (current ++ c ∷ s)
unfolding beyond
MakesUp-action (Action.go next appended n) current c s h made =
    rw (← h, ← (append_assoc current appended (beyond n s))) (made next n (current ++ appended))
MakesUp-action Action.cut current c s h made =
    rw h (MakesUp-piece current (pieces Mode.outside 0 [] s) s (made Mode.outside 0 []))

pieces-MakesUp :
    (s : Text) (mode : Mode) (k : ℕ) (current : Text)
    → MakesUp (pieces mode k current s) (current ++ beyond k s)
unfolding scan MakesUp unsplit beyond
pieces-MakesUp [] mode zero current = (current, [], refl, sym (append-nil current))
pieces-MakesUp [] mode (suc k) current = (current, [], refl, sym (append-nil current))
pieces-MakesUp (c ∷ s) mode (suc k) current = pieces-MakesUp s mode k current
pieces-MakesUp (c ∷ s) mode zero current =
    MakesUp-action (step mode c s) current c s (step-Takes mode c s)
      (λ next n t. pieces-MakesUp s next n t)

-- The pieces that the scan cuts a text of SQL into are the text again, with the semicolons between
-- them: whatever quotes and comments there are, each round appends what it moves the cursor over,
-- so that nothing is lost, doubled or put in another order.
pub unsplit-scan : (sql : Text) → unsplit (pieces Mode.outside 0 [] sql) ≡ sql
unfolding MakesUp beyond
unsplit-scan sql = (pieces-MakesUp sql Mode.outside 0 []).3

pieces-take :
    (mode next : Mode) (appended : Text) (n c : ℕ) (current s : Text)
    → step mode c s ≡ Action.go next appended n
    → pieces mode 0 current (c ∷ s) ≡ pieces next n (current ++ appended) s
unfolding scan
pieces-take mode next appended n c current s h = by_action (step mode c s) h
  where
    by_action :
        (a : Action)
        → a ≡ Action.go next appended n
        → (elim a [
          | Action.go next1 t n1 ↦ pieces next1 n1 (current ++ t) s
          | Action.cut ↦ current ∷ pieces Mode.outside 0 [] s
        ])
          ≡ pieces next n (current ++ appended) s
    by_action a e = rw e

step-plain :
    (c : ℕ) (s : Text)
    → (c == 39) ≡ false
    → step Mode.single_quote c s ≡ Action.go Mode.single_quote (c ∷ []) 0
unfolding step
step-plain c s h = rw h

-- In a quote, a text with its quotes doubled is taken whole.
pieces-quoted :
    (current s : Text)
    → pieces Mode.single_quote 0 current (replace 39 (39 ∷ 39 ∷ []) s ++ 39 ∷ [])
      ≡ (current ++ (replace 39 (39 ∷ 39 ∷ []) s ++ 39 ∷ [])) ∷ []
unfolding scan step replace
pieces-quoted current [] = refl
pieces-quoted current (c ∷ s) = elim (Bool-cases (c == 39)) [
  | inl e ↦
      let rest = pieces-quoted (current ++ 39 ∷ 39 ∷ []) s in
      rw e (rest ∙ ap (λ x. x ∷ []) (append_assoc current (39 ∷ 39 ∷ []) _))
  | inr e ↦
      let rest = pieces-quoted (current ++ c ∷ []) s in
      let taken =
        pieces-take Mode.single_quote Mode.single_quote (c ∷ []) 0 c current
          (replace 39 (39 ∷ 39 ∷ []) s ++ 39 ∷ [])
          (step-plain c (replace 39 (39 ∷ 39 ∷ []) s ++ 39 ∷ []) e) in
      rw e (taken ∙ rest ∙ ap (λ x. x ∷ []) (append_assoc current (c ∷ []) _))
]

-- A text in single quotes, with the quotes in it doubled, is one piece of the scan, whatever
-- semicolons, comments and quotes it holds.
pub scan-quoted :
    (s : Text)
    → pieces Mode.outside 0 [] (39 ∷ (replace 39 (39 ∷ 39 ∷ []) s ++ 39 ∷ []))
      ≡ (39 ∷ (replace 39 (39 ∷ 39 ∷ []) s ++ 39 ∷ [])) ∷ []
unfolding scan step step_outside
scan-quoted s = pieces-quoted (39 ∷ []) s
