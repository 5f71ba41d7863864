-- ===== src/Lowering/Like.antt =====
-- The LIKE patterns of the lowerers, against the texts that SQL matches with them.
use altr_stream.Base.{
  Text, ℕ, Bool, true, false, List, [], ◌∷◌, ◌++◌, map, append_assoc, append-nil, ◌≡◌, refl, sym,
  ap, ◌∙◌, ◌↔◌, ◌==◌, inl, inr, ◌⊎◌, if◌then◌else◌, arith,
}
use altr_stream.Lowering.Dialect.{
  replace, escape_like_operand, starts_pattern, ends_pattern, has_pattern,
}

-- A pattern of LIKE with ESCAPE '\', as the SQL standard reads it.
pub data LikeToken : Type 0 where
  -- `%`, `_` and a character
  any one : LikeToken
  character : ℕ → LikeToken

abbrev pub token : ℕ → LikeToken
token c =
    if c == b'%' then LikeToken.any else if c == b'_' then LikeToken.one else LikeToken.character c

unfoldable pub like_tokens : Text → List LikeToken
like_tokens [] = []
like_tokens (c ∷ []) = token c ∷ []
like_tokens (c ∷ e ∷ s) =
    let escaped = LikeToken.character e ∷ like_tokens s in
    let plain = token c ∷ like_tokens (e ∷ s) in if c == 92 then escaped else plain

pub data Likes : List LikeToken → Text → Type 0 where
  end : Likes [] []
  same :
      {c : ℕ} {ts : List LikeToken} {s : Text}
      → Likes ts s
      → Likes (LikeToken.character c ∷ ts) (c ∷ s)
  single :
      {c : ℕ} {ts : List LikeToken} {s : Text} → Likes ts s → Likes (LikeToken.one ∷ ts) (c ∷ s)
  leave : {ts : List LikeToken} {s : Text} → Likes ts s → Likes (LikeToken.any ∷ ts) s
  skip :
      {c : ℕ} {ts : List LikeToken} {s : Text}
      → Likes (LikeToken.any ∷ ts) s
      → Likes (LikeToken.any ∷ ts) (c ∷ s)

-- Any text, then one that the rest of the pattern matches.
Likes-any :
    (ts : List LikeToken) (t : Text)
    → Likes (LikeToken.any ∷ ts) t ↔ ((u : Text) × (v : Text) × (t ≡ u ++ v) × Likes ts v)
Likes-any ts t = (split t, λ h. rw h.2 (join h.0 h.1 h.3))
  where
    split :
        (t : Text)
        → Likes (LikeToken.any ∷ ts) t
        → (u : Text) × (v : Text) × (t ≡ u ++ v) × Likes ts v
    split t (leave h) = ([], t, refl, h)
    split (c ∷ t) (skip h) =
        let (u, v, eq, rest) = split t h in (c ∷ u, v, ap (λ x. c ∷ x) eq, rest)

    join : (u v : Text) → Likes ts v → Likes (LikeToken.any ∷ ts) (u ++ v)
    join [] v h = leave h
    join (c ∷ u) v h = skip (join u v h)

-- The text itself, then one that the rest of the pattern matches.
Likes-characters :
    (s : Text) (ts : List LikeToken) (t : Text)
    → Likes (map LikeToken.character s ++ ts) t ↔ ((v : Text) × (t ≡ s ++ v) × Likes ts v)
Likes-characters s ts t = (split s t, λ h. rw h.1 (join s h.0 h.2))
  where
    split :
        (s t : Text)
        → Likes (map LikeToken.character s ++ ts) t
        → (v : Text) × (t ≡ s ++ v) × Likes ts v
    split [] t h = (t, refl, h)
    split (c ∷ s) [] h = elim h [ ]
    split (c ∷ s) (e ∷ t) (same h) =
        let (v, eq, rest) = split s t h in (v, ap (λ x. e ∷ x) eq, rest)

    join : (s v : Text) → Likes ts v → Likes (map LikeToken.character s ++ ts) (s ++ v)
    join [] v h = h
    join (c ∷ s) v h = same (join s v h)

replace-++ : (c : ℕ) (by s t : Text) → replace c by (s ++ t) ≡ replace c by s ++ replace c by t
unfolding replace
replace-++ c by [] t = refl
replace-++ c by (e ∷ s) t = cases (e == c) (replace-++ c by s t)
  where
    cases :
        (b : Bool)
        → replace c by (s ++ t) ≡ replace c by s ++ replace c by t
        → (if b then by ++ replace c by (s ++ t) else e ∷ replace c by (s ++ t))
          ≡ (if b then by ++ replace c by s else e ∷ replace c by s) ++ replace c by t
    cases true h = rw (h, append_assoc)
    cases false h = rw h

escape_like_operand-++ :
    (s t : Text) → escape_like_operand (s ++ t) ≡ escape_like_operand s ++ escape_like_operand t
unfolding escape_like_operand
escape_like_operand-++ s t = simp replace-++

-- A character that LIKE reads as itself.
IsPlain : ℕ → Type 0
IsPlain c = ((c == 92) ≡ false) × (token c ≡ LikeToken.character c)

escape_one-cases :
    (c : ℕ)
    → (escape_like_operand (c ∷ []) ≡ 92 ∷ c ∷ [])
      ⊎ ((escape_like_operand (c ∷ []) ≡ c ∷ []) × IsPlain c)
unfolding escape_like_operand replace IsPlain
escape_one-cases c = ground arith

like_tokens-plain :
    (c : ℕ) (s : Text) → IsPlain c → like_tokens (c ∷ s) ≡ LikeToken.character c ∷ like_tokens s
unfolding like_tokens IsPlain
like_tokens-plain c [] h = rw h.1
like_tokens-plain c (e ∷ s) h = rw (h.0, h.1)

-- An escaped character is read as itself.
like_tokens-escape_one :
    (c : ℕ) (rest : Text)
    → like_tokens (escape_like_operand (c ∷ []) ++ rest) ≡ LikeToken.character c ∷ like_tokens rest
unfolding like_tokens
like_tokens-escape_one c rest = elim (escape_one-cases c) [
  | inl h ↦ rw h
  | inr h ↦ rw h.0 (like_tokens-plain c rest h.1)
]

-- An escaped text is read as itself.
like_tokens-escape_like_operand :
    (s rest : Text)
    → like_tokens (escape_like_operand s ++ rest) ≡ map LikeToken.character s ++ like_tokens rest
unfolding escape_like_operand replace
like_tokens-escape_like_operand [] rest = refl
like_tokens-escape_like_operand (c ∷ s) rest = rw (
  escape_like_operand-++ (c ∷ []) s,
  append_assoc,
  like_tokens-escape_one,
  like_tokens-escape_like_operand s rest,
)

abbrev pub Begins : Text → Text → Type 0
Begins s t = (v : Text) × (t ≡ s ++ v)

abbrev pub Ends : Text → Text → Type 0
Ends s t = (u : Text) × (t ≡ u ++ s)

abbrev pub Holds : Text → Text → Type 0
Holds s t = (u : Text) × (v : Text) × (t ≡ u ++ (s ++ v))

-- `%` at the end of a pattern.
Likes-any_end : (v : Text) → Likes (LikeToken.any ∷ []) v
Likes-any_end v = (Likes-any [] v).1 (v, [], sym (append-nil v), end)

starts_pattern-Likes : (s t : Text) → Likes (like_tokens (starts_pattern s)) t ↔ Begins s t
unfolding like_tokens starts_pattern
starts_pattern-Likes s t =
    let read = like_tokens-escape_like_operand s (b'%' ∷ []) in
    let chars = Likes-characters s (LikeToken.any ∷ []) t in
    (
      λ h. let (v, eq, _) = chars.0 (rw read at h) in (v, eq),
      λ h. rw read (chars.1 (h.0, h.1, Likes-any_end h.0)),
    )

read_all : (s : Text) → like_tokens (escape_like_operand s) ≡ map LikeToken.character s ++ []
unfolding like_tokens
read_all s =
    ap like_tokens (sym (append-nil (escape_like_operand s))) ∙ like_tokens-escape_like_operand s []

Likes-exact : (s t : Text) → Likes (map LikeToken.character s ++ []) t ↔ (t ≡ s)
Likes-exact s t =
    let chars = Likes-characters s [] t in
    (λ h. exact (chars.0 h), λ h. chars.1 ([], h ∙ sym (append-nil s), end))
  where
    exact : (v : Text) × (t ≡ s ++ v) × Likes [] v → t ≡ s
    exact ([], eq, end) = eq ∙ append-nil s
    exact (_ ∷ _, eq, x) = elim x [ ]

-- `%` before a pattern that has no backslash before its end.
like_tokens-any : (s : Text) → like_tokens (b'%' ∷ s) ≡ LikeToken.any ∷ like_tokens s
unfolding like_tokens
like_tokens-any [] = refl
like_tokens-any (c ∷ s) = refl

ends_pattern-Likes : (s t : Text) → Likes (like_tokens (ends_pattern s)) t ↔ Ends s t
unfolding ends_pattern
ends_pattern-Likes s t =
    let read = like_tokens-any (escape_like_operand s) ∙ ap (λ x. LikeToken.any ∷ x) (read_all s) in
    let split = Likes-any (map LikeToken.character s ++ []) t in
    (
      λ h.
          let (u, v, eq, rest) = split.0 (rw read at h) in
          (u, eq ∙ ap (λ x. u ++ x) ((Likes-exact s v).0 rest)),
      λ h. rw read (split.1 (h.0, s, h.1, (Likes-exact s s).1 refl)),
    )

has_pattern-Likes : (s t : Text) → Likes (like_tokens (has_pattern s)) t ↔ Holds s t
unfolding like_tokens has_pattern
has_pattern-Likes s t =
    let inner = like_tokens-escape_like_operand s (b'%' ∷ []) in
    let read =
      like_tokens-any (escape_like_operand s ++ b'%' ∷ []) ∙ ap (λ x. LikeToken.any ∷ x) inner in
    let split = Likes-any (map LikeToken.character s ++ LikeToken.any ∷ []) t in
    (
      λ h.
          let (u, w, eq, rest) = split.0 (rw read at h) in
          let (v, eq1, _) = (Likes-characters s (LikeToken.any ∷ []) w).0 rest in
          (u, v, eq ∙ ap (λ x. u ++ x) eq1),
      λ h. rw read (
          split.1 (
            h.0,
            s ++ h.1,
            h.2,
            (Likes-characters s (LikeToken.any ∷ []) (s ++ h.1)).1 (h.1, refl, Likes-any_end h.1),
          )),
    )

-- The patterns that the lowerers make for STARTS, ENDS and HAS match, read with ESCAPE '\', exactly
-- the texts that start with the operand, end with it, and hold it anywhere, whatever `%`, `_` and
-- backslashes the operand has.
pub escape_like_operand-Likes :
    (s t : Text)
    → (Likes (like_tokens (starts_pattern s)) t ↔ Begins s t)
      × (Likes (like_tokens (ends_pattern s)) t ↔ Ends s t)
      × (Likes (like_tokens (has_pattern s)) t ↔ Holds s t)
escape_like_operand-Likes s t =
    (starts_pattern-Likes s t, ends_pattern-Likes s t, has_pattern-Likes s t)
