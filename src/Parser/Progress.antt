-- ===== src/Parser/Progress.antt =====
-- What a parser does to the number of tokens, and that its fuel is enough.
use Prim.Native.String.{String}
use altr_stream.Base.{
  ℕ, suc, ◌-◌, ◌≤◌, ◌≡◌, ◌≢◌, refl, ap, inl, inr, Bool, true, false, ◌||◌, List, [], ◌∷◌, Option,
  none, some, arith, if◌then◌else◌, length, Bool-cases,
}
use altr_stream.Base.Result
use altr_stream.Base.Result.{Result, ok, err}
use altr_stream.Base.Python.{Python}
use altr_stream.Tokens.{Kind, Token, TokenType, type_of, type_eq}
use altr_stream.Parser.Machine.{
  ParseError, out_of_fuel, Parser, repeat, peek, check, is_at_end, advance, suggest, diagnose, fail,
  consume, reject, require, reject_end, take_some, take_value, strict_separator, lax_separator,
}

-- The run kept within its fuel, and left at most `n` tokens if it returned.
pub data Ends {F A : Type 0} (n : ℕ) : Result ParseError (A × List (Token F)) → Type 0 where
  ends : {a : A} {rest : List (Token F)} → length rest ≤ n → Ends n (ok (a, rest))
  raised : {e : ParseError} → e ≢ out_of_fuel → Ends n (err e)

module _ {F A : Type 0} where
  pub Ends-mono :
      {m n : ℕ} {r : Result ParseError (A × List (Token F))} → m ≤ n → Ends m r → Ends n r
  Ends-mono h (ends k) = ends (omega arith)
  Ends-mono h (raised k) = raised k

  pub Ends-if :
      {n : ℕ} (b : Bool) {x y : Result ParseError (A × List (Token F))}
      → (b ≡ true → Ends n x)
      → (b ≡ false → Ends n y)
      → Ends n (if b then x else y)
  Ends-if true hx hy = hx refl
  Ends-if false hx hy = hy refl

  pub Ends-bind :
      {B : Type 0} {m n : ℕ} {r : Result ParseError (B × List (Token F))}
      {f : B → List (Token F) → Result ParseError (A × List (Token F))}
      → Ends m r
      → ((b : B) (rest : List (Token F)) → length rest ≤ m → Ends n (f b rest))
      → Ends n (Result.◌>>=◌ r (λ (b, rest). f b rest))
  Ends-bind (ends {a} {rest} h) k = k a rest h
  Ends-bind (raised h) k = raised h

  pub Ends-repeat :
      {n : ℕ} (again : Bool) (p : Parser F (List A)) (ts : List (Token F))
      → length ts ≤ n
      → (again ≡ true → Ends n (p ts))
      → Ends n (repeat again p ts)
  Ends-repeat true p ts h k = k refl
  Ends-repeat false p ts h k = ends h

  pub Ends-ne :
      {n : ℕ} {r : Result ParseError (A × List (Token F))} → Ends n r → r ≢ err out_of_fuel
  Ends-ne (ends h) = λ e. cc
  Ends-ne (raised h) = λ e. h (cc)

eof_type : (t : TokenType) → type_eq t TokenType.eof ≡ true → t ≡ TokenType.eof
eof_type TokenType.eof h = refl
eof_type t h = cc

module _ {F : Type 0} where
  pub advance_le : (ts : List (Token F)) → length (advance ts) ≤ length ts
  advance_le [] = omega arith
  advance_le (t ∷ ts) = ground arith

  -- Past a token of any type but EOF there is one token less.
  pub advance_shorter :
      (n : ℕ) (t : TokenType) (ts : List (Token F))
      → check t ts ≡ true
      → type_eq t TokenType.eof ≡ false
      → length ts ≤ suc n
      → length (advance ts) ≤ n
  advance_shorter n t [] h k l = ground arith
  advance_shorter n t (x ∷ ts) h k l = ground arith

  eof_kind : (k : Kind F) → type_eq (type_of k) TokenType.eof ≡ true → k ≡ Kind.fixed TokenType.eof
  eof_kind (Kind.fixed t) h = ap Kind.fixed (eof_type t h)
  eof_kind k h = cc

  passes :
      {A : Type 0} (value : Kind F → Option A) (n : ℕ) (ts : List (Token F))
      → value (Kind.fixed TokenType.eof) ≡ none
      → length ts ≤ suc n
      → (a : A) → value (peek ts).kind ≡ some a
      → length (advance ts) ≤ n
  passes value n [] k l a e = omega arith
  passes value n (t ∷ ts) k l a e = elim (Bool-cases (type_eq (type_of t.kind) TokenType.eof)) [
    | inl end ↦ cc (ap value (eof_kind t.kind end))
    | inr more ↦ rw more (omega arith)
  ]

  pub check_pos :
      (t : TokenType) (ts : List (Token F))
      → check t ts ≡ true
      → type_eq t TokenType.eof ≡ false
      → 1 ≤ length ts
  check_pos t [] h k = absurd (ground arith)
  check_pos t (x ∷ ts) h k = omega arith

  -- A loop that has not met its end has a token to read.
  pub more_tokens :
      (closed : Bool) (ts : List (Token F)) → (closed || is_at_end ts) ≡ false → 1 ≤ length ts
  more_tokens closed [] h = absurd (ground arith)
  more_tokens closed (t ∷ ts) h = omega arith

  -- A token that is passed leaves one less, and there was one.
  pub pass_token :
      (n : ℕ) (t : TokenType) (ts : List (Token F))
      → check t ts ≡ true
      → type_eq t TokenType.eof ≡ false
      → length ts ≤ n
      → (suc (length (advance ts)) ≤ n)
  pass_token n t ts h k l =
      let pos = check_pos t ts h k in omega (arith, advance_shorter (n - 1) t ts h k (omega arith))

module _ {F : Type 0} ⦃py : Python F⦄ where
  diagnose-ne : (message : String) (t : Token F) → diagnose message t ≢ out_of_fuel
  unfolding diagnose suggest
  diagnose-ne message t e = ground arith

  pub fail-Ends :
      {A : Type 0} (message : String) (n : ℕ) (ts : List (Token F))
      → Ends n (fail {A = A} message ts)
  unfolding fail
  fail-Ends message n ts = raised (diagnose-ne message (peek ts))

  pub consume-Ends :
      (t : TokenType) (message : String) (n : ℕ) (ts : List (Token F))
      → type_eq t TokenType.eof ≡ false
      → length ts ≤ suc n
      → Ends n (consume t message ts)
  unfolding consume
  consume-Ends t message n ts k l =
      Ends-if (check t ts) (λ h. ends (advance_shorter n t ts h k l)) (λ h. fail-Ends message n ts)

  pub reject-Ends :
      (t : TokenType) (message : String) (n : ℕ) (ts : List (Token F))
      → length ts ≤ n
      → Ends n (reject t message ts)
  unfolding reject
  reject-Ends t message n ts l = Ends-if (check t ts) (λ h. fail-Ends message n ts) (λ h. ends l)

  pub require-Ends :
      (t : TokenType) (message : String) (n : ℕ) (ts : List (Token F))
      → length ts ≤ n
      → Ends n (require t message ts)
  unfolding require
  require-Ends t message n ts l = Ends-if (check t ts) (λ h. ends l) (λ h. fail-Ends message n ts)

  pub reject_end-Ends :
      (message : String) (n : ℕ) (ts : List (Token F))
      → length ts ≤ n
      → Ends n (reject_end message ts)
  unfolding reject_end
  reject_end-Ends message n ts l = Ends-if _ (λ h. fail-Ends message n ts) (λ h. ends l)

  take_some-Ends :
      {A : Type 0} (message : String) (n : ℕ) (ts : List (Token F)) (o : Option A)
      → ((a : A) → o ≡ some a → length (advance ts) ≤ n)
      → Ends n (take_some message ts o)
  unfolding take_some
  take_some-Ends message n ts none h = fail-Ends message n ts
  take_some-Ends message n ts (some a) h = ends (h a refl)

  -- A value that EOF does not have is taken from a token that is passed.
  pub take_value-Ends :
      {A : Type 0} (value : Kind F → Option A) (message : String) (n : ℕ) (ts : List (Token F))
      → value (Kind.fixed TokenType.eof) ≡ none
      → length ts ≤ suc n
      → Ends n (take_value value message ts)
  unfolding take_value
  take_value-Ends value message n ts k l =
      take_some-Ends message n ts (value (peek ts).kind) (λ a e. passes value n ts k l a e)

  pub strict_separator-Ends :
      (close : TokenType) (trailing message : String) (n : ℕ) (ts : List (Token F))
      → length ts ≤ n
      → Ends n (strict_separator close trailing message ts)
  unfolding strict_separator
  strict_separator-Ends close trailing message n ts l =
      let shorter : length (advance ts) ≤ n = omega (arith, advance_le ts) in
      Ends-if (check TokenType.comma ts)
        (λ h.
          Ends-if (check close (advance ts)) (λ k. fail-Ends trailing n (advance ts))
            (λ k. ends shorter))
        (λ h. Ends-if (check close ts) (λ k. ends l) (λ k. fail-Ends message n ts))

  pub lax_separator-Ends :
      (close : TokenType) (message : String) (n : ℕ) (ts : List (Token F))
      → length ts ≤ n
      → Ends n (lax_separator close message ts)
  unfolding lax_separator
  lax_separator-Ends close message n ts l =
      let shorter : length (advance ts) ≤ n = omega (arith, advance_le ts) in
      Ends-if (check TokenType.comma ts)
        (λ h. Ends-if (check close (advance ts)) (λ k. ends shorter) (λ k. ends shorter))
        (λ h. Ends-if (check close ts) (λ k. ends l) (λ k. fail-Ends message n ts))
