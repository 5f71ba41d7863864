-- ===== src/Base/Result.antt =====
-- Code that raises: a value, or the exception that ends the run.
use mathlib.Core.Path.{◌≡◌, refl}
use mathlib.Core.Logic.{◌↔◌}
use mathlib.Core.Bool.{Bool, true, false}
use mathlib.Core.List.{List, [], ◌∷◌}
use altr_stream.Base.Lists.{All}

pub data Result {ℓ} (E : Type 0) (A : Type ℓ) : Type ℓ where
  ok : A → Result E A
  err : E → Result E A

infixl 5 ◌>>=◌ ◌>>◌
abbrev pub ◌>>=◌ {ℓ κ} :
    {E : Type 0} {A : Type ℓ} {B : Type κ} → Result E A → (A → Result E B) → Result E B
ok a >>= f = f a
err e >>= f = err e

abbrev pub ◌>>◌ {ℓ} : {E : Type 0} {B : Type ℓ} → Result E (Unit {0}) → Result E B → Result E B
m >> k = m >>= λ _. k

-- `if test: raise e`
abbrev pub raise_if : {E : Type 0} → Bool → E → Result E (Unit {0})
raise_if true e = err e
raise_if false e = ok tt

-- `for x in xs: f(x)`, for a body that only raises or passes.
unfoldable pub for_each : {E A : Type 0} → (A → Result E (Unit {0})) → List A → Result E (Unit {0})
for_each f [] = ok tt
for_each f (x ∷ xs) = f x >> for_each f xs

-- The run passed with no exception.
abbrev pub Passes : {E : Type 0} → Result E (Unit {0}) → Type 0
Passes r = r ≡ ok tt

module _ {E : Type 0} where
  pub Passes->> : (m k : Result E (Unit {0})) → Passes (m >> k) ↔ (Passes m × Passes k)
  Passes->> (ok tt) k = (λ h. (refl, h), λ h. h.1)
  Passes->> (err e) k = (λ h. cc, λ h. cc (h.0))

  pub Passes-raise_if : (b : Bool) (e : E) → Passes (raise_if b e) ↔ (b ≡ false)
  Passes-raise_if true e = (λ h. cc, λ h. cc)
  Passes-raise_if false e = (λ h. refl, λ h. refl)

  pub Passes-for_each :
      {A : Type 0} (f : A → Result E (Unit {0})) (P : A → Type 0) (xs : List A)
      → ((x : A) → Passes (f x) ↔ P x)
      → Passes (for_each f xs) ↔ All P xs
  unfolding for_each
  Passes-for_each f P [] h = (λ _. tt, λ _. refl)
  Passes-for_each f P (x ∷ xs) h =
      let rest = Passes-for_each f P xs h in
      let both = Passes->> (f x) (for_each f xs) in
      (λ p. let q = both.0 p in ((h x).0 q.0, rest.0 q.1), λ p. both.1 ((h x).1 p.0, rest.1 p.1))

-- Inversion of a successful bind.
pub >>=-eq-ok {ℓ κ} :
    {E : Type 0} {A : Type ℓ} {B : Type κ} (first : Result E A) {out : B} (next : A → Result E B)
    → (first >>= next) ≡ ok out
    → (x : A) × (first ≡ ok x) × (next x ≡ ok out)
>>=-eq-ok (err e) next h = cc
>>=-eq-ok (ok x) next h = (x, refl, h)

pub ok-injective {ℓ} :
    {E : Type 0} {A : Type ℓ} {a b : A} → ◌≡◌ {A = Result E A} (ok a) (ok b) → a ≡ b
ok-injective e = cc

-- A run whose last step raises does not pass.
pub not-Passes->>-err : {E : Type 0} (m : Result E (Unit {0})) (e : E) → ¬ Passes (m >> err e)
not-Passes->>-err (ok tt) e h = cc
not-Passes->>-err (err d) e h = cc
