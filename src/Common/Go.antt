-- ===== src/Common/Go.antt =====
-- Go's errors, panics and calls that change state.
use native.Mathlib.Omega.{arith}
use Prim.Native.Nat.{ℕ}
use Prim.Native.String.{String}
use mathlib.Core.Path.{◌≡◌, ap, refl}
use mathlib.Core.Logic.{◌⊎◌, inl, inr}

-- A non-nil `error`: `message` is what the source makes by errors.New or fmt.Errorf (the constant
-- part of its format), `external` is an error of code that the source calls, `wrapped` a text that
-- wraps another error by fmt.Errorf, and `permanent` the *PermanentError of backoff/backoff.go.
pub data Error : Type 0 where
  message : String → Error
  external : ℕ → Error
  wrapped : String → Error → Error
  permanent : Error → Error

-- How a call ends: with its value, with an error, or with a panic.
pub data Outcome {ℓ} (A : Type ℓ) : Type ℓ where
  ok : A → Outcome A
  err : Error → Outcome A
  panic : Outcome A

-- The result and error of a call that does not panic.
pub data Fallible {ℓ} (A : Type ℓ) : Type ℓ where
  value : A → Fallible A
  error : Error → Fallible A

-- A call over the state `S`. What was written stays written when it fails.
abbrev pub Action : Type 0 → Type 0 → Type 0
Action S A = S → Outcome A × S

module _ {S A : Type 0} where
  abbrev pub pure : A → Action S A
  pure a s = (ok a, s)

  abbrev pub crash : Action S A
  crash s = (panic, s)

  abbrev pub gets : (S → A) → Action S A
  gets f s = (ok (f s), s)

abbrev pub modify : {S : Type 0} → (S → S) → Action S (Unit {0})
modify f s = (ok tt, f s)

-- What `>>=` makes of the end of its first call.
abbrev pub bound : {S A B : Type 0} → (A → Action S B) → Outcome A × S → Outcome B × S
bound f (ok a, s) = f a s
bound f (err e, s) = (err e, s)
bound f (panic, s) = (panic, s)

infixl 5 ◌>>=◌ ◌>>◌
abbrev pub ◌>>=◌ : {S A B : Type 0} → Action S A → (A → Action S B) → Action S B
◌>>=◌ m f s = bound f (m s)

abbrev pub ◌>>◌ : {S A B : Type 0} → Action S A → Action S B → Action S B
m >> k = m >>= λ _. k

module _ {S A B : Type 0} (m : Action S A) (f : A → Action S B) (s : S) {s' : S} where
  pub >>=-ok : {a : A} → m s ≡ (ok a, s') → (m >>= f) s ≡ f a s'
  >>=-ok e = ap (bound f) e

pub Fallible-cases {ℓ} :
    {A : Type ℓ} (r : Fallible A) → ((a : A) × (r ≡ value a)) ⊎ ((e : Error) × (r ≡ error e))
Fallible-cases (value a) = inl (a, refl)
Fallible-cases (error e) = inr (e, refl)

-- The value of a call that gives one.
abbrev pub ok_or {ℓ} : {A : Type ℓ} → A → Outcome A → A
ok_or d (ok a) = a
ok_or d (err e) = d
ok_or d panic = d

-- What a chain that gives a value has gone through.
pub bound-ok :
    {S A B : Type 0} (f : A → Action S B) (r : Outcome A × S) (b : B) (s : S)
    → bound f r ≡ (ok b, s)
    → (a : A) × (r ≡ (ok a, r.1)) × (f a r.1 ≡ (ok b, s))
bound-ok f (ok a, s') b s h = (a, refl, h)
bound-ok f (err e, s') b s h = absurd (ground (arith, ap (λ p. p.0) h))
bound-ok f (panic, s') b s h = absurd (ground (arith, ap (λ p. p.0) h))
