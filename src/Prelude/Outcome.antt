-- ===== src/Prelude/Outcome.antt =====
-- A Go result pair `(T, error)`: a value, or an error.
use mathlib.Core.Path.{◌≡◌, refl}

pub data Result {ℓ} (E A : Type ℓ) : Type ℓ where
  ok : A → Result E A
  err : E → Result E A

infixl 5 ◌>>=◌
abbrev pub ◌>>=◌ {ℓ} : {E T U : Type ℓ} (first : Result E T) (next : T → Result E U) → Result E U
ok t >>= next = next t
err problem >>= next = err problem

pub >>=-eq-ok {ℓ} :
    {E T U : Type ℓ} (first : Result E T) (next : T → Result E U) {u : U}
    → (first >>= next) ≡ ok u
    → (t : T) × (first ≡ ok t) × (next t ≡ ok u)
>>=-eq-ok (err problem) next h = cc
>>=-eq-ok (ok t) next h = (t, refl, h)
