-- ===== src/Prelude/Results.antt =====
-- `Result<T, E>` of the source, with `?` as the bind of a `do` block.
use mathlib.Core.Path.{◌≡◌, refl}
use mathlib.Core.Bool.{Bool}
use velodex.Prelude.Tests.{if◌then◌else◌}

pub data Result {ℓ κ} (E : Type ℓ) (A : Type κ) : Type (ℓ ⊔ κ) where
  ok : A → Result E A
  err : E → Result E A

-- A step that is made only if the test holds.
abbrev pub when {ℓ} : {E : Type ℓ} → Bool → Result E (Unit {0}) → Result E (Unit {0})
when b m = if b then m else ok tt

module _ {ℓ κ μ} {E : Type ℓ} {A : Type κ} {B : Type μ} where
  infixl 5 ◌>>=◌
  abbrev pub ◌>>=◌ : Result E A → (A → Result E B) → Result E B
  err e >>= next = err e
  ok a >>= next = next a

  -- If both steps succeed, the first has a result that the second takes.
  pub >>=-eq-ok :
      {result : B} (step : Result E A) (next : A → Result E B)
      → (step >>= next) ≡ ok result
      → (middle : A) × (step ≡ ok middle) × (next middle ≡ ok result)
  >>=-eq-ok (err failure) next both = cc
  >>=-eq-ok (ok middle) next both = (middle, refl, both)

infixl 5 ◌>>◌
abbrev pub ◌>>◌ {ℓ κ} : {E : Type ℓ} {B : Type κ} → Result E (Unit {0}) → Result E B → Result E B
first >> second = first >>= λ done. second
