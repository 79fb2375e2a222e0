-- ===== src/Prelude/Quantifiers.antt =====
-- What the Boolean tests over lists and over the first numbers say.
use Prim.Native.Nat.{ℕ, zero, suc, ◌<◌}
use mathlib.Core.Path.{◌≡◌, refl}
use mathlib.Core.Logic.{inl, inr}
use mathlib.Core.Bool.{Bool, true, false, ◌&&◌}
use mathlib.Core.Option.{some}
use mathlib.Core.List.{List, [], ◌∷◌}
use native.Mathlib.Omega.{arith}
use velodex.Prelude.Tests.{Bool-cases, nat_beq, nat_beq_iff}
use velodex.Prelude.Lists.{any, find, Any}
use velodex.Prelude.Equality.{PartialEq, contains}

module _ {A : Type 0} where
  pub any→Any :
      (f : A → Bool) (P : A → Type 0) (xs : List A)
      → ((a : A) → f a ≡ true → P a)
      → any f xs ≡ true
      → Any P xs
  any→Any f P [] sound h = cc
  any→Any f P (x ∷ xs) sound h = elim (Bool-cases (f x)) [
    | inl hit ↦ inl (sound x hit)
    | inr miss ↦ inr (any→Any f P xs sound (ground arith))
  ]

  pub Any→any :
      (f : A → Bool) (P : A → Type 0) (xs : List A)
      → ((a : A) → P a → f a ≡ true)
      → Any P xs
      → any f xs ≡ true
  Any→any f P [] complete m = elim m [ ]
  Any→any f P (x ∷ xs) complete (inl m) = rw (complete x m) refl
  Any→any f P (x ∷ xs) complete (inr m) = let rest = Any→any f P xs complete m in ground arith

  pub Any-mono : (P Q : A → Type 0) (xs : List A) → ((a : A) → P a → Q a) → Any P xs → Any Q xs
  Any-mono P Q [] f m = m
  Any-mono P Q (x ∷ xs) f (inl m) = inl (f x m)
  Any-mono P Q (x ∷ xs) f (inr m) = inr (Any-mono P Q xs f m)

  pub find-Any :
      (f : A → Bool) (xs : List A) (a : A) → find f xs ≡ some a → Any (λ x. x ≡ a) xs × (f a ≡ true)
  find-Any f [] a h = cc
  find-Any f (x ∷ xs) a h = elim (Bool-cases (f x)) [
    | inl hit ↦ let same : x ≡ a = ground arith in (inl same, rw (← same) hit)
    | inr miss ↦ let (m, t) = find-Any f xs a (ground arith) in (inr m, t)
  ]

  pub find_hit : (f : A → Bool) (x : A) (xs : List A) → f x ≡ true → find f (x ∷ xs) ≡ some x
  find_hit f x xs h = ground arith

  pub find_miss : (f : A → Bool) (x : A) (xs : List A) → f x ≡ false → find f (x ∷ xs) ≡ find f xs
  find_miss f x xs h = ground arith

  pub contains→Any :
      ⦃e : PartialEq A⦄ (xs : List A) (a : A) → contains xs a ≡ true → Any (λ x. x ≡ a) xs
  contains→Any [] a h = cc
  contains→Any ⦃e⦄ (x ∷ xs) a h = elim (Bool-cases (e.eq x a)) [
    | inl hit ↦ inl ((e.eq_iff x a).0 hit)
    | inr miss ↦ inr (contains→Any xs a (ground arith))
  ]

  pub Any→contains :
      ⦃e : PartialEq A⦄ (xs : List A) (a : A) → Any (λ x. x ≡ a) xs → contains xs a ≡ true
  Any→contains [] a m = elim m [ ]
  Any→contains ⦃e⦄ (x ∷ xs) a (inl p) = rw ((e.eq_iff x a).1 p) refl
  Any→contains (x ∷ xs) a (inr m) = let rest = Any→contains xs a m in ground arith

-- A test that holds of the first numbers.
abbrev pub holds_below : ℕ → (ℕ → Bool) → Bool
holds_below zero test = true
holds_below (suc n) test = test n && holds_below n test

pub holds_below_lem :
    (n : ℕ) (test : ℕ → Bool) (k : ℕ) → holds_below n test ≡ true → k < n → test k ≡ true
holds_below_lem zero test k h below = absurd (omega arith)
holds_below_lem (suc n) test k h below = elim (Bool-cases (nat_beq k n)) [
  | inl last ↦ rw ((nat_beq_iff k n).0 last) (ground (arith, h))
  | inr earlier ↦ holds_below_lem n test k (ground (arith, h)) (ground (arith, below, earlier))
]
