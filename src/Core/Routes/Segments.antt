-- ===== src/Core/Routes/Segments.antt =====
-- How the tests on a route go with its segments.
use velodex.Prelude.{
  false, contains, ℕ, ◌≡◌, inl, inr, refl, Bool, ◌||◌, none, some, [], ◌∷◌, Str, arith, any,
  is_empty, ◌==◌, nat_eq, Bool-cases, Option-cases,
}
use velodex.Core.Routes.{
  first_part, later_parts, split, split_once, begins_with, ends_with, contains_twice,
}

module _ (c : ℕ) where
  -- An empty segment stands at the begin, at the end, or between two separators in a row.
  first_empty : (text : Str) → is_empty (first_part c text) ≡ (is_empty text || begins_with c text)
  first_empty [] = refl
  first_empty (x ∷ text) = ground arith

  later_empty :
      (text : Str) → any is_empty (later_parts c text) ≡ (ends_with c text || contains_twice c text)
  later_empty [] = refl
  later_empty (x ∷ []) = ground arith
  later_empty (x ∷ y ∷ text) = ground (arith, later_empty (y ∷ text), first_empty (y ∷ text))

  pub any_empty :
      (text : Str)
      → any is_empty (split c text)
        ≡ (is_empty text || (begins_with c text || (ends_with c text || contains_twice c text)))
  any_empty text =
      rw (first_empty text, later_empty text) (or_assoc (is_empty text) (begins_with c text) _)
    where
      or_assoc : (p q r : Bool) → ((p || q) || r) ≡ (p || (q || r))
      or_assoc p q r = ground arith

  -- A split at the first separator, and the split at every one.
  pub split_once-none : (text : Str) → split_once c text ≡ none → split c text ≡ text ∷ []
  split_once-none [] h = refl
  split_once-none (x ∷ text) h = elim (Option-cases (split_once c text)) [
    | inl absent ↦ let rest = split_once-none text absent in ground (arith, h, rest)
    | inr (parts, present) ↦ ground (arith, h, present)
  ]

  pub split_once-some :
      (text before after : Str)
      → split_once c text ≡ some (before, after)
      → split c text ≡ before ∷ split c after
  split_once-some [] before after h = cc
  split_once-some (x ∷ text) before after h = elim (Bool-cases (x == c)) [
    | inl here ↦ ground (arith, h, here)
    | inr later ↦ elim (Option-cases (split_once c text)) [
      | inl absent ↦ ground (arith, h, later, absent)
      | inr ((before', after'), present) ↦
          let rest = split_once-some text before' after' present in
          ground (arith, h, later, present, rest)
    ]
  ]

-- Without a separator a text is its only segment.
pub split-alone : (c : ℕ) (text : Str) → contains text c ≡ false → split c text ≡ text ∷ []
split-alone c [] h = refl
split-alone c (x ∷ text) h =
    let rest = split-alone c text (ground (arith, h)) in ground (arith, h, rest)
