-- ===== src/Oci/Names/Components.antt =====
-- The components of a name against their grammar (`valid_name_component` of
-- crates/peryx-ecosystem-oci/src/name.rs).
use velodex.Prelude.{
  ℕ, zero, suc, ◌≤◌, ◌≡◌, ◌↔◌, inl, inr, refl, sym, ap, subst, Bool, true, false, not, ◌&&◌, [],
  ◌∷◌, ◌++◌, Str, codes, arith, all, length, ◌==◌, nat_eq, list_eq, list_beq_iff, Bool-cases,
}
use velodex.Oci.Names.{
  is_alnum, first_is, last_is, separator_of, behind_separator, is_separator, scan,
  valid_name_component,
}

-- A run of lowercase letters and digits.
pub data Alnums : Str → Type 0 where
  one : {byte : ℕ} → is_alnum byte ≡ true → Alnums (byte ∷ [])
  more : {byte : ℕ} {text : Str} → is_alnum byte ≡ true → Alnums text → Alnums (byte ∷ text)

pub data Dashes : Str → Type 0 where
  dash : Dashes (b'-' ∷ [])
  dash_more : {text : Str} → Dashes text → Dashes (b'-' ∷ text)

pub data Separator : Str → Type 0 where
  dot : Separator (b'.' ∷ [])
  underscore : Separator (b'_' ∷ [])
  two_underscores : Separator (b'_' ∷ b'_' ∷ [])
  dashes : {text : Str} → Dashes text → Separator text

-- The grammar: runs with one separator between two of them.
pub data NameComponent : Str → Type 0 where
  run : {text : Str} → Alnums text → NameComponent text
  then_run :
      {first separator rest : Str}
      → Alnums first
      → Separator separator
      → NameComponent rest
      → NameComponent (first ++ (separator ++ rest))

longer :
    {byte : ℕ} {text : Str}
    → is_alnum byte ≡ true
    → NameComponent text
    → NameComponent (byte ∷ text)
longer h (run r) = run (more h r)
longer h (then_run r s rest) = then_run (more h r) s rest

behind :
    {byte : ℕ} {separator text : Str}
    → is_alnum byte ≡ true
    → Separator separator
    → NameComponent text
    → NameComponent (byte ∷ (separator ++ text))
behind h s rest = then_run (one h) s rest

all-Dashes :
    (byte : ℕ) (text : Str) → all (λ b. b == b'-') (byte ∷ text) ≡ true → Dashes (byte ∷ text)
all-Dashes byte [] h = subst (λ b. Dashes (b ∷ [])) (ground (arith, h)) dash
all-Dashes byte (next ∷ text) h =
    let rest = all-Dashes next text (ground (arith, h)) in
    subst (λ b. Dashes (b ∷ next ∷ text)) (ground (arith, h)) (dash_more rest)

is_separator-Separator :
    (byte : ℕ) (text : Str) → is_separator (byte ∷ text) ≡ true → Separator (byte ∷ text)
is_separator-Separator byte text h = elim (Bool-cases ((byte ∷ text) == codes ".")) [
  | inl e ↦ subst Separator (sym ((list_beq_iff (byte ∷ text) (codes ".")).0 e)) dot
  | inr not_dot ↦ elim (Bool-cases ((byte ∷ text) == codes "_")) [
    | inl e ↦ subst Separator (sym ((list_beq_iff (byte ∷ text) (codes "_")).0 e)) underscore
    | inr not_one ↦ elim (Bool-cases ((byte ∷ text) == codes "__")) [
      | inl e ↦
          subst Separator (sym ((list_beq_iff (byte ∷ text) (codes "__")).0 e)) two_underscores
      | inr not_two ↦ dashes (all-Dashes byte text (rw (not_dot, not_one, not_two) at h))
    ]
  ]
]

split_separator : (text : Str) → separator_of text ++ behind_separator text ≡ text
split_separator [] = refl
split_separator (byte ∷ text) = ground (arith, split_separator text)

-- Behind a separator a text that ends well goes on well.
behind_ends :
    (text : Str)
    → last_is is_alnum text ≡ true
    → (first_is is_alnum (behind_separator text) ≡ true)
      × (last_is is_alnum (behind_separator text) ≡ true)
behind_ends [] h = cc
behind_ends (byte ∷ []) h = rw h (h, h)
behind_ends (byte ∷ next ∷ text) h = elim (Bool-cases (is_alnum byte)) [
  | inl letter ↦ rw letter (letter, h)
  | inr other ↦ rw other (behind_ends (next ∷ text) h)
]

behind_shorter : (text : Str) → length (behind_separator text) ≤ length text
behind_shorter [] = omega arith
behind_shorter (byte ∷ text) = let rest = behind_shorter text in ground arith

last_of_rest :
    (byte next : ℕ) (text : Str)
    → is_alnum next ≡ false
    → last_is is_alnum (byte ∷ next ∷ text) ≡ true
    → last_is is_alnum text ≡ true
last_of_rest byte next [] other h = cc
last_of_rest byte next (x ∷ text) other h = h

pub scan-NameComponent :
    (fuel : ℕ) (text : Str)
    → length text ≤ fuel
    → first_is is_alnum text ≡ true
    → last_is is_alnum text ≡ true
    → scan fuel text ≡ true
    → NameComponent text
unfolding scan
scan-NameComponent fuel [] enough first last h = cc
scan-NameComponent zero (byte ∷ text) enough first last h = absurd (omega arith)
scan-NameComponent (suc fuel) (byte ∷ []) enough first last h = run (one first)
scan-NameComponent (suc zero) (byte ∷ next ∷ text) enough first last h = absurd (omega arith)
scan-NameComponent (suc (suc fuel)) (byte ∷ next ∷ text) enough first last h =
    let h' : scan (suc fuel) (next ∷ text) ≡ true = rw first at h in
    elim (Bool-cases (is_alnum next)) [
      | inl letter ↦
          longer first (scan-NameComponent (suc fuel) (next ∷ text) (omega arith) letter last h')
      | inr other ↦
          let both : (is_separator (next ∷ separator_of text) && scan fuel (behind_separator text))
              ≡ true =
            rw other at h' in
          let (first', last') = behind_ends text (last_of_rest byte next text other last) in
          let rest =
            scan-NameComponent fuel (behind_separator text) (omega (arith, behind_shorter text))
              first' last' (ground (arith, both)) in
          subst (λ x. NameComponent (byte ∷ next ∷ x)) (split_separator text)
            (behind first (is_separator-Separator next (separator_of text) (ground (arith, both)))
              rest)
    ]

abbrev other_byte : ℕ → Bool
other_byte byte = not (is_alnum byte)

-- A separator has no letter and no digit, and is taken as one.
Dashes-others :
    {text : Str} → Dashes text → (all other_byte text ≡ true) × (all (λ b. b == b'-') text ≡ true)
Dashes-others dash = (refl, refl)
Dashes-others (dash_more d) = Dashes-others d

Separator-others :
    {text : Str} → Separator text → (all other_byte text ≡ true) × (is_separator text ≡ true)
Separator-others dot = (refl, refl)
Separator-others underscore = (refl, refl)
Separator-others two_underscores = (refl, refl)
Separator-others (dashes d) =
    let (others, all_dashes) = Dashes-others d in (others, ground (arith, all_dashes))

module _ (rest : Str) (first : first_is is_alnum rest ≡ true) where
  separator_of_rest :
      (r : Str) → first_is is_alnum r ≡ true → (separator_of r ≡ []) × (behind_separator r ≡ r)
  separator_of_rest [] h = cc
  separator_of_rest (byte ∷ r) h = rw h (refl, refl)

  taken :
      (separator : Str)
      → all other_byte separator ≡ true
      → (separator_of (separator ++ rest) ≡ separator)
        × (behind_separator (separator ++ rest) ≡ rest)
  taken [] others = separator_of_rest rest first
  taken (byte ∷ separator) others =
      let (s, r) = taken separator (ground (arith, others)) in
      let other : is_alnum byte ≡ false = ground (arith, others) in
      rw other (ap (λ x. byte ∷ x) s, r)

  scan_separator :
      (fuel : ℕ) (separator : Str)
      → all other_byte separator ≡ true
      → is_separator separator ≡ true
      → length (separator ++ rest) ≤ fuel
      → ((f : ℕ) → length rest ≤ f → scan f rest ≡ true)
      → scan fuel (separator ++ rest) ≡ true
  unfolding scan
  scan_separator fuel [] others sep enough scanned = scanned fuel enough
  scan_separator zero (byte ∷ separator) others sep enough scanned = absurd (omega arith)
  scan_separator (suc fuel) (byte ∷ separator) others sep enough scanned =
      let (s, r) = taken separator (ground (arith, others)) in
      let other : is_alnum byte ≡ false = ground (arith, others) in
      let left = scanned fuel (omega (arith, length_behind separator rest)) in
      rw (other, s, r) (rw (sep, left) refl)
    where
      length_behind : (xs ys : Str) → length ys ≤ length (xs ++ ys)
      length_behind [] ys = omega arith
      length_behind (x ∷ xs) ys = omega (arith, length_behind xs ys)

-- What the loop finds behind a run.
abbrev Scanned : Str → Type 0
Scanned text =
    (first_is is_alnum text ≡ true)
    × (last_is is_alnum text ≡ true)
    × ((fuel : ℕ) → length text ≤ fuel → scan fuel text ≡ true)

scan_letter :
    (fuel byte : ℕ) (text : Str)
    → is_alnum byte ≡ true
    → length (byte ∷ text) ≤ fuel
    → ((f : ℕ) → length text ≤ f → scan f text ≡ true)
    → scan fuel (byte ∷ text) ≡ true
unfolding scan
scan_letter zero byte text letter enough scanned = absurd (omega arith)
scan_letter (suc fuel) byte text letter enough scanned = rw letter (scanned fuel (omega arith))

last_more :
    (byte : ℕ) (text : Str) → last_is is_alnum text ≡ true → last_is is_alnum (byte ∷ text) ≡ true
last_more byte [] h = cc
last_more byte (x ∷ text) h = h

last_behind :
    (before text : Str) → last_is is_alnum text ≡ true → last_is is_alnum (before ++ text) ≡ true
last_behind [] text h = h
last_behind (byte ∷ before) text h = last_more byte (before ++ text) (last_behind before text h)

-- A run and what the loop gets through behind it.
run_then :
    {first : Str} (text : Str)
    → Alnums first
    → last_is is_alnum text ≡ true
    → ((fuel : ℕ) → length text ≤ fuel → scan fuel text ≡ true)
    → Scanned (first ++ text)
run_then text (one {byte = byte} h) last scanned =
    (h, last_more byte text last, λ fuel enough. scan_letter fuel byte text h enough scanned)
run_then text (more {byte = byte} {text = r} h rest) last scanned =
    let (first, last', scanned') = run_then text rest last scanned in
    (
      h,
      last_more byte (r ++ text) last',
      λ fuel enough. scan_letter fuel byte (r ++ text) h enough scanned',
    )

run_alone : {text : Str} → Alnums text → Scanned text
unfolding scan
run_alone (one {byte = byte} h) =
    (h, h, λ fuel enough. scan_letter fuel byte [] h enough (λ f e. refl))
run_alone (more {byte = byte} {text = text} h r) =
    let (first, last, scanned) = run_alone r in
    (h, last_more byte text last, λ fuel enough. scan_letter fuel byte text h enough scanned)

pub NameComponent-Scanned : {text : Str} → NameComponent text → Scanned text
NameComponent-Scanned (run r) = run_alone r
NameComponent-Scanned (then_run {separator = separator} {rest = rest} r s name) =
    let (first, last, scanned) = NameComponent-Scanned name in
    let (others, sep) = Separator-others s in
    run_then (separator ++ rest) r (last_behind separator rest last)
      (λ fuel enough. scan_separator rest first fuel separator others sep enough scanned)

-- A component is taken for valid exactly if it is one of the grammar: runs of lowercase letters and
-- digits, with a dot, one or two underscores, or dashes between two of them.
pub valid_name_component_iff :
    (text : Str) → (valid_name_component text ≡ true) ↔ NameComponent text
unfolding valid_name_component
valid_name_component_iff text = (
  λ h. elim (Bool-cases (first_is is_alnum text)) [
    | inr bad ↦ let h' = rw bad at h in cc
    | inl first ↦ elim (Bool-cases (last_is is_alnum text)) [
      | inr bad ↦ let h' = rw (first, bad) at h in cc
      | inl last ↦
          scan-NameComponent (length text) text (omega arith) first last (rw (first, last) at h)
    ]
  ],
  λ name.
      let (first, last, scanned) = NameComponent-Scanned name in
      rw (first, last) (scanned (length text) (omega arith)),
)
