-- ===== src/Identity/Secrets.antt =====
-- The comparison of secrets of crates/peryx-identity/src/lib.rs (`secrets_match`).
use Prim.Native.Nat.{bit_or, bit_xor}
use velodex.Prelude.{
  ℕ, zero, suc, ◌<◌, ◌≡◌, ◌↔◌, refl, Bool, true, false, not, ◌&&◌, [], ◌∷◌, Str, arith, length, ltb,
  inl, inr, ap, All, ◌==◌, nat_eq, if◌then◌else◌, nat_beq_iff, Bool-cases,
}

-- The loop over the pairs of bytes, with its accumulator.
pub difference_from : ℕ → Str → Str → ℕ
difference_from difference [] expected = difference
difference_from difference (p ∷ presented) [] = difference
difference_from difference (p ∷ presented) (e ∷ expected) =
    difference_from (bit_or difference (bit_xor p e)) presented expected

unfoldable pub secrets_match : Str → Str → Bool
unfolding difference_from
secrets_match presented expected =
    if not (length presented == length expected)
    then false
    else difference_from 0 presented expected == 0

-- Laws of the byte operations, checked at every value.
holds_below : (ℕ → Bool) → ℕ → Bool
holds_below test zero = true
holds_below test (suc bound) = let earlier = holds_below test bound in test bound && earlier

holds_at :
    (test : ℕ → Bool) (bound : ℕ)
    → holds_below test bound ≡ true
    → (x : ℕ) → x < bound
    → test x ≡ true
unfolding holds_below
holds_at test zero h x small = elim small [ ]
holds_at test (suc bound) h x small = ground (arith, holds_at test bound (ground arith) x)

all_pairs_sound :
    (f : ℕ → ℕ → Bool) (x y : ℕ)
    → holds_below (λ a. holds_below (f a) 256) 256 ≡ true
    → x < 256
    → y < 256
    → f x y ≡ true
all_pairs_sound f x y h hx hy =
    holds_at (f x) 256 (holds_at (λ a. holds_below (f a) 256) 256 h x hx) y hy

or_law : ℕ → ℕ → Bool
or_law d x =
    ltb (bit_or d x) 256 && (if bit_or d x == 0 then d == 0 && x == 0 else not (d == 0 && x == 0))

or_table : holds_below (λ d. holds_below (or_law d) 256) 256 ≡ true
unfolding holds_below or_law
or_table = refl

xor_law : ℕ → ℕ → Bool
xor_law p e = ltb (bit_xor p e) 256 && (if p == e then bit_xor p e == 0 else not (bit_xor p e == 0))

xor_table : holds_below (λ p. holds_below (xor_law p) 256) 256 ≡ true
unfolding holds_below xor_law
xor_table = refl

module _ (d x : ℕ) (hd : d < 256) (hx : x < 256) where
  or_bound : bit_or d x < 256
  unfolding or_law
  or_bound = let h = all_pairs_sound or_law d x or_table hd hx in ground (arith, h)

  or_zero : (bit_or d x ≡ 0) ↔ ((d ≡ 0) × (x ≡ 0))
  unfolding or_law
  or_zero =
      let h = all_pairs_sound or_law d x or_table hd hx in
      (λ z. ground (arith, h), λ z. ground (arith, h))

  xor_bound : bit_xor d x < 256
  unfolding xor_law
  xor_bound = let h = all_pairs_sound xor_law d x xor_table hd hx in ground (arith, h)

  xor_zero : (bit_xor d x ≡ 0) ↔ (d ≡ x)
  unfolding xor_law
  xor_zero =
      let h = all_pairs_sound xor_law d x xor_table hd hx in
      (λ z. ground (arith, h), λ z. ground (arith, h))

-- The bytes of a text.
abbrev pub IsBytes : Str → Type 0
IsBytes = All (λ b. b < 256)

difference_from_zero :
    (d : ℕ) (presented expected : Str)
    → d < 256
    → IsBytes presented
    → IsBytes expected
    → length presented ≡ length expected
    → (difference_from d presented expected ≡ 0) ↔ ((d ≡ 0) × (presented ≡ expected))
unfolding difference_from
difference_from_zero d [] [] hd hp he same = (λ z. (z, refl), λ z. z.0)
difference_from_zero d [] (e ∷ expected) hd hp he same = absurd (omega arith)
difference_from_zero d (p ∷ presented) [] hd hp he same = absurd (omega arith)
difference_from_zero d (p ∷ presented) (e ∷ expected) hd hp he same =
    let ih =
      difference_from_zero (bit_or d (bit_xor p e)) presented expected
        (or_bound d (bit_xor p e) hd (xor_bound p e hp.0 he.0)) hp.1 he.1 (omega arith) in
    (λ z. equal (ih.0 z), λ z. ih.1 (unequal z))
  where
    d' : ℕ
    d' = bit_or d (bit_xor p e)

    folded : (d' ≡ 0) ↔ ((d ≡ 0) × (bit_xor p e ≡ 0))
    folded = or_zero d (bit_xor p e) hd (xor_bound p e hp.0 he.0)

    equal : (d' ≡ 0) × (presented ≡ expected) → (d ≡ 0) × ((p ∷ presented) ≡ (e ∷ expected))
    equal (z, rest) =
        let (dz, xz) = folded.0 z in let first : p ≡ e = (xor_zero p e hp.0 he.0).0 xz in (dz, cc)

    unequal : (d ≡ 0) × ((p ∷ presented) ≡ (e ∷ expected)) → (d' ≡ 0) × (presented ≡ expected)
    unequal (dz, q) =
        let first : p ≡ e = cc in
        let rest : presented ≡ expected = cc in
        (folded.1 (dz, (xor_zero p e hp.0 he.0).1 first), rest)

-- `secrets_match` answers true exactly if the two secrets are the same bytes, though its loop never
-- stops early.
pub secrets_match_iff :
    (presented expected : Str)
    → IsBytes presented
    → IsBytes expected
    → (secrets_match presented expected ≡ true) ↔ (presented ≡ expected)
unfolding secrets_match
secrets_match_iff presented expected hp he =
    elim (Bool-cases (length presented == length expected)) [
      | inl same ↦
          let sizes : length presented ≡ length expected =
            (nat_beq_iff (length presented) (length expected)).0 same in
          let zero_iff = difference_from_zero 0 presented expected (omega arith) hp he sizes in
          rw (same, secrets_match)
            (
              λ h. (zero_iff.0 ((nat_beq_iff (difference_from 0 presented expected) 0).0 h)).1,
              λ e. (nat_beq_iff (difference_from 0 presented expected) 0).1 (zero_iff.1 (refl, e)),
            )
      | inr differ ↦
          rw (differ, secrets_match)
            (
              λ h. cc,
              λ e. cc (differ, (nat_beq_iff (length presented) (length expected)).1 (ap length e)),
            )
    ]
