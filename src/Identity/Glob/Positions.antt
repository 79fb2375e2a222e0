-- ===== src/Identity/Glob/Positions.antt =====
-- The positions of a pattern that `Glob::remainders_after` keeps: what they can match.
use velodex.Prelude.{
  ℕ, suc, ◌≡◌, ◌↔◌, ◌⊎◌, inl, inr, refl, ap, subst, Bool, true, false, not, ◌&&◌, ◌||◌, List, [],
  ◌∷◌, Str, arith, length, ◌==◌, nat_eq, Bool-cases,
}
use velodex.Identity.Glob.{star, close_from, close_stars, consume}
use velodex.Identity.Glob.Meaning.{
  Matches, star_skip, star_take, star_invert, literal-Matches, literal_invert,
}

abbrev pub behind : Str → Str
behind [] = []
behind (c ∷ p) = p

-- Some reachable position's suffix matches the text.
abbrev pub Live : Str → List Bool → Str → Type 0
Live p [] t = ⊥
Live p (a ∷ r) t = ((a ≡ true) × Matches p t) ⊎ Live (behind p) r t

-- One flag for each position and one for the end.
abbrev pub Sized : Str → List Bool → Type 0
Sized p r = length r ≡ suc (length p)

-- Behind a reachable star the next position is reachable.
abbrev pub IsClosed : Str → List Bool → Type 0
IsClosed p [] = Unit
IsClosed p (a ∷ []) = Unit
IsClosed [] (a ∷ b ∷ r) = Unit
IsClosed (c ∷ p) (a ∷ b ∷ r) = (a ≡ true → (c == star) ≡ true → b ≡ true) × IsClosed p (b ∷ r)

close_from-IsClosed : (p : Str) (a : Bool) (r : List Bool) → IsClosed p (a ∷ close_from p a r)
unfolding close_from
close_from-IsClosed p a [] = tt
close_from-IsClosed [] a (b ∷ r) = tt
close_from-IsClosed (c ∷ p) a (b ∷ r) =
    (λ h e. ground arith, close_from-IsClosed p (b || (a && (c == star))) r)

length-close_from : (p : Str) (a : Bool) (r : List Bool) → length (close_from p a r) ≡ length r
unfolding close_from
length-close_from p a [] = refl
length-close_from [] a (b ∷ r) = refl
length-close_from (c ∷ p) a (b ∷ r) = ap suc (length-close_from p (b || (a && (c == star))) r)

pub length-consume :
    (byte : ℕ) (p : Str) (r : List Bool) (carry : Bool)
    → Sized p r
    → Sized p (consume byte p r carry)
unfolding consume
length-consume byte [] r carry h = refl
length-consume byte (c ∷ p) [] carry h = absurd (omega arith)
length-consume byte (c ∷ p) (a ∷ r) carry h =
    ap suc (length-consume byte p r (a && (not (c == star) && (c == byte))) (omega arith))

-- Closing adds no text.
module _ (c : ℕ) (p : Str) (a b : Bool) (r : List Bool) (t : Str) where
  abbrev closed_flag : Bool
  closed_flag = b || (a && (c == star))

  closes :
      (Live p (closed_flag ∷ close_from p closed_flag r) t → Live p (closed_flag ∷ r) t)
      → Live (c ∷ p) (a ∷ closed_flag ∷ close_from p closed_flag r) t
      → Live (c ∷ p) (a ∷ b ∷ r) t
  closes ih (inl m) = inl m
  closes ih (inr m) = elim (ih m) [
    | inr m' ↦ inr (inr m')
    | inl (h, m') ↦ elim (Bool-cases b) [
      | inl live ↦ inr (inl (live, m'))
      | inr dead ↦
          let wild : (c == star) ≡ true = ground arith in
          inl (ground arith, rw wild (star_skip p t m'))
    ]
  ]

  opens :
      (Live p (closed_flag ∷ r) t → Live p (closed_flag ∷ close_from p closed_flag r) t)
      → Live (c ∷ p) (a ∷ b ∷ r) t
      → Live (c ∷ p) (a ∷ closed_flag ∷ close_from p closed_flag r) t
  opens ih (inl m) = inl m
  opens ih (inr (inl (h, m))) = inr (ih (inl (rw h refl, m)))
  opens ih (inr (inr m)) = inr (ih (inr m))

Live-close_from :
    (p : Str) (a : Bool) (r : List Bool) (t : Str)
    → Live p (a ∷ close_from p a r) t ↔ Live p (a ∷ r) t
unfolding close_from
Live-close_from p a [] t = (λ m. m, λ m. m)
Live-close_from [] a (b ∷ r) t = (λ m. m, λ m. m)
Live-close_from (c ∷ p) a (b ∷ r) t =
    let (closed, opened) = Live-close_from p (b || (a && (c == star))) r t in
    (closes c p a b r t closed, opens c p a b r t opened)

-- One byte moves the reachable positions on.
module _ (byte : ℕ) (t : Str) where
  consumed :
      (p : Str) (r : List Bool) (carry : Bool)
      → Live p (consume byte p r carry) t
      → ((carry ≡ true) × Matches p t) ⊎ Live p r (byte ∷ t)
  unfolding consume
  consumed [] r carry (inl m) = inl m
  consumed [] r carry (inr m) = elim m [ ]
  consumed (c ∷ p) [] carry m = elim m [ ]
  consumed (c ∷ p) (a ∷ r) carry (inl (h, m)) = elim (Bool-cases carry) [
    | inl set ↦ inl (set, m)
    | inr unset ↦
        let wild : (c == star) ≡ true = ground arith in
        inr (inl (ground arith, rw wild (star_take p byte t (rw wild at m))))
  ]
  consumed (c ∷ p) (a ∷ r) carry (inr m) =
      elim (consumed p r (a && (not (c == star) && (c == byte))) m) [
        | inr m' ↦ inr (inr m')
        | inl (h, m') ↦
            let plain : (c == star) ≡ false = ground arith in
            let same : c ≡ byte = ground arith in
            let first : Matches (c ∷ p) (c ∷ t) = literal-Matches c p t plain m' in
            inr (inl (ground arith, subst (λ (b : ℕ). Matches (c ∷ p) (b ∷ t)) same first))
      ]

  consumes :
      (p : Str) (r : List Bool) (carry : Bool)
      → Sized p r
      → IsClosed p r
      → ((carry ≡ true) × Matches p t) ⊎ Live p r (byte ∷ t)
      → Live p (consume byte p r carry) t
  unfolding consume
  consumes [] r carry sized closed (inl m) = inl m
  consumes [] [] carry sized closed (inr m) = elim m [ ]
  consumes [] (a ∷ []) carry sized closed (inr (inl (h, m))) = cc
  consumes [] (a ∷ []) carry sized closed (inr (inr m)) = elim m [ ]
  consumes [] (a ∷ b ∷ r) carry sized closed (inr m) = absurd (omega arith)
  consumes (c ∷ p) [] carry sized closed m = absurd (omega arith)
  consumes (c ∷ p) (a ∷ []) carry sized closed m = absurd (omega arith)
  consumes (c ∷ p) (a ∷ b ∷ r) carry sized closed (inl (h, m)) = inl (rw h refl, m)
  consumes (c ∷ p) (a ∷ b ∷ r) carry sized closed (inr (inr m)) =
      inr
        (consumes p (b ∷ r) (a && (not (c == star) && (c == byte))) (omega arith) closed.1 (inr m))
  consumes (c ∷ p) (a ∷ b ∷ r) carry sized closed (inr (inl (h, m))) =
      elim (Bool-cases (c == star)) [
        | inl wild ↦ elim (star_invert p (byte ∷ t) (rw wild at m)) [
          | inl m' ↦ inr (
              consumes p (b ∷ r) (a && (not (c == star) && (c == byte))) (omega arith) closed.1
                (inr (inl (closed.0 h wild, m'))))
          | inr (x, u, e, m') ↦
              let rest : u ≡ t = cc in
              inl (ground arith, rw wild (subst (Matches (star ∷ p)) rest m'))
        ]
        | inr plain ↦
            let (u, e, m') = literal_invert c p (byte ∷ t) plain m in
            let rest : u ≡ t = cc in
            let same : c ≡ byte = cc in
            inr (
              consumes p (b ∷ r) (a && (not (c == star) && (c == byte))) (omega arith) closed.1
                (inl (ground arith, subst (Matches p) rest m')))
      ]

pub Sized-close_stars : (p : Str) (r : List Bool) → Sized p r → Sized p (close_stars p r)
unfolding close_stars
Sized-close_stars p [] h = h
Sized-close_stars p (a ∷ r) h = omega (arith, length-close_from p a r)

pub IsClosed-close_stars : (p : Str) (r : List Bool) → IsClosed p (close_stars p r)
unfolding close_stars
IsClosed-close_stars p [] = tt
IsClosed-close_stars p (a ∷ r) = close_from-IsClosed p a r

pub Live-close_stars : (p : Str) (r : List Bool) (t : Str) → Live p (close_stars p r) t ↔ Live p r t
unfolding close_stars
Live-close_stars p [] t = (λ m. m, λ m. m)
Live-close_stars p (a ∷ r) t = Live-close_from p a r t

pub iff_trans : {A B C : Type 0} → A ↔ B → B ↔ C → A ↔ C
iff_trans f g = (λ a. g.0 (f.0 a), λ c. f.1 (g.1 c))

pub Live-consume :
    (byte : ℕ) (p : Str) (r : List Bool) (t : Str)
    → Sized p r
    → IsClosed p r
    → Live p (consume byte p r false) t ↔ Live p r (byte ∷ t)
Live-consume byte p r t sized closed = (
  λ m. elim (consumed byte t p r false m) [ inl (h, m') ↦ cc | inr m' ↦ m' ],
  λ m. consumes byte t p r false sized closed (inr m),
)
