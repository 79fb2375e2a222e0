-- ===== src/Identity/Glob/Invariant.antt =====
-- The invariant of the loop of `Glob::matches`.
use velodex.Prelude.{
  ℕ, suc, ◌≤◌, ◌<◌, ◌≡◌, ◌⊎◌, inl, inr, refl, sym, subst, false, Option, none, some, ◌∷◌, Str,
  arith, length, get_elem?, drop, ◌==◌, nat_eq, drop-get_elem?, get_elem?_within, get_elem?_bound,
}
use velodex.Identity.Glob.{Walk, star, start}
use velodex.Identity.Glob.Meaning.{
  Matches, star_skip, star_take, star_before, literal-Matches, run_further, after_star,
  literal_step,
}

-- What the loop keeps: the places that it would resume at stand for all ways to match.
pub record Inv (p s : Str) (w : Walk) : Type 0 where
  pub in_pattern : w.at ≤ length p
  pub in_text : w.cursor ≤ length s
  pub behind : w.resume ≤ w.cursor
  pub sound : Matches (drop w.at p) (drop w.cursor s) → Matches p s
  sound_star : (k : ℕ) → w.star_at ≡ some k → Matches (drop k p) (drop w.resume s) → Matches p s
  star_byte : (k : ℕ) → w.star_at ≡ some k → get_elem? p k ≡ some star
  segment :
      (k d : ℕ)
      → w.star_at ≡ some k
      → Matches (drop (suc k) p) (drop d (drop w.resume s))
      → Matches (drop w.at p) (drop d (drop w.cursor s))
  pub complete :
      Matches p s
      → Matches (drop w.at p) (drop w.cursor s)
        ⊎ ((k : ℕ) × (w.star_at ≡ some k) × Matches (drop k p) (drop (suc w.resume) s))

pub start-Inv : (p s : Str) → Inv p s start
start-Inv p s = record {
  in_pattern = omega arith;
  in_text = omega arith;
  behind = omega arith;
  sound = λ m. m;
  sound_star = λ k e. cc;
  star_byte = λ k e. cc;
  segment = λ k d e. cc;
  complete = inl;
}

module _ (p s : Str) (w : Walk) (v : Inv p s w) where
  -- Where a star could go on further, the loop would come to a match too.
  pub overtakes :
      (k : ℕ)
      → w.star_at ≡ some k
      → Matches (drop k p) (drop (suc w.resume) s)
      → (d : ℕ) × Matches (drop w.at p) (drop (suc d) (drop w.cursor s))
  overtakes k e m =
      let k_star : drop k p ≡ star ∷ drop (suc k) p = drop-get_elem? p k star (v.star_byte k e) in
      let (d, m') = run_further (drop (suc k) p) s w.resume (rw k_star at m) in
      (d, v.segment k (suc d) e m')

  -- The pattern has a star: it is the one to come back to.
  module _ (here : get_elem? p w.at ≡ some star) where
    star_here : drop w.at p ≡ star ∷ drop (suc w.at) p
    star_here = drop-get_elem? p w.at star here

    Matches-here : Matches p s → Matches (star ∷ drop (suc w.at) p) (drop w.cursor s)
    Matches-here m = elim (v.complete m) [
      | inl m1 ↦ rw star_here at m1
      | inr (k, e, m1) ↦
          let (d, m2) = overtakes k e m1 in
          star_before (drop (suc w.at) p) (suc d) (drop w.cursor s) (rw star_here at m2)
    ]

    pub star-Inv : Inv p s (record w { at = suc w.at; star_at = some w.at; resume = w.cursor })
    star-Inv = record {
      in_pattern = get_elem?_bound p w.at star here;
      in_text = v.in_text;
      behind = omega arith;
      sound = λ m. v.sound (rw star_here (star_skip (drop (suc w.at) p) (drop w.cursor s) m));
      sound_star = λ k e m.
          v.sound (subst (λ (i : ℕ). Matches (drop i p) (drop w.cursor s)) (sym (same k e)) m);
      star_byte = λ k e. rw (← same k e) here;
      segment = λ k d e m.
          subst (λ (i : ℕ). Matches (drop (suc i) p) (drop d (drop w.cursor s))) (sym (same k e)) m;
      complete = λ m. elim (after_star (drop (suc w.at) p) s w.cursor (Matches-here m)) [
        | inl m1 ↦ inl m1
        | inr m1 ↦ inr (w.at, refl, rw star_here m1)
      ];
    }
      where
        same : (k : ℕ) → ◌≡◌ {A = Option ℕ} (some w.at) (some k) → w.at ≡ k
        same k e = cc

  -- The pattern and the text have the same byte.
  module _ (c : ℕ) (here : get_elem? p w.at ≡ some c) (there : get_elem? s w.cursor ≡ some c)
      (plain : (c == star) ≡ false) where
    byte_here : drop w.at p ≡ c ∷ drop (suc w.at) p
    byte_here = drop-get_elem? p w.at c here

    byte_there : drop w.cursor s ≡ c ∷ drop (suc w.cursor) s
    byte_there = drop-get_elem? s w.cursor c there

    pub literal-Inv : Inv p s (record w { at = suc w.at; cursor = suc w.cursor })
    literal-Inv = record {
      in_pattern = get_elem?_bound p w.at c here;
      in_text = get_elem?_bound s w.cursor c there;
      behind = omega (arith, v.behind);
      sound = λ m. v.sound (
          rw (byte_here, byte_there)
            (literal-Matches c (drop (suc w.at) p) (drop (suc w.cursor) s) plain m));
      sound_star = v.sound_star;
      star_byte = v.star_byte;
      segment = λ k d e m.
          literal_step c (drop (suc w.at) p) s w.cursor d plain
            (rw byte_here at (v.segment k d e m));
      complete = λ m. elim (v.complete m) [
        | inl m1 ↦ inl (literal_step c (drop (suc w.at) p) s w.cursor 0 plain (rw byte_here at m1))
        | inr m1 ↦ inr m1
      ];
    }

  -- They differ: the last star takes one byte more.
  module _ (within : w.cursor < length s) (missed : ¬ Matches (drop w.at p) (drop w.cursor s)) where
    pub missed_none : w.star_at ≡ none → ¬ Matches p s
    missed_none e m = elim (v.complete m) [ inl m1 ↦ missed m1 | inr (k, e', m1) ↦ cc ]

    module _ (k : ℕ) (e : w.star_at ≡ some k) where
      k_here : drop k p ≡ star ∷ drop (suc k) p
      k_here = drop-get_elem? p k star (v.star_byte k e)

      resume_take :
          Matches (drop k p) (drop (suc w.resume) s) → Matches (drop k p) (drop w.resume s)
      resume_take m =
          let (b, at_resume) = get_elem?_within s w.resume (omega (arith, v.behind)) in
          rw (k_here, drop-get_elem? s w.resume b at_resume)
            (star_take (drop (suc k) p) b (drop (suc w.resume) s) (rw k_here at m))

      resume_star :
          Matches (drop (suc k) p) (drop (suc w.resume) s) → Matches (drop k p) (drop w.resume s)
      resume_star m = resume_take (rw k_here (star_skip (drop (suc k) p) (drop (suc w.resume) s) m))

      pub retry-Inv :
          Inv p s (record w { at = suc k; cursor = suc w.resume; resume = suc w.resume })
      retry-Inv = record {
        in_pattern = get_elem?_bound p k star (v.star_byte k e);
        in_text = omega (arith, v.behind);
        behind = omega arith;
        sound = λ m. v.sound_star k e (resume_star m);
        sound_star = λ j q m. v.sound_star k e (
            resume_take
              (subst (λ (i : ℕ). Matches (drop i p) (drop (suc w.resume) s)) (same j q) m));
        star_byte = v.star_byte;
        segment = λ j d q m.
            subst (λ (i : ℕ). Matches (drop (suc i) p) (drop d (drop (suc w.resume) s))) (same j q)
              m;
        complete = λ m. elim (v.complete m) [
          | inl m1 ↦ absurd (missed m1)
          | inr (j, q, m1) ↦ retried j q m1
        ];
      }
        where
          same : (j : ℕ) → w.star_at ≡ some j → j ≡ k
          same j q = cc

          retried :
              (j : ℕ)
              → w.star_at ≡ some j
              → Matches (drop j p) (drop (suc w.resume) s)
              → Matches (drop (suc k) p) (drop (suc w.resume) s)
                ⊎ ((i : ℕ) × (w.star_at ≡ some i)
                    × Matches (drop i p) (drop (suc (suc w.resume)) s))
          retried j q m =
              elim (after_star (drop (suc k) p) s (suc w.resume) (
                rw k_here at
                  (subst (λ (i : ℕ). Matches (drop i p) (drop (suc w.resume) s)) (same j q) m))) [
                    | inl m1 ↦ inl m1
                    | inr m1 ↦ inr (k, e, rw k_here m1)
                  ]
