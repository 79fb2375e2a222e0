-- ===== src/Identity/Glob/Prefix.antt =====
-- What `Glob::remainders_after` and `Glob::matches_prefix` say of the texts with a given prefix.
use velodex.Prelude.{
  suc, ◌≡◌, ◌↔◌, inl, inr, refl, ap, Bool, true, false, not, List, [], ◌∷◌, ◌++◌, map, Str, arith,
  length, is_empty, Any, ◌==◌, nat_eq, Bool-cases,
}
use velodex.Identity.Glob.{
  Glob, star, close_stars, consume, reachable_after, suffixes, first_position, remainders_after,
  matches_prefix,
}
use velodex.Identity.Glob.Meaning.{Matches, star_skip, literal-Matches}
use velodex.Identity.Glob.Positions.{
  behind, Live, Sized, IsClosed, length-consume, Sized-close_stars, IsClosed-close_stars,
  Live-close_stars, iff_trans, Live-consume,
}

-- After a prefix, the positions that are reachable are those that can match what follows it.
Live-reachable_after :
    (p : Str) (r : List Bool) (prefix t : Str)
    → Sized p r
    → IsClosed p r
    → Live p (reachable_after p r prefix) t ↔ Live p r (prefix ++ t)
unfolding reachable_after
Live-reachable_after p r [] t sized closed = (λ m. m, λ m. m)
Live-reachable_after p r (byte ∷ bytes) t sized closed =
    let moved = consume byte p r false in
    iff_trans
      (Live-reachable_after p (close_stars p moved) bytes t
        (Sized-close_stars p moved (length-consume byte p r false sized))
        (IsClosed-close_stars p moved))
      (iff_trans (Live-close_stars p moved (bytes ++ t))
        (Live-consume byte p r (bytes ++ t) sized closed))

Sized-reachable_after :
    (p : Str) (r : List Bool) (prefix : Str) → Sized p r → Sized p (reachable_after p r prefix)
unfolding reachable_after
Sized-reachable_after p r [] sized = sized
Sized-reachable_after p r (byte ∷ bytes) sized =
    let moved = consume byte p r false in
    Sized-reachable_after p (close_stars p moved) bytes
      (Sized-close_stars p moved (length-consume byte p r false sized))

suffixes-Live :
    (p : Str) (r : List Bool) (t : Str) → Any (λ rem. Matches rem t) (suffixes p r) → Live p r t
unfolding suffixes
suffixes-Live p [] t m = elim m [ ]
suffixes-Live [] (true ∷ r) t (inl m) = inl (refl, m)
suffixes-Live [] (true ∷ r) t (inr m) = elim m [ ]
suffixes-Live [] (false ∷ r) t m = elim m [ ]
suffixes-Live (c ∷ p) (true ∷ r) t (inl m) = inl (refl, m)
suffixes-Live (c ∷ p) (true ∷ r) t (inr m) = inr (suffixes-Live p r t m)
suffixes-Live (c ∷ p) (false ∷ r) t m = inr (suffixes-Live p r t m)

Live-suffixes :
    (p : Str) (r : List Bool) (t : Str)
    → Sized p r
    → Live p r t
    → Any (λ rem. Matches rem t) (suffixes p r)
unfolding suffixes
Live-suffixes p [] t sized m = elim m [ ]
Live-suffixes [] (a ∷ b ∷ r) t sized m = absurd (omega arith)
Live-suffixes [] (true ∷ []) t sized (inl (h, m)) = inl m
Live-suffixes [] (true ∷ []) t sized (inr m) = elim m [ ]
Live-suffixes [] (false ∷ []) t sized (inl (h, m)) = cc
Live-suffixes [] (false ∷ []) t sized (inr m) = elim m [ ]
Live-suffixes (c ∷ p) (true ∷ r) t sized (inl (h, m)) = inl m
Live-suffixes (c ∷ p) (true ∷ r) t sized (inr m) = inr (Live-suffixes p r t (omega arith) m)
Live-suffixes (c ∷ p) (false ∷ r) t sized (inl (h, m)) = cc
Live-suffixes (c ∷ p) (false ∷ r) t sized (inr m) = Live-suffixes p r t (omega arith) m

Sized-first_position : (p : Str) → Sized p (first_position p)
Sized-first_position p = ap suc (go p)
  where
    go : (q : Str) → length (map (λ _. false) q) ≡ length q
    go [] = refl
    go (c ∷ q) = ap suc (go q)

-- At first only the whole pattern is live.
Live-first_position : (p t : Str) → Live p (first_position p) t ↔ Matches p t
Live-first_position p t =
    (λ m. elim m [ inl (h, m') ↦ m' | inr m' ↦ absurd (dead (behind p) p m') ], λ m. inl (refl, m))
  where
    dead : (q r : Str) → ¬ Live q (map (λ _. false) r) t
    dead q [] m = m
    dead q (c ∷ r) (inl (h, m)) = cc
    dead q (c ∷ r) (inr m) = dead (behind q) r m

module _ (glob : Glob) (prefix : Str) where
  closed_first : List Bool
  closed_first = close_stars glob.pattern (first_position glob.pattern)

  closed_first-Sized : Sized glob.pattern closed_first
  unfolding closed_first
  closed_first-Sized =
      Sized-close_stars glob.pattern (first_position glob.pattern)
        (Sized-first_position glob.pattern)

  closed_first-Live : (t : Str) → Live glob.pattern closed_first t ↔ Matches glob.pattern t
  unfolding closed_first
  closed_first-Live t =
      iff_trans (Live-close_stars glob.pattern (first_position glob.pattern) t)
        (Live-first_position glob.pattern t)

  -- A text that begins with the prefix matches the pattern exactly if what follows the prefix matches
  -- one of the remainders that `Glob::remainders_after` returns.
  pub remainders_after_iff :
      (rest : Str)
      → Any (λ rem. Matches rem rest) (remainders_after glob prefix)
        ↔ Matches glob.pattern (prefix ++ rest)
  unfolding remainders_after closed_first
  remainders_after_iff rest =
      let p = glob.pattern in
      let positions = reachable_after p closed_first prefix in
      let reached =
        Live-reachable_after p closed_first prefix rest closed_first-Sized
          (IsClosed-close_stars p (first_position p)) in
      iff_trans
        (
          suffixes-Live p positions rest,
          Live-suffixes p positions rest
              (Sized-reachable_after p closed_first prefix closed_first-Sized),
        )
        (iff_trans reached (closed_first-Live (prefix ++ rest)))

-- A text that a pattern matches: its stars replaced by nothing.
some_match : (p : Str) → (t : Str) × Matches p t
some_match [] = ([], refl)
some_match (c ∷ p) =
    let (t, m) = some_match p in
    elim (Bool-cases (c == star)) [
      | inl wild ↦ (t, rw wild (star_skip p t m))
      | inr plain ↦ (c ∷ t, literal-Matches c p t plain m)
    ]

-- `Glob::matches_prefix` is true exactly if the pattern matches some text that begins with the prefix.
pub matches_prefix_iff :
    (glob : Glob) (prefix : Str)
    → (matches_prefix glob prefix ≡ true) ↔ ((rest : Str) × Matches glob.pattern (prefix ++ rest))
unfolding matches_prefix
matches_prefix_iff glob prefix = (
  found (remainders_after glob prefix) given,
  λ m. finds (remainders_after glob prefix) m.0 ((given m.0).1 m.1),
)
  where
    given :
        (rest : Str)
        → Any (λ rem. Matches rem rest) (remainders_after glob prefix)
          ↔ Matches glob.pattern (prefix ++ rest)
    given = remainders_after_iff glob prefix

    found :
        (rems : List Str)
        → ((rest : Str)
            → Any (λ rem. Matches rem rest) rems ↔ Matches glob.pattern (prefix ++ rest))
        → not (is_empty rems) ≡ true
        → (rest : Str) × Matches glob.pattern (prefix ++ rest)
    found [] iff h = cc
    found (rem ∷ rems) iff h = let (t, m) = some_match rem in (t, (iff t).0 (inl m))

    finds :
        (rems : List Str) (rest : Str)
        → Any (λ rem. Matches rem rest) rems
        → not (is_empty rems) ≡ true
    finds [] rest m = elim m [ ]
    finds (rem ∷ rems) rest m = refl
