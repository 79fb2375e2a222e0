-- ===== src/Identity/Glob/Matching.antt =====
-- The loop of `Glob::matches` against the meaning of a pattern.
use velodex.Prelude.{
  ℕ, zero, suc, ◌+◌, ◌*◌, ◌≤◌, ◌<◌, ◌≡◌, ◌↔◌, inl, inr, refl, sym, ap, ◌∙◌, Bool, true, false,
  Option, none, some, [], ◌∷◌, Str, arith, ltb, length, all, get_elem?, drop, ◌==◌, nat_eq,
  nat_beq_iff, ltb→lt, Bool-cases, Option-cases, drop-get_elem?, drop_beyond, get_elem?_within,
  get_elem?_beyond,
}
use velodex.Identity.Glob.{Glob, Walk, star, start, advance, walk, rounds, matches}
use velodex.Identity.Glob.Meaning.{Matches, drop-nil, literal_invert, star_skip, star_invert}
use velodex.Identity.Glob.Invariant.{
  Inv, start-Inv, overtakes, star-Inv, literal-Inv, missed_none, retry-Inv,
}

-- How far the loop has come; it grows in each round.
abbrev progress : Str → Walk → ℕ
progress p w = w.resume * (length p + 2) + w.at

-- What one round does: it goes on, keeping the invariant, or there is no match.
abbrev Advanced : Str → Str → Walk → Option Walk → Type 0
Advanced p s w none = ¬ Matches p s
Advanced p s w (some next) = Inv p s next × (progress p w < progress p next)

module _ (p s : Str) (w : Walk) (v : Inv p s w) (within : w.cursor < length s) where
  missed-Advanced :
      ¬ Matches (drop w.at p) (drop w.cursor s)
      → (o : Option ℕ) → w.star_at ≡ o
      → Advanced p s w (elim o [
        | some position ↦
            some (record w { at = suc position; cursor = suc w.resume; resume = suc w.resume })
        | none ↦ none
      ])
  missed-Advanced missed none e = missed_none p s w v within missed e
  missed-Advanced missed (some k) e =
      (retry-Inv p s w v within missed k e, omega (arith, v.in_pattern))

  no_pattern_left : get_elem? p w.at ≡ none → ¬ Matches (drop w.at p) (drop w.cursor s)
  no_pattern_left e m =
      let (b, there) = get_elem?_within s w.cursor within in
      let past : drop w.at p ≡ [] = drop_beyond p w.at (get_elem?_beyond p w.at e) in
      let m' : drop w.cursor s ≡ [] = rw past at m in cc (m', drop-get_elem? s w.cursor b there)

  bytes_differ :
      (c b : ℕ)
      → get_elem? p w.at ≡ some c
      → get_elem? s w.cursor ≡ some b
      → (c == star) ≡ false
      → (c == b) ≡ false
      → ¬ Matches (drop w.at p) (drop w.cursor s)
  bytes_differ c b here there plain differ m =
      let (rest, e, m') =
        literal_invert c (drop (suc w.at) p) (drop w.cursor s) plain
          (rw (drop-get_elem? p w.at c here) at m) in
      let same : c ≡ b = cc (e, drop-get_elem? s w.cursor b there) in ground (arith, same)

  advance-Advanced : Advanced p s w (advance p s w)
  unfolding advance
  advance-Advanced = elim (Option-cases (get_elem? p w.at)) [
    | inl e ↦ rw (e, advance) (missed-Advanced (no_pattern_left e) w.star_at refl)
    | inr (c, e) ↦ elim (Bool-cases (c == star)) [
      | inl wild ↦
          let is_star : c ≡ star = (nat_beq_iff c star).0 wild in
          rw (e, wild, advance) (star-Inv p s w v (rw e (ap some is_star)), grind (arith, v.behind))
      | inr plain ↦
          let (b, there) = get_elem?_within s w.cursor within in
          elim (Bool-cases (c == b)) [
            | inl same ↦
                let equal : c ≡ b = (nat_beq_iff c b).0 same in
                rw (e, plain, there, same, advance)
                  (literal-Inv p s w v c e (rw there (ap some (sym equal))) plain, omega arith)
            | inr differ ↦
                rw (e, plain, there, differ, advance)
                  (missed-Advanced (bytes_differ c b e there plain differ) w.star_at refl)
          ]
    ]
  ]

-- The rest of a pattern matches nothing more when it is stars only.
all_stars : (q : Str) → all (λ byte. byte == star) q ≡ true → Matches q []
all_stars [] h = refl
all_stars (c ∷ q) h =
    let wild : (c == star) ≡ true = ground arith in
    rw wild (star_skip q [] (all_stars q (ground arith)))

stars_only : (q : Str) → Matches q [] → all (λ byte. byte == star) q ≡ true
stars_only [] m = refl
stars_only (c ∷ q) m = elim (Bool-cases (c == star)) [
  | inl wild ↦ elim (star_invert q [] (rw wild at m)) [
    | inl m' ↦ rw wild (stars_only q m')
    | inr (b, t, e, m') ↦ cc
  ]
  | inr plain ↦ let (rest, e, m') = literal_invert c q [] plain m in cc
]

-- An answer of the loop, which is the right one.
abbrev Decides : Str → Str → Option Bool → Type 0
Decides p s r = (b : Bool) × (r ≡ some b) × ((b ≡ true) ↔ Matches p s)

ended-Decides :
    (p s : Str) (w : Walk)
    → Inv p s w
    → length s ≤ w.cursor
    → Decides p s (some (all (λ byte. byte == star) (drop w.at p)))
ended-Decides p s w v ended = (all (λ byte. byte == star) (drop w.at p), refl, (yields, needs))
  where
    nothing_left : drop w.cursor s ≡ []
    nothing_left = drop_beyond s w.cursor ended

    yields : all (λ byte. byte == star) (drop w.at p) ≡ true → Matches p s
    yields h = v.sound (rw nothing_left (all_stars (drop w.at p) h))

    needs : Matches p s → all (λ byte. byte == star) (drop w.at p) ≡ true
    needs m = elim (v.complete m) [
      | inl m1 ↦ stars_only (drop w.at p) (rw nothing_left at m1)
      | inr (k, e, m1) ↦
          let (d, m2) = overtakes p s w v k e m1 in
          stars_only (drop w.at p) (rw (nothing_left, drop-nil (suc d)) at m2)
    ]

walk-Decides :
    (p s : Str) (fuel : ℕ) (w : Walk)
    → Inv p s w
    → length s * (length p + 2) + length p < fuel + progress p w
    → Decides p s (walk p s fuel w)
unfolding walk
walk-Decides p s zero w v enough = absurd (grind (arith, v.in_pattern, v.in_text, v.behind))
walk-Decides p s (suc fuel) w v enough = elim (Bool-cases (ltb w.cursor (length s))) [
  | inr ended ↦ rw (ended, walk) (ended-Decides p s w v (ground arith))
  | inl within ↦
      rw (within, walk)
        (advanced (λ next v' further. walk-Decides p s fuel next v' (omega arith)) (advance p s w)
          (advance-Advanced p s w v (ltb→lt w.cursor (length s) within)))
]
  where
    advanced :
        ((next : Walk)
          → Inv p s next
          → progress p w < progress p next
          → Decides p s (walk p s fuel next))
        → (o : Option Walk) → Advanced p s w o
        → Decides p s (elim o [ some next ↦ walk p s fuel next | none ↦ some false ])
    advanced go none missed = (false, refl, (λ h. cc, λ m. absurd (missed m)))
    advanced go (some next) (v', further) = go next v' further

same_answer : {P : Type 0} (a b : Bool) → ((a ≡ true) ↔ P) → ((b ≡ true) ↔ P) → a ≡ b
same_answer true b h h' = sym (h'.1 (h.0 refl))
same_answer false true h h' = h.1 (h'.0 refl)
same_answer false false h h' = refl

start-Decides : (p s : Str) (fuel : ℕ) → rounds p s ≤ fuel → Decides p s (walk p s fuel start)
start-Decides p s fuel enough = walk-Decides p s fuel start (start-Inv p s) (omega arith)

pub matches_iff :
    (glob : Glob) (project : Str) → (matches glob project ≡ true) ↔ Matches glob.pattern project
unfolding matches
matches_iff glob project =
    let (b, e, iff) =
      start-Decides glob.pattern project (rounds glob.pattern project) (omega arith) in
    rw (e, matches) iff

-- `Glob::matches` decides what the pattern means. The loop ends within the rounds that the lengths of
-- the pattern and the text give it, however many more it may make, with the answer of `matches`, and
-- this answer is true exactly for the texts that are the pattern with each star replaced by some run of
-- bytes.
pub matches_iff_Matches :
    (glob : Glob) (project : Str)
    → ((fuel : ℕ)
        → rounds glob.pattern project ≤ fuel
        → walk glob.pattern project fuel start ≡ some (matches glob project))
      × ((matches glob project ≡ true) ↔ Matches glob.pattern project)
matches_iff_Matches glob project = (
  λ fuel enough.
      let (b, e, iff) = start-Decides glob.pattern project fuel enough in
      e ∙ ap some (same_answer b (matches glob project) iff (matches_iff glob project)),
  matches_iff glob project,
)
