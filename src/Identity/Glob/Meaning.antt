-- ===== src/Identity/Glob/Meaning.antt =====
-- What a pattern means, and how a match moves along a text.
use velodex.Prelude.{
  ℕ, zero, suc, ◌≡◌, ◌⊎◌, inl, inr, refl, sym, ap, subst, ◌∙◌, false, [], ◌∷◌, ◌++◌, Str, length,
  drop, ◌==◌, nat_eq, if◌then◌else◌,
}
use velodex.Identity.Glob.{star}

-- What a pattern means: `*` stands for any run of bytes, every other byte for itself.
abbrev pub Matches : Str → Str → Type 0
Matches [] s = s ≡ []
Matches (c ∷ p) s =
    if c == star
    then ((run : Str) × (rest : Str) × (s ≡ run ++ rest) × Matches p rest)
    else ((rest : Str) × (s ≡ c ∷ rest) × Matches p rest)

module _ (p : Str) where
  -- A star can take nothing, or one byte more.
  pub star_skip : (s : Str) → Matches p s → Matches (star ∷ p) s
  star_skip s m = ([], s, refl, m)

  pub star_take : (b : ℕ) (s : Str) → Matches (star ∷ p) s → Matches (star ∷ p) (b ∷ s)
  star_take b s (run, rest, e, m) = (b ∷ run, rest, ap (◌∷◌ b) e, m)

  pub star_invert :
      (s : Str)
      → Matches (star ∷ p) s
      → Matches p s ⊎ ((b : ℕ) × (t : Str) × (s ≡ b ∷ t) × Matches (star ∷ p) t)
  star_invert s ([], rest, e, m) = inl (subst (Matches p) (sym e) m)
  star_invert s (b ∷ run, rest, e, m) = inr (b, run ++ rest, e, (run, rest, refl, m))

  star_after : (run s : Str) → Matches (star ∷ p) s → Matches (star ∷ p) (run ++ s)
  star_after [] s m = m
  star_after (b ∷ run) s m = star_take b (run ++ s) (star_after run s m)

-- How positions move along a text.
pub drop-nil : (d : ℕ) → drop {A = ℕ} d [] ≡ []
drop-nil zero = refl
drop-nil (suc d) = refl

pub drop_tail : (i : ℕ) (s : Str) → drop 1 (drop i s) ≡ drop (suc i) s
drop_tail zero s = refl
drop_tail (suc i) [] = refl
drop_tail (suc i) (x ∷ s) = drop_tail i s

pub drop_head : (d : ℕ) (s : Str) → drop d (drop 1 s) ≡ drop (suc d) s
drop_head d [] = drop-nil d
drop_head d (x ∷ s) = refl

drop_run : (s run rest : Str) → s ≡ run ++ rest → rest ≡ drop (length run) s
drop_run s [] rest e = sym e
drop_run [] (b ∷ run) rest e = cc
drop_run (x ∷ s) (b ∷ run) rest e = let tail : s ≡ run ++ rest = cc in drop_run s run rest tail

pub star_before : (q : Str) (d : ℕ) (s : Str) → Matches (star ∷ q) (drop d s) → Matches (star ∷ q) s
star_before q zero s m = m
star_before q (suc d) [] m = m
star_before q (suc d) (x ∷ s) m = star_take q x s (star_before q d s m)

pub literal-Matches :
    (c : ℕ) (q t : Str) → (c == star) ≡ false → Matches q t → Matches (c ∷ q) (c ∷ t)
literal-Matches c q t plain m = rw plain (t, refl, m)

pub literal_invert :
    (c : ℕ) (q s : Str)
    → (c == star) ≡ false
    → Matches (c ∷ q) s
    → (rest : Str) × (s ≡ c ∷ rest) × Matches q rest
literal_invert c q s plain m = rw plain at m

pub run_further :
    (q s : Str) (r : ℕ)
    → Matches (star ∷ q) (drop (suc r) s)
    → (d : ℕ) × Matches q (drop (suc d) (drop r s))
run_further q s r (run, rest, e, m) =
    (length run, subst (Matches q) (drop_run (drop (suc r) s) run rest e ∙ moved) m)
  where
    moved : drop (length run) (drop (suc r) s) ≡ drop (suc (length run)) (drop r s)
    moved = rw (← drop_tail r s) (drop_head (length run) (drop r s))

pub after_star :
    (q s : Str) (c : ℕ)
    → Matches (star ∷ q) (drop c s)
    → Matches q (drop c s) ⊎ Matches (star ∷ q) (drop (suc c) s)
after_star q s c m = elim (star_invert q (drop c s) m) [
  | inl none_taken ↦ inl none_taken
  | inr (b, t, e, more) ↦
      inr (subst (Matches (star ∷ q)) (sym (ap (drop 1) e) ∙ drop_tail c s) more)
]

pub literal_step :
    (c : ℕ) (q s : Str) (i d : ℕ)
    → (c == star) ≡ false
    → Matches (c ∷ q) (drop d (drop i s))
    → Matches q (drop d (drop (suc i) s))
literal_step c q s i d plain m =
    let (rest, e, m') = literal_invert c q (drop d (drop i s)) plain m in
    subst (Matches q) (sym (ap (drop 1) e) ∙ moved) m'
  where
    moved : drop 1 (drop d (drop i s)) ≡ drop d (drop (suc i) s)
    moved = drop_tail d (drop i s) ∙ sym (drop_head d (drop i s)) ∙ ap (drop d) (drop_tail i s)
