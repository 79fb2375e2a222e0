-- ===== src/Identity/Glob.antt =====
-- The project patterns of crates/peryx-identity/src/acl.rs (`Glob`).
pub mod Meaning
pub mod Invariant
pub mod Matching
pub mod Positions
pub mod Prefix
use velodex.Prelude.{
  ℕ, zero, suc, ◌+◌, ◌*◌, Bool, true, false, not, ◌&&◌, ◌||◌, map, is_empty, ◌&&◌, Option, none,
  some, List, [], ◌∷◌, Str, ltb, length, all, is_some_and, get_or, get_elem?, drop, ◌==◌, nat_eq,
  if◌then◌else◌,
}

pub record Glob : Type 0 where
  pub pattern : Str

-- The byte `*`.
abbrev pub star : ℕ
star = b'*'

-- The variables of the loop of `Glob::matches`. `star_at` is the source's `star`.
pub record Walk : Type 0 where
  pub at : ℕ
  pub cursor : ℕ
  pub star_at : Option ℕ
  pub resume : ℕ

abbrev pub start : Walk
start = record { at = 0; cursor = 0; star_at = none; resume = 0 }

-- One round of the loop; `none` is its `return false`.
pub advance : Str → Str → Walk → Option Walk
advance pattern project w =
    if is_some_and (λ byte. byte == star) (get_elem? pattern w.at)
    then some (record w { at = suc w.at; star_at = some w.at; resume = w.cursor })
    else if is_some_and (λ byte. is_some_and (λ c. byte == c) (get_elem? project w.cursor))
        (get_elem? pattern w.at)
    then some (record w { at = suc w.at; cursor = suc w.cursor })
    else elim w.star_at [
      | some position ↦
          some (record w { at = suc position; cursor = suc w.resume; resume = suc w.resume })
      | none ↦ none
    ]

-- The loop on fuel; `none` means that the fuel ran out.
pub walk : Str → Str → ℕ → Walk → Option Bool
walk pattern project zero w = none
walk pattern project (suc fuel) w = elim (ltb w.cursor (length project)) [
  | true ↦ elim (advance pattern project w) [
    | some next ↦ walk pattern project fuel next
    | none ↦ some false
  ]
  | false ↦ some (all (λ byte. byte == star) (drop w.at pattern))
]

-- Rounds that the loop can make on texts of these lengths.
abbrev pub rounds : Str → Str → ℕ
rounds pattern project = (length project + 2) * (length pattern + 2)

unfoldable pub matches : Glob → Str → Bool
unfolding walk advance
matches glob project = get_or false (walk glob.pattern project (rounds glob.pattern project) start)

-- `close_stars`: one sweep that makes the position behind each reachable star reachable. The sweep
-- over the positions walks the pattern and the flags together, with the flag before as an argument.
pub close_from : Str → Bool → List Bool → List Bool
close_from pattern active [] = []
close_from [] active (next ∷ rest) = next ∷ rest
close_from (c ∷ pattern) active (next ∷ rest) =
    let next' = next || (active && (c == star)) in next' ∷ close_from pattern next' rest

pub close_stars : Str → List Bool → List Bool
unfolding close_from
close_stars pattern [] = []
close_stars pattern (active ∷ rest) = active ∷ close_from pattern active rest

-- The flags `next` for one byte. `carry` says that the position before has set this one.
pub consume : ℕ → Str → List Bool → Bool → List Bool
consume byte [] reachable carry = carry ∷ []
consume byte (c ∷ pattern) [] carry = []
consume byte (c ∷ pattern) (active ∷ rest) carry =
    (carry || (active && (c == star)))
    ∷ consume byte pattern rest (active && (not (c == star) && (c == byte)))

pub reachable_after : Str → List Bool → Str → List Bool
reachable_after pattern reachable [] = reachable
reachable_after pattern reachable (byte ∷ bytes) =
    reachable_after pattern (close_stars pattern (consume byte pattern reachable false)) bytes

-- The suffixes of the pattern at the reachable positions.
pub suffixes : Str → List Bool → List Str
suffixes pattern [] = []
suffixes [] (active ∷ rest) = if active then [] ∷ [] else []
suffixes (c ∷ pattern) (active ∷ rest) =
    let others = suffixes pattern rest in if active then (c ∷ pattern) ∷ others else others

abbrev pub first_position : Str → List Bool
first_position pattern = true ∷ map (λ _. false) pattern

pub remainders_after : Glob → Str → List Str
unfolding close_stars consume reachable_after suffixes
remainders_after glob prefix =
    suffixes glob.pattern
      (reachable_after glob.pattern (close_stars glob.pattern (first_position glob.pattern)) prefix)

pub matches_prefix : Glob → Str → Bool
unfolding remainders_after
matches_prefix glob prefix = not (is_empty (remainders_after glob prefix))
