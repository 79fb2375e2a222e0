-- ===== src/Policy/Versions.antt =====
-- `retain_versions` of crates/peryx-policy/src/lib.rs: the version list of a filtered project. The set
-- `keep` is a list, in the order that the set is iterated in.
use velodex.Prelude.{
  ℕ, ◌+◌, max, ◌≡◌, inl, inr, refl, ap, true, false, not, List, [], ◌∷◌, ◌++◌, Str, arith, nat_eq,
  list_eq, contains, is_empty, ◌==◌, if◌then◌else◌, Bool-cases, list_beq_iff,
}

unfoldable pub retain : List Str → List Str → List Str
retain keep [] = []
retain keep (version ∷ versions) =
    let rest = retain keep versions in if contains keep version then version ∷ rest else rest

-- The loop that appends what is missing.
unfoldable pub push_missing : List Str → List Str → List Str
push_missing versions [] = versions
push_missing versions (version ∷ keep) =
    push_missing (if contains versions version then versions else versions ++ (version ∷ [])) keep

unfoldable pub retain_versions : List Str → List Str → List Str
unfolding retain push_missing
retain_versions versions keep =
    if is_empty keep then [] else push_missing (retain keep versions) keep

-- How often a version is listed.
abbrev pub occurrences : Str → List Str → ℕ
occurrences x [] = 0
occurrences x (version ∷ versions) = (if version == x then 1 else 0) + occurrences x versions

occurrences-append :
    (x : Str) (xs ys : List Str) → occurrences x (xs ++ ys) ≡ occurrences x xs + occurrences x ys
occurrences-append x [] ys = omega arith
occurrences-append x (y ∷ xs) ys = omega (arith, occurrences-append x xs ys)

occurrences-contains : (x : Str) (xs : List Str) → contains xs x ≡ not (occurrences x xs == 0)
occurrences-contains x [] = refl
occurrences-contains x (y ∷ xs) = ground (arith, occurrences-contains x xs)

occurrences-retain :
    (x : Str) (keep versions : List Str)
    → occurrences x (retain keep versions) ≡ (if contains keep x then occurrences x versions else 0)
unfolding retain
occurrences-retain x keep [] = ground arith
occurrences-retain x keep (v ∷ versions) =
    let ih = occurrences-retain x keep versions in
    elim (Bool-cases (v == x)) [
      | inl same ↦
          let e : contains keep v ≡ contains keep x =
            ap (contains keep) ((list_beq_iff v x).0 same) in
          ground (arith, ih)
      | inr other ↦ ground (arith, ih)
    ]

occurrences-push_missing :
    (x : Str) (versions keep : List Str)
    → occurrences x (push_missing versions keep)
      ≡ (if contains keep x then max 1 (occurrences x versions) else occurrences x versions)
unfolding push_missing
occurrences-push_missing x versions [] = refl
occurrences-push_missing x versions (v ∷ keep) = elim (Bool-cases (contains versions v)) [
  | inl present ↦
      let ih = occurrences-push_missing x versions keep in
      let listed : (v == x) ≡ true → max 1 (occurrences x versions) ≡ occurrences x versions = λ e.
        let same : v ≡ x = (list_beq_iff v x).0 e in
        let there : contains versions x ≡ true = rw (← same) present in
        ground (arith, occurrences-contains x versions, there) in
      rw present (ground (arith, ih, listed))
  | inr missing ↦
      let ih = occurrences-push_missing x (versions ++ (v ∷ [])) keep in
      let longer = occurrences-append x versions (v ∷ []) in
      let fresh : (v == x) ≡ true → occurrences x versions ≡ 0 = λ e.
        let same : v ≡ x = (list_beq_iff v x).0 e in
        let absent : contains versions x ≡ false = rw (← same) missing in
        ground (arith, occurrences-contains x versions, absent) in
      rw missing (ground (arith, ih, longer, fresh))
]

-- After `retain_versions` a project lists a version whose files are left as often as it did before, and
-- once if it did not, and it lists no version whose files are all gone.
pub occurrences-retain_versions :
    (versions keep : List Str) (x : Str)
    → occurrences x (retain_versions versions keep)
      ≡ (if contains keep x then max 1 (occurrences x versions) else 0)
unfolding retain_versions
occurrences-retain_versions versions [] x = refl
occurrences-retain_versions versions (k ∷ keep) x =
    let pushed = occurrences-push_missing x (retain (k ∷ keep) versions) (k ∷ keep) in
    let kept = occurrences-retain x (k ∷ keep) versions in ground (arith, pushed, kept)
