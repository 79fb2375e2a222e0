-- ===== src/Storage/Table/Rows.antt =====
-- The rows of a table as a list without repeated keys, and sums over them.
use velodex.Prelude.{
  ℕ, ◌+◌, ◌≡◌, ◌≢◌, inl, inr, refl, sym, ap, ◌∙◌, false, Option, none, some, List, [], ◌∷◌, arith,
  PartialEq, ◌==◌, if◌then◌else◌, ◌<◌, ltb, Bool-cases, All, beq_false, beq_refl,
}

module _ {K V : Type 0} ⦃e : PartialEq K⦄ where
  abbrev pub lookup : K → List (K × V) → Option V
  lookup k [] = none
  lookup k ((j, v) ∷ rows) = let rest = lookup k rows in if j == k then some v else rest

  abbrev pub without : K → List (K × V) → List (K × V)
  without k [] = []
  without k ((j, v) ∷ rows) = let rest = without k rows in if j == k then rest else (j, v) ∷ rest

module _ {K V : Type 0} where
  abbrev pub IsDistinct : List (K × V) → Type 0
  IsDistinct [] = Unit
  IsDistinct ((k, v) ∷ rows) = All (λ (row : K × V). k ≢ row.0) rows × IsDistinct rows

  -- The sum of the rows' weights.
  unfoldable pub total_rows : (K → V → ℕ) → List (K × V) → ℕ
  total_rows w [] = 0
  total_rows w ((k, v) ∷ rows) = w k v + total_rows w rows

  abbrev pub weight_of : (K → V → ℕ) → K → Option V → ℕ
  weight_of w k none = 0
  weight_of w k (some v) = w k v

module _ {K V : Type 0} ⦃e : PartialEq K⦄ where
  pub lookup_absent :
      (k : K) (rows : List (K × V)) → All (λ (row : K × V). k ≢ row.0) rows → lookup k rows ≡ none
  lookup_absent k [] h = refl
  lookup_absent k ((j, v) ∷ rows) h = ground (arith, lookup_absent k rows h.1, (e.eq_iff j k).0)

  pub lookup-without :
      (k j : K) (rows : List (K × V))
      → lookup j (without k rows) ≡ (if k == j then none else lookup j rows)
  lookup-without k j [] = ground arith
  lookup-without k j ((i, v) ∷ rows) =
      ground (arith, lookup-without k j rows, e.eq_iff i k, e.eq_iff i j, e.eq_iff k j)

  pub without-IsDistinct :
      (k : K) (rows : List (K × V)) → IsDistinct rows → IsDistinct (without k rows)
  without-IsDistinct k [] d = tt
  without-IsDistinct k ((j, v) ∷ rows) (fresh, d) = elim (Bool-cases (j == k)) [
    | inl same ↦ rw same (without-IsDistinct k rows d)
    | inr other ↦ rw other (still_fresh j rows fresh, without-IsDistinct k rows d)
  ]
    where
      still_fresh :
          (j : K) (us : List (K × V))
          → All (λ (row : K × V). j ≢ row.0) us
          → All (λ (row : K × V). j ≢ row.0) (without k us)
      still_fresh j [] h = tt
      still_fresh j ((i, v) ∷ us) h = elim (Bool-cases (i == k)) [
        | inl same ↦ rw same (still_fresh j us h.1)
        | inr other ↦ rw other (h.0, still_fresh j us h.1)
      ]

  absent-without : (k : K) (rows : List (K × V)) → All (λ (row : K × V). k ≢ row.0) (without k rows)
  absent-without k [] = tt
  absent-without k ((j, v) ∷ rows) = elim (Bool-cases (j == k)) [
    | inl same ↦ rw same (absent-without k rows)
    | inr other ↦ rw other ((λ p. cc (other, (e.eq_iff j k).1 (sym p))), absent-without k rows)
  ]

  without_absent :
      (k : K) (rows : List (K × V)) → All (λ (row : K × V). k ≢ row.0) rows → without k rows ≡ rows
  without_absent k [] h = refl
  without_absent k ((j, v) ∷ rows) (ne, h) =
      let differ : (j == k) ≡ false = beq_false (λ p. ne (sym p)) in
      rw (differ, without_absent k rows h)

  -- The sum without a key.
  pub total_rows-without :
      (w : K → V → ℕ) (k : K) (rows : List (K × V))
      → IsDistinct rows
      → total_rows w (without k rows) + weight_of w k (lookup k rows) ≡ total_rows w rows
  unfolding total_rows
  total_rows-without w k [] d = refl
  total_rows-without w k ((j, v) ∷ rows) (fresh, d) = elim (Bool-cases (j == k)) [
    | inl same ↦
        let p : j ≡ k = (e.eq_iff j k).0 same in
        rw (same, without_absent k rows (rw p at fresh), ← p) (omega arith)
    | inr other ↦ rw other (omega (arith, total_rows-without w k rows d))
  ]

  -- The sum depends only on what the keys look up.
  pub total_rows_ext :
      (w : K → V → ℕ) (xs ys : List (K × V))
      → IsDistinct xs
      → IsDistinct ys
      → ((k : K) → lookup k xs ≡ lookup k ys)
      → total_rows w xs ≡ total_rows w ys
  unfolding total_rows
  total_rows_ext w [] [] dx dy h = refl
  total_rows_ext w [] ((k, v) ∷ ys) dx dy h =
      let here = h k in let same = beq_refl k in ground (arith, here, same)
  total_rows_ext w ((k, v) ∷ xs) ys (fresh, dx) dy h =
      let found : lookup k ys ≡ some v = sym (h k) ∙ here in
      omega (
        arith,
        total_rows_ext w xs (without k ys) dx (without-IsDistinct k ys dy) others,
        total_rows-without w k ys dy,
        ap (weight_of w k) found,
      )
    where
      here : lookup k ((k, v) ∷ xs) ≡ some v
      here = rw (beq_refl k) refl

      others : (j : K) → lookup j xs ≡ lookup j (without k ys)
      others j = elim (Bool-cases (k == j)) [
        | inl same ↦
            rw (lookup-without k j ys, same)
              (lookup_absent j xs (rw ((e.eq_iff k j).0 same) at fresh))
        | inr other ↦ rw (lookup-without k j ys, other) (ground (arith, h j))
      ]

  -- Writing a row first in the list.
  abbrev pub put : K → V → List (K × V) → List (K × V)
  put k v rows = (k, v) ∷ without k rows

  pub put-IsDistinct :
      (k : K) (v : V) (rows : List (K × V)) → IsDistinct rows → IsDistinct (put k v rows)
  put-IsDistinct k v rows d = (absent-without k rows, without-IsDistinct k rows d)

  pub lookup-put :
      (k j : K) (v : V) (rows : List (K × V))
      → lookup j (put k v rows) ≡ (if k == j then some v else lookup j rows)
  lookup-put k j v rows = ground (arith, lookup-without k j rows)

  pub total_rows-put :
      (w : K → V → ℕ) (k : K) (v : V) (rows : List (K × V))
      → IsDistinct rows
      → total_rows w (put k v rows) + weight_of w k (lookup k rows) ≡ total_rows w rows + w k v
  unfolding total_rows
  total_rows-put w k v rows d = omega (arith, total_rows-without w k rows d)

  -- A positive sum has a row with a positive weight.
  pub positive_row :
      (w : K → V → ℕ) (rows : List (K × V))
      → IsDistinct rows
      → 0 < total_rows w rows
      → (k : K) × (v : V) × (lookup k rows ≡ some v) × (0 < w k v)
  unfolding total_rows
  positive_row w [] d h = absurd (omega arith)
  positive_row w ((k, v) ∷ rows) (fresh, d) h = elim (Bool-cases (ltb 0 (w k v))) [
    | inl pos ↦ (k, v, rw (beq_refl k) refl, ground arith)
    | inr zero_weight ↦
        let (j, u, found, pos) = positive_row w rows d (ground arith) in
        (j, u, later j u found, pos)
  ]
    where
      later : (j : K) (u : V) → lookup j rows ≡ some u → lookup j ((k, v) ∷ rows) ≡ some u
      later j u found = elim (Bool-cases (k == j)) [
        | inl same ↦ cc (lookup_absent j rows (rw ((e.eq_iff k j).0 same) at fresh))
        | inr other ↦ rw other found
      ]
