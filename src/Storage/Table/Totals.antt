-- ===== src/Storage/Table/Totals.antt =====
-- Sums over the rows of a table, and how a write changes them.
use velodex.Prelude.{ℕ, ◌+◌, ◌≤◌, ◌<◌, ◌≡◌, refl, sym, ap, ◌∙◌, some, arith, PartialEq}
use velodex.Storage.Table.Rows.{
  lookup, total_rows, weight_of, without, without-IsDistinct, lookup-without, total_rows-without,
  total_rows_ext, put, put-IsDistinct, lookup-put, total_rows-put, positive_row,
}
use velodex.Storage.Table.Api.{TableApi}

module _ {K : Type 0} ⦃e : PartialEq K⦄ (api : TableApi K) {V : Type 0} (w : K → V → ℕ) where
  open api use {Table, fresh, get, insert, remove, iter}

  unfoldable pub total : Table V → ℕ
  total t = total_rows w (iter t)

  pub total-fresh : total fresh ≡ 0
  unfolding total total_rows
  total-fresh = rw (api.iter-fresh {V = V}) refl

  pub total-insert :
      (t : Table V) (k : K) (v : V)
      → total (insert t k v) + weight_of w k (get t k) ≡ total t + w k v
  unfolding total
  total-insert t k v = omega (
    arith,
    total_rows_ext w (iter (insert t k v)) (put k v (iter t)) (api.iter-IsDistinct (insert t k v))
        (put-IsDistinct k v (iter t) (api.iter-IsDistinct t)) same,
    total_rows-put w k v (iter t) (api.iter-IsDistinct t),
    ap (weight_of w k) (api.get-iter t k),
  )
    where
      same : (j : K) → lookup j (iter (insert t k v)) ≡ lookup j (put k v (iter t))
      same j =
          sym (api.get-iter (insert t k v) j)
          ∙ api.get-insert t k j v
          ∙ rw (api.get-iter t j) (sym (lookup-put k j v (iter t)))

  pub total-remove : (t : Table V) (k : K) → total (remove t k) + weight_of w k (get t k) ≡ total t
  unfolding total
  total-remove t k = omega (
    arith,
    total_rows_ext w (iter (remove t k)) (without k (iter t)) (api.iter-IsDistinct (remove t k))
        (without-IsDistinct k (iter t) (api.iter-IsDistinct t)) same,
    total_rows-without w k (iter t) (api.iter-IsDistinct t),
    ap (weight_of w k) (api.get-iter t k),
  )
    where
      same : (j : K) → lookup j (iter (remove t k)) ≡ lookup j (without k (iter t))
      same j =
          sym (api.get-iter (remove t k) j)
          ∙ api.get-remove t k j
          ∙ rw (api.get-iter t j) (sym (lookup-without k j (iter t)))

  pub total_positive :
      (t : Table V) → 0 < total t → (k : K) × (v : V) × (get t k ≡ some v) × (0 < w k v)
  unfolding total
  total_positive t h =
      let (k, v, found, pos) = positive_row w (iter t) (api.iter-IsDistinct t) h in
      (k, v, api.get-iter t k ∙ found, pos)

  -- A row's weight is part of the sum.
  pub weight-le-total : (t : Table V) (k : K) → weight_of w k (get t k) ≤ total t
  weight-le-total t k = omega (arith, total-remove t k)
