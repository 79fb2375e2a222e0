-- ===== src/Storage/Table/Api.antt =====
-- The operations of a table of the embedded database and what its documentation says of them.
use velodex.Prelude.{◌≡◌, Option, none, some, List, [], PartialEq, ◌==◌, if◌then◌else◌}
use velodex.Storage.Table.Rows.{lookup, IsDistinct}

pub record TableApi (K : Type 0) ⦃e : PartialEq K⦄ : Type 1 where
  pub Table : Type 0 → Type 0
  -- a table that nothing was written to
  pub fresh : {V : Type 0} → Table V
  pub get : {V : Type 0} → Table V → K → Option V
  pub insert : {V : Type 0} → Table V → K → V → Table V
  pub remove : {V : Type 0} → Table V → K → Table V
  pub iter : {V : Type 0} → Table V → List (K × V)
  pub iter-fresh : {V : Type 0} → iter (fresh {V = V}) ≡ []
  pub get-insert :
      {V : Type 0} (t : Table V) (k j : K) (v : V)
      → get (insert t k v) j ≡ (if k == j then some v else get t j)
  pub get-remove :
      {V : Type 0} (t : Table V) (k j : K) → get (remove t k) j ≡ (if k == j then none else get t j)
  pub get-iter : {V : Type 0} (t : Table V) (k : K) → get t k ≡ lookup k (iter t)
  pub iter-IsDistinct : {V : Type 0} (t : Table V) → IsDistinct (iter t)
