-- ===== src/Storage/Quota/Reached.antt =====
-- The tables that the operations of crates/peryx-storage/src/meta/quota.rs reach from empty ones.
use velodex.Prelude.{
  ℕ, ◌≡◌, refl, sym, ap, subst, ◌∙◌, Bool, Option, none, some, arith, Str, get_or, list_eq, nat_eq,
}
use velodex.Prelude.Results.{ok}
use velodex.Storage.Table.{total-fresh, lookup}
use velodex.Storage.Quota.Model.{
  NewQuotaReservation, QuotaReservationRecord, QuotaReservationState, reserved, committed,
  QuotaLimits, Fallible, no_usage, no_project, no_blob, no_value, QuotaValue, References,
}
use velodex.Storage.Quota.Charges.{side, Fits}
use velodex.Storage.Quota.Level.{counts, charges, Balanced}
use velodex.Storage.Quota.Admission.{ok_value}
use velodex.Storage.Quota.Store.{
  Backend, QuotaTables, reserve_quota, release, commit_reservation, repair_abandoned,
}
use velodex.Storage.Quota.Ledger.{Ledger, file_weight}
use velodex.Storage.Quota.Runs.{
  Succeeds, first_of, repaired_tables, reserve_quota-Ledger, release-Succeeds,
  commit_reservation-Succeeds, repair_abandoned-Succeeds,
}

module _ (b : Backend) where
  abbrev pub no_tables : QuotaTables b
  no_tables = record {
    usage = b.texts.fresh;
    project = b.texts.fresh;
    version = b.texts.fresh;
    blob = b.texts.fresh;
    reservation = b.texts.fresh;
    pending = b.numbers.fresh;
  }

  get-fresh : {V : Type 0} (key : Str) → b.texts.get (b.texts.fresh {V = V}) key ≡ none
  get-fresh {V} key = b.texts.get-iter b.texts.fresh key ∙ ap (lookup key) b.texts.iter-fresh

  nothing : (s : QuotaReservationState) → side s no_value ≡ 0
  nothing reserved = refl
  nothing committed = refl

  fresh-Balanced :
      {V : Type 0} (refs_of : V → References) (amount_of : V → ℕ) (missing : V)
      (belongs : Str → Str → Bool) (row_key : QuotaReservationRecord → Option Str)
      (counter : Str → QuotaValue)
      → refs_of missing ≡ no_value
      → ((p : Str) → counter p ≡ no_value)
      → Balanced b refs_of amount_of missing belongs row_key b.texts.fresh b.texts.fresh counter
  fresh-Balanced refs_of amount_of missing belongs row_key counter no_refs no_counter = record {
    references = λ key s.
        ap (side s) (row_refs key) ∙ nothing s ∙ sym (total-fresh b.texts (counts row_key key s));
    charged = λ p s.
        ap (side s) (no_counter p)
        ∙ nothing s
        ∙ sym (total-fresh b.texts (charges refs_of amount_of belongs p s));
    refs_fit = λ key. subst Fits (sym (row_refs key)) (omega arith);
    counter_fit = λ p. subst Fits (sym (no_counter p)) (omega arith);
  }
    where
      row_refs : (key : Str) → refs_of (get_or missing (b.texts.get b.texts.fresh key)) ≡ no_value
      row_refs key = ap (λ o. refs_of (get_or missing o)) (get-fresh key) ∙ no_refs

  pub no_tables-Ledger : Ledger b no_tables
  no_tables-Ledger = record {
    files = λ p s.
        ap (λ o. side s (get_or no_usage o).file_bytes) (get-fresh p)
        ∙ nothing s
        ∙ sym (total-fresh b.texts (file_weight b p s));
    files_fit = λ p.
        subst Fits (sym (ap (λ o. (get_or no_usage o).file_bytes) (get-fresh p))) (omega arith);
    sizes = λ id r present. let absent : none ≡ some r = sym (get-fresh id) ∙ present in cc;
    blobs =
        fresh-Balanced _ _ no_blob _ _ _ refl
          (λ p. ap (λ o. (get_or no_usage o).accounted_bytes) (get-fresh p));
    projects =
        fresh-Balanced _ _ no_project _ _ _ refl
          (λ p. ap (λ o. (get_or no_usage o).projects) (get-fresh p));
    versions =
        fresh-Balanced _ _ no_value _ _ _ refl
          (λ p. ap (λ o. (get_or no_project o).versions) (get-fresh p));
  }

  -- Tables after a run: reservations under identifiers that are not in use, commits, releases and
  -- repairs, of which each returned its tables. A failed one leaves the tables as they were.
  pub data Reached : QuotaTables b → Type 0 where
    empty_tables : Reached no_tables
    then_reserved :
        {t t' : QuotaTables b} {r : QuotaReservationRecord} (id : ℕ) (request : NewQuotaReservation)
        (limits : QuotaLimits)
        → Reached t
        → b.texts.get t.reservation (b.uuid_text id) ≡ none
        → reserve_quota b t id request limits ≡ ok (t', r)
        → Reached t'
    then_committed :
        {t t' : QuotaTables b} {changed : Bool} (id : ℕ)
        → Reached t
        → commit_reservation b t id ≡ ok (t', changed)
        → Reached t'
    then_released :
        {t t' : QuotaTables b} {changed : Bool} (id : ℕ)
        → Reached t
        → release b t id ≡ ok (t', changed)
        → Reached t'
    then_repaired :
        {t t' : QuotaTables b} {repaired : ℕ} {more : Bool} (limit : ℕ)
        → Reached t
        → repair_abandoned b t limit ≡ ok (t', repaired, more)
        → Reached t'

  kept :
      {A : Type 0} (tables : A → QuotaTables b) (result : Fallible A) (x : A)
      → Succeeds b tables result
      → result ≡ ok x
      → Ledger b (tables x)
  kept tables result x (y, e, ledger) e' =
      subst (λ z. Ledger b (tables z)) (ok_value y x (sym e ∙ e')) ledger

  -- In tables that are reached, every counter is the sum of what the stored reservations hold.
  pub Reached-Ledger : {t : QuotaTables b} → Reached t → Ledger b t
  Reached-Ledger empty_tables = no_tables-Ledger
  Reached-Ledger (then_reserved {t = t} {t' = t'} {r = r} id request limits reached unused e) =
      (reserve_quota-Ledger b t id request limits t' r (Reached-Ledger reached) unused e).0
  Reached-Ledger (then_committed {t = t} {t' = t'} {changed = changed} id reached e) =
      kept (first_of b) (commit_reservation b t id) (t', changed)
        (commit_reservation-Succeeds b t id (Reached-Ledger reached)) e
  Reached-Ledger (then_released {t = t} {t' = t'} {changed = changed} id reached e) =
      kept (first_of b) (release b t id) (t', changed)
        (release-Succeeds b t id (Reached-Ledger reached)) e
  Reached-Ledger
        (then_repaired {t = t} {t' = t'} {repaired = repaired} {more = more} limit reached e) =
      kept (repaired_tables b) (repair_abandoned b t limit) (t', repaired, more)
        (repair_abandoned-Succeeds b t limit (Reached-Ledger reached)) e

  -- On tables that are reached, no commit, release or repair fails, and each leads to tables whose
  -- counters are the sums of what the reservations hold.
  pub Reached-never_fails :
      {t : QuotaTables b}
      → Reached t
      → ((id : ℕ) → Succeeds b (first_of b) (commit_reservation b t id))
        × ((id : ℕ) → Succeeds b (first_of b) (release b t id))
        × ((limit : ℕ) → Succeeds b (repaired_tables b) (repair_abandoned b t limit))
  Reached-never_fails {t} reached =
      let ledger = Reached-Ledger reached in
      (
        λ id. commit_reservation-Succeeds b t id ledger,
        λ id. release-Succeeds b t id ledger,
        λ limit. repair_abandoned-Succeeds b t limit ledger,
      )
