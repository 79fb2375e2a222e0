-- ===== src/Storage/Webhooks/Queue.antt =====
-- When the table of due deliveries is consistent with the deliveries
-- (crates/peryx-storage/src/meta/webhook.rs), and the writing of one delivery.
use velodex.Prelude.{
  ℕ, ◌^◌, ◌≤◌, ◌<◌, ◌≡◌, inl, inr, refl, sym, ap, subst, ◌∙◌, Bool, true, false, Option, none, some,
  Str, arith, ◌==◌, nat_eq, list_eq, list_beq_iff, Bool-cases, beq_refl,
}
use velodex.Prelude.Int.{ℤ}
use velodex.Storage.Table.{TableApi}
use velodex.Storage.Webhooks.{
  WebhookDeliveryRecord, is_pending, due_key, delivery_id, WebhookTables, insert_due,
}
use velodex.Storage.Webhooks.Keys.{due_key-id}

module _ (texts : TableApi Str) where
  open texts use {Table, get, insert, remove}

  -- A due row is about a pending delivery, under the key of its next attempt.
  abbrev pub IsDue : Table WebhookDeliveryRecord → Str → Str → Type 0
  IsDue delivery key id =
      (row : WebhookDeliveryRecord) × (next : ℤ) × (get delivery id ≡ some row)
      × (is_pending row.status ≡ true)
      × (row.next_attempt_at_unix ≡ some next)
      × (key ≡ due_key next id)

  -- The due rows are those of the pending deliveries with a next attempt, each delivery is stored under
  -- its identifier, and the identifiers are those of the serials that were given out.
  pub record Consistent (t : WebhookTables texts) : Type 0 where
    pub due_pending : (key id : Str) → get t.due key ≡ some id → IsDue t.delivery key id
    pub pending_due :
        (id : Str) (row : WebhookDeliveryRecord) (next : ℤ)
        → get t.delivery id ≡ some row
        → is_pending row.status ≡ true
        → row.next_attempt_at_unix ≡ some next
        → get t.due (due_key next id) ≡ some id
    pub named :
        (id : Str) (row : WebhookDeliveryRecord)
        → get t.delivery id ≡ some row
        → (row.id ≡ id) × (n : ℕ) × (n ≤ t.serial) × (id ≡ delivery_id n)
    pub fits : t.serial < 2 ^ 64

  -- One delivery is written, after what was due of it is gone.
  module _ (t : WebhookTables texts) (c : Consistent t) (id : Str) (new : WebhookDeliveryRecord)
      (serial : ℕ) (due : Table Str)
      (is_named : (new.id ≡ id) × (n : ℕ) × (n ≤ serial) × (id ≡ delivery_id n))
      (grows : t.serial ≤ serial) (small : serial < 2 ^ 64)
      (clean : (key j : Str)
        → get due key ≡ some j
        → ((id == j) ≡ false) × (get t.due key ≡ some j))
      (kept : (key j : Str)
        → get t.due key ≡ some j
        → (id == j) ≡ false
        → get due key ≡ some j) where
    abbrev delivery : Table WebhookDeliveryRecord
    delivery = insert t.delivery id new

    abbrev written : WebhookTables texts
    written = record {
      serial = serial;
      delivery = delivery;
      due = insert_due texts due new.status new.next_attempt_at_unix id;
    }

    here : get delivery id ≡ some new
    here = texts.get-insert t.delivery id id new ∙ rw (beq_refl id) refl

    elsewhere : (j : Str) → (id == j) ≡ false → get delivery j ≡ get t.delivery j
    elsewhere j other = texts.get-insert t.delivery id j new ∙ rw other refl

    old_due : (key j : Str) → get due key ≡ some j → IsDue delivery key j
    old_due key j present =
        let (other, before) = clean key j present in
        let (row, next, found, is_left, attempt, at) = c.due_pending key j before in
        (row, next, elsewhere j other ∙ found, is_left, attempt, at)

    due_after :
        (next : Option ℤ) (left : Bool)
        → new.next_attempt_at_unix ≡ next
        → is_pending new.status ≡ left
        → (key j : Str) → get (insert_due texts due new.status next id) key ≡ some j
        → IsDue delivery key j
    due_after none left e l key j present = old_due key j present
    due_after (some next) false e l key j present = old_due key j (rw l at present)
    due_after (some next) true e l key j present =
        let h : get (insert due (due_key next id) id) key ≡ some j = rw l at present in
        let stored = texts.get-insert due (due_key next id) key id in
        elim (Bool-cases (due_key next id == key)) [
          | inl same ↦
              let s : get (insert due (due_key next id) id) key ≡ some id = stored ∙ rw same refl in
              let both : some id ≡ some j = sym s ∙ h in
              let own : id ≡ j = cc in
              subst (λ x. IsDue delivery key x) own
                (new, next, here, l, e, sym ((list_beq_iff (due_key next id) key).0 same))
          | inr other ↦
              let s : get (insert due (due_key next id) id) key ≡ get due key =
                stored ∙ rw other refl in
              old_due key j (sym s ∙ h)
        ]

    inserted :
        (next : Option ℤ) (at : ℤ)
        → next ≡ some at
        → is_pending new.status ≡ true
        → get (insert_due texts due new.status next id) (due_key at id) ≡ some id
    inserted none at e l = cc
    inserted (some next) at e l =
        let same : next ≡ at = cc in
        let own : get (insert due (due_key at id) id) (due_key at id) ≡ some id =
          texts.get-insert due (due_key at id) (due_key at id) id
          ∙ rw (beq_refl (due_key at id)) refl in
        rw l
          (subst (λ n. get (insert due (due_key n id) id) (due_key at id) ≡ some id) (sym same) own)

    not_overwritten :
        (next : Option ℤ) (at : ℤ) (j : Str)
        → (id == j) ≡ false
        → get due (due_key at j) ≡ some j
        → get (insert_due texts due new.status next id) (due_key at j) ≡ some j
    not_overwritten none at j other h = h
    not_overwritten (some next) at j other h = elim (Bool-cases (is_pending new.status)) [
      | inr done ↦ rw done h
      | inl left ↦ rw left (elim (Bool-cases (due_key next id == due_key at j)) [
        | inr apart ↦ texts.get-insert due (due_key next id) (due_key at j) id ∙ rw apart h
        | inl same ↦
            let own : id ≡ j =
              due_key-id next at id j ((list_beq_iff (due_key next id) (due_key at j)).0 same) in
            let yes_same : (id == j) ≡ true = (list_beq_iff id j).1 own in absurd (cc)
      ])
    ]

    pending_after :
        (next : Option ℤ) (left : Bool)
        → new.next_attempt_at_unix ≡ next
        → is_pending new.status ≡ left
        → (j : Str) (row : WebhookDeliveryRecord) (at : ℤ) → get delivery j ≡ some row
        → is_pending row.status ≡ true
        → row.next_attempt_at_unix ≡ some at
        → get (insert_due texts due new.status next id) (due_key at j) ≡ some j
    pending_after next left e l j row at found is_left attempt = elim (Bool-cases (id == j)) [
      | inl same ↦
          let e' : id ≡ j = (list_beq_iff id j).0 same in
          let stored : some new ≡ some row =
            sym (subst (λ x. get delivery x ≡ some new) e' here) ∙ found in
          let is_new : new ≡ row = cc in
          let soon : next ≡ some at =
            sym e ∙ ap (λ (r : WebhookDeliveryRecord). r.next_attempt_at_unix) is_new ∙ attempt in
          let still : is_pending new.status ≡ true =
            ap (λ (r : WebhookDeliveryRecord). is_pending r.status) is_new ∙ is_left in
          subst (λ x. get (insert_due texts due new.status next id) (due_key at x) ≡ some x) e'
            (inserted next at soon still)
      | inr other ↦
          let before = c.pending_due j row at (sym (elsewhere j other) ∙ found) is_left attempt in
          not_overwritten next at j other (kept (due_key at j) j before other)
    ]

    named_after :
        (j : Str) (row : WebhookDeliveryRecord)
        → get delivery j ≡ some row
        → (row.id ≡ j) × (n : ℕ) × (n ≤ serial) × (j ≡ delivery_id n)
    named_after j row found = elim (Bool-cases (id == j)) [
      | inl same ↦
          let e : id ≡ j = (list_beq_iff id j).0 same in
          let stored : some new ≡ some row =
            sym (subst (λ x. get delivery x ≡ some new) e here) ∙ found in
          let is_new : new ≡ row = cc in
          subst (λ x. (row.id ≡ x) × (n : ℕ) × (n ≤ serial) × (x ≡ delivery_id n)) e
            (subst
              (λ (r : WebhookDeliveryRecord).
                (r.id ≡ id) × (n : ℕ) × (n ≤ serial) × (id ≡ delivery_id n))
              is_new is_named)
      | inr other ↦
          let (own, n, le, e) = c.named j row (sym (elsewhere j other) ∙ found) in
          (own, n, omega (arith, le, grows), e)
    ]

    pub written-Consistent : Consistent written
    written-Consistent = record {
      due_pending = due_after new.next_attempt_at_unix (is_pending new.status) refl refl;
      pending_due = pending_after new.next_attempt_at_unix (is_pending new.status) refl refl;
      named = named_after;
      fits = small;
    }
