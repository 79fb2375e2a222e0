-- ===== src/Storage/Webhooks/Operations.antt =====
-- The operations of the queue on consistent tables (`enqueue_webhook_delivery` and
-- `update_webhook_delivery` of crates/peryx-storage/src/meta/webhook.rs).
use velodex.Prelude.{
  ℕ, ◌+◌, ◌%◌, ◌^◌, ◌<◌, ◌≡◌, ◌≢◌, ◌⊎◌, inl, inr, refl, sym, ap, subst, ◌∙◌, true, false, Option,
  none, some, Str, arith, ◌==◌, nat_eq, list_eq, list_beq_iff, Bool-cases, Option-cases,
}
use velodex.Prelude.Int.{ℤ}
use velodex.Storage.Table.{TableApi, lookup}
use velodex.Storage.Webhooks.{
  WebhookDeliveryRecord, WebhookDeliveryAttempt, NewWebhookDelivery, due_key, delivery_id,
  WebhookTables, new_delivery, attempted, remove_due, enqueue_webhook_delivery,
  update_webhook_delivery,
}
use velodex.Storage.Webhooks.Keys.{due_key-id, delivery_id-injective}
use velodex.Storage.Webhooks.Queue.{Consistent, written-Consistent}

module _ (texts : TableApi Str) where
  open texts use {Table, get, insert, remove}

  next_serial :
      (t : WebhookTables texts) → t.serial + 1 < 2 ^ 64 → (t.serial + 1) % 2 ^ 64 ≡ t.serial + 1
  next_serial t room = omega (arith, room)

  -- A new delivery is queued under an identifier that no other has, as long as the serial, of 64 bits,
  -- has not run out: the due rows stay those of the pending deliveries.
  pub enqueue_webhook_delivery-Consistent :
      (t : WebhookTables texts) (new : NewWebhookDelivery)
      → Consistent texts t
      → t.serial + 1 < 2 ^ 64
      → Consistent texts (enqueue_webhook_delivery texts t new).0
        × (get t.delivery (enqueue_webhook_delivery texts t new).1 ≡ none)
  unfolding enqueue_webhook_delivery
  enqueue_webhook_delivery-Consistent t new c room = (
    written-Consistent texts t c id (new_delivery texts id new) next t.due
        (refl, next, omega arith, refl) (omega (arith, is_next)) (omega (arith, is_next, room))
        clean (λ key j present other. present),
    unused,
  )
    where
      next : ℕ
      next = (t.serial + 1) % 2 ^ 64

      is_next : next ≡ t.serial + 1
      is_next = next_serial t room

      id : Str
      id = delivery_id next

      unused : get t.delivery id ≡ none
      unused = elim (Option-cases (get t.delivery id)) [
        | inl absent ↦ absent
        | inr (row, found) ↦
            let (own, n, le, e) = c.named id row found in
            let same =
              delivery_id-injective next n (omega (arith, is_next, room)) (omega (arith, le, room))
                e in
            absurd (omega (arith, same, is_next, le))
      ]

      clean :
          (key j : Str) → get t.due key ≡ some j → ((id == j) ≡ false) × (get t.due key ≡ some j)
      clean key j present = elim (Bool-cases (id == j)) [
        | inr other ↦ (other, present)
        | inl same ↦
            let (row, at, found, left, soon, is_key) = c.due_pending key j present in
            let gone : get t.delivery j ≡ none =
              subst (λ x. get t.delivery x ≡ none) ((list_beq_iff id j).0 same) unused in
            let both : none ≡ some row = sym gone ∙ found in absurd (cc)
      ]

  -- The result of an attempt is written, whatever it says: the due rows stay those of the pending
  -- deliveries, and nothing happens if there is no such delivery.
  pub update_webhook_delivery-Consistent :
      (t : WebhookTables texts) (id : Str) (attempt : WebhookDeliveryAttempt)
      → Consistent texts t
      → Consistent texts (update_webhook_delivery texts t id attempt).0
  unfolding update_webhook_delivery
  update_webhook_delivery-Consistent t id attempt c = elim (Option-cases (get t.delivery id)) [
    | inl absent ↦ rw (absent, update_webhook_delivery) c
    | inr (row, found) ↦
        let (own, n, le, e) = c.named id row found in
        rw (found, update_webhook_delivery)
          (written-Consistent texts t c id (attempted texts row attempt) t.serial
            (remove_due texts t.due row.next_attempt_at_unix row.id) (own, n, le, e) (omega arith)
            c.fits (clean row found own) (kept row own row.next_attempt_at_unix))
  ]
    where
      kept :
          (row : WebhookDeliveryRecord)
          → row.id ≡ id
          → (next : Option ℤ) (key j : Str) → get t.due key ≡ some j
          → (id == j) ≡ false
          → get (remove_due texts t.due next row.id) key ≡ some j
      kept row own none key j present other = present
      kept row own (some next) key j present other =
          elim (Bool-cases (due_key next row.id == key)) [
            | inr apart ↦ texts.get-remove t.due (due_key next row.id) key ∙ rw apart present
            | inl same ↦
                let (other_row, at, found, left, soon, is_key) = c.due_pending key j present in
                let e : due_key next row.id ≡ due_key at j =
                  (list_beq_iff (due_key next row.id) key).0 same ∙ is_key in
                let is_id : id ≡ j = sym own ∙ due_key-id next at row.id j e in
                let yes_same : (id == j) ≡ true = (list_beq_iff id j).1 is_id in absurd (cc)
          ]

      gone :
          (row : WebhookDeliveryRecord)
          → row.id ≡ id
          → (next : Option ℤ) → row.next_attempt_at_unix ≡ next
          → get t.delivery id ≡ some row
          → (key : Str) → get (remove_due texts t.due next row.id) key ≢ some id
      gone row own none e found key present =
          let (other_row, at, found', left, soon, is_key) = c.due_pending key id present in
          let both : some row ≡ some other_row = sym found ∙ found' in
          let same : row ≡ other_row = cc in
          let bad : none ≡ some at =
            sym e ∙ ap (λ (r : WebhookDeliveryRecord). r.next_attempt_at_unix) same ∙ soon in
          cc
      gone row own (some next) e found key present =
          elim (Bool-cases (due_key next row.id == key)) [
            | inl same ↦
                let s : get (remove t.due (due_key next row.id)) key ≡ none =
                  texts.get-remove t.due (due_key next row.id) key ∙ rw same refl in
                let both : none ≡ some id = sym s ∙ present in cc
            | inr other ↦
                let s : get (remove t.due (due_key next row.id)) key ≡ get t.due key =
                  texts.get-remove t.due (due_key next row.id) key ∙ rw other refl in
                let (other_row, at, found', left, soon, is_key) =
                  c.due_pending key id (sym s ∙ present) in
                let both : some row ≡ some other_row = sym found ∙ found' in
                let same : row ≡ other_row = cc in
                let times : some next ≡ some at =
                  sym e ∙ ap (λ (r : WebhookDeliveryRecord). r.next_attempt_at_unix) same ∙ soon in
                let same_time : next ≡ at = cc in
                let is_key' : due_key next row.id ≡ key =
                  ap (λ x. due_key x row.id) same_time ∙ ap (due_key at) own ∙ sym is_key in
                let hit : (due_key next row.id == key) ≡ true =
                  (list_beq_iff (due_key next row.id) key).1 is_key' in
                cc
          ]

      clean :
          (row : WebhookDeliveryRecord)
          → get t.delivery id ≡ some row
          → row.id ≡ id
          → (key j : Str)
          → get (remove_due texts t.due row.next_attempt_at_unix row.id) key ≡ some j
          → ((id == j) ≡ false) × (get t.due key ≡ some j)
      clean row found own key j present =
          (apart (Bool-cases (id == j)), before row.next_attempt_at_unix present)
        where
          apart : ((id == j) ≡ true) ⊎ ((id == j) ≡ false) → (id == j) ≡ false
          apart (inr other) = other
          apart (inl same) = absurd (
              gone row own row.next_attempt_at_unix refl found key
                (present ∙ ap some (sym ((list_beq_iff id j).0 same))))

          before :
              (next : Option ℤ)
              → get (remove_due texts t.due next row.id) key ≡ some j
              → get t.due key ≡ some j
          before none h = h
          before (some next) h = elim (Bool-cases (due_key next row.id == key)) [
            | inr other ↦
                let s : get (remove t.due (due_key next row.id)) key ≡ get t.due key =
                  texts.get-remove t.due (due_key next row.id) key ∙ rw other refl in
                sym s ∙ h
            | inl same ↦
                let s : get (remove t.due (due_key next row.id)) key ≡ none =
                  texts.get-remove t.due (due_key next row.id) key ∙ rw same refl in
                let both : none ≡ some j = sym s ∙ h in cc
          ]

  abbrev pub no_deliveries : WebhookTables texts
  no_deliveries = record { serial = 0; delivery = texts.fresh; due = texts.fresh }

  absent : {V : Type 0} (key : Str) → get (texts.fresh {V = V}) key ≡ none
  absent {V} key = texts.get-iter texts.fresh key ∙ ap (lookup key) texts.iter-fresh

  no_deliveries-Consistent : Consistent texts no_deliveries
  no_deliveries-Consistent = record {
    due_pending = λ key id present. let both : none ≡ some id = sym (absent key) ∙ present in cc;
    pending_due = λ id row next present left soon.
        let both : none ≡ some row = sym (absent id) ∙ present in cc;
    named = λ id row present. let both : none ≡ some row = sym (absent id) ∙ present in cc;
    fits = omega arith;
  }

  -- The tables that deliveries and attempts lead to; an identifier of an attempt may be of no delivery.
  pub data Reachable : WebhookTables texts → Type 0 where
    nothing_yet : Reachable no_deliveries
    then_enqueued :
        {t : WebhookTables texts} (new : NewWebhookDelivery)
        → Reachable t
        → t.serial + 1 < 2 ^ 64
        → Reachable (enqueue_webhook_delivery texts t new).0
    then_updated :
        {t : WebhookTables texts} (id : Str) (attempt : WebhookDeliveryAttempt)
        → Reachable t
        → Reachable (update_webhook_delivery texts t id attempt).0

  -- In the tables that deliveries, fewer than 2 ^ 64, and attempts with any result reach from empty ones,
  -- the due rows are exactly those of the pending deliveries with a next attempt, each under the key of
  -- that time, and each delivery is stored under its own identifier.
  pub Reachable-Consistent : {t : WebhookTables texts} → Reachable t → Consistent texts t
  Reachable-Consistent nothing_yet = no_deliveries-Consistent
  Reachable-Consistent (then_enqueued {t = t} new r room) =
      (enqueue_webhook_delivery-Consistent t new (Reachable-Consistent r) room).0
  Reachable-Consistent (then_updated {t = t} id attempt r) =
      update_webhook_delivery-Consistent t id attempt (Reachable-Consistent r)
