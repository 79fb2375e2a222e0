-- ===== src/Storage/Webhooks.antt =====
-- The queue of webhook deliveries (crates/peryx-storage/src/meta/webhook.rs): what its operations
-- write, as functions on the tables of a transaction. Failures of the database and of the JSON codec
-- are not modelled.
pub mod Keys
pub mod Queue
pub mod Operations
mod Examples
use velodex.Prelude.{
  ℕ, zero, suc, ◌+◌, ◌-◌, ◌/◌, ◌%◌, ◌^◌, Bool, true, false, ◌&&◌, Option, none, some, List, [], ◌∷◌,
  ◌++◌, Str, codes, get_or, get_elem?, ltb, ◌==◌, list_eq, if◌then◌else◌, nat_eq,
}
use velodex.Prelude.Int.{ℤ, pos, negsuc}
use velodex.Storage.Table.{TableApi}

pub data WebhookDeliveryStatus : Type 0 where
  pending delivered failed : WebhookDeliveryStatus

abbrev pub is_pending : WebhookDeliveryStatus → Bool
is_pending pending = true
is_pending delivered = false
is_pending failed = false

pub record WebhookDeliveryRecord : Type 0 where
  pub id : Str
  pub index : Str
  pub target : Str
  pub event : Str
  pub payload : Str
  pub status : WebhookDeliveryStatus
  pub attempts : ℕ
  pub created_at_unix : ℤ
  pub updated_at_unix : ℤ
  pub next_attempt_at_unix : Option ℤ
  pub response_status : Option ℕ
  pub last_error : Option Str

pub record NewWebhookDelivery : Type 0 where
  pub index : Str
  pub target : Str
  pub event : Str
  pub payload : Str
  pub created_at_unix : ℤ

pub record WebhookDeliveryAttempt : Type 0 where
  pub status : WebhookDeliveryStatus
  pub updated_at_unix : ℤ
  pub next_attempt_at_unix : Option ℤ
  pub response_status : Option ℕ
  pub last_error : Option Str

abbrev pub digit : ℕ → ℕ
digit n = get_or 0 (get_elem? (codes "0123456789abcdef") n)

-- A number in the given count of decimal or hexadecimal digits, which a `u64` fits: 20 or 16.
pub decimal : ℕ → ℕ → Str
decimal zero n = []
decimal (suc width) n = decimal width (n / 10) ++ (digit (n % 10) ∷ [])

pub hexadecimal : ℕ → ℕ → Str
hexadecimal zero n = []
hexadecimal (suc width) n = hexadecimal width (n / 16) ++ (digit (n % 16) ∷ [])

-- The bits of an `i64`, with the sign bit inverted by the exclusive or
abbrev pub bits_of : ℤ → ℕ
bits_of (pos n) = n
bits_of (negsuc n) = 2 ^ 64 - (n + 1)

abbrev pub sortable : ℤ → ℕ
sortable timestamp =
    if ltb (bits_of timestamp) (2 ^ 63)
    then bits_of timestamp + 2 ^ 63
    else bits_of timestamp - 2 ^ 63

unfoldable pub due_key : ℤ → Str → Str
unfolding decimal
due_key timestamp id = decimal 20 (sortable timestamp) ++ (b'/' ∷ id)

unfoldable pub delivery_id : ℕ → Str
unfolding hexadecimal
delivery_id serial = codes "wd_" ++ hexadecimal 16 serial

module _ (texts : TableApi Str) where
  -- The serial of the deliveries in the table of serials, the deliveries, and the due ones.
  pub record WebhookTables : Type 0 where
    pub serial : ℕ
    pub delivery : texts.Table WebhookDeliveryRecord
    pub due : texts.Table Str

  abbrev pub new_delivery : Str → NewWebhookDelivery → WebhookDeliveryRecord
  new_delivery id new = record {
    id = id;
    index = new.index;
    target = new.target;
    event = new.event;
    payload = new.payload;
    status = pending;
    attempts = 0;
    created_at_unix = new.created_at_unix;
    updated_at_unix = new.created_at_unix;
    next_attempt_at_unix = some new.created_at_unix;
    response_status = none;
    last_error = none;
  }

  unfoldable pub enqueue_webhook_delivery : WebhookTables → NewWebhookDelivery → WebhookTables × Str
  unfolding delivery_id due_key
  enqueue_webhook_delivery t new =
      let next = (t.serial + 1) % 2 ^ 64 in
      let id = delivery_id next in
      (
        record {
          serial = next;
          delivery = texts.insert t.delivery id (new_delivery id new);
          due = texts.insert t.due (due_key new.created_at_unix id) id;
        },
        id,
      )

  abbrev pub attempted : WebhookDeliveryRecord → WebhookDeliveryAttempt → WebhookDeliveryRecord
  attempted row attempt = record row {
    status = attempt.status;
    attempts = (row.attempts + 1) % 2 ^ 16;
    updated_at_unix = attempt.updated_at_unix;
    next_attempt_at_unix = attempt.next_attempt_at_unix;
    response_status = attempt.response_status;
    last_error = attempt.last_error;
  }

  abbrev pub remove_due : texts.Table Str → Option ℤ → Str → texts.Table Str
  remove_due due none id = due
  remove_due due (some next) id = texts.remove due (due_key next id)

  abbrev pub insert_due : texts.Table Str → WebhookDeliveryStatus → Option ℤ → Str → texts.Table Str
  insert_due due status none id = due
  insert_due due status (some next) id =
      if is_pending status then texts.insert due (due_key next id) id else due

  -- The tables after the attempt, and the record, if there is one.
  unfoldable pub update_webhook_delivery :
      WebhookTables → Str → WebhookDeliveryAttempt → WebhookTables × Option WebhookDeliveryRecord
  update_webhook_delivery t id attempt = elim (texts.get t.delivery id) [
    | none ↦ (t, none)
    | some row ↦
        let row' = attempted row attempt in
        (
          record t {
            delivery = texts.insert t.delivery id row';
            due =
                insert_due (remove_due t.due row.next_attempt_at_unix row.id) row'.status
                  row'.next_attempt_at_unix id;
          },
          some row',
        )
  ]

  unfoldable pub get_webhook_delivery : WebhookTables → Str → Option WebhookDeliveryRecord
  get_webhook_delivery t id = texts.get t.delivery id
