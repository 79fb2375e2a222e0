-- ===== src/Storage/Webhooks/Examples.antt =====
-- A delivery that is queued, tried, and delivered.
use velodex.Prelude.{◌≡◌, refl, none, some, Str, codes, arith}
use velodex.Prelude.Int.{pos}
use velodex.Storage.Example.{backend}
use velodex.Storage.Webhooks.{
  NewWebhookDelivery, WebhookDeliveryAttempt, WebhookTables, pending, due_key, delivery_id,
  enqueue_webhook_delivery, update_webhook_delivery,
}
use velodex.Storage.Webhooks.Queue.{Consistent}
use velodex.Storage.Webhooks.Operations.{
  no_deliveries, nothing_yet, then_enqueued, then_updated, Reachable-Consistent,
}

abbrev published : NewWebhookDelivery
published = record {
  index = codes "root";
  target = codes "ci";
  event = codes "publish";
  payload = codes "{}";
  created_at_unix = pos 5;
}

abbrev retry : WebhookDeliveryAttempt
retry = record {
  status = pending;
  updated_at_unix = pos 6;
  next_attempt_at_unix = some (pos 60);
  response_status = some 503;
  last_error = none;
}

abbrev first_id : Str
first_id = codes "wd_0000000000000001"

abbrev queued : WebhookTables backend.texts
queued = (enqueue_webhook_delivery backend.texts (no_deliveries backend.texts) published).0

abbrev tried : WebhookTables backend.texts
tried = (update_webhook_delivery backend.texts queued first_id retry).0

tried-due :
    backend.texts.get tried.due (codes "09223372036854775868/wd_0000000000000001") ≡ some first_id
unfolding enqueue_webhook_delivery update_webhook_delivery due_key delivery_id
tried-due = refl

Reachable-Consistent_example : Consistent backend.texts tried
Reachable-Consistent_example =
    Reachable-Consistent backend.texts
      (then_updated first_id retry (then_enqueued published nothing_yet (omega arith)))
