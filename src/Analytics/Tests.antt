-- ===== src/Analytics/Tests.antt =====
-- Delivery events and totals at concrete inputs.
use qeet_notify.Base.{
  ℕ, ◌≡◌, refl, true, false, none, some, List, [], ◌∷◌, any, if◌then◌else◌, arith,
}
use qeet_notify.Base.Text.{Str, str, str_eq, str_eq_sound}
use qeet_notify.Analytics.{DeliveryTotals, handle, query_totals}
use qeet_notify.Analytics.Totals.{query_totals-counts, Counted, handle-Counted}
use qeet_notify.Platform.Samples.{empty_db, calm_world}
use qeet_notify.Platform.Tables.{Notification, DeliveryRow, sent}
use qeet_notify.Platform.World.{World, ok, DeliveryEvent, call}

abbrev notification : Notification
notification = record {
  id = str "n";
  tenant_id = str "t";
  workflow_run_id = [];
  subscriber_id = str "u";
  channel = str "email";
  template_id = str "m";
  status = sent;
  provider = str "ses";
  provider_message_id = str "m1";
  content = str "{}";
  is_read = false;
}

abbrev world : World ℕ
world = calm_world (record empty_db { notifications = notification ∷ [] })

abbrev row : DeliveryRow
row = record {
  tenant_id = str "t";
  notification_id = str "n";
  event_type = str "sent";
  provider = str "ses";
  occurred_at = world.now;
}

abbrev counting : World ℕ
counting = calm_world (record empty_db { delivery_events = row ∷ row ∷ [] })

-- Each text once, the last of its kind.
distinct : List Str → List Str
distinct [] = []
distinct (t ∷ ts) = if any (λ u. str_eq u t) ts then distinct ts else t ∷ distinct ts

any_none :
    (t u : Str) (ts : List Str)
    → str_eq t u ≡ true
    → any (λ x. str_eq x t) ts ≡ any (λ x. str_eq x u) ts
any_none t u ts e = rw (str_eq_sound t u e) refl

distinct_lists :
    (t : Str) (ts : List Str) → any (λ u. str_eq u t) (distinct ts) ≡ any (λ u. str_eq u t) ts
unfolding distinct
distinct_lists t [] = refl
distinct_lists t (u ∷ ts) = ground (arith, distinct_lists t ts, any_none u t ts)

query_totals-counts_example :
    (d : DeliveryTotals) × (query_totals distinct (str "t") counting ≡ (ok d, counting))
    × (d.queued ≡ 0)
    × (d.sent ≡ 2)
    × (d.delivered ≡ 0)
    × (d.failed ≡ 0)
    × (d.opened ≡ 0)
unfolding str_eq
query_totals-counts_example =
    query_totals-counts distinct (str "t") counting distinct_lists
      (record { healthy = refl; answers = refl })

abbrev event : DeliveryEvent
event = record {
  notification_id = str "n";
  tenant_id = str "t";
  event_type = str "sent";
  provider = str "ses";
  error = none;
}

handle-Counted_example : Counted event world (handle (some event) world)
handle-Counted_example = handle-Counted event world

-- The event is counted under the channel of its notification.
handle-labels :
    (handle (some event) world).0
    ≡ ok (some (record { channel = str "email"; event_type = str "sent"; provider = str "ses" }))
unfolding handle str_eq call
handle-labels = refl
