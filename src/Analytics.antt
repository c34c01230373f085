-- ===== src/Analytics.antt =====
-- domains/analytics (aggregator.go, query.go): what becomes of delivery events, and the totals of a
-- tenant. JSON is decoded outside, and a count of a Prometheus metric is a value of the result.
pub mod Totals
mod Tests
use qeet_notify.Base.{
  ℕ, suc, Bool, true, false, ◌&&◌, Option, none, some, List, [], ◌∷◌, ◌++◌, map, if◌then◌else◌, any,
  select, length,
}
use qeet_notify.Base.Int.{ℤ}
use qeet_notify.Base.Text.{Str, str, str_eq, is_empty}
use qeet_notify.Api.Http.{Response, reply}
use qeet_notify.Platform.Tables.{Notification, DeliveryRow}
use qeet_notify.Platform.World.{
  World, M, Result, ok, err, db_failed, DeliveryEvent, pure, gets, try, pool_call, tx_call, visible,
  ◌>>=◌, ◌>>◌,
}

-- The labels of deliveryTotal.
pub record Labels : Type 0 where
  pub channel : Str
  pub event_type : Str
  pub provider : Str

pub record DeliveryTotals : Type 0 where
  pub queued : ℕ
  pub sent : ℕ
  pub delivered : ℕ
  pub failed : ℕ
  pub opened : ℕ

abbrev or_unknown : Str → Str
or_unknown s = if is_empty s then str "unknown" else s

abbrev channel_label : Result (Unit {0}) → Str → Str
channel_label (err e) s = str "unknown"
channel_label (ok _) s = or_unknown s

abbrev pub delivery_row : DeliveryEvent → ℤ → DeliveryRow
delivery_row ev now = record {
  tenant_id = ev.tenant_id;
  notification_id = ev.notification_id;
  event_type = ev.event_type;
  provider = ev.provider;
  occurred_at = now;
}

module _ {F : Type 0} where
  -- SELECT channel FROM notifications WHERE id = ….
  unfoldable pub find_channel : World F → Str → List Notification → Str
  find_channel w id [] = []
  find_channel w id (n ∷ ns) =
      if str_eq n.id id && visible w n.tenant_id then n.channel else find_channel w id ns

  -- The row's notification exists, and row-level security lets it in.
  abbrev is_insertable : DeliveryEvent → World F → Bool
  is_insertable ev w =
      any (λ (n : Notification). str_eq n.id ev.notification_id) w.db.notifications
      && visible w ev.tenant_id

  -- INSERT INTO delivery_events.
  abbrev inserted : DeliveryEvent → Result (Unit {0}) → M F (Unit {0})
  inserted ev (err e) w = (err e, w)
  inserted ev (ok _) w =
      if is_insertable ev w
      then (
        ok tt,
        record w {
          db = record w.db { delivery_events = w.db.delivery_events ++ delivery_row ev w.now ∷ [] };
        },
      )
      else (err db_failed, w)

  -- A message with the labels that it counts, none where it does not decode.
  unfoldable pub handle : Option DeliveryEvent → M F (Option Labels)
  unfolding find_channel
  handle none = pure none
  handle (some ev) = do
    r ← try pool_call
    channel ← gets (λ w. channel_label r (find_channel w ev.notification_id w.db.notifications))
    s ← try pool_call
    inserted ev s
    pure (some (record { channel = channel; event_type = ev.event_type; provider = ev.provider }))

-- COUNT(*) of the rows of each event type, in the order in which GROUP BY gives the types; `types`
-- lists those that stand in the rows, once each.
abbrev pub of_type : Str → DeliveryRow → Bool
of_type t r = str_eq r.event_type t

abbrev pub grouped : (List Str → List Str) → List DeliveryRow → List (Str × ℕ)
grouped types rows =
    map (λ t. (t, length (select (of_type t) rows)))
      (types (map (λ (r : DeliveryRow). r.event_type) rows))

-- The switch of the loop.
abbrev pub set_total : Str → ℕ → DeliveryTotals → DeliveryTotals
set_total t n d =
    if str_eq t (str "queued")
    then record d { queued = n }
    else if str_eq t (str "sent")
    then record d { sent = n }
    else if str_eq t (str "delivered")
    then record d { delivered = n }
    else if str_eq t (str "failed")
    then record d { failed = n }
    else if str_eq t (str "opened")
    then record d { opened = n }
    else d

unfoldable pub read_totals : List (Str × ℕ) → DeliveryTotals → DeliveryTotals
read_totals [] d = d
read_totals ((t, n) ∷ gs) d = read_totals gs (set_total t n d)

abbrev pub no_totals : DeliveryTotals
no_totals = record { queued = 0; sent = 0; delivered = 0; failed = 0; opened = 0 }

abbrev pub rows_of : Str → List DeliveryRow → List DeliveryRow
rows_of tenant_id = select (λ r. str_eq r.tenant_id tenant_id)

unfoldable pub query_totals : {F : Type 0} → (List Str → List Str) → Str → M F DeliveryTotals
unfolding read_totals
query_totals types tenant_id = do
  tx_call
  gets (λ w. read_totals (grouped types (rows_of tenant_id w.db.delivery_events)) no_totals)

abbrev totals_reply : (DeliveryTotals → Str) → Result DeliveryTotals → Response
totals_reply encode (err e) = reply 500 (str "query failed")
totals_reply encode (ok d) = reply 200 (encode d)

-- The handler of platform/api/handler/analytics.go, with the encoder of its answer.
unfoldable pub delivery_analytics :
    {F : Type 0} → (DeliveryTotals → Str) → (List Str → List Str) → Str → M F Response
delivery_analytics encode types tenant_id = do
  r ← try (query_totals types tenant_id)
  pure (totals_reply encode r)
