-- ===== src/Api/Notifications.antt =====
-- platform/api/handler/notifications.go, and the feed of sse.go: the notifications of a tenant and of
-- a subscriber. encoding/json and strconv.Atoi are parameters; the timestamps of notifications are
-- left out.
use qeet_notify.Base.{
  ℕ, Bool, true, ◌&&◌, Option, List, [], map, if◌then◌else◌, select, take, drop, length,
}
use qeet_notify.Base.Int.{ℤ}
use qeet_notify.Base.Text.{Str, str, str_eq}
use qeet_notify.Api.Http.{Response, reply}
use qeet_notify.Api.Rows.{
  passes_filter, count_or_zero, latest_first, find_own, page_limit, page_offset, answer_row,
  when_fine,
}
use qeet_notify.Platform.Tables.{
  Notification, NotificationStatus, pending, queued, sent, delivered, failed, skipped, suppressed,
  DeliveryRow,
}
use qeet_notify.Platform.World.{
  World, M, Result, ok, err, pure, gets, try, modify, pool_call, tx_call, visible, ◌>>=◌,
}

pub record FeedItem : Type 0 where
  pub id : Str
  pub content : Str
  pub is_read : Bool

-- A delivery event without its id.
pub record HistoryItem : Type 0 where
  pub event_type : Str
  pub provider : Str
  pub occurred_at : ℤ

pub record Outside : Type 0 where
  pub page_json : List Notification → ℕ → Str
  pub detail_json : Notification → List HistoryItem → Str
  pub feed_json : List FeedItem → Str
  pub atoi : Str → Option ℤ

abbrev status_text : NotificationStatus → Str
status_text pending = str "pending"
status_text queued = str "queued"
status_text sent = str "sent"
status_text delivered = str "delivered"
status_text failed = str "failed"
status_text skipped = str "skipped"
status_text suppressed = str "suppressed"

abbrev pub notification_id : Notification → Str
notification_id n = n.id

abbrev pub notification_tenant : Notification → Str
notification_tenant n = n.tenant_id

-- The WHERE clause that the query parameters build.
abbrev pub is_wanted : Str → Str → Str → Str → Notification → Bool
is_wanted tenant_id status channel subscriber_id n =
    str_eq n.tenant_id tenant_id
    && passes_filter status (status_text n.status)
    && passes_filter channel n.channel
    && passes_filter subscriber_id n.subscriber_id

abbrev is_inapp : Str → Str → Notification → Bool
is_inapp tenant_id subscriber_id n =
    str_eq n.tenant_id tenant_id
    && str_eq n.subscriber_id subscriber_id
    && str_eq n.channel (str "inapp")

abbrev feed_item : Notification → FeedItem
feed_item n = record { id = n.id; content = n.content; is_read = n.is_read }

abbrev history_item : DeliveryRow → HistoryItem
history_item r = record {
  event_type = r.event_type;
  provider = r.provider;
  occurred_at = r.occurred_at;
}

-- delivery_events has no filter on the tenant here; rows stand in the order of occurred_at.
abbrev history_of : {F : Type 0} → World F → Str → List HistoryItem
history_of w id =
    map history_item
      (select (λ r. str_eq r.notification_id id && visible w r.tenant_id) w.db.delivery_events)

abbrev or_none : {A : Type 0} → Result (Unit {0}) → List A → List A
or_none (err e) rows = []
or_none (ok _) rows = rows

module _ (o : Outside) where
  abbrev page_reply : Result (Unit {0}) → List Notification → ℕ → Response
  page_reply (err e) rows total = reply 500 (str "query failed")
  page_reply (ok _) rows total = reply 200 (o.page_json rows total)

  abbrev feed_reply : Result (Unit {0}) → List FeedItem → Response
  feed_reply (err e) items = reply 500 (str "query failed")
  feed_reply (ok _) items = reply 200 (o.feed_json items)

module _ {F : Type 0} (o : Outside) where
  unfoldable pub list_notifications : Str → Str → Str → Str → Str → Str → M F Response
  list_notifications tenant_id limit offset status channel subscriber_id = do
    r ← try tx_call
    total ← gets (λ w.
        count_or_zero r
          (length (select (is_wanted tenant_id status channel subscriber_id) w.db.notifications)))
    s ← try tx_call
    rows ← gets (λ w. take (page_limit o.atoi 200 50 limit) (
        drop (page_offset o.atoi offset) (
          latest_first
            (select (is_wanted tenant_id status channel subscriber_id) w.db.notifications))))
    pure (page_reply o s rows total)

  -- A query for the events that fails leaves them out.
  abbrev detail : Str → Notification → M F Response
  detail id n = do
    r ← try tx_call
    events ← gets (λ w. or_none r (history_of w id))
    pure (reply 200 (o.detail_json n events))

  unfoldable pub get_notification : Str → Str → M F Response
  unfolding find_own
  get_notification tenant_id id = do
    r ← try tx_call
    found ← gets (λ w. find_own notification_id notification_tenant id tenant_id w.db.notifications)
    answer_row r found (reply 404 (str "not found")) (detail id)

  -- NotificationFeed runs on the pool.
  unfoldable pub notification_feed : Str → Str → M F Response
  notification_feed tenant_id subscriber_id = do
    r ← try pool_call
    items ← gets (λ w. map feed_item (
        take 50 (
          latest_first (
            select (λ n. is_inapp tenant_id subscriber_id n && visible w n.tenant_id)
              w.db.notifications))))
    pure (feed_reply o r items)

abbrev pub is_target : Str → Str → Notification → Bool
is_target tenant_id id n =
    str_eq n.id id && str_eq n.tenant_id tenant_id && str_eq n.channel (str "inapp")

abbrev pub read_done : Response
read_done = reply 200 (str "{\"status\":\"ok\"}")

module _ {F : Type 0} where
  abbrev set_read : Str → Str → World F → World F
  set_read tenant_id id w = record w {
    db = record w.db {
      notifications =
          map
            (λ n.
              if is_target tenant_id id n && visible w n.tenant_id
              then record n { is_read = true }
              else n)
            w.db.notifications;
    };
  }

  unfoldable pub mark_notification_read : Str → Str → M F Response
  mark_notification_read tenant_id id = do
    r ← try pool_call
    when_fine r (reply 500 (str "update failed")) (modify (set_read tenant_id id)) read_done
