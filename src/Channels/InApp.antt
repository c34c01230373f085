-- ===== src/Channels/InApp.antt =====
-- domains/channels/inapp/worker.go: an in-app job is marked as sent and pushed to the subscriber's
-- stream by Redis. Statements run on the pool, in no tenant's scope.
pub mod Pushed
mod Tests
use qeet_notify.Base.{Option, none, some, [], ◌∷◌, ◌++◌}
use qeet_notify.Base.Text.{Str, str}
use qeet_notify.Workflows.Types.{ChannelJob}
use qeet_notify.Channels.Types.{Outgoing, inapp_out}
use qeet_notify.Channels.Notify.{update_notification}
use qeet_notify.Platform.Tables.{Notification, sent}
use qeet_notify.Platform.World.{
  World, M, decode_failed, redis_failed, raise, modify, call, pool_call, ◌>>=◌, ◌>>◌,
}

-- The channel to which a stream of this subscriber listens.
abbrev pub stream_channel : Str → Str → Str
stream_channel tenant_id subscriber_id =
    str "notify:inapp:" ++ tenant_id ++ str ":" ++ subscriber_id

abbrev pub pushed : {F : Type 0} → ChannelJob F → Outgoing
pushed job =
    inapp_out (stream_channel job.tenant_id job.subscriber_id) job.notification_id job.tenant_id

abbrev pub mark_sent : Notification → Notification
mark_sent n = record n { status = sent; provider = str "inapp" }

module _ {F : Type 0} where
  unfoldable pub handle : Option (ChannelJob F) → M F (Unit {0})
  handle none = raise decode_failed
  handle (some job) = do
    pool_call
    modify (update_notification job.notification_id mark_sent)
    call redis_failed
    modify (λ w. record w { outbox = w.outbox ++ pushed job ∷ [] })
