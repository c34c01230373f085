-- ===== src/Channels/InApp/Pushed.antt =====
-- What a stream of in-app notifications gets (inapp/worker.go).
use qeet_notify.Base.{◌&&◌, map, if◌then◌else◌, ◌≡◌, ◌≢◌, ◌⊎◌, some, [], ◌∷◌, ◌++◌, arith}
use qeet_notify.Workflows.Types.{ChannelJob}
use qeet_notify.Channels.InApp.{handle}
use qeet_notify.Platform.Tables.{Db, sent}
use qeet_notify.Platform.World.{World, ok, call, visible}
use qeet_notify.Base.Text.{str, str_eq}
use qeet_notify.Channels.Types.{inapp_out}

-- The tables with the job's notification set to sent by "inapp".
abbrev pub with_sent : {F : Type 0} → ChannelJob F → World F → Db F
with_sent job w = record w.db {
  notifications =
      map
        (λ n.
          if str_eq n.id job.notification_id && visible w n.tenant_id
          then record n { status = sent; provider = str "inapp" }
          else n)
        w.db.notifications;
}

-- Whichever calls fail, a delivery of an in-app job pushes once, the job's notification and tenant on
-- the channel "notify:inapp:", tenant, ":", subscriber, has set the notification to sent by "inapp",
-- and returns no error; or it pushes nothing and returns an error, so that the job is delivered again,
-- with the tables as they were or with that notification set to sent. Only rows that row-level
-- security shows are set, and nothing else of the tables changes.
pub handle-pushed :
    {F : Type 0} (job : ChannelJob F) (w : World F)
    → let (r, v) = handle (some job) w in
      ((r ≡ ok tt)
        × (v.outbox
            ≡ w.outbox
              ++ inapp_out
                  (str "notify:inapp:" ++ job.tenant_id ++ str ":" ++ job.subscriber_id)
                  job.notification_id
                  job.tenant_id
                ∷ [])
        × (v.db ≡ with_sent job w))
      ⊎ ((r ≢ ok tt) × (v.outbox ≡ w.outbox) × ((v.db ≡ w.db) ⊎ (v.db ≡ with_sent job w)))
unfolding handle call
handle-pushed job w = ground arith
