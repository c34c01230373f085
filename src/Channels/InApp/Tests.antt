-- ===== src/Channels/InApp/Tests.antt =====
-- The in-app worker on one job.
use qeet_notify.Base.{false, ℕ, ◌≡◌, ◌≢◌, ◌⊎◌, some, [], ◌∷◌}
use qeet_notify.Base.Text.{str}
use qeet_notify.Workflows.Json.{end}
use qeet_notify.Workflows.Types.{ChannelJob}
use qeet_notify.Channels.InApp.{handle}
use qeet_notify.Channels.Types.{inapp_out}
use qeet_notify.Platform.Tables.{Notification, queued}
use qeet_notify.Channels.InApp.Pushed.{with_sent, handle-pushed}
use qeet_notify.Platform.Samples.{empty_db, calm_world}
use qeet_notify.Platform.World.{World, ok}

abbrev job : ChannelJob ℕ
job = record {
  tenant_id = str "t";
  notification_id = str "n";
  subscriber_id = str "u";
  channel = str "inapp";
  template_id = [];
  payload = end;
}

abbrev row : Notification
row = record {
  id = str "n";
  tenant_id = str "t";
  workflow_run_id = [];
  subscriber_id = str "u";
  channel = str "inapp";
  template_id = [];
  status = queued;
  provider = [];
  provider_message_id = [];
  content = str "{}";
  is_read = false;
}

abbrev world : World ℕ
world = calm_world (record empty_db { notifications = row ∷ [] })

handle-pushed_example :
    let (r, v) = handle (some job) world in
    ((r ≡ ok tt)
      × (v.outbox ≡ inapp_out (str "notify:inapp:t:u") (str "n") (str "t") ∷ [])
      × (v.db ≡ with_sent job world))
    ⊎ ((r ≢ ok tt) × (v.outbox ≡ []) × ((v.db ≡ world.db) ⊎ (v.db ≡ with_sent job world)))
handle-pushed_example = handle-pushed job world
