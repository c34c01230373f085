-- ===== src/Channels/Email/Tests.antt =====
-- The email worker on one job, and its theorems at concrete inputs.
use qeet_notify.Base.{ℕ, ◌≡◌, refl, true, false, none, some, [], ◌∷◌}
use qeet_notify.Base.Text.{str, str_eq}
use qeet_notify.Workflows.Json.{end}
use qeet_notify.Workflows.Types.{ChannelJob}
use qeet_notify.Channels.Types.{email_out}
use qeet_notify.Channels.Rendering.{Rendered, find_template}
use qeet_notify.Channels.Routing.{active_records}
use qeet_notify.Subscribers.Preferences.{listed}
use qeet_notify.Platform.Samples.{empty_db, calm_world, sample_subscriber}
use qeet_notify.Platform.World.{World, ok}
use qeet_notify.Channels.Email.{Outside, Worker, resend, find_email, handle_job}
use qeet_notify.Channels.Outbox.{One}
use qeet_notify.Channels.Email.Once.{handle_job-once}
use qeet_notify.Channels.Email.Sent.{delivered_to, handle_job-sent}

-- Plain addresses, templates without variables.
abbrev outside : Outside ℕ
outside = record {
  decrypt = λ c k. none;
  hash_value = λ v. v;
  render = λ t payload. some t;
  decode_ses = λ c. none;
  decode_resend = λ c. none;
  loads_aws = λ r a s. true;
  receipt = λ p m. str "id";
}

abbrev worker : Worker
worker = record { primary = some (resend (str "key")); fallback = none; enc_key = str "k" }

abbrev job : ChannelJob ℕ
job = record {
  tenant_id = str "t";
  notification_id = str "n";
  subscriber_id = str "u";
  channel = str "email";
  template_id = str "m";
  payload = end;
}

abbrev letter : Rendered
letter = record { subject = str "Hi"; body = str "Hello" }

abbrev ready : World ℕ
ready = calm_world (record empty_db {
  subscribers = sample_subscriber ∷ [];
  templates =
      record {
        id = str "m";
        tenant_id = str "t";
        name = [];
        channel = str "email";
        locale = str "en";
        metadata = str "{}";
        subject = str "Hi";
        body = str "Hello";
        is_active = true;
      }
      ∷ [];
})

handle_job-once_example :
    One email_out
      (λ m.
        (find_email outside worker (str "u") (str "t") ready.db.subscribers ≡ some m.to)
        × (listed (λ v. v) (str "t") (str "email") m.to [] ≡ false))
      []
      (handle_job outside worker job ready).1.outbox
handle_job-once_example = handle_job-once outside worker job ready

handle_job-sent_example :
    handle_job outside worker job ready
    ≡ (ok tt, delivered_to outside worker job (resend (str "key")) (str "a@b") letter ready)
unfolding find_email find_template active_records str_eq
handle_job-sent_example =
    handle_job-sent outside worker job 97 (str "@b") ready
      (record { healthy = refl; answers = refl }) refl refl refl refl
