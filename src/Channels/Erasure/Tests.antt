-- ===== src/Channels/Erasure/Tests.antt =====
-- An erased subscriber at a concrete input.
use qeet_notify.Base.{ℕ, ◌≡◌, refl, true, none, some, [], ◌∷◌}
use qeet_notify.Base.Text.{Str, str, str_eq}
use qeet_notify.Workflows.Json.{end}
use qeet_notify.Workflows.Types.{ChannelJob}
use qeet_notify.Channels.Email
use qeet_notify.Channels.Sms
use qeet_notify.Channels.Erasure.{erase_subscriber-silences}
use qeet_notify.Subscribers.Preferences.{erase_subscriber}
use qeet_notify.Platform.Samples.{empty_db, calm_world, sample_subscriber}
use qeet_notify.Platform.World.{World, tx_call}

abbrev email : Email.Outside ℕ
email = record {
  decrypt = λ c k. none;
  hash_value = λ v. v;
  render = λ t payload. some t;
  decode_ses = λ c. none;
  decode_resend = λ c. none;
  loads_aws = λ r a s. true;
  receipt = λ p m. str "id";
}

abbrev sms : Sms.Outside ℕ Str
sms = record {
  decrypt = λ c k. none;
  hash_value = λ v. v;
  render = λ t payload. some t;
  decode_api_key = λ c. none;
  receipt = λ p m. str "id";
  compile = some;
  match_string = str_eq;
}

abbrev email_worker : Email.Worker
email_worker = record { primary = none; fallback = none; enc_key = str "k" }

abbrev sms_worker : Sms.Worker
sms_worker = record { primary = none; fallback = none; enc_key = str "k" }

abbrev job : ChannelJob ℕ
job = record {
  tenant_id = str "t";
  notification_id = str "n";
  subscriber_id = str "u";
  channel = str "email";
  template_id = str "m";
  payload = end;
}

abbrev before : World ℕ
before = calm_world (record empty_db { subscribers = sample_subscriber ∷ [] })

abbrev after : World ℕ
after = (erase_subscriber (str "t") (str "u") before).1

erase_subscriber-silences_example :
    ((Email.handle_job email email_worker job after).1.outbox ≡ [])
    × ((Sms.handle_job sms sms_worker job after).1.outbox ≡ [])
unfolding erase_subscriber tx_call
erase_subscriber-silences_example =
    erase_subscriber-silences email email_worker sms sms_worker job before after refl refl
