-- ===== src/Channels/Sms/Samples.antt =====
-- A worker for SMS and a job, for tests.
use qeet_notify.Base.{ℕ, none, some}
use qeet_notify.Base.Text.{Str, str, str_eq}
use qeet_notify.Workflows.Json.{end}
use qeet_notify.Workflows.Types.{ChannelJob}
use qeet_notify.Channels.Sms.{Outside, Worker, msg91}

-- Plain numbers, templates without variables, and expressions that match themselves.
abbrev pub outside : Outside ℕ Str
outside = record {
  decrypt = λ c k. none;
  hash_value = λ v. v;
  render = λ t payload. some t;
  decode_api_key = λ c. none;
  receipt = λ p m. str "id";
  compile = some;
  match_string = str_eq;
}

abbrev pub worker : Worker
worker = record { primary = some (msg91 (str "key")); fallback = none; enc_key = str "k" }

abbrev pub job : ChannelJob ℕ
job = record {
  tenant_id = str "t";
  notification_id = str "n";
  subscriber_id = str "u";
  channel = str "sms";
  template_id = str "m";
  payload = end;
}
