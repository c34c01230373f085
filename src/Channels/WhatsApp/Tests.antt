-- ===== src/Channels/WhatsApp/Tests.antt =====
-- The WhatsApp worker on one job.
use qeet_notify.Base.{ℕ, none, some, [], ◌∷◌}
use qeet_notify.Base.Text.{str}
use qeet_notify.Workflows.Json.{end}
use qeet_notify.Workflows.Types.{ChannelJob}
use qeet_notify.Channels.WhatsApp.{Outside, Worker, meta, category_marketing}
use qeet_notify.Platform.Samples.{empty_db, calm_world, sample_subscriber}
use qeet_notify.Platform.Tables.{DltRow}
use qeet_notify.Platform.World.{World}

abbrev outside : Outside ℕ
outside = record {
  decrypt = λ c k. none;
  hash_value = λ v. v;
  decode_meta = λ c. none;
  receipt = λ p m. str "id";
}

abbrev worker : Worker
worker = record { provider = some (meta (str "token") (str "1")); enc_key = str "k" }

abbrev job : ChannelJob ℕ
job = record {
  tenant_id = str "t";
  notification_id = str "n";
  subscriber_id = str "u";
  channel = str "whatsapp";
  template_id = str "d";
  payload = end;
}

abbrev row : DltRow
row = record {
  id = str "d";
  tenant_id = str "t";
  carrier = str "meta";
  channel = str "whatsapp";
  template_id_ext = str "offer";
  template_name = [];
  pe_id = [];
  sender_id = none;
  category = category_marketing;
  body_regex = [];
  status = str "approved";
  metadata = str "{}";
  language_code = [];
}

abbrev ready : World ℕ
ready =
    calm_world (record empty_db { subscribers = sample_subscriber ∷ []; dlt_templates = row ∷ [] })
