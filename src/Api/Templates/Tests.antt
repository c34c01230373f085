-- ===== src/Api/Templates/Tests.antt =====
-- The handlers of templates at concrete requests.
use qeet_notify.Base.{ℕ, zero, suc, ◌≡◌, refl, true, false, none, some, Option, [], ◌∷◌}
use qeet_notify.Base.Int.{ℤ, pos, negsuc}
use qeet_notify.Base.Text.{Str, str, str_eq}
use qeet_notify.Workflows.Json.{Value, int, end, get_key}
use qeet_notify.Api.Subscribers.Changes.{set_key, merge}
use qeet_notify.Api.Templates.{Outside, UpdateRequest, update_template, delete_template}
use qeet_notify.Api.Templates.Deleted.{delete_template-silences}
use qeet_notify.Channels.Sms.{handle_job}
use qeet_notify.Channels.Sms.Samples
use qeet_notify.Channels.Sms.Samples.{worker, job}
use qeet_notify.Platform.Samples.{empty_db, calm_world}
use qeet_notify.Platform.Tables.{Template}
use qeet_notify.Platform.World.{World, call, tx_call}

-- A text that keeps the version of a map.
abbrev written : Value ℕ → Str
written (int (pos n)) = n ∷ 0 ∷ []
written (int (negsuc n)) = n ∷ 1 ∷ []
written v = []

abbrev read_back : Str → Option ℤ
read_back (n ∷ zero ∷ s) = some (pos n)
read_back (n ∷ suc k ∷ s) = some (negsuc n)
read_back s = none

abbrev outside : Outside ℕ
outside = record {
  rows_json = λ rows n. [];
  row_json = λ r. [];
  id_json = λ id. id;
  version_json = λ id v. id;
  marshal = λ m. written (get_key (str "version") m);
  unmarshal = λ s. some end;
  version_of = read_back;
  rfc3339 = λ t. [];
  atoi = λ s. none;
  less = λ s t. false;
}

abbrev greeting : Template
greeting = record {
  id = str "m";
  tenant_id = str "t";
  name = str "greeting";
  channel = str "sms";
  locale = str "en";
  metadata = 3 ∷ 0 ∷ [];
  subject = [];
  body = str "Hi";
  is_active = true;
}

abbrev world : World ℕ
world = calm_world (record empty_db { templates = greeting ∷ [] })

abbrev rewording : UpdateRequest ℕ
rewording = record {
  name = none;
  subject = none;
  body = some (str "Hello");
  locale = none;
  metadata = end;
  is_active = none;
}

-- A new body comes with the next version.
rewords :
    (update_template outside (str "t") (str "m") (some rewording) world).1.db.templates
    ≡ record greeting { body = str "Hello"; metadata = 4 ∷ 0 ∷ [] } ∷ []
unfolding update_template tx_call call str_eq get_key set_key merge
rewords = refl

abbrev deleted : World ℕ
deleted = (delete_template (str "t") (str "m") world).1

delete_template-silences_example :
    (handle_job Samples.outside worker job deleted).1.outbox ≡ deleted.outbox
unfolding delete_template tx_call str_eq
delete_template-silences_example =
    delete_template-silences Samples.outside worker job world deleted refl refl
