-- ===== src/Api/Providers/Tests.antt =====
-- A new provider at a concrete request.
use qeet_notify.Base.{ℕ, ◌≡◌, refl, true, false, Option, none, some, [], ◌∷◌}
use qeet_notify.Base.Int.{pos}
use qeet_notify.Base.Text.{Str, str, str_eq}
use qeet_notify.Workflows.Json.{end}
use qeet_notify.Api.Providers.{Outside, CreateRequest, create_provider}
use qeet_notify.Api.Providers.Leading.{create_provider-leads}
use qeet_notify.Channels.Routing.{load, active_records}
use qeet_notify.Platform.Samples.{empty_db, calm_world}
use qeet_notify.Platform.World.{World, ok, tx_call}

abbrev outside : Outside ℕ
outside = record {
  rows_json = λ rows. [];
  id_json = λ id. id;
  marshal = λ c. str "{}";
  encrypt = λ s key. 0 ∷ s;
  less = λ a b. false;
}

abbrev open_seal : Str → Str → Option Str
open_seal [] key = none
open_seal (c ∷ s) key = some s

abbrev msg91 : CreateRequest ℕ
msg91 = record { channel = str "sms"; provider = str "msg91"; priority = pos 0; config = some end }

abbrev world : World ℕ
world = calm_world (record empty_db {
  provider_configs =
      record {
        id = str "1";
        tenant_id = str "t";
        channel = str "sms";
        provider = str "2factor";
        priority = pos 2;
        config_encrypted = [];
        is_active = true;
      }
      ∷ [];
})

abbrev stored : World ℕ
stored = (create_provider outside (λ n. str "2") (str "k") (str "t") (some msg91) world).1

create_provider-leads_example :
    (load open_seal (str "t") (str "sms") (str "k") stored).0
    ≡ ok (
        record { provider_name = str "msg91"; config = str "{}"; priority = pos 1 }
        ∷ active_records open_seal (str "t") (str "sms") (str "k") world.db.provider_configs)
unfolding create_provider tx_call str_eq
create_provider-leads_example =
    create_provider-leads outside open_seal (λ n. str "2") (str "k") (str "t") msg91 end world
      stored refl refl refl refl ((λ h. refl), tt) refl (record { healthy = refl; answers = refl })
