-- ===== src/Api/Dlt/Tests.antt =====
-- The registration of DLT templates at a concrete request.
use qeet_notify.Base.{ℕ, ◌≡◌, refl, none, some, []}
use qeet_notify.Base.Text.{str, str_eq}
use qeet_notify.Api.Dlt.{Outside, RegisterRequest, register_dlt_template, update_dlt_template}
use qeet_notify.Api.Dlt.Approved.{register_dlt_template-pending, update_dlt_template-approves}
use qeet_notify.Api.Http.{reply}
use qeet_notify.Api.Middleware.{tenant_tx}
use qeet_notify.Channels.Sms.Reading.{approved}
use qeet_notify.Compliance.Dlt.{match_template, load_approved_templates}
use qeet_notify.Platform.Samples.{empty_db, calm_world}
use qeet_notify.Platform.World.{World, ok, tx_call}

abbrev outside : Outside ℕ
outside = record {
  rows_json = λ rows. [];
  registered_json = λ id. id;
  id_json = λ id. id;
  marshal = λ m. str "{}";
  language_code = λ m. [];
}

abbrev offer : RegisterRequest ℕ
offer = record {
  carrier = str "all";
  channel = [];
  template_id_ext = str "1007";
  template_name = str "offer";
  pe_id = [];
  sender_id = some (str "SHOP");
  category = str "promotional";
  body_regex = str "Sale";
  metadata = none;
}

abbrev world : World ℕ
world = calm_world empty_db

abbrev registered_one : World ℕ
registered_one = (register_dlt_template outside (λ n. str "d") (str "t") (some offer) world).1

register_dlt_template-pending_example :
    approved (λ s. some s) str_eq (str "t") registered_one.db
    ≡ approved (λ s. some s) str_eq (str "t") world.db
register_dlt_template-pending_example =
    register_dlt_template-pending (λ s. some s) str_eq outside (λ n. str "d") (str "t") (some offer)
      world

update_dlt_template-approves_example :
    let (r, v) =
      tenant_tx
        (str "t")
        (update_dlt_template outside (str "t") (str "d") (
          some
            (record { status = some (str "approved"); pe_id = some (str "1"); sender_id = none })))
        registered_one in
    (r ≡ ok (reply 200 (str "d")))
    × (match_template
          (λ s. some s)
          str_eq
          (approved (λ s. some s) str_eq (str "t") v.db)
          (str "Sale")
        ≡ str "d")
unfolding register_dlt_template tx_call str_eq load_approved_templates
update_dlt_template-approves_example =
    update_dlt_template-approves (λ s. some s) str_eq outside 116 [] (str "d") (str "Sale")
      (some (str "1")) none (str "Sale") registered_one (record { healthy = refl; answers = refl })
      refl ((λ h. record { sms = refl; anyone = refl; compiles = refl; matches = refl }), tt) refl
