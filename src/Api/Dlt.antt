-- ===== src/Api/Dlt.antt =====
-- platform/api/handler/dlt.go: the registration of DLT templates. encoding/json is a parameter; the
-- timestamps of rows are left out.
pub mod Approved
pub mod Loaded
mod Tests
use qeet_notify.Base.{
  ℕ, suc, Bool, true, false, not, ◌&&◌, ◌||◌, Option, none, some, List, [], ◌∷◌, ◌++◌, map,
  if◌then◌else◌, any, select,
}
use qeet_notify.Base.Text.{Str, str, str_eq, is_empty}
use qeet_notify.Workflows.Json.{Fields, end}
use qeet_notify.Api.Http.{Response, reply}
use qeet_notify.Api.Rows.{
  passes_filter, latest_first, is_own, update_own, delete_own, when_hit, exec_given,
}
use qeet_notify.Platform.Tables.{DltRow}
use qeet_notify.Platform.World.{
  World, M, Result, ok, err, pure, gets, try, modify, tx_call, ◌>>=◌, ◌>>◌,
}

-- An empty text stands for a null pe_id.
pub record RegisterRequest (F : Type 0) : Type 0 where
  pub carrier : Str
  pub channel : Str
  pub template_id_ext : Str
  pub template_name : Str
  pub pe_id : Str
  pub sender_id : Option Str
  pub category : Str
  pub body_regex : Str
  pub metadata : Option (Fields F)

pub record UpdateRequest : Type 0 where
  pub status : Option Str
  pub pe_id : Option Str
  pub sender_id : Option Str

-- `language_code` is metadata->>'language_code'.
pub record Outside (F : Type 0) : Type 0 where
  pub rows_json : List DltRow → Str
  pub registered_json : Str → Str
  pub id_json : Str → Str
  pub marshal : Fields F → Str
  pub language_code : Str → Str

abbrev pub dlt_id : DltRow → Str
dlt_id r = r.id

abbrev pub dlt_tenant : DltRow → Str
dlt_tenant r = r.tenant_id

-- The WHERE clause that the query parameters build.
abbrev pub is_wanted : Str → Str → Str → Str → DltRow → Bool
is_wanted tenant_id channel carrier status r =
    str_eq r.tenant_id tenant_id
    && passes_filter channel r.channel
    && passes_filter carrier r.carrier
    && passes_filter status r.status

-- The checks of the table.
abbrev is_dlt_channel : Str → Bool
is_dlt_channel s = str_eq s (str "sms") || str_eq s (str "whatsapp")

abbrev is_category : Str → Bool
is_category s =
    str_eq s (str "transactional")
    || str_eq s (str "promotional")
    || str_eq s (str "service_explicit")
    || str_eq s (str "service_implicit")

abbrev pub is_status : Str → Bool
is_status s = str_eq s (str "pending") || str_eq s (str "approved") || str_eq s (str "rejected")

abbrev or_default : Str → Str → Str
or_default s fallback = if is_empty s then fallback else s

abbrev or_end : {F : Type 0} → Option (Fields F) → Fields F
or_end none = end
or_end (some m) = m

abbrev pub on_templates : {F : Type 0} → (List DltRow → List DltRow) → World F → World F
on_templates f w = record w { db = record w.db { dlt_templates = f w.db.dlt_templates } }

abbrev passes_checks : {F : Type 0} → RegisterRequest F → Bool
passes_checks req =
    is_dlt_channel (or_default req.channel (str "sms"))
    && is_category (or_default req.category (str "transactional"))

abbrev pub lacks_field : {F : Type 0} → RegisterRequest F → Bool
lacks_field req =
    is_empty req.carrier
    || is_empty req.template_id_ext
    || is_empty req.template_name
    || is_empty req.body_regex

module _ {F : Type 0} (tenant_id id : Str) (v : Str) where
  abbrev pe_set : World F → World F
  pe_set = on_templates (update_own dlt_id dlt_tenant (λ r. record r { pe_id = v }) id tenant_id)

  abbrev sender_set : World F → World F
  sender_set =
      on_templates
        (update_own dlt_id dlt_tenant (λ r. record r { sender_id = some v }) id tenant_id)

module _ {F : Type 0} where
  -- UPDATE dlt_templates SET status = …: whether a row was hit, and false where the update failed.
  abbrev status_set : Str → Str → Str → Result (Unit {0}) → M F Bool
  status_set tenant_id id s (err e) w = (ok false, w)
  status_set tenant_id id s (ok _) w =
      if any (is_own dlt_id dlt_tenant id tenant_id) w.db.dlt_templates
      then if is_status s
        then (
          ok true,
          on_templates (update_own dlt_id dlt_tenant (λ r. record r { status = s }) id tenant_id) w,
        )
        else (ok false, record w { aborted = true })
      else (ok false, w)

  abbrev pub set_status : Str → Str → Option Str → M F Bool
  set_status tenant_id id none = pure true
  set_status tenant_id id (some s) = do r ← try tx_call; status_set tenant_id id s r

module _ {F : Type 0} (o : Outside F) where
  abbrev rows_reply : Result (Unit {0}) → List DltRow → Response
  rows_reply (err e) rows = reply 500 (str "query failed")
  rows_reply (ok _) rows = reply 200 (o.rows_json rows)

  unfoldable pub list_dlt_templates : Str → Str → Str → Str → M F Response
  list_dlt_templates tenant_id channel carrier status = do
    r ← try tx_call
    rows ←
        gets (λ w.
          latest_first (select (is_wanted tenant_id channel carrier status) w.db.dlt_templates))
    pure (rows_reply r rows)

  abbrev pub registered : Str → RegisterRequest F → Str → DltRow
  registered tenant_id req id = record {
    id = id;
    tenant_id = tenant_id;
    carrier = req.carrier;
    channel = or_default req.channel (str "sms");
    template_id_ext = req.template_id_ext;
    template_name = req.template_name;
    pe_id = req.pe_id;
    sender_id = req.sender_id;
    category = or_default req.category (str "transactional");
    body_regex = req.body_regex;
    status = str "pending";
    metadata = o.marshal (or_end req.metadata);
    language_code = o.language_code (o.marshal (or_end req.metadata));
  }

  abbrev inserted : (ℕ → Str) → Str → RegisterRequest F → Result (Unit {0}) → M F Response
  inserted uuid tenant_id req (err e) w = (ok (reply 500 (str "create failed")), w)
  inserted uuid tenant_id req (ok _) w =
      if passes_checks req
      then (
        ok (reply 201 (o.registered_json (uuid w.made))),
        record w {
          db = record w.db {
            dlt_templates = w.db.dlt_templates ++ registered tenant_id req (uuid w.made) ∷ [];
          };
          made = suc w.made;
        },
      )
      else (ok (reply 500 (str "create failed")), record w { aborted = true })

  unfoldable pub register_dlt_template : (ℕ → Str) → Str → Option (RegisterRequest F) → M F Response
  register_dlt_template uuid tenant_id none = pure (reply 400 (str "invalid json"))
  register_dlt_template uuid tenant_id (some req) =
      if lacks_field req
      then pure
          (reply 422 (str "carrier, template_id_ext, template_name, and body_regex are required"))
      else do r ← try tx_call; inserted uuid tenant_id req r

  abbrev set_ids : Str → Str → UpdateRequest → M F Response
  set_ids tenant_id id req = do
    exec_given req.pe_id (pe_set tenant_id id)
    exec_given req.sender_id (sender_set tenant_id id)
    pure (reply 200 (o.id_json id))

  unfoldable pub update_dlt_template : Str → Str → Option UpdateRequest → M F Response
  update_dlt_template tenant_id id none = pure (reply 400 (str "invalid json"))
  update_dlt_template tenant_id id (some req) = do
    found ← set_status tenant_id id req.status
    (if found then set_ids tenant_id id req else pure (reply 404 (str "not found")))

module _ {F : Type 0} where
  unfoldable pub delete_dlt_template : Str → Str → M F Response
  delete_dlt_template tenant_id id = do
    r ← try tx_call
    hit ← gets (λ w. any (is_own dlt_id dlt_tenant id tenant_id) w.db.dlt_templates)
    when_hit r hit (reply 404 (str "not found"))
        (modify (on_templates (delete_own dlt_id dlt_tenant id tenant_id))) (reply 204 [])
