-- ===== src/Api/Subscribers/Changes.antt =====
-- Creating, updating and erasing subscribers (subscribers.go).
use qeet_notify.Base.{
  ℕ, suc, Bool, true, false, ◌&&◌, Option, none, some, List, [], ◌∷◌, ◌++◌, map, if◌then◌else◌, any,
}
use qeet_notify.Api.Rows.{or_current}
use qeet_notify.Base.Text.{Str, str, str_eq, is_empty}
use qeet_notify.Workflows.Json.{Value, Fields, end, field}
use qeet_notify.Api.Http.{Response, reply}
use qeet_notify.Api.Subscribers.{Outside, find_subscriber}
use qeet_notify.Subscribers.Preferences.{erase_subscriber}
use qeet_notify.Platform.Tables.{Subscriber}
use qeet_notify.Platform.World.{World, M, Result, ok, err, pure, gets, try, tx_call, ◌>>=◌}

pub record CreateRequest (F : Type 0) : Type 0 where
  pub external_id : Str
  pub email : Str
  pub phone : Str
  pub whatsapp_id : Str
  pub locale : Str
  pub timezone : Str
  pub metadata : Fields F

pub record UpdateRequest (F : Type 0) : Type 0 where
  pub locale : Option Str
  pub timezone : Option Str
  pub metadata : Fields F

abbrev or_default : Str → Str → Str
or_default s fallback = if is_empty s then fallback else s

-- m[k] = v.
unfoldable pub set_key : {F : Type 0} → Str → Value F → Fields F → Fields F
set_key k v end = field k v end
set_key k v (field j u m) = if str_eq j k then field j v m else field j u (set_key k v m)

unfoldable pub merge : {F : Type 0} → Fields F → Fields F → Fields F
unfolding set_key
merge end m = m
merge (field k v fs) m = merge fs (set_key k v m)

-- The unique key (tenant_id, external_id).
abbrev pub is_taken : {F : Type 0} → Str → Str → List (Subscriber F) → Bool
is_taken tenant_id external_id =
    any (λ s. str_eq s.tenant_id tenant_id && str_eq s.external_id external_id)

module _ {F : Type 0} (o : Outside F) (uuid : ℕ → Str) where
  abbrev or_null : Result (Unit {0}) → Str → Str
  or_null (err e) c = []
  or_null (ok _) c = c

  -- An empty value is not encrypted, and an error leaves NULL.
  unfoldable pub encrypted : Str → Str → M F Str
  encrypted enc_key plain =
      if is_empty plain
      then pure []
      else do r ← try tx_call; pure (or_null r (o.encrypt plain enc_key))

  abbrev pub created : Str → CreateRequest F → Str → Str → World F → Subscriber F
  created tenant_id req email phone w = record {
    id = uuid w.made;
    tenant_id = tenant_id;
    external_id = req.external_id;
    email_encrypted = email;
    phone_encrypted = phone;
    whatsapp_id = req.whatsapp_id;
    push_tokens = str "[]";
    locale = or_default req.locale (str "en");
    timezone = or_default req.timezone (str "UTC");
    metadata = req.metadata;
    is_deleted = false;
    created_at = w.now;
  }

  abbrev inserted : Str → CreateRequest F → Str → Str → Result (Unit {0}) → M F Response
  inserted tenant_id req email phone (err e) w = (ok (reply 500 (str "create failed")), w)
  inserted tenant_id req email phone (ok _) w =
      if is_taken tenant_id req.external_id w.db.subscribers
      then (ok (reply 500 (str "create failed")), record w { aborted = true })
      else (
        ok (reply 201 (o.id_json (uuid w.made))),
        record w {
          db = record w.db {
            subscribers = w.db.subscribers ++ created tenant_id req email phone w ∷ [];
          };
          made = suc w.made;
        },
      )

  unfoldable pub create_subscriber : Str → Str → Option (CreateRequest F) → M F Response
  create_subscriber enc_key tenant_id none = pure (reply 400 (str "invalid json"))
  create_subscriber enc_key tenant_id (some req) =
      if is_empty req.external_id then pure (reply 422 (str "external_id is required")) else do
        email ← encrypted enc_key req.email
        phone ← encrypted enc_key req.phone
        r ← try tx_call
        inserted tenant_id req email phone r

  abbrev changed : UpdateRequest F → Subscriber F → Subscriber F → Subscriber F
  changed req cur s = record s {
    locale = or_current req.locale cur.locale;
    timezone = or_current req.timezone cur.timezone;
    metadata = merge req.metadata cur.metadata;
  }

  abbrev stored : Str → Str → UpdateRequest F → Subscriber F → Result (Unit {0}) → M F Response
  stored tenant_id id req cur (err e) w = (ok (reply 500 (str "update failed")), w)
  stored tenant_id id req cur (ok _) w = (
    ok (reply 200 (o.id_json id)),
    record w {
      db = record w.db {
        subscribers =
            map
              (λ s. if str_eq s.id id && str_eq s.tenant_id tenant_id then changed req cur s else s)
              w.db.subscribers;
      };
    },
  )

  abbrev update_found :
      Str → Str → UpdateRequest F → Result (Unit {0}) → Option (Subscriber F) → M F Response
  update_found tenant_id id req (err e) found = pure (reply 404 (str "not found"))
  update_found tenant_id id req (ok _) none = pure (reply 404 (str "not found"))
  update_found tenant_id id req (ok _) (some cur) = do
    r ← try tx_call
    stored tenant_id id req cur r

  unfoldable pub update_subscriber : Str → Str → Option (UpdateRequest F) → M F Response
  unfolding merge
  update_subscriber tenant_id id none = pure (reply 400 (str "invalid json"))
  update_subscriber tenant_id id (some req) = do
    r ← try tx_call
    found ← gets (λ w. find_subscriber id tenant_id w.db.subscribers)
    update_found tenant_id id req r found

  abbrev erased_reply : Result (Unit {0}) → Response
  erased_reply (err e) = reply 500 (str "erasure failed")
  erased_reply (ok _) = reply 204 []

  unfoldable pub delete_subscriber : Str → Str → M F Response
  delete_subscriber tenant_id id = do r ← try (erase_subscriber tenant_id id); pure (erased_reply r)
