-- ===== src/Api/Subscribers.antt =====
-- platform/api/handler/subscribers.go: the handlers of subscribers, on the tables of the request's
-- transaction. encoding/json, strconv.Atoi and pgp_sym_encrypt are parameters.
pub mod Choices
pub mod Changes
pub mod Optout
pub mod Ledger
mod Tests
use qeet_notify.Base.{
  ℕ, suc, Bool, true, false, not, ◌&&◌, Option, none, some, List, [], ◌∷◌, ◌++◌, map, if◌then◌else◌,
  leb, ltb, length, select, take, drop,
}
use qeet_notify.Base.Int.{ℤ, pos, negsuc, le_ℤ}
use qeet_notify.Base.Text.{Str, str, str_eq, is_empty}
use qeet_notify.Workflows.Json.{Fields, end}
use qeet_notify.Api.Http.{Response, reply}
use qeet_notify.Api.Rows.{page_limit, page_offset}
use qeet_notify.Channels.Routing.{notify_decrypt}
use qeet_notify.Subscribers.Consent.{Item, history}
use qeet_notify.Platform.Tables.{Subscriber, Preference}
use qeet_notify.Platform.World.{World, M, Result, ok, err, pure, gets, try, tx_call, ◌>>=◌, ◌>>◌}

pub record SubscriberRow (F : Type 0) : Type 0 where
  pub id : Str
  pub external_id : Str
  pub locale : Str
  pub timezone : Str
  pub metadata : Fields F
  pub is_deleted : Bool
  pub created_at : ℤ

abbrev pub row_of : {F : Type 0} → Subscriber F → SubscriberRow F
row_of s = record {
  id = s.id;
  external_id = s.external_id;
  locale = s.locale;
  timezone = s.timezone;
  metadata = s.metadata;
  is_deleted = s.is_deleted;
  created_at = s.created_at;
}

pub record PreferenceItem : Type 0 where
  pub channel : Str
  pub category : Str
  pub is_opted_in : Bool

-- The profile of an export, decrypted.
pub record Profile (F : Type 0) : Type 0 where
  pub row : SubscriberRow F
  pub email : Str
  pub phone : Str
  pub whatsapp_id : Str

pub record Export (F : Type 0) : Type 0 where
  pub subscriber : Profile F
  pub preferences : List PreferenceItem
  pub consent_history : List Item

pub record Outside (F : Type 0) : Type 0 where
  pub page_json : List (SubscriberRow F) → ℕ → Str
  pub row_json : SubscriberRow F → Str
  pub export_json : Export F → Str
  pub preferences_json : List PreferenceItem → Str
  pub id_json : Str → Str
  pub atoi : Str → Option ℤ
  pub encrypt : Str → Str → Str
  pub decrypt : Str → Str → Option Str

-- WHERE id = … AND tenant_id = ….
unfoldable pub find_subscriber :
    {F : Type 0} → Str → Str → List (Subscriber F) → Option (Subscriber F)
find_subscriber id tenant_id [] = none
find_subscriber id tenant_id (s ∷ ss) =
    if str_eq s.id id && str_eq s.tenant_id tenant_id
    then some s
    else find_subscriber id tenant_id ss

-- ORDER BY created_at DESC; rows of one time in the order in which they were met.
unfoldable pub insert_row : {F : Type 0} → Subscriber F → List (Subscriber F) → List (Subscriber F)
insert_row s [] = s ∷ []
insert_row s (r ∷ rs) = if le_ℤ r.created_at s.created_at then s ∷ r ∷ rs else r ∷ insert_row s rs

unfoldable pub sort_rows : {F : Type 0} → List (Subscriber F) → List (Subscriber F)
unfolding insert_row
sort_rows [] = []
sort_rows (s ∷ ss) = insert_row s (sort_rows ss)

abbrev pub is_listed : {F : Type 0} → Str → Subscriber F → Bool
is_listed tenant_id s = str_eq s.tenant_id tenant_id && not s.is_deleted

abbrev pub preference_items : Str → Str → List Preference → List PreferenceItem
preference_items tenant_id subscriber_id rows =
    map
      (λ (p : Preference). record {
        channel = p.channel;
        category = p.category;
        is_opted_in = p.is_opted_in;
      })
      (select (λ p. str_eq p.tenant_id tenant_id && str_eq p.subscriber_id subscriber_id) rows)

module _ {F : Type 0} (o : Outside F) where
  abbrev pub limit_of : Str → ℕ
  limit_of = page_limit o.atoi 200 50

  abbrev pub offset_of : Str → ℕ
  offset_of = page_offset o.atoi

  unfoldable pub page : Str → ℕ → ℕ → List (Subscriber F) → List (SubscriberRow F)
  unfolding sort_rows
  page tenant_id limit offset rows =
      map row_of (take limit (drop offset (sort_rows (select (is_listed tenant_id) rows))))

  abbrev total_of : Str → Result (Unit {0}) → List (Subscriber F) → ℕ
  total_of tenant_id (err e) rows = 0
  total_of tenant_id (ok _) rows = length (select (is_listed tenant_id) rows)

  abbrev page_reply : Str → Str → Str → ℕ → Result (Unit {0}) → M F Response
  page_reply tenant_id limit offset total (err e) = pure (reply 500 (str "query failed"))
  page_reply tenant_id limit offset total (ok _) = do
    rows ← gets (λ w. page tenant_id (limit_of limit) (offset_of offset) w.db.subscribers)
    pure (reply 200 (o.page_json rows total))

  unfoldable pub list_subscribers : Str → Str → Str → M F Response
  unfolding page
  list_subscribers tenant_id limit offset = do
    r ← try tx_call
    total ← gets (λ w. total_of tenant_id r w.db.subscribers)
    s ← try tx_call
    page_reply tenant_id limit offset total s

  abbrev subscriber_reply : Result (Unit {0}) → Option (Subscriber F) → Response
  subscriber_reply (err e) found = reply 404 (str "not found")
  subscriber_reply (ok _) none = reply 404 (str "not found")
  subscriber_reply (ok _) (some s) = reply 200 (o.row_json (row_of s))

  unfoldable pub get_subscriber : Str → Str → M F Response
  unfolding find_subscriber
  get_subscriber tenant_id id = do
    r ← try tx_call
    found ← gets (λ w. find_subscriber id tenant_id w.db.subscribers)
    pure (subscriber_reply r found)

  abbrev pub profile_of : Str → Subscriber F → Profile F
  profile_of enc_key s = record {
    row = row_of s;
    email = notify_decrypt o.decrypt s.email_encrypted enc_key;
    phone = notify_decrypt o.decrypt s.phone_encrypted enc_key;
    whatsapp_id = s.whatsapp_id;
  }

  abbrev preferences_or_none : Str → Str → Result (Unit {0}) → List Preference → List PreferenceItem
  preferences_or_none tenant_id id (err e) rows = []
  preferences_or_none tenant_id id (ok _) rows = preference_items tenant_id id rows

  abbrev export_reply : Str → Subscriber F → List PreferenceItem → Result (List Item) → Response
  export_reply enc_key s prefs (err e) = reply 500 (str "query failed")
  export_reply enc_key s prefs (ok items) = reply 200 (
      o.export_json (record {
        subscriber = profile_of enc_key s;
        preferences = prefs;
        consent_history = items;
      }))

  abbrev export_of : Str → Str → Str → Result (Unit {0}) → Option (Subscriber F) → M F Response
  export_of enc_key tenant_id id (err e) found = pure (reply 404 (str "not found"))
  export_of enc_key tenant_id id (ok _) none = pure (reply 404 (str "not found"))
  export_of enc_key tenant_id id (ok _) (some s) = do
    r ← try tx_call
    prefs ← gets (λ w. preferences_or_none tenant_id id r w.db.preferences)
    items ← try (history tenant_id id)
    pure (export_reply enc_key s prefs items)

  unfoldable pub export_subscriber_data : Str → Str → Str → M F Response
  unfolding find_subscriber
  export_subscriber_data enc_key tenant_id id = do
    r ← try tx_call
    found ← gets (λ w. find_subscriber id tenant_id w.db.subscribers)
    export_of enc_key tenant_id id r found
