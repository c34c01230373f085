-- ===== src/Api/Subscribers/Choices.antt =====
-- The opt-outs of subscribers (subscribers.go): the public unsubscribe link and the preferences.
use qeet_notify.Base.{false, ◌||◌, Option, none, some, List, [], ◌∷◌, if◌then◌else◌}
use qeet_notify.Base.Text.{Str, str, is_empty}
use qeet_notify.Api.Http.{Response, reply}
use qeet_notify.Api.Middleware.{actor_from}
use qeet_notify.Api.Subscribers.{Outside, PreferenceItem, preference_items}
use qeet_notify.Subscribers.Consent.{Entry, record_consent}
use qeet_notify.Subscribers.Preferences.{unsubscribe, upsert}
use qeet_notify.Platform.Tables.{Preference}
use qeet_notify.Platform.Database.{run_in_tenant}
use qeet_notify.Platform.World.{M, Result, ok, err, pure, gets, try, modify, tx_call, ◌>>=◌, ◌>>◌}

abbrev pub or_all : Str → Str
or_all s = if is_empty s then str "all" else s

abbrev pub link_entry : Str → Str → Str → Str → Entry
link_entry tenant_id subscriber_id channel ip = record {
  tenant_id = tenant_id;
  subscriber_id = subscriber_id;
  channel = channel;
  category = str "all";
  opted_in = false;
  source = str "unsubscribe_link";
  purpose = [];
  version = [];
  actor = str "subscriber";
  ip = ip;
}

abbrev pub api_entry : Str → Str → Str → Str → PreferenceItem → Entry
api_entry tenant_id subscriber_id actor ip p = record {
  tenant_id = tenant_id;
  subscriber_id = subscriber_id;
  channel = p.channel;
  category = or_all p.category;
  opted_in = p.is_opted_in;
  source = str "api";
  purpose = [];
  version = [];
  actor = actor;
  ip = ip;
}

abbrev pub chosen_row : Str → Str → PreferenceItem → Preference
chosen_row tenant_id subscriber_id p = record {
  tenant_id = tenant_id;
  subscriber_id = subscriber_id;
  channel = p.channel;
  category = or_all p.category;
  is_opted_in = p.is_opted_in;
}

abbrev pub link_reply : Result (Unit {0}) → Response
link_reply (err e) = reply 500 (str "unsubscribe failed")
link_reply (ok _) = reply 200 (str "{\"status\":\"unsubscribed\"}")

abbrev pub updated : Response
updated = reply 200 (str "{\"status\":\"updated\"}")

module _ {F : Type 0} where
  -- The body of the link's transaction; an error of the ledger is dropped.
  unfoldable pub opt_out : Str → Str → Str → Str → M F (Unit {0})
  opt_out tenant_id subscriber_id channel ip = do
    unsubscribe tenant_id subscriber_id channel
    r ← try (record_consent (link_entry tenant_id subscriber_id channel ip))
    pure tt

  -- Unsubscribe: the parameters of the link's query, empty where they are missing.
  unfoldable pub follow_link : Str → Str → Str → Str → M F Response
  follow_link tenant_id subscriber_id channel ip =
      if is_empty tenant_id || is_empty subscriber_id
      then pure (reply 400 (str "missing params"))
      else do
        r ← try (run_in_tenant tenant_id (opt_out tenant_id subscriber_id (or_all channel) ip))
        pure (link_reply r)

  abbrev preferences_reply : Outside F → Result (Unit {0}) → List PreferenceItem → Response
  preferences_reply o (err e) items = reply 500 (str "query failed")
  preferences_reply o (ok _) items = reply 200 (o.preferences_json items)

  unfoldable pub get_preferences : Outside F → Str → Str → M F Response
  get_preferences o tenant_id subscriber_id = do
    r ← try tx_call
    items ← gets (λ w. preference_items tenant_id subscriber_id w.db.preferences)
    pure (preferences_reply o r items)

  -- INSERT … ON CONFLICT … DO UPDATE of one preference.
  unfoldable pub set_preference : Str → Str → PreferenceItem → M F (Unit {0})
  set_preference tenant_id subscriber_id p = do
    tx_call
    modify (λ w. record w {
      db = record w.db {
        preferences = upsert (chosen_row tenant_id subscriber_id p) w.db.preferences;
      };
    })

  abbrev pub recorded : Entry → M F Response → Result (Unit {0}) → M F Response
  recorded e rest (err x) = pure (reply 500 (str "update failed"))
  recorded e rest (ok _) = try (record_consent e) >> rest

  unfoldable pub set_each : Str → Str → Str → Str → List PreferenceItem → M F Response
  set_each tenant_id subscriber_id actor ip [] = pure updated
  set_each tenant_id subscriber_id actor ip (p ∷ ps) =
      let rest = set_each tenant_id subscriber_id actor ip ps in
      if is_empty p.channel then rest else do
        r ← try (set_preference tenant_id subscriber_id p)
        recorded (api_entry tenant_id subscriber_id actor ip p) rest r

  -- The body is none where it is no JSON of its type; `key_hash` is that of the caller's API key.
  unfoldable pub update_preferences :
      Str → Str → Option Str → Str → Option (List PreferenceItem) → M F Response
  unfolding set_each
  update_preferences tenant_id subscriber_id key_hash ip none =
      pure (reply 400 (str "invalid json"))
  update_preferences tenant_id subscriber_id key_hash ip (some ps) =
      set_each tenant_id subscriber_id (actor_from key_hash).1 ip ps
