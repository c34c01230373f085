-- ===== src/Subscribers/Preferences.antt =====
-- domains/subscribers/preferences/preferences.go: opt-outs and the suppression list.
pub mod Specific
pub mod Consent
mod Tests
use qeet_notify.Base.{
  ℕ, ◌+◌, ◌*◌, Bool, true, false, ◌&&◌, ◌||◌, Option, none, some, List, [], ◌∷◌, ◌++◌,
  if◌then◌else◌, leb, any, map,
}
use qeet_notify.Base.Text.{Str, str, str_eq}
use qeet_notify.Platform.Tables.{Db, Preference, Suppression, Subscriber}
use qeet_notify.Workflows.Json.{Fields, end}
use qeet_notify.Platform.World.{
  World, M, Result, ok, err, pure, gets, try, modify, tx_call, ◌>>=◌, ◌>>◌,
}

abbrev pub wildcard : Str
wildcard = str "all"

-- The two keys of the ORDER BY of IsOptedIn, as one number.
abbrev pub rank : Str → Str → Preference → ℕ
rank channel category p =
    (if str_eq p.channel channel then 0 else 2) + (if str_eq p.category category then 0 else 1)

-- The row with the least key, the earlier one where two are equal.
abbrev pub first_by : (Preference → ℕ) → Preference → Option Preference → Preference
first_by key p none = p
first_by key p (some q) = if leb (key p) (key q) then p else q

module _ (tenant_id subscriber_id channel category : Str) where
  -- Its WHERE clause.
  abbrev pub applies : Preference → Bool
  applies p =
      str_eq p.tenant_id tenant_id
      && str_eq p.subscriber_id subscriber_id
      && (str_eq p.channel channel || str_eq p.channel wildcard)
      && (str_eq p.category category || str_eq p.category wildcard)

  -- The first row of the ordered selection.
  unfoldable pub choose : List Preference → Option Preference
  choose [] = none
  choose (p ∷ ps) =
      let rest = choose ps in
      if applies p then some (first_by (rank channel category) p rest) else rest

abbrev pub opted_in_by : Option Preference → Bool
opted_in_by none = true
opted_in_by (some p) = p.is_opted_in

abbrev answer : Result (Unit {0}) → Option Preference → Bool
answer (ok _) row = opted_in_by row
answer (err e) row = true

-- Every error of the query, like a missing row, is read as opted in.
unfoldable pub is_opted_in : {F : Type 0} → Str → Str → Str → Str → M F Bool
is_opted_in tenant_id subscriber_id channel category = do
  r ← try tx_call
  rows ← gets (λ w. w.db.preferences)
  pure (answer r (choose tenant_id subscriber_id channel category rows))

abbrev same_key : Preference → Preference → Bool
same_key p q =
    str_eq p.tenant_id q.tenant_id
    && str_eq p.subscriber_id q.subscriber_id
    && str_eq p.channel q.channel
    && str_eq p.category q.category

-- INSERT … ON CONFLICT (tenant_id, subscriber_id, channel, category) DO UPDATE.
unfoldable pub upsert : Preference → List Preference → List Preference
upsert q [] = q ∷ []
upsert q (p ∷ ps) =
    if same_key p q then record p { is_opted_in = q.is_opted_in } ∷ ps else p ∷ upsert q ps

abbrev pub opt_out_row : Str → Str → Str → Preference
opt_out_row tenant_id subscriber_id channel = record {
  tenant_id = tenant_id;
  subscriber_id = subscriber_id;
  channel = channel;
  category = wildcard;
  is_opted_in = false;
}

unfoldable pub unsubscribe_rows : Str → Str → Str → List Preference → List Preference
unfolding upsert
unsubscribe_rows tenant_id subscriber_id channel rows =
    upsert (opt_out_row tenant_id subscriber_id channel) rows

unfoldable pub unsubscribe : {F : Type 0} → Str → Str → Str → M F (Unit {0})
unfolding unsubscribe_rows
unsubscribe tenant_id subscriber_id channel = do
  tx_call
  modify (λ w. record w {
    db = record w.db {
      preferences = unsubscribe_rows tenant_id subscriber_id channel w.db.preferences;
    };
  })

-- The update of EraseSubscriber; an empty text is NULL. Metadata becomes the empty map.
abbrev pub erased : {F : Type 0} → Subscriber F → Subscriber F
erased s = record s {
  email_encrypted = [];
  phone_encrypted = [];
  whatsapp_id = [];
  push_tokens = str "[]";
  metadata = end;
  is_deleted = true;
}

unfoldable pub erase_rows : {F : Type 0} → Str → Str → List (Subscriber F) → List (Subscriber F)
erase_rows tenant_id subscriber_id rows =
    map (λ s. if str_eq s.id subscriber_id && str_eq s.tenant_id tenant_id then erased s else s)
      rows

unfoldable pub erase_subscriber : {F : Type 0} → Str → Str → M F (Unit {0})
unfolding erase_rows
erase_subscriber tenant_id subscriber_id = do
  tx_call
  modify (λ w. record w {
    db = record w.db { subscribers = erase_rows tenant_id subscriber_id w.db.subscribers };
  })

-- SHA-256 in hexadecimal is a parameter.
module _ (hash_value : Str → Str) where
  abbrev pub listed : Str → Str → Str → List Suppression → Bool
  listed tenant_id channel plain = any (λ s.
      str_eq s.tenant_id tenant_id
      && str_eq s.channel channel
      && str_eq s.value_hash (hash_value plain))

  unfoldable pub is_suppressed : {F : Type 0} → Str → Str → Str → M F Bool
  is_suppressed tenant_id channel plain = do
    tx_call
    gets (λ w. listed tenant_id channel plain w.db.suppressions)

  -- INSERT … ON CONFLICT DO NOTHING, under UNIQUE(tenant_id, channel, value_hash).
  unfoldable pub add_row : Str → Str → Str → Str → List Suppression → List Suppression
  add_row tenant_id channel plain reason rows =
      if listed tenant_id channel plain rows
      then rows
      else rows
        ++ record {
          tenant_id = tenant_id;
          channel = channel;
          value_hash = hash_value plain;
          reason = reason;
        }
          ∷ []

  unfoldable pub add_suppression : {F : Type 0} → Str → Str → Str → Str → M F (Unit {0})
  unfolding add_row
  add_suppression tenant_id channel plain reason = do
    tx_call
    modify (λ w. record w {
      db = record w.db { suppressions = add_row tenant_id channel plain reason w.db.suppressions };
    })
