-- ===== src/Subscribers/Consent.antt =====
-- domains/subscribers/consent/consent.go: the append-only ledger of consent.
use qeet_notify.Base.{Bool, ◌&&◌, List, [], ◌∷◌, ◌++◌, map, select, if◌then◌else◌}
use qeet_notify.Base.Int.{ℤ, le_ℤ}
use qeet_notify.Base.Text.{Str, str, str_eq, is_empty}
use qeet_notify.Platform.Tables.{ConsentRow}
use qeet_notify.Platform.World.{World, M, gets, modify, tx_call, ◌>>◌}

pub record Entry : Type 0 where
  pub tenant_id : Str
  pub subscriber_id : Str
  pub channel : Str
  pub category : Str
  pub opted_in : Bool
  pub source : Str
  pub purpose : Str
  pub version : Str
  pub actor : Str
  pub ip : Str

abbrev or_default : Str → Str → Str
or_default s fallback = if is_empty s then fallback else s

-- The row that is inserted; the database sets created_at.
abbrev pub consent_row : Entry → ℤ → ConsentRow
consent_row e now = record {
  tenant_id = e.tenant_id;
  subscriber_id = e.subscriber_id;
  channel = e.channel;
  category = or_default e.category (str "all");
  opted_in = e.opted_in;
  source = or_default e.source (str "api");
  purpose = e.purpose;
  version = e.version;
  actor = e.actor;
  ip_address = e.ip;
  created_at = now;
}

abbrev pub append_entry : {F : Type 0} → Entry → World F → World F
append_entry e w = record w {
  db = record w.db { consent_ledger = w.db.consent_ledger ++ consent_row e w.now ∷ [] };
}

unfoldable pub record_consent : {F : Type 0} → Entry → M F (Unit {0})
record_consent e = do tx_call; modify (append_entry e)

pub record Item : Type 0 where
  pub channel : Str
  pub category : Str
  pub opted_in : Bool
  pub source : Str
  pub purpose : Str
  pub version : Str
  pub actor : Str
  pub created_at : ℤ

abbrev pub item_of : ConsentRow → Item
item_of r = record {
  channel = r.channel;
  category = r.category;
  opted_in = r.opted_in;
  source = r.source;
  purpose = r.purpose;
  version = r.version;
  actor = r.actor;
  created_at = r.created_at;
}

-- ORDER BY created_at DESC; rows of one time in the order in which they were met.
unfoldable pub insert_item : Item → List Item → List Item
insert_item i [] = i ∷ []
insert_item i (j ∷ js) = if le_ℤ j.created_at i.created_at then i ∷ j ∷ js else j ∷ insert_item i js

unfoldable pub newest_first : List Item → List Item
unfolding insert_item
newest_first [] = []
newest_first (i ∷ is) = insert_item i (newest_first is)

abbrev pub concerns : Str → Str → ConsentRow → Bool
concerns tenant_id subscriber_id r =
    str_eq r.tenant_id tenant_id && str_eq r.subscriber_id subscriber_id

unfoldable pub history : {F : Type 0} → Str → Str → M F (List Item)
unfolding newest_first
history tenant_id subscriber_id = do
  tx_call
  gets (λ w.
      newest_first (map item_of (select (concerns tenant_id subscriber_id) w.db.consent_ledger)))
