-- ===== src/Subscribers/Federation.antt =====
-- domains/subscribers/federation/federation.go: users of qeet-id become subscribers.
pub mod Confined
pub mod Refreshed
mod Tests
use qeet_notify.Base.{
  ℕ, suc, Bool, true, false, ◌&&◌, ◌||◌, Option, none, some, [], ◌∷◌, ◌++◌, map, if◌then◌else◌, any,
}
use qeet_notify.Base.Text.{Str, str, str_eq, is_empty}
use qeet_notify.Base.Text.Search.{has_suffix}
use qeet_notify.Workflows.Json.{end}
use qeet_notify.Platform.Database.{run_in_tenant}
use qeet_notify.Platform.Tables.{Subscriber}
use qeet_notify.Platform.World.{World, M, pure, modify, try, tx_call, ◌>>◌}

pub record UserEvent : Type 0 where
  pub tenant_id : Str
  pub user_id : Str
  pub email : Str
  pub phone : Str
  pub locale : Str
  pub timezone : Str

abbrev or_default : Str → Str → Str
or_default s fallback = if is_empty s then fallback else s

-- The key (tenant_id, external_id).
abbrev pub is_user : {F : Type 0} → UserEvent → Subscriber F → Bool
is_user ev s = str_eq s.tenant_id ev.tenant_id && str_eq s.external_id ev.user_id

-- An empty text is NULL and stays so.
abbrev pub sealed : (Str → Str → Str) → Str → Str → Str
sealed encrypt enc_key plain = if is_empty plain then [] else encrypt plain enc_key

-- pgp_sym_encrypt and the ids of the database are parameters.
module _ {F : Type 0} (encrypt : Str → Str → Str) (uuid : ℕ → Str) (enc_key : Str) where
  -- DO UPDATE leaves the other columns as they are, also is_deleted.
  abbrev pub refreshed : UserEvent → Subscriber F → Subscriber F
  refreshed ev s = record s {
    email_encrypted = sealed encrypt enc_key ev.email;
    phone_encrypted = sealed encrypt enc_key ev.phone;
    locale = or_default ev.locale (str "en");
    timezone = or_default ev.timezone (str "Asia/Kolkata");
  }

  abbrev pub enrolled : UserEvent → World F → Subscriber F
  enrolled ev w = refreshed ev (record {
    id = uuid w.made;
    tenant_id = ev.tenant_id;
    external_id = ev.user_id;
    email_encrypted = [];
    phone_encrypted = [];
    whatsapp_id = [];
    push_tokens = str "[]";
    locale = [];
    timezone = [];
    metadata = end;
    is_deleted = false;
    created_at = w.now;
  })

  abbrev upserted : UserEvent → World F → World F
  upserted ev w =
      if any (is_user ev) w.db.subscribers
      then record w {
        db = record w.db {
          subscribers = map (λ s. if is_user ev s then refreshed ev s else s) w.db.subscribers;
        };
      }
      else record w {
        db = record w.db { subscribers = w.db.subscribers ++ enrolled ev w ∷ [] };
        made = suc w.made;
      }

  -- Its error is only logged.
  unfoldable pub upsert_subscriber : UserEvent → M F (Unit {0})
  upsert_subscriber ev = try (tx_call >> modify (upserted ev)) >> pure tt

  abbrev left : UserEvent → World F → World F
  left ev w = record w {
    db = record w.db {
      subscribers =
          map (λ s. if is_user ev s then record s { is_deleted = true } else s) w.db.subscribers;
    };
  }

  unfoldable pub soft_delete_subscriber : UserEvent → M F (Unit {0})
  soft_delete_subscriber ev = try (tx_call >> modify (left ev)) >> pure tt

  -- One message of the stream; it is acknowledged in every case.
  unfoldable pub on_user_event : Str → Option UserEvent → M F (Unit {0})
  on_user_event subject none = pure tt
  on_user_event subject (some ev) =
      if has_suffix subject (str "user.created") || has_suffix subject (str "user.updated")
      then try (run_in_tenant ev.tenant_id (upsert_subscriber ev)) >> pure tt
      else if has_suffix subject (str "user.deleted")
      then try (run_in_tenant ev.tenant_id (soft_delete_subscriber ev)) >> pure tt
      else pure tt
