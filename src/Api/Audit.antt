-- ===== src/Api/Audit.antt =====
-- platform/api/middleware/audit.go: the audit trail of the requests under /v1 that change something.
-- net.SplitHostPort is a parameter, none where it fails. A handler that panics leaves no entry.
pub mod Trail
mod Tests
use qeet_notify.Base.{
  ℕ, suc, Bool, true, false, ◌&&◌, ◌||◌, Option, none, some, List, [], ◌∷◌, ◌++◌, if◌then◌else◌,
  leb, ◌==◌, length, drop, take,
}
use qeet_notify.Base.Int.{ℤ}
use qeet_notify.Base.Text.{Str, str, str_eq, is_empty}
use qeet_notify.Base.Text.Search.{trim_prefix, has_prefix, has_suffix, index}
use qeet_notify.Api.Http.{Response}
use qeet_notify.Api.Middleware.{actor_from}
use qeet_notify.Platform.Database.{run_in_tenant}
use qeet_notify.Platform.Tables.{AuditRow}
use qeet_notify.Platform.World.{World, M, pure, try, modify, tx_call, ◌>>=◌, ◌>>◌}

-- What chi and the connection tell of a request: the pattern of its route, the values of the URL's
-- parameters, and who asks. `key_hash` is none behind a login by OIDC.
pub record Visit : Type 0 where
  pub method : Str
  pub pattern : Str
  pub params : List Str
  pub remote_addr : Str
  pub user_agent : Str
  pub tenant_id : Str
  pub key_hash : Option Str

abbrev before_slash : Option ℕ → Str → Str
before_slash none s = s
before_slash (some i) s = take i s

abbrev or_unknown : Str → Str
or_unknown s = if is_empty s then str "unknown" else s

unfoldable pub resource_type : Str → Str
unfolding has_prefix index
resource_type pattern =
    let p = trim_prefix pattern (str "/v1/") in or_unknown (before_slash (index p (str "/")) p)

abbrev is_hex : ℕ → Bool
is_hex c = (leb 48 c && leb c 57) || (leb 97 c && leb c 102) || (leb 65 c && leb c 70)

abbrev is_dash_place : ℕ → Bool
is_dash_place i = i == 8 || i == 13 || i == 18 || i == 23

-- The bytes from position i on.
unfoldable pub is_uuid_from : ℕ → Str → Bool
is_uuid_from i [] = true
is_uuid_from i (c ∷ s) = (if is_dash_place i then c == 45 else is_hex c) && is_uuid_from (suc i) s

unfoldable pub is_uuid : Str → Bool
unfolding is_uuid_from
is_uuid s = length s == 36 && is_uuid_from 0 s

-- The first parameter that is an id, else empty.
unfoldable pub route_resource_id : List Str → Str
unfolding is_uuid
route_resource_id [] = []
route_resource_id (v ∷ vs) = if is_uuid v then v else route_resource_id vs

abbrev or_whole : Option Str → Str → Str
or_whole none s = s
or_whole (some host) s = host

abbrev pub is_reading : Str → Bool
is_reading m = str_eq m (str "GET") || str_eq m (str "HEAD") || str_eq m (str "OPTIONS")

-- The event intake and callers without a tenant are left out.
abbrev pub is_unlogged : Visit → Bool
is_unlogged v = has_suffix v.pattern (str "/events") || is_empty v.tenant_id

module _ (split_host_port : Str → Option Str) where
  abbrev pub client_ip : Str → Str
  client_ip remote_addr = or_whole (split_host_port remote_addr) remote_addr

  abbrev pub audit_row : Visit → ℕ → ℤ → AuditRow
  audit_row v status now = record {
    tenant_id = v.tenant_id;
    actor_type = (actor_from v.key_hash).0;
    actor_id = (actor_from v.key_hash).1;
    action = v.method ++ str " " ++ v.pattern;
    resource_type = resource_type v.pattern;
    resource_id = route_resource_id v.params;
    status = status;
    ip_address = client_ip v.remote_addr;
    user_agent = v.user_agent;
    occurred_at = now;
  }

  module _ {F : Type 0} where
    -- The statement of the trail's own transaction.
    unfoldable pub add_entry : Visit → ℕ → M F (Unit {0})
    add_entry v status = do
      tx_call
      modify (λ w. record w {
        db = record w.db { audit_logs = w.db.audit_logs ++ audit_row v status w.now ∷ [] };
      })

    -- An error of the entry is dropped.
    abbrev pub logged : Visit → Response → M F Response
    logged v a =
        if is_unlogged v
        then pure a
        else try (run_in_tenant v.tenant_id (add_entry v a.status)) >>= λ _. pure a

    unfoldable pub audit : Visit → M F Response → M F Response
    audit v next = if is_reading v.method then next else next >>= logged v
