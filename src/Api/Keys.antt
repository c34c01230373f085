-- ===== src/Api/Keys.antt =====
-- platform/api/handler/apikeys.go: the API keys of a tenant. encoding/json, crypto/rand, hex and
-- SHA-256 are parameters.
pub mod Lifecycle
mod Tests
use qeet_notify.Base.{
  ℕ, suc, Bool, true, false, not, ◌&&◌, ◌||◌, Option, none, some, List, [], ◌∷◌, ◌++◌, map,
  if◌then◌else◌, any, select, take,
}
use qeet_notify.Base.Int.{ℤ}
use qeet_notify.Base.Text.{Str, str, str_eq, is_empty}
use qeet_notify.Api.Http.{Response, reply}
use qeet_notify.Api.Rows.{latest_first, when_hit}
use qeet_notify.Platform.Tables.{ApiKey, is_revoked}
use qeet_notify.Platform.World.{
  World, M, Result, ok, err, pure, gets, try, modify, tx_call, ◌>>=◌, ◌>>◌,
}

pub record ApiKeyRow : Type 0 where
  pub id : Str
  pub name : Str
  pub prefix : Str
  pub scope : Str
  pub revoked_at : Option ℤ

abbrev row_of : ApiKey → ApiKeyRow
row_of k = record {
  id = k.id;
  name = k.name;
  prefix = k.prefix;
  scope = k.scope;
  revoked_at = k.revoked_at;
}

pub record KeyRequest : Type 0 where
  pub name : Str
  pub scope : Str

-- `random` gives the bytes that rand.Read fills in, by the number of ids made before, and none
-- where it fails.
pub record Outside : Type 0 where
  pub rows_json : List ApiKeyRow → Str
  pub created_json : Str → Str → Str → Str → Str
  pub random : ℕ → Option Str
  pub hex : Str → Str
  pub sha256 : Str → Str

pub record NewKey : Type 0 where
  pub raw : Str
  pub hash : Str
  pub prefix : Str

-- The unique key_hash, and the check of scope.
abbrev pub is_taken : Str → List ApiKey → Bool
is_taken hash = any (λ k. str_eq k.key_hash hash)

abbrev pub is_scope : Str → Bool
is_scope s = str_eq s (str "full") || str_eq s (str "read") || str_eq s (str "send")

-- WHERE id = … AND tenant_id = … AND revoked_at IS NULL.
abbrev pub is_live : Str → Str → ApiKey → Bool
is_live id tenant_id k =
    str_eq k.id id && str_eq k.tenant_id tenant_id && not (is_revoked k.revoked_at)

abbrev revoke : ℤ → Str → Str → List ApiKey → List ApiKey
revoke now id tenant_id =
    map (λ k. if is_live id tenant_id k then record k { revoked_at = some now } else k)

abbrev pub or_full : Str → Str
or_full s = if is_empty s then str "full" else s

abbrev pub created : Str → Str → Str → NewKey → Str → ApiKey
created tenant_id name scope k id = record {
  id = id;
  tenant_id = tenant_id;
  name = name;
  key_hash = k.hash;
  prefix = k.prefix;
  scope = scope;
  revoked_at = none;
}

module _ (o : Outside) where
  abbrev keys_reply : Result (Unit {0}) → List ApiKeyRow → Response
  keys_reply (err e) rows = reply 500 (str "query failed")
  keys_reply (ok _) rows = reply 200 (o.rows_json rows)

  abbrev pub new_key : Str → NewKey
  new_key buf =
      let raw = str "qn_live_" ++ o.hex buf in
      record { raw = raw; hash = o.sha256 raw; prefix = take 16 raw }

  abbrev pub generate_api_key : Option Str → Option NewKey
  generate_api_key none = none
  generate_api_key (some buf) = some (new_key buf)

module _ {F : Type 0} (o : Outside) (uuid : ℕ → Str) where
  abbrev inserted : Str → Str → Str → NewKey → Result (Unit {0}) → M F Response
  inserted tenant_id name scope k (err e) w = (ok (reply 500 (str "create failed")), w)
  inserted tenant_id name scope k (ok _) w =
      if is_taken k.hash w.db.api_keys || not (is_scope scope)
      then (ok (reply 500 (str "create failed")), record w { aborted = true })
      else (
        ok (reply 201 (o.created_json (uuid w.made) k.raw k.prefix scope)),
        record w {
          db = record w.db {
            api_keys = w.db.api_keys ++ created tenant_id name scope k (uuid w.made) ∷ [];
          };
          made = suc w.made;
        },
      )

  abbrev generated : Str → Str → Str → Option NewKey → M F Response
  generated tenant_id name scope none = pure (reply 500 (str "key generation failed"))
  generated tenant_id name scope (some k) = do r ← try tx_call; inserted tenant_id name scope k r

  unfoldable pub create_api_key : Str → Option KeyRequest → M F Response
  create_api_key tenant_id none = pure (reply 400 (str "invalid json"))
  create_api_key tenant_id (some req) =
      if is_empty req.name then pure (reply 422 (str "name is required")) else do
        k ← gets (λ w. generate_api_key o (o.random w.made))
        generated tenant_id req.name (or_full req.scope) k

module _ {F : Type 0} (o : Outside) where
  unfoldable pub list_api_keys : Str → M F Response
  list_api_keys tenant_id = do
    r ← try tx_call
    rows ← gets (λ w.
        map row_of
          (latest_first (select (λ (k : ApiKey). str_eq k.tenant_id tenant_id) w.db.api_keys)))
    pure (keys_reply o r rows)

module _ {F : Type 0} where
  unfoldable pub revoke_api_key : Str → Str → M F Response
  revoke_api_key tenant_id id = do
    r ← try tx_call
    hit ← gets (λ w. any (is_live id tenant_id) w.db.api_keys)
    when_hit r hit (reply 404 (str "not found or already revoked"))
        (modify (λ w. record w {
          db = record w.db { api_keys = revoke w.now id tenant_id w.db.api_keys };
        }))
        (reply 204 [])
