-- ===== src/Api/Middleware.antt =====
-- platform/api/middleware (tenant.go, ratelimit.go, tenant_tx.go) and LookupTenantByKey of
-- platform/database/tenant.go: who may call, how often, and in which transaction.
pub mod Committed
pub mod Guarded
pub mod Limit
use qeet_notify.Base.{
  ℕ, suc, ◌-◌, ◌*◌, Bool, true, false, not, ◌&&◌, ◌||◌, Option, none, some, List, [], ◌∷◌, ◌++◌,
  if◌then◌else◌, ltb, leb, length, drop, take, any, select,
}
use qeet_notify.Base.Int.{ℤ, pos, ◌+ℤ◌, lt_ℤ}
use qeet_notify.Base.Text.{Str, str, str_eq, is_empty}
use qeet_notify.Base.Text.Search.{has_suffix}
use qeet_notify.Api.Http.{Request, Response, reply}
use qeet_notify.Platform.Database.{rollback}
use qeet_notify.Platform.Tables.{ApiKey, Tenant, is_revoked}
use qeet_notify.Platform.World.{
  World, M, Result, ok, err, Error, db_failed, redis_failed, Counter, call, pool_call, tx_call,
  pure, raise, gets, try, modify, ◌>>=◌, ◌>>◌,
}

-- What the context of a request holds behind Auth.
pub record Caller : Type 0 where
  pub tenant_id : Str
  pub scope : Str
  pub key_hash : Str

unfoldable pub find_key : Str → List ApiKey → Option Caller
find_key hash [] = none
find_key hash (k ∷ ks) =
    if str_eq k.key_hash hash && not (is_revoked k.revoked_at)
    then some (record { tenant_id = k.tenant_id; scope = k.scope; key_hash = hash })
    else find_key hash ks

-- The master key of a tenant.
unfoldable pub find_master : Str → List Tenant → Option Caller
find_master hash [] = none
find_master hash (t ∷ ts) =
    if str_eq t.api_key_hash hash
    then some (record { tenant_id = t.id; scope = str "full"; key_hash = hash })
    else find_master hash ts

-- ScopeFromContext: an empty scope counts as "full".
abbrev pub scope_of : Caller → Str
scope_of c = if is_empty c.scope then str "full" else c.scope

-- What ScopeGuard lets through.
unfoldable pub is_allowed : Str → Request → Bool
is_allowed scope r =
    if str_eq scope (str "full")
    then true
    else if str_eq scope (str "read")
    then str_eq r.method (str "GET")
    else if str_eq scope (str "send")
    then str_eq r.method (str "POST") && has_suffix r.path (str "/events")
    else true

abbrev forbidden : Str → Str
forbidden scope =
    if str_eq scope (str "read")
    then str "scope 'read' only allows GET requests"
    else str "scope 'send' only allows POST /v1/events"

-- ActorFromContext: a prefix of the key's hash.
abbrev pub actor_from : Option Str → Str × Str
actor_from none = (str "system", str "system")
actor_from (some []) = (str "system", str "system")
actor_from (some (c ∷ h)) =
    (str "api_key", str "apikey:" ++ (if ltb 16 (length (c ∷ h)) then take 16 (c ∷ h) else c ∷ h))

-- INCR and EXPIRE: a counter that has expired starts at 0, and the expiry is set anew.
unfoldable pub counted : ℤ → Str → List Counter → ℕ
counted now key [] = 0
counted now key (c ∷ cs) =
    if str_eq c.key key && lt_ℤ now c.expires_at then c.count else counted now key cs

module _ {F : Type 0} where
  abbrev by_key : Str → Option Caller → M F (Option Caller)
  by_key hash (some c) = pure (some c)
  by_key hash none = do pool_call; gets (λ w. find_master hash w.db.tenants)

  unfoldable pub lookup_tenant_by_key : Str → M F (Option Caller)
  unfolding find_key find_master
  lookup_tenant_by_key hash = do
    pool_call
    found ← gets (λ w. find_key hash w.db.api_keys)
    by_key hash found

  abbrev pub authenticated : Result (Option Caller) → (Caller → M F Response) → M F Response
  authenticated (err e) next = pure (reply 401 (str "invalid api key"))
  authenticated (ok none) next = pure (reply 401 (str "invalid api key"))
  authenticated (ok (some c)) next = next c

  unfoldable pub auth : (Str → Str) → Request → (Caller → M F Response) → M F Response
  auth hash_api_key r next =
      if is_empty r.api_key
      then pure (reply 401 (str "missing X-Qeet-Api-Key"))
      else do found ← try (lookup_tenant_by_key (hash_api_key r.api_key)); authenticated found next

  unfoldable pub scope_guard : Request → Caller → M F Response → M F Response
  scope_guard r c next =
      if is_allowed (scope_of c) r then next else pure (reply 403 (forbidden (scope_of c)))

  abbrev count_up : Str → ℕ → World F → World F
  count_up key window w = record w {
    counters =
        record {
          key = key;
          count = suc (counted w.now key w.counters);
          expires_at = w.now +ℤ pos window;
        }
        ∷ select (λ c. not (str_eq c.key key)) w.counters;
  }

  abbrev limited : ℕ → Str → M F Response → Result (Unit {0}) → M F Response
  limited limit key next (err e) = next
  limited limit key next (ok _) = do
    n ← gets (λ w. counted w.now key w.counters)
    (if ltb limit n then pure (reply 429 (str "rate limit exceeded")) else next)

  unfoldable pub rate_limit : ℕ → ℕ → Str → M F Response → M F Response
  rate_limit limit window tenant_id next = do
    r ← try (call redis_failed >> modify (count_up (str "rl:" ++ tenant_id) window))
    limited limit (str "rl:" ++ tenant_id) next r

  -- tx.Commit behind the handler's answer, which the client has by then.
  abbrev pub committed :
      World F → Response → World F → Result (Unit {0}) × World F → Result Response × World F
  committed before a v (ok _, u) = (ok a, record u { scope = before.scope })
  committed before a v (err e, u) = (ok a, rollback before u)

  unfoldable pub finish_tx : World F → Result Response × World F → Result Response × World F
  finish_tx before (err e, v) = (err e, rollback before v)
  finish_tx before (ok a, v) =
      if ltb a.status 400 && not v.aborted
      then committed before a v (call db_failed v)
      else (ok a, rollback before v)

  abbrev in_tx : World F → Str → M F Response → Result (Unit {0}) → M F Response
  in_tx before tenant_id next (err e) w = (ok (reply 500 (str "internal error")), rollback before w)
  in_tx before tenant_id next (ok _) w = finish_tx before (next (record w { scope = tenant_id }))

  abbrev begun : Str → M F Response → Result (Unit {0}) → M F Response
  begun tenant_id next (err e) w = (ok (reply 500 (str "internal error")), w)
  begun tenant_id next (ok _) w = let (r, v) = tx_call w in in_tx w tenant_id next r v

  unfoldable pub tenant_tx : Str → M F Response → M F Response
  unfolding finish_tx
  tenant_tx tenant_id next =
      if is_empty tenant_id then next else try pool_call >>= λ r. begun tenant_id next r
