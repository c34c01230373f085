-- ===== src/Api/Keys/Lifecycle.antt =====
-- What a key may do from its creation to its revocation (apikeys.go with middleware/tenant.go).
use qeet_notify.Base.{
  ℕ, ◌≡◌, refl, ap, ◌∙◌, ◌⊎◌, inl, inr, true, false, Option, none, some, List, [], ◌∷◌, ◌++◌, arith,
  any, All, Bool-cases,
}
use qeet_notify.Base.Int.{ℤ}
use qeet_notify.Base.Text.{Str, str, str_eq, str_eq_refl, is_empty}
use qeet_notify.Api.Http.{Request, Response, reply}
use qeet_notify.Api.Rows.{is_own}
use qeet_notify.Api.Keys.{
  Outside, KeyRequest, NewKey, new_key, is_taken, is_scope, or_full, is_live, revoke, created,
  inserted, create_api_key, revoke_api_key,
}
use qeet_notify.Api.Routes.{Route, serve}
use qeet_notify.Api.Middleware.{
  Caller, find_key, find_master, lookup_tenant_by_key, authenticated, auth,
}
use qeet_notify.Platform.Tables.{ApiKey, Db}
use qeet_notify.Platform.World.{
  World, M, Result, ok, err, db_failed, tx_call, pool_call, try, ◌>>=◌,
}
use qeet_notify.Platform.World.Effects.{tx_call-db, tx_call-error, call-db, call-error}
use qeet_notify.Platform.Cache.Keys.{call-quiet}

find_key-append :
    (hash : Str) (ks : List ApiKey) (k : ApiKey)
    → is_taken hash ks ≡ false
    → find_key hash (ks ++ k ∷ []) ≡ find_key hash (k ∷ [])
unfolding find_key
find_key-append hash [] k h = refl
find_key-append hash (j ∷ ks) k h = ground (arith, find_key-append hash ks k)

find_key-created :
    (tenant_id name scope id : Str) (k : NewKey)
    → find_key k.hash (created tenant_id name scope k id ∷ [])
      ≡ some (record { tenant_id = tenant_id; scope = scope; key_hash = k.hash })
unfolding find_key
find_key-created tenant_id name scope id k = rw (str_eq_refl k.hash) refl

module _ {F : Type 0} where
  -- Looking a key up that is among the keys of the tenants' tables.
  lookup-found :
      (hash : Str) (c : Caller) (u : World F)
      → u.faults ≡ []
      → find_key hash u.db.api_keys ≡ some c
      → (lookup_tenant_by_key hash u).0 ≡ ok (some c)
  unfolding lookup_tenant_by_key
  lookup-found hash c u quiet h = simp (call-quiet db_failed u quiet, h) refl

  lookup-missing :
      (hash : Str) (u : World F)
      → find_key hash u.db.api_keys ≡ none
      → find_master hash u.db.tenants ≡ none
      → ((lookup_tenant_by_key hash u).1.db ≡ u.db)
        × (((lookup_tenant_by_key hash u).0 ≡ ok none)
            ⊎ ((lookup_tenant_by_key hash u).0 ≡ err db_failed))
  unfolding lookup_tenant_by_key
  lookup-missing hash u h m = elim (call-error db_failed u) [
    | inr e ↦ rw e (call-db db_failed u, inr refl)
    | inl e ↦
        rw (e, call-db db_failed u, h)
          (elim (call-error db_failed (pool_call u).1) [
            | inr x ↦ rw x (call-db db_failed (pool_call u).1 ∙ call-db db_failed u, inr refl)
            | inl x ↦
                rw (x, call-db db_failed (pool_call u).1, call-db db_failed u, m) (refl, inl refl)
          ])
  ]

abbrev pub status_of : Result Response → ℕ
status_of (ok a) = a.status
status_of (err e) = 0

module _ {F : Type 0} (o : Outside) (uuid : ℕ → Str) (tenant_id name scope : Str) (k : NewKey) where
  -- An insertion that is answered with 201.
  inserted-created :
      (r : Result (Unit {0})) (v : World F)
      → status_of (inserted o uuid tenant_id name scope k r v).0 ≡ 201
      → (is_taken k.hash v.db.api_keys ≡ false)
        × ((inserted o uuid tenant_id name scope k r v).1.db.api_keys
            ≡ v.db.api_keys ++ created tenant_id name scope k (uuid v.made) ∷ [])
  inserted-created (err e) v = λ h. absurd (omega arith)
  inserted-created (ok _) v = elim (Bool-cases (is_taken k.hash v.db.api_keys)) [
    | inl e ↦ rw e (λ h. absurd (omega arith))
    | inr e ↦ rw e (elim (Bool-cases (is_scope scope)) [
      | inl x ↦ rw x (λ h. (refl, refl))
      | inr x ↦ rw x (λ h. absurd (omega arith))
    ])
  ]

  inserted-found :
      (v u : World F)
      → status_of ((do r ← try tx_call; inserted o uuid tenant_id name scope k r) v).0 ≡ 201
      → u.db.api_keys
        ≡ ((do r ← try tx_call; inserted o uuid tenant_id name scope k r) v).1.db.api_keys
      → find_key k.hash u.db.api_keys
        ≡ some (record { tenant_id = tenant_id; scope = scope; key_hash = k.hash })
  inserted-found v u h same =
      let (free, kept) = inserted-created (tx_call v).0 (tx_call v).1 h in
      ap (find_key k.hash) (same ∙ kept)
      ∙ find_key-append k.hash (tx_call v).1.db.api_keys _ free
      ∙ find_key-created tenant_id name scope _ k

named :
    {F : Type 0} (o : Outside) (uuid : ℕ → Str) (tenant_id : Str) (req : KeyRequest) (buf : Str)
    (w u : World F)
    → o.random w.made ≡ some buf
    → status_of (create_api_key o uuid tenant_id (some req) w).0 ≡ 201
    → u.db.api_keys ≡ (create_api_key o uuid tenant_id (some req) w).1.db.api_keys
    → find_key (o.sha256 (new_key o buf).raw) u.db.api_keys
      ≡ some (record {
        tenant_id = tenant_id;
        scope = or_full req.scope;
        key_hash = o.sha256 (new_key o buf).raw;
      })
unfolding create_api_key
named o uuid tenant_id req buf w u got = elim (Bool-cases (is_empty req.name)) [
  | inl e ↦ rw e (λ h. absurd (omega arith))
  | inr e ↦
      rw (e, got) (inserted-found o uuid tenant_id req.name (or_full req.scope) (new_key o buf) w u)
]

-- Creating a key that is answered with 201, whichever calls fail before, lets the key in: as long as
-- the keys stay as they were left, a lookup of the hash of the raw key finds the tenant, with the
-- scope that the request asked for, "full" where it named none; the lookup's calls do not fail.
pub create_api_key-lookup :
    {F : Type 0} (o : Outside) (uuid : ℕ → Str) (tenant_id : Str) (req : KeyRequest) (buf : Str)
    (a : Response) (w u : World F)
    → o.random w.made ≡ some buf
    → (create_api_key o uuid tenant_id (some req) w).0 ≡ ok a
    → a.status ≡ 201
    → u.db.api_keys ≡ (create_api_key o uuid tenant_id (some req) w).1.db.api_keys
    → u.faults ≡ []
    → (lookup_tenant_by_key (o.sha256 (new_key o buf).raw) u).0
      ≡ ok (
          some (record {
            tenant_id = tenant_id;
            scope = or_full req.scope;
            key_hash = o.sha256 (new_key o buf).raw;
          }))
create_api_key-lookup o uuid tenant_id req buf a w u got answered good same quiet =
    lookup-found _ _ u quiet
      (named o uuid tenant_id req buf w u got (ap status_of answered ∙ good) same)

-- Two rows never have one key_hash; what the revoked row shares with none.
revoke-refused :
    (hash id tenant_id : Str) (now : ℤ) (ks : List ApiKey)
    → All
        (λ k.
          str_eq k.key_hash hash ≡ true
          → is_own (λ k. k.id) (λ k. k.tenant_id) id tenant_id k ≡ true)
        ks
    → find_key hash (revoke now id tenant_id ks) ≡ none
unfolding find_key
revoke-refused hash id tenant_id now [] h = refl
revoke-refused hash id tenant_id now (k ∷ ks) h =
    ground (arith, revoke-refused hash id tenant_id now ks h.1, h.0)

module _ {F : Type 0} where
  revoked_keys :
      (id tenant_id : Str) (w : World F)
      → status_of (revoke_api_key tenant_id id w).0 ≡ 204
      → (revoke_api_key tenant_id id w).1.db.api_keys
        ≡ revoke (tx_call w).1.now id tenant_id w.db.api_keys
  unfolding revoke_api_key
  revoked_keys id tenant_id w = elim (tx_call-error w) [
    | inr e ↦ rw e (λ h. absurd (omega arith))
    | inl e ↦
        rw (e, tx_call-db w)
          (elim (Bool-cases (any (is_live id tenant_id) w.db.api_keys)) [
            | inl x ↦ rw x (λ h.
                ap (λ (d : Db F). revoke (tx_call w).1.now id tenant_id d.api_keys) (tx_call-db w))
            | inr x ↦ rw x (λ h. absurd (omega arith))
          ])
  ]

  authenticated-missing :
      (found : Result (Option Caller)) (next : Caller → M F Response) (w : World F)
      → (found ≡ ok none) ⊎ (found ≡ err db_failed)
      → authenticated found next w ≡ (ok (reply 401 (str "invalid api key")), w)
  authenticated-missing found next w (inl e) = rw e refl
  authenticated-missing found next w (inr e) = rw e refl

  abbrev pub Refused : World F → Result Response × World F → Type 0
  Refused u out = (status_of out.0 ≡ 401) × (out.1.db ≡ u.db)

  auth-Refused :
      (hash_api_key : Str → Str) (r : Request) (next : Caller → M F Response) (u : World F)
      → find_key (hash_api_key r.api_key) u.db.api_keys ≡ none
      → find_master (hash_api_key r.api_key) u.db.tenants ≡ none
      → Refused u (auth hash_api_key r next u)
  unfolding auth
  auth-Refused hash_api_key r next u h m = elim (Bool-cases (is_empty r.api_key)) [
    | inl e ↦ rw e (refl, refl)
    | inr e ↦
        let (same, missed) = lookup-missing (hash_api_key r.api_key) u h m in
        rw
          (
            e,
            authenticated-missing _ next (lookup_tenant_by_key (hash_api_key r.api_key) u).1 missed,
          )
          (refl, same)
  ]

-- Behind a revocation that is answered with 204, a request with the revoked key gets 401 and changes
-- nothing, whichever calls fail, as long as the keys stay as they were left. No other row has the
-- hash of that key, and it is no tenant's master key.
pub revoke_api_key-Refused :
    {F : Type 0} (split_host_port : Str → Option Str) (hash_api_key : Str → Str) (limit window : ℕ)
    (r : Request) (route : Route) (next : Caller → M F Response) (id tenant_id : Str)
    (w u : World F)
    → status_of (revoke_api_key tenant_id id w).0 ≡ 204
    → All
        (λ k.
          str_eq k.key_hash (hash_api_key r.api_key) ≡ true
          → is_own (λ k. k.id) (λ k. k.tenant_id) id tenant_id k ≡ true)
        w.db.api_keys
    → u.db.api_keys ≡ (revoke_api_key tenant_id id w).1.db.api_keys
    → find_master (hash_api_key r.api_key) u.db.tenants ≡ none
    → Refused u (serve split_host_port hash_api_key limit window r route next u)
revoke_api_key-Refused split_host_port hash_api_key limit window r route next id tenant_id w u done
      unique same master =
    auth-Refused hash_api_key r _ u
      (ap (find_key (hash_api_key r.api_key)) (same ∙ revoked_keys id tenant_id w done)
        ∙ revoke-refused (hash_api_key r.api_key) id tenant_id (tx_call w).1.now w.db.api_keys
            unique)
      master
