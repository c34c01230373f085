-- ===== src/Api/Routes/Guarded.antt =====
-- Which requests under /v1 change the tables, and whose (cmd/server/main.go with the middleware).
use qeet_notify.Base.{ℕ, ◌≡◌, refl, ◌⊎◌, inl, inr, true, false, Option, Bool-cases}
use qeet_notify.Base.Int.{ℤ}
use qeet_notify.Base.Text.{Str, is_empty}
use qeet_notify.Api.Http.{Request, Response}
use qeet_notify.Api.Audit.{Visit, is_reading, audit}
use qeet_notify.Api.Audit.Trail.{with_entry, audit-reading, audit-logged, logged-Recorded}
use qeet_notify.Api.Middleware.{Caller, scope_of, is_allowed, tenant_tx}
use qeet_notify.Api.Middleware.Guarded.{Scoped, Known, tenant_tx-Scoped, auth-Passed}
use qeet_notify.Api.Routes.{Route, visit_of, serve}
use qeet_notify.Platform.Tables.{Db}
use qeet_notify.Platform.World.{World, M, Result, ok, err, Error}

module _ (split_host_port : Str → Option Str) {F : Type 0} where
  -- The tables are these, or hold one entry more, with the status of the answer; a request that only
  -- reads has no entry.
  abbrev pub Traced : Visit → Result Response → Db F → Db F → Type 0
  Traced v x before after =
      (after ≡ before)
      ⊎ (a : Response) × (now : ℤ) × (x ≡ ok a)
        × (is_reading v.method ≡ false)
        × (after ≡ with_entry split_host_port v a.status before now)

  audit-failed :
      (v : Visit) (next : M F Response) (w : World F) (x : Error)
      → (next w).0 ≡ err x
      → is_reading v.method ≡ false
      → audit split_host_port v next w ≡ (err x, (next w).1)
  unfolding audit
  audit-failed v next w x h e = rw (e, h) refl

  audit-Traced :
      (v : Visit) (next : M F Response) (w : World F)
      → let out = audit split_host_port v next w in
        (out.0 ≡ (next w).0) × Traced v (next w).0 (next w).1.db out.1.db
  audit-Traced v next w = elim (Bool-cases (is_reading v.method)) [
    | inl e ↦ rw (audit-reading split_host_port v next w e) (refl, inl refl)
    | inr e ↦ by_result (next w).0 refl e
  ]
    where
      by_result :
          (r : Result Response)
          → (next w).0 ≡ r
          → is_reading v.method ≡ false
          → let out = audit split_host_port v next w in
            (out.0 ≡ (next w).0) × Traced v (next w).0 (next w).1.db out.1.db
      by_result (err x) h e = rw (audit-failed v next w x h e, h) (refl, inl refl)
      by_result (ok a) h e =
          rw (audit-logged split_host_port v next a w h e, h)
            (let (same, trace) = logged-Recorded split_host_port v a (next w).1 in
              elim trace [
                | inl (kept, why) ↦ (same, inl kept)
                | inr (now, k) ↦ (same, inr (a, now, refl, e, k))
              ])

  -- The tables are as they were; or a caller whose key they hold, and whose scope allows the request,
  -- has been served in the caller's tenant, and the trail may have one entry more.
  abbrev pub Guarded :
      Str → Request → Route → (Caller → M F Response) → Db F → Result Response × World F → Type 0
  Guarded hash r route next d (x, v) =
      (v.db ≡ d)
      ⊎ (c : Caller) × Known hash d c
        × (is_allowed (scope_of c) r ≡ true)
        × ((k : World F) × Scoped c.tenant_id (next c) d (x, k)
            × Traced (visit_of r route c) x k.db v.db)

  served-Guarded :
      (hash : Str) (r : Request) (route : Route) (next : Caller → M F Response) (d : Db F)
      (c : Caller) (u : World F)
      → Known hash d c
      → is_allowed (scope_of c) r ≡ true
      → is_empty c.tenant_id ≡ false
      → u.db ≡ d
      → Guarded hash r route next d
          (audit split_host_port (visit_of r route c) (tenant_tx c.tenant_id (next c)) u)
  served-Guarded hash r route next d c u known allowed full same =
      let inner = tenant_tx c.tenant_id (next c) in
      let (answer, traced) = audit-Traced (visit_of r route c) inner u in
      inr (
        c,
        known,
        allowed,
        (
          (inner u).1,
          rw answer (tenant_tx-Scoped c.tenant_id (next c) d u same full),
          rw answer traced,
        ),
      )

-- Whichever calls fail, a request to a route under api.Route("/v1") leaves the tables as they were,
-- unless its API key is in the tables, unrevoked or the master key of a tenant, and the scope of the
-- key allows its method and path. Then the handler's changes are rolled back, or the handler has run
-- for that caller in the scope of the caller's tenant on the tables as they were, has failed no
-- statement and answered below 400, and the client gets that answer and the tables are as the handler
-- left them. In both cases a request that does not only read may add one entry to the audit trail, of
-- that caller and request, with the status that the client gets. No tenant of a key has an empty id.
pub serve-Guarded :
    {F : Type 0} (split_host_port : Str → Option Str) (hash_api_key : Str → Str) (limit window : ℕ)
    (r : Request) (route : Route) (next : Caller → M F Response) (w : World F)
    → ((c : Caller) → Known (hash_api_key r.api_key) w.db c → is_empty c.tenant_id ≡ false)
    → Guarded split_host_port
        (hash_api_key r.api_key)
        r
        route
        next
        w.db
        (serve split_host_port hash_api_key limit window r route next w)
serve-Guarded split_host_port hash_api_key limit window r route next w full =
    elim (auth-Passed hash_api_key limit window r
      (λ c. audit split_host_port (visit_of r route c) (tenant_tx c.tenant_id (next c))) w) [
        | inl same ↦ inl same
        | inr (c, known, allowed, (u, same, k)) ↦ rw k (
            served-Guarded split_host_port (hash_api_key r.api_key) r route next w.db c u known
              allowed (full c known) same)
      ]
