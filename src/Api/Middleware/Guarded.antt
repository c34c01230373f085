-- ===== src/Api/Middleware/Guarded.antt =====
-- Which requests change the tables, and whose (platform/api/middleware).
use qeet_notify.Base.{
  ℕ, ◌≡◌, refl, sym, ap, ◌∙◌, ◌⊎◌, inl, inr, Bool, true, false, Option, none, some, if◌then◌else◌,
  ltb, Bool-cases,
}
use qeet_notify.Base.Text.{Str, is_empty}
use qeet_notify.Api.Http.{Request, Response}
use qeet_notify.Api.Middleware.{
  Caller, find_key, find_master, scope_of, is_allowed, by_key, lookup_tenant_by_key, authenticated,
  auth, scope_guard, rate_limit, committed, finish_tx, tenant_tx,
}
use qeet_notify.Platform.Tables.{Db}
use qeet_notify.Platform.World.{
  World, M, Result, ok, err, db_failed, redis_failed, call, pool_call, tx_call,
}
use qeet_notify.Platform.World.Effects.{
  call-db, call-error, tx_call-db, tx_call-error, ok-injective,
}

module _ {F : Type 0} where
  -- The tables are as they were, or the handler has run in the tenant's scope on the tables as they
  -- were, has answered below 400, has failed no statement, and its changes are kept.
  abbrev pub Scoped : Str → M F Response → Db F → Result Response × World F → Type 0
  Scoped tenant_id next d (r, v) =
      (v.db ≡ d)
      ⊎ (u : World F) × (a : Response) × (u.db ≡ d)
        × (u.scope ≡ tenant_id)
        × (r ≡ ok a)
        × ((next u).0 ≡ ok a)
        × (ltb a.status 400 ≡ true)
        × ((next u).1.aborted ≡ false)
        × (v.db ≡ (next u).1.db)

  module _ (tenant_id : Str) (next : M F Response) (d : Db F) (before u : World F)
      (same : before.db ≡ d) (start : u.db ≡ d) (scoped : u.scope ≡ tenant_id) where
    committed-Scoped :
        (a : Response) (r : Result (Unit {0})) (v : World F)
        → (next u).0 ≡ ok a
        → ltb a.status 400 ≡ true
        → (next u).1.aborted ≡ false
        → v.db ≡ (next u).1.db
        → Scoped tenant_id next d (committed before a (next u).1 (r, v))
    committed-Scoped a (ok _) v h good healthy k =
        inr (u, a, start, scoped, refl, h, good, healthy, k)
    committed-Scoped a (err e) v h good healthy k = inl same

    finish_tx-Scoped :
        (r : Result Response)
        → (next u).0 ≡ r
        → Scoped tenant_id next d (finish_tx before (r, (next u).1))
    unfolding finish_tx
    finish_tx-Scoped (err e) h = inl same
    finish_tx-Scoped (ok a) h = elim (Bool-cases (ltb a.status 400)) [
      | inr e ↦ rw e (inl same)
      | inl e ↦ rw e (elim (Bool-cases (next u).1.aborted) [
        | inl x ↦ simp x (inl same)
        | inr x ↦ simp x (
            committed-Scoped a (call db_failed (next u).1).0 (call db_failed (next u).1).1 h e x
              (call-db db_failed (next u).1))
      ])
    ]

  pub tenant_tx-Scoped :
      (tenant_id : Str) (next : M F Response) (d : Db F) (w : World F)
      → w.db ≡ d
      → is_empty tenant_id ≡ false
      → Scoped tenant_id next d (tenant_tx tenant_id next w)
  unfolding tenant_tx
  tenant_tx-Scoped tenant_id next d w same h = rw h (elim (call-error db_failed w) [
    | inr e ↦ rw e (inl (call-db db_failed w ∙ same))
    | inl e ↦ rw e (elim (tx_call-error (pool_call w).1) [
      | inr x ↦ rw x (inl (call-db db_failed w ∙ same))
      | inl x ↦ rw x (
          finish_tx-Scoped tenant_id next d (pool_call w).1
            (record (tx_call (pool_call w).1).1 { scope = tenant_id }) (call-db db_failed w ∙ same)
            (tx_call-db (pool_call w).1 ∙ call-db db_failed w ∙ same) refl _ refl)
    ])
  ])

  -- The tables hold this caller's key.
  abbrev pub Known : Str → Db F → Caller → Type 0
  Known hash d c =
      (find_key hash d.api_keys ≡ some c)
      ⊎ ((find_key hash d.api_keys ≡ none) × (find_master hash d.tenants ≡ some c))

  abbrev Looked : Str → Db F → Result (Option Caller) × World F → Type 0
  Looked hash d (r, v) = (v.db ≡ d) × ((c : Caller) → r ≡ ok (some c) → Known hash d c)

  lookup_tenant_by_key-Looked :
      (hash : Str) (w : World F) → Looked hash w.db (lookup_tenant_by_key hash w)
  unfolding lookup_tenant_by_key
  lookup_tenant_by_key-Looked hash w = elim (call-error db_failed w) [
    | inr e ↦ rw e (call-db db_failed w, λ c h. absurd cc)
    | inl e ↦ rw (e, call-db db_failed w) (by_key_lem (find_key hash w.db.api_keys) refl)
  ]
    where
      by_key_lem :
          (found : Option Caller)
          → find_key hash w.db.api_keys ≡ found
          → Looked hash w.db (by_key hash found (pool_call w).1)
      by_key_lem (some c) h = (call-db db_failed w, λ c' k. inl (h ∙ ok-injective k))
      by_key_lem none h = elim (call-error db_failed (pool_call w).1) [
        | inr e ↦ rw e (call-db db_failed (pool_call w).1 ∙ call-db db_failed w, λ c h. absurd cc)
        | inl e ↦ rw e (
          call-db db_failed (pool_call w).1 ∙ call-db db_failed w,
          λ c k. inr (
            h,
            ap (λ (d : Db F). find_master hash d.tenants)
                  (sym (call-db db_failed (pool_call w).1 ∙ call-db db_failed w))
                ∙ ok-injective k,
          ),
        )
      ]

  abbrev Passes : M F Response → Db F → Result Response × World F → Type 0
  Passes next d out = ((u : World F) × (u.db ≡ d) × (out ≡ next u)) ⊎ (out.1.db ≡ d)

  refused-Passes :
      (next : M F Response) (a : Response) (d : Db F) (b : Bool) (u : World F)
      → u.db ≡ d
      → Passes next d ((if b then (λ w. (ok a, w)) else next) u)
  refused-Passes next a d true u h = inr h
  refused-Passes next a d false u h = inl (u, h, refl)

  rate_limit-Passes :
      (limit window : ℕ) (tenant_id : Str) (next : M F Response) (w : World F)
      → Passes next w.db (rate_limit limit window tenant_id next w)
  unfolding rate_limit
  rate_limit-Passes limit window tenant_id next w = elim (call-error redis_failed w) [
    | inr e ↦ rw e (inl (_, call-db redis_failed w, refl))
    | inl e ↦ rw e (refused-Passes next _ w.db _ _ (call-db redis_failed w))
  ]

  -- The tables are as they were, or the request goes on for a caller whose key they hold and whose
  -- scope allows it.
  abbrev pub Passed :
      Str → Request → (Caller → M F Response) → Db F → Result Response × World F → Type 0
  Passed hash r inner d out =
      (out.1.db ≡ d)
      ⊎ (c : Caller) × Known hash d c
        × (is_allowed (scope_of c) r ≡ true)
        × ((u : World F) × (u.db ≡ d) × (out ≡ inner c u))

  scope_guard-Passed :
      (limit window : ℕ) (hash : Str) (r : Request) (inner : Caller → M F Response) (d : Db F)
      (c : Caller) (w : World F)
      → w.db ≡ d
      → Known hash d c
      → Passed hash r inner d (scope_guard r c (rate_limit limit window c.tenant_id (inner c)) w)
  unfolding scope_guard
  scope_guard-Passed limit window hash r inner d c w same known =
      elim (Bool-cases (is_allowed (scope_of c) r)) [
        | inr e ↦ rw e (inl same)
        | inl e ↦ rw e (elim (rate_limit-Passes limit window c.tenant_id (inner c) w) [
          | inr h ↦ inl (h ∙ same)
          | inl (u, h, k) ↦ inr (c, known, e, (u, h ∙ same, k))
        ])
      ]

  authenticated-Passed :
      (limit window : ℕ) (hash : Str) (r : Request) (inner : Caller → M F Response) (d : Db F)
      (found : Result (Option Caller)) (w : World F)
      → w.db ≡ d
      → ((c : Caller) → found ≡ ok (some c) → Known hash d c)
      → Passed hash r inner d (
          authenticated found
            (λ c. scope_guard r c (rate_limit limit window c.tenant_id (inner c)))
            w)
  authenticated-Passed limit window hash r inner d (err e) w same known = inl same
  authenticated-Passed limit window hash r inner d (ok none) w same known = inl same
  authenticated-Passed limit window hash r inner d (ok (some c)) w same known =
      scope_guard-Passed limit window hash r inner d c w same (known c refl)

  pub auth-Passed :
      (hash_api_key : Str → Str) (limit window : ℕ) (r : Request) (inner : Caller → M F Response)
      (w : World F)
      → Passed (hash_api_key r.api_key) r inner w.db (
          auth hash_api_key r
            (λ c. scope_guard r c (rate_limit limit window c.tenant_id (inner c)))
            w)
  unfolding auth
  auth-Passed hash_api_key limit window r inner w = elim (Bool-cases (is_empty r.api_key)) [
    | inl e ↦ rw e (inl refl)
    | inr e ↦ rw e (
        let looked = lookup_tenant_by_key-Looked (hash_api_key r.api_key) w in
        authenticated-Passed limit window (hash_api_key r.api_key) r inner w.db _ _ looked.0
          looked.1)
  ]
