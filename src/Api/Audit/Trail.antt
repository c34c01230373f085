-- ===== src/Api/Audit/Trail.antt =====
-- What the audit trail records, and what it leaves alone (audit.go).
use qeet_notify.Base.{
  some, none, take, take-all, ltb, if◌then◌else◌, ℕ, ◌≡◌, refl, ap, ◌∙◌, ◌⊎◌, inl, inr, true, false,
  Option, [], ◌∷◌, ◌++◌, Bool-cases, sym, length, length-append, arith,
}
use qeet_notify.Base.Int.{ℤ}
use qeet_notify.Base.Text.{Str, str, is_empty}
use qeet_notify.Api.Middleware.{actor_from}
use qeet_notify.Api.Http.{Response}
use qeet_notify.Api.Audit.{
  Visit, resource_type, route_resource_id, client_ip, is_reading, is_unlogged, audit_row, add_entry,
  logged, audit,
}
use qeet_notify.Platform.Database.{run_in_tenant, end_tx, commit}
use qeet_notify.Platform.Database.Atomic.{run_in_tenant-Whole}
use qeet_notify.Platform.Tables.{Db, AuditRow}
use qeet_notify.Platform.World.{World, M, Result, ok, db_failed, tx_call}
use qeet_notify.Platform.World.Calm.{IsCalm}
use qeet_notify.Platform.Cache.Keys.{call-quiet}
use qeet_notify.Platform.World.Effects.{tx_call-db, tx_call-error, tx_call-now}

-- Who asks: a prefix of the hash of the API key, or the system.
abbrev pub actor : Option Str → Str × Str
actor none = (str "system", str "system")
actor (some h) =
    if is_empty h then (str "system", str "system") else (str "api_key", str "apikey:" ++ take 16 h)

pub actor-same : (k : Option Str) → actor_from k ≡ actor k
actor-same none = refl
actor-same (some []) = refl
actor-same (some (c ∷ h)) = elim (Bool-cases (ltb 16 (length (c ∷ h)))) [
  | inl e ↦ rw e refl
  | inr e ↦ rw (e, take-all 16 (c ∷ h) (ground arith)) refl
]

module _ (split_host_port : Str → Option Str) (v : Visit) where
  -- The entry of a visit with this status.
  abbrev pub entry : ℕ → ℤ → AuditRow
  entry status now = record {
    tenant_id = v.tenant_id;
    actor_type = (actor v.key_hash).0;
    actor_id = (actor v.key_hash).1;
    action = v.method ++ str " " ++ v.pattern;
    resource_type = resource_type v.pattern;
    resource_id = route_resource_id v.params;
    status = status;
    ip_address = client_ip split_host_port v.remote_addr;
    user_agent = v.user_agent;
    occurred_at = now;
  }

  audit_row-entry :
      (status : ℕ) (now : ℤ) → audit_row split_host_port v status now ≡ entry status now
  audit_row-entry status now = rw (actor-same v.key_hash) refl

module _ (split_host_port : Str → Option Str) {F : Type 0} (v : Visit) where
  -- The tables with the entry of a visit.
  abbrev pub with_entry : ℕ → Db F → ℤ → Db F
  with_entry status d now = record d {
    audit_logs = d.audit_logs ++ entry split_host_port v status now ∷ [];
  }

  with_row :
      (status : ℕ) (d : Db F) (now : ℤ)
      → record d { audit_logs = d.audit_logs ++ audit_row split_host_port v status now ∷ [] }
        ≡ with_entry status d now
  with_row status d now =
      ap (λ r. record d { audit_logs = d.audit_logs ++ r ∷ [] })
        (audit_row-entry split_host_port v status now)

  -- Why a request has no entry: it only reads, it is not to be logged, or a call fails.
  abbrev pub Excused : World F → Type 0
  Excused w = (is_reading v.method ≡ true) ⊎ ((is_unlogged v ≡ true) ⊎ (¬ IsCalm w))

  -- The answer, and an entry with its status, or none and an excuse.
  abbrev pub Recorded : Response → World F → Result Response × World F → Type 0
  Recorded a w (r, u) =
      (r ≡ ok a)
      × (((u.db ≡ w.db) × Excused w) ⊎ ((now : ℤ) × (u.db ≡ with_entry a.status w.db now)))

  add_entry-db :
      (status : ℕ) (w : World F) (x : Unit {0})
      → (add_entry split_host_port v status w).0 ≡ ok x
      → (add_entry split_host_port v status w).1.db ≡ with_entry status w.db w.now
  unfolding add_entry
  add_entry-db status w x = elim (tx_call-error w) [
    | inr e ↦ rw e (λ h. absurd cc)
    | inl e ↦
        rw (e, tx_call-now w)
          (λ h.
            with_row status (tx_call w).1.db w.now
            ∙ ap (λ d. with_entry status d w.now) (tx_call-db w))
  ]

  logged-calm :
      (a : Response) (w : World F)
      → IsCalm w
      → is_unlogged v ≡ false
      → (logged split_host_port v a w).1.db ≡ with_entry a.status w.db w.now
  unfolding run_in_tenant end_tx commit add_entry
  logged-calm a w calm e = rw e (
      simp (call-quiet db_failed w calm.answers, calm.healthy, calm.answers)
        (with_row a.status w.db w.now))

  with_entry-ne : (status : ℕ) (d : Db F) (now : ℤ) → d ≡ with_entry status d now → ⊥
  with_entry-ne status d now same =
      let grown = length-append d.audit_logs (entry split_host_port v status now ∷ []) in
      let lengths = ap (λ (x : Db F). length x.audit_logs) same in omega arith

  logged-failed :
      (a : Response) (w : World F)
      → is_unlogged v ≡ false
      → (logged split_host_port v a w).1.db ≡ w.db
      → ¬ IsCalm w
  logged-failed a w e same calm =
      with_entry-ne a.status w.db w.now (sym same ∙ logged-calm a w calm e)

  pub logged-Recorded : (a : Response) (w : World F) → Recorded a w (logged split_host_port v a w)
  logged-Recorded a w = elim (Bool-cases (is_unlogged v)) [
    | inl e ↦ rw e (refl, inl (refl, inr (inl refl)))
    | inr e ↦
        let failed = logged-failed a w e in
        rw e (elim (run_in_tenant-Whole v.tenant_id (add_entry split_host_port v a.status) w) [
          | inl (x, h, same) ↦ (refl, inl (same, inr (inr (failed (rw e same)))))
          | inr (x, u, h, scoped, start, healthy, good, k) ↦ (
            refl,
            inr (
              u.now,
              k ∙ add_entry-db a.status u x h ∙ ap (λ d. with_entry a.status d u.now) start,
            ),
          )
        ])
  ]

  pub audit-reading :
      (next : M F Response) (w : World F)
      → is_reading v.method ≡ true
      → audit split_host_port v next w ≡ next w
  unfolding audit
  audit-reading next w e = rw e refl

  pub audit-logged :
      (next : M F Response) (a : Response) (w : World F)
      → (next w).0 ≡ ok a
      → is_reading v.method ≡ false
      → audit split_host_port v next w ≡ logged split_host_port v a (next w).1
  unfolding audit
  audit-logged next a w answered e = rw (e, answered) refl

-- The trail never changes an answer and leaves out no change silently: whichever calls fail, a request
-- that a handler answers gets that answer, and the tables are as the handler left them with one entry
-- more, of the tenant, the method and the route of the request, the status of the answer, the address
-- and agent of the client, and who asked: the first 16 characters of the key's hash, or the system.
-- Or they are as the handler left them, and the request is a GET, HEAD or OPTIONS, or has no tenant or
-- a route that ends in "/events", or the calls behind the handler do not all succeed.
pub audit-Recorded :
    {F : Type 0} (split_host_port : Str → Option Str) (v : Visit) (next : M F Response)
    (a : Response) (w : World F)
    → (next w).0 ≡ ok a
    → Recorded split_host_port v a (next w).1 (audit split_host_port v next w)
audit-Recorded split_host_port v next a w answered = elim (Bool-cases (is_reading v.method)) [
  | inl e ↦ rw (audit-reading split_host_port v next w e) (answered, inl (refl, inl e))
  | inr e ↦
      rw (audit-logged split_host_port v next a w answered e)
        (logged-Recorded split_host_port v a (next w).1)
]
