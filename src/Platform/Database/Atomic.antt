-- ===== src/Platform/Database/Atomic.antt =====
-- A tenant's transaction happens whole or not at all (querier.go).
use qeet_notify.Base.{◌≡◌, refl, ◌∙◌, ◌⊎◌, inl, inr, false, Bool-cases}
use qeet_notify.Base.Text.{Str}
use qeet_notify.Platform.World.{
  World, M, Result, ok, err, Error, db_failed, call, pool_call, tx_call,
}
use qeet_notify.Platform.World.Effects.{call-db, call-error, tx_call-error, tx_call-db}
use qeet_notify.Platform.Database.{commit, end_tx, end_commit, run_in_tenant}

module _ {F A : Type 0} (tenant_id : Str) (fn : M F A) (w : World F) where
  -- Nothing has changed, or the whole of `fn` has happened, in the tenant's scope.
  abbrev pub Whole : Result A × World F → Type 0
  Whole (r, v) =
      ((e : Error) × (r ≡ err e) × (v.db ≡ w.db))
      ⊎ (a : A) × (u : World F) × ((fn u).0 ≡ ok a)
        × (u.scope ≡ tenant_id)
        × (u.db ≡ w.db)
        × ((fn u).1.aborted ≡ false)
        × (r ≡ ok a)
        × (v.db ≡ (fn u).1.db)

  module _ (before u : World F) (same : before.db ≡ w.db) (scoped : u.scope ≡ tenant_id)
      (start : u.db ≡ w.db) where
    Whole-end_commit :
        (a : A) (r : Result (Unit {0})) (v : World F)
        → (fn u).0 ≡ ok a
        → (fn u).1.aborted ≡ false
        → v.db ≡ (fn u).1.db
        → Whole (end_commit before a (r, v))
    Whole-end_commit a (ok _) v h healthy k = inr (a, u, h, scoped, start, healthy, refl, k)
    Whole-end_commit a (err x) v h healthy k = inl (x, refl, same)

    Whole-commit : (a : A) → (fn u).0 ≡ ok a → Whole (commit before a (fn u).1)
    unfolding commit
    Whole-commit a h = elim (Bool-cases (fn u).1.aborted) [
      | inl e ↦ simp e (inl (db_failed, refl, same))
      | inr e ↦ simp e (
          Whole-end_commit a (call db_failed (fn u).1).0 (call db_failed (fn u).1).1 h e
            (call-db db_failed (fn u).1))
    ]

    Whole-end : (r : Result A) → (fn u).0 ≡ r → Whole (end_tx before (r, (fn u).1))
    unfolding end_tx
    Whole-end (ok a) h = Whole-commit a h
    Whole-end (err e) h = inl (e, refl, same)

-- RunInTenant either returns an error and leaves the tables as they were, whichever call fails, also
-- the commit; or it returns the result of fn, which ran in the tenant's scope on the tables as they
-- were and failed no statement, and the tables are as fn left them.
pub run_in_tenant-Whole :
    {F A : Type 0} (tenant_id : Str) (fn : M F A) (w : World F)
    → Whole tenant_id fn w (run_in_tenant tenant_id fn w)
unfolding run_in_tenant
run_in_tenant-Whole tenant_id fn w = elim (call-error db_failed w) [
  | inr e ↦ rw e (inl (db_failed, refl, call-db db_failed w))
  | inl e ↦ rw e (elim (tx_call-error (pool_call w).1) [
    | inr x ↦ rw x (unfold end_tx in inl (db_failed, refl, call-db db_failed w))
    | inl x ↦ rw x (
        Whole-end tenant_id fn w (pool_call w).1
          (record (tx_call (pool_call w).1).1 { scope = tenant_id }) (call-db db_failed w) refl
          (tx_call-db (pool_call w).1 ∙ call-db db_failed w) _ refl)
  ])
]
