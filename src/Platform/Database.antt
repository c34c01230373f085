-- ===== src/Platform/Database.antt =====
-- platform/database/querier.go: transactions scoped to a tenant.
pub mod Atomic
pub mod Committed
mod Tests
use qeet_notify.Base.{false, if◌then◌else◌}
use qeet_notify.Base.Text.{Str}
use qeet_notify.Platform.World.{
  World, M, Result, ok, err, db_failed, modify, pool_call, tx_call, call, ◌>>◌,
}

-- Rollback restores the tables; what was published, and the clock, stay.
abbrev pub rollback : {F : Type 0} → World F → World F → World F
rollback before w = record w { db = before.db; aborted = false; scope = before.scope }

abbrev pub end_commit :
    {F A : Type 0} → World F → A → Result (Unit {0}) × World F → Result A × World F
end_commit before a (ok _, w) = (ok a, record w { scope = before.scope })
end_commit before a (err e, w) = (err e, rollback before w)

-- PostgreSQL turns the commit of an aborted transaction into a rollback, which pgx reports.
unfoldable pub commit : {F A : Type 0} → World F → A → M F A
unfolding call
commit before a w =
    if w.aborted then (err db_failed, rollback before w) else end_commit before a (call db_failed w)

unfoldable pub end_tx : {F A : Type 0} → World F → Result A × World F → Result A × World F
unfolding commit
end_tx before (ok a, w) = commit before a w
end_tx before (err e, w) = (err e, rollback before w)

unfoldable pub run_in_tenant : {F A : Type 0} → Str → M F A → M F A
unfolding end_tx tx_call
run_in_tenant tenant_id fn = do
  pool_call
  λ before. end_tx before ((do tx_call; modify (λ w. record w { scope = tenant_id }); fn) before)
