-- ===== src/Platform/Database/Committed.antt =====
-- A tenant's transaction in which no call fails (querier.go).
use qeet_notify.Base.{◌≡◌, refl, false, []}
use qeet_notify.Base.Text.{Str}
use qeet_notify.Platform.Cache.Keys.{call-quiet}
use qeet_notify.Platform.Database.{run_in_tenant, end_tx, commit}
use qeet_notify.Platform.World.{World, M, ok, db_failed}
use qeet_notify.Platform.World.Calm.{IsCalm}

-- A transaction whose calls all succeed keeps what its body did to the tables.
pub run_in_tenant-calm :
    {F A : Type 0} (tenant_id : Str) (fn : M F A) (w v : World F) (a : A)
    → IsCalm w
    → fn (record w { aborted = false; scope = tenant_id }) ≡ (ok a, v)
    → v.aborted ≡ false
    → v.faults ≡ []
    → (run_in_tenant tenant_id fn w).1.db ≡ v.db
unfolding run_in_tenant end_tx commit
run_in_tenant-calm tenant_id fn w v a calm done healthy quiet =
    simp
      (
        call-quiet db_failed w calm.answers,
        calm.healthy,
        done,
        healthy,
        call-quiet db_failed v quiet,
      )
      refl
