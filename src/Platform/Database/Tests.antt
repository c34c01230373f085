-- ===== src/Platform/Database/Tests.antt =====
-- RunInTenant at concrete inputs.
use qeet_notify.Base.{ℕ, ◌≡◌, refl, true, false, [], ◌∷◌}
use qeet_notify.Base.Text.{str}
use qeet_notify.Platform.Samples.{empty_db, calm_world}
use qeet_notify.Platform.World.{World, M, err, db_failed, modify}
use qeet_notify.Platform.Database.{run_in_tenant, end_tx, commit}
use qeet_notify.Platform.Database.Atomic.{Whole, run_in_tenant-Whole}

abbrev add_tenant : M ℕ (Unit {0})
add_tenant = modify (λ w. record w {
  db = record w.db { tenants = record { id = str "t2"; api_key_hash = [] } ∷ w.db.tenants };
})

-- The commit fails.
abbrev unlucky : World ℕ
unlucky = record (calm_world empty_db) { faults = false ∷ false ∷ true ∷ [] }

rolled_back :
    ((run_in_tenant (str "t") add_tenant unlucky).0 ≡ err db_failed)
    × ((run_in_tenant (str "t") add_tenant unlucky).1.db ≡ empty_db)
unfolding run_in_tenant end_tx commit
rolled_back = (refl, refl)

run_in_tenant-Whole_example :
    Whole (str "t") add_tenant unlucky (run_in_tenant (str "t") add_tenant unlucky)
run_in_tenant-Whole_example = run_in_tenant-Whole (str "t") add_tenant unlucky
