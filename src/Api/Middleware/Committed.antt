-- ===== src/Api/Middleware/Committed.antt =====
-- A request whose calls all succeed (tenant_tx.go).
use qeet_notify.Base.{ℕ, ◌≡◌, refl, ◌∷◌, true, ltb}
use qeet_notify.Base.Text.{Str}
use qeet_notify.Api.Http.{Response}
use qeet_notify.Api.Middleware.{finish_tx, tenant_tx}
use qeet_notify.Platform.World.{World, M, Result, ok, db_failed}
use qeet_notify.Platform.World.Calm.{IsCalm, call-calm, tx_call-calm}

finish_tx-calm :
    {F : Type 0} (before : World F) {a : Response} (r : Result Response) (v : World F)
    → r ≡ ok a
    → ltb a.status 400 ≡ true
    → IsCalm v
    → ((finish_tx before (r, v)).0 ≡ ok a) × ((finish_tx before (r, v)).1.db ≡ v.db)
unfolding finish_tx
finish_tx-calm before r v answer good after =
    rw answer (simp (good, after.healthy, call-calm db_failed v after) (refl, refl))

-- The answer of a handler that succeeds goes out, and what it did to the tables is kept.
pub tenant_tx-calm :
    {F : Type 0} (c : ℕ) (tenant : Str) (next : M F Response) {a : Response} (w : World F)
    → IsCalm w
    → (next (record w { scope = c ∷ tenant })).0 ≡ ok a
    → ltb a.status 400 ≡ true
    → IsCalm (next (record w { scope = c ∷ tenant })).1
    → ((tenant_tx (c ∷ tenant) next w).0 ≡ ok a)
      × ((tenant_tx (c ∷ tenant) next w).1.db ≡ (next (record w { scope = c ∷ tenant })).1.db)
unfolding tenant_tx
tenant_tx-calm c tenant next w calm answer good after =
    rw (call-calm db_failed w calm, tx_call-calm w calm)
      (finish_tx-calm w (next (record w { scope = c ∷ tenant })).0
        (next (record w { scope = c ∷ tenant })).1 answer good after)
