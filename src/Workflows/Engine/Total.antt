-- ===== src/Workflows/Engine/Total.antt =====
-- Every run of the engine's loop ends, within the bound of its cycle guard (engine.go).
use qeet_notify.Base.{
  ℕ, zero, suc, ◌+◌, ◌*◌, ◌<◌, ◌≡◌, ◌≢◌, refl, inl, inr, List, arith, length, get_elem?, ltb,
  lt→ltb, Option-cases, if◌then◌else◌,
}
use qeet_notify.Base.Int.{ℤ}
use qeet_notify.Base.Text.{Str, str}
use qeet_notify.Workflows.Json.{Floats}
use qeet_notify.Workflows.Types.{Step, Event}
use qeet_notify.Platform.World.{World, M, err, out_of_fuel, ◌>>=◌}
use qeet_notify.Workflows.Engine.{
  max_iterations, fail_run, run_step, walk, execute_from, Next, goto, pause, follow,
}
use qeet_notify.Workflows.Engine.Behaviour.{
  Sends, Sends-le, Behaves-if, Behaves, Behaves-pure, Behaves-bind, Behaves-le, Behaves-fail_run,
  Behaves-complete_run, Behaves-run_step,
}

module _ {F : Type 0} (fl : Floats F) (uuid : ℕ → Str) (ev : Event F) (steps : List Step)
    (run_id : Str) where
  Behaves-follow :
      (k : ℕ) (f : ℕ → M F (Unit {0})) (next : Next)
      → ((j : ℕ) → Behaves ev k (f j))
      → Behaves ev k (follow f next)
  Behaves-follow k f (goto j) h = h j
  Behaves-follow k f pause h = Behaves-pure ev k tt

  -- One round, when the rest of the loop has one round less.
  Behaves-round :
      (visited room i : ℕ) (step : Step) (rest : ℕ → M F (Unit {0}))
      → visited + room ≡ suc (max_iterations steps)
      → ((r : ℕ) → room ≡ suc r → (j : ℕ) → Behaves ev r (rest j))
      → Behaves ev room (
          if ltb (max_iterations steps) visited
          then fail_run fl uuid run_id (str "workflow exceeded max steps (cycle?)")
          else run_step fl uuid ev steps run_id step i >>= λ next. follow rest next)
  Behaves-round visited zero i step rest e h =
      rw (lt→ltb (max_iterations steps) visited (omega arith))
        (Behaves-fail_run fl uuid ev run_id _)
  Behaves-round visited (suc room) i step rest e h =
      Behaves-if ev (suc room) _ _ _
        (Behaves-le ev 0 (suc room) (omega arith) (Behaves-fail_run fl uuid ev run_id _))
        (Behaves-le ev (1 + room) (suc room) (omega arith) (
          Behaves-bind ev 1 room _ _ (Behaves-run_step fl uuid ev steps run_id step i)
            (λ next. Behaves-follow room rest next (h room refl))))

  -- With `room` rounds left before the guard, and more fuel than that.
  Behaves-walk :
      (fuel visited room i : ℕ)
      → visited + room ≡ suc (max_iterations steps)
      → room < fuel
      → Behaves ev room (walk fl uuid ev steps run_id fuel visited i)
  unfolding walk
  Behaves-walk zero visited room i e h = absurd (omega arith)
  Behaves-walk (suc fuel) visited room i e h = elim (Option-cases (get_elem? steps i)) [
    | inl out ↦
        rw (out, walk)
          (Behaves-le ev 0 room (omega arith)
            (Behaves-complete_run fl uuid ev run_id (length steps)))
    | inr (step, here) ↦
        rw (here, walk)
          (Behaves-round visited room i step (walk fl uuid ev steps run_id fuel (suc visited)) e
            (λ r p j. Behaves-walk fuel (suc visited) r j (omega arith) (omega arith)))
  ]

  Behaves-execute_from :
      (start : ℤ)
      → Behaves ev (suc (max_iterations steps)) (execute_from fl uuid ev steps run_id start)
  unfolding execute_from
  Behaves-execute_from start =
      Behaves-walk (max_iterations steps + 2) 0 (suc (max_iterations steps)) _ (omega arith)
        (omega arith)

-- Whatever the steps and their targets, the conditions, the start index and the calls that fail:
-- executeFrom ends by itself, so the cycle guard breaks every cycle; and it publishes at most
-- 2 n + 11 messages for n steps, each one a job of the event, for its tenant, subscriber and
-- payload, on the tenant's subject for the job's channel.
pub execute_from-bounded :
    {F : Type 0} (fl : Floats F) (uuid : ℕ → Str) (ev : Event F) (steps : List Step) (run_id : Str)
    (start : ℤ) (w : World F)
    → ((execute_from fl uuid ev steps run_id start w).0 ≢ err out_of_fuel)
      × Sends ev (length steps * 2 + 11) w (execute_from fl uuid ev steps run_id start w).1
execute_from-bounded fl uuid ev steps run_id start w = (
  (Behaves-execute_from fl uuid ev steps run_id start).ends w,
  Sends-le ev _ _ (omega arith) ((Behaves-execute_from fl uuid ev steps run_id start).sends w),
)
