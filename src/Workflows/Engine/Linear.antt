-- ===== src/Workflows/Engine/Linear.antt =====
-- Workflows with no branches: what is sent, in which order, and where a run pauses (engine.go).
use qeet_notify.Base.{
  ℕ, suc, ◌+◌, ◌≡◌, ◌≢◌, refl, sym, ◌∙◌, Bool, true, false, List, [], ◌∷◌, ◌++◌, append_assoc,
  append-nil, arith, length, length-append, All, if◌then◌else◌,
}
use qeet_notify.Base.Int.{ℤ, pos}
use qeet_notify.Base.Text.{Str}
use qeet_notify.Workflows.Json.{Floats}
use qeet_notify.Workflows.Types.{StepType, channel, delay, condition, unknown, Step, Event}
use qeet_notify.Platform.Tables.{Preference, Run}
use qeet_notify.Platform.World.{World, Message, ok}
use qeet_notify.Platform.World.Calm.{IsCalm}
use qeet_notify.Workflows.Engine.{max_iterations, update_run, execute_from}
use qeet_notify.Workflows.Engine.Stretch.{
  IsLinear, consents, job_message, notified, completed_run, paused_run, stretch_by, stretch,
  walk-stretch,
}

module _ {F : Type 0} (fl : Floats F) (uuid : ℕ → Str) (ev : Event F) (run_id : Str) where
  -- The messages of a stretch in order, up to the first delay; `k` ids were generated before.
  abbrev messages_by : StepType → Bool → ℕ → Step → (ℕ → List (Message F)) → List (Message F)
  messages_by channel true k s rest = job_message fl uuid ev run_id s (uuid k) ∷ rest (suc k)
  messages_by channel false k s rest = rest k
  messages_by delay b k s rest = []
  messages_by condition b k s rest = []
  messages_by (unknown t) b k s rest = rest k

  abbrev pub messages : List Preference → ℕ → List Step → List (Message F)
  messages prefs k [] = []
  messages prefs k (s ∷ ss) =
      messages_by s.type (consents fl uuid ev run_id prefs s) k s (λ j. messages prefs j ss)

  -- The change to the row of the run: pausing at the first delay, completing where there is none.
  abbrev stop_by : StepType → ℤ → ℕ → Step → (Run F → Run F) → Run F → Run F
  stop_by channel now i s rest = rest
  stop_by delay now i s rest = paused_run fl uuid ev run_id now s (suc i)
  stop_by condition now i s rest = rest
  stop_by (unknown t) now i s rest = rest

  abbrev pub stop : ℤ → ℕ → ℕ → List Step → Run F → Run F
  stop now n i [] = completed_run fl uuid ev run_id n
  stop now n i (s ∷ ss) = stop_by s.type now i s (stop now n (suc i) ss)

  -- What a stretch leaves behind.
  record Leaves (n i : ℕ) (rest : List Step) (w w' : World F) : Type 0 where
    sent : w'.published ≡ w.published ++ messages w.db.preferences w.made rest
    rows : w'.db.runs ≡ (update_run run_id (stop w.now n i rest) w).db.runs

  Leaves-channel :
      (b : Bool) (n i : ℕ) (s : Step) (ss : List Step) (w : World F)
      → s.type ≡ channel
      → consents fl uuid ev run_id w.db.preferences s ≡ b
      → ((w' : World F) → Leaves n (suc i) ss w' (stretch fl uuid ev run_id n (suc i) ss w'))
      → Leaves n i
          (s ∷ ss)
          w
          (stretch fl uuid ev run_id n (suc i) ss (if b then notified fl uuid ev run_id s w else w))
  Leaves-channel true n i s ss w e c ih = record {
    sent =
        rw (e, c)
          ((ih (notified fl uuid ev run_id s w)).sent
            ∙ append_assoc w.published (job_message fl uuid ev run_id s (uuid w.made) ∷ [])
                (messages w.db.preferences (suc w.made) ss));
    rows = rw e ((ih (notified fl uuid ev run_id s w)).rows);
  }
  Leaves-channel false n i s ss w e c ih = record {
    sent = rw (e, c) ((ih w).sent);
    rows = rw e ((ih w).rows);
  }

  Leaves-step :
      (type : StepType) (n i : ℕ) (s : Step) (ss : List Step) (w : World F)
      → type ≢ condition
      → s.type ≡ type
      → ((w' : World F) → Leaves n (suc i) ss w' (stretch fl uuid ev run_id n (suc i) ss w'))
      → Leaves n i
          (s ∷ ss)
          w
          (stretch_by fl uuid ev run_id type i s (stretch fl uuid ev run_id n (suc i) ss) w)
  Leaves-step channel n i s ss w nc e ih =
      Leaves-channel (consents fl uuid ev run_id w.db.preferences s) n i s ss w e refl ih
  Leaves-step delay n i s ss w nc e ih = record {
    sent = rw e (sym (append-nil w.published));
    rows = rw e;
  }
  Leaves-step condition n i s ss w nc e ih = absurd (nc refl)
  Leaves-step (unknown t) n i s ss w nc e ih = record {
    sent = rw e ((ih w).sent);
    rows = rw e ((ih w).rows);
  }

  stretch-Leaves :
      (n i : ℕ) (rest : List Step) (w : World F)
      → All IsLinear rest
      → Leaves n i rest w (stretch fl uuid ev run_id n i rest w)
  unfolding stretch
  stretch-Leaves n i [] w lin = record { sent = sym (append-nil w.published); rows = refl }
  stretch-Leaves n i (s ∷ ss) w (plain, lin) =
      Leaves-step s.type n i s ss w plain.1 refl (λ w'. stretch-Leaves n (suc i) ss w' lin)

-- When no call fails, executeFrom at an index from where the steps are linear (no condition, no
-- next_step) succeeds; it publishes, behind what was published before, one job for each channel step
-- that the subscriber has not opted out of, in the order of the steps, up to the first delay; and
-- the row of the run is paused behind that delay with its resume_at, or completed where there is
-- none.
pub execute_from-linear :
    {F : Type 0} (fl : Floats F) (uuid : ℕ → Str) (ev : Event F) (front rest : List Step)
    (run_id : Str) (w : World F)
    → All IsLinear rest
    → IsCalm w
    → let out = execute_from fl uuid ev (front ++ rest) run_id (pos (length front)) w in
      (out.0 ≡ ok tt)
      × (out.1.published ≡ w.published ++ messages fl uuid ev run_id w.db.preferences w.made rest)
      × (out.1.db.runs
          ≡ (update_run run_id
              (stop fl uuid ev run_id w.now (length (front ++ rest)) (length front) rest)
              w).db.runs)
unfolding execute_from
execute_from-linear fl uuid ev front rest run_id w lin calm =
    let walked =
      walk-stretch fl uuid ev run_id (front ++ rest) (max_iterations (front ++ rest) + 2) 0 front
        rest w refl lin (omega (arith, length-append front rest))
        (omega (arith, length-append front rest)) calm in
    let left =
      stretch-Leaves fl uuid ev run_id (length (front ++ rest)) (length front) rest w lin in
    rw walked (refl, left.sent, left.rows)
