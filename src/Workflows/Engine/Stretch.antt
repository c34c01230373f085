-- ===== src/Workflows/Engine/Stretch.antt =====
-- The loop of executeFrom over steps with no branches, as a recursion on the steps (engine.go).
use qeet_notify.Base.{
  ℕ, zero, suc, ◌+◌, ◌≤◌, ◌<◌, ◌≡◌, ◌≢◌, refl, sym, ap, ◌∙◌, Bool, true, false, none, some, List,
  [], ◌∷◌, ◌++◌, append_assoc, append-nil, arith, length, length-append, All, get_elem?, ltb,
  if◌then◌else◌,
}
use qeet_notify.Base.Int.{ℤ, pos, ◌+ℤ◌}
use qeet_notify.Base.Text.{Str}
use qeet_notify.Workflows.Json.{Floats}
use qeet_notify.Workflows.Types.{StepType, channel, delay, condition, unknown, Step, Event}
use qeet_notify.Platform.Tables.{Preference, Run, completed}
use qeet_notify.Platform.World.{World, M, Message, job_body, ok, pure, ◌>>=◌}
use qeet_notify.Platform.World.Calm.{IsCalm, tx_call-calm, publish-calm}
use qeet_notify.Platform.Messaging.{channel_subject}
use qeet_notify.Subscribers.Preferences.{opted_in_by}
use qeet_notify.Subscribers.Preferences.Specific.{most_specific}
use qeet_notify.Subscribers.Preferences.Consent.{is_opted_in-calm}
use qeet_notify.Workflows.Engine.{
  max_iterations, category_of, channel_job, new_notification, update_run, seconds,
  insert_notification, send_job, dispatch_channel, complete_run, pause_run, next_index, step_by,
  run_step, walk, follow,
}

get_elem?-append :
    (front : List Step) (s : Step) (ss : List Step)
    → get_elem? (front ++ s ∷ ss) (length front) ≡ some s
get_elem?-append [] s ss = refl
get_elem?-append (x ∷ front) s ss = get_elem?-append front s ss

get_elem?-length : (steps : List Step) → get_elem? steps (length steps) ≡ none
get_elem?-length [] = refl
get_elem?-length (x ∷ steps) = get_elem?-length steps

-- A step that goes on to the one below it.
abbrev pub IsLinear : Step → Type 0
IsLinear s = (s.next_step ≡ []) × (s.type ≢ condition)

module _ {F : Type 0} (fl : Floats F) (uuid : ℕ → Str) (ev : Event F) (run_id : Str) where
  -- The subscriber's consent for the channel of a step and the category of the event.
  abbrev pub consents : List Preference → Step → Bool
  consents prefs s =
      opted_in_by (
        most_specific ev.tenant_id ev.subscriber_id s.channel (category_of fl uuid ev.payload)
          prefs)

  abbrev pub job_message : Step → Str → Message F
  job_message s id = record {
    subject = channel_subject ev.tenant_id s.channel;
    body = job_body (channel_job fl uuid ev s id);
  }

  -- The world after a notification for the step.
  abbrev pub notified : Step → World F → World F
  notified s w = record w {
    db = record w.db {
      notifications = w.db.notifications ++ new_notification fl uuid ev s run_id (uuid w.made) ∷ [];
    };
    made = suc w.made;
    published = w.published ++ job_message s (uuid w.made) ∷ [];
  }

  send_job-calm :
      (s : Step) (w : World F) → IsCalm w → send_job fl uuid ev s run_id w ≡ (ok tt, notified s w)
  unfolding send_job insert_notification
  send_job-calm s w calm =
      simp (tx_call-calm w calm)
        (publish-calm _ _ _ (record { healthy = calm.healthy; answers = calm.answers }))

  dispatch_channel-calm :
      (s : Step) (w : World F)
      → IsCalm w
      → dispatch_channel fl uuid ev s run_id w
        ≡ (ok tt, if consents w.db.preferences s then notified s w else w)
  unfolding dispatch_channel
  dispatch_channel-calm s w calm =
      simp
        (is_opted_in-calm ev.tenant_id ev.subscriber_id s.channel (category_of fl uuid ev.payload) w
          calm)
        (by_consent (consents w.db.preferences s))
    where
      by_consent :
          (b : Bool)
          → (if b then send_job fl uuid ev s run_id else pure tt) w
            ≡ (ok tt, if b then notified s w else w)
      by_consent true = send_job-calm s w calm
      by_consent false = refl

  -- What the row of the run becomes when the loop stops at, or behind, a step.
  abbrev pub completed_run : ℕ → Run F → Run F
  completed_run n r = record r { status = completed; current_step_index = pos n }

  abbrev pub paused_run : ℤ → Step → ℕ → Run F → Run F
  paused_run now s next r = record r {
    resume_at = some (now +ℤ seconds s.delay_seconds);
    current_step_index = pos next;
  }

  complete_run-calm :
      (n : ℕ) (w : World F)
      → IsCalm w
      → complete_run fl uuid run_id n w ≡ (ok tt, update_run run_id (completed_run n) w)
  unfolding complete_run
  complete_run-calm n w calm = simp (tx_call-calm w calm)

  pause_run-calm :
      (s : Step) (next : ℕ) (w : World F)
      → IsCalm w
      → pause_run fl uuid run_id s.delay_seconds next w
        ≡ (ok tt, update_run run_id (paused_run w.now s next) w)
  unfolding pause_run
  pause_run-calm s next w calm = simp (tx_call-calm w calm)

  abbrev pub stretch_by : StepType → ℕ → Step → (World F → World F) → World F → World F
  stretch_by channel i s rest w = rest (if consents w.db.preferences s then notified s w else w)
  stretch_by delay i s rest w = update_run run_id (paused_run w.now s (suc i)) w
  stretch_by condition i s rest w = w
  stretch_by (unknown t) i s rest w = rest w

  -- The run of a stretch of steps from index `i`, by recursion on the steps: each consented channel
  -- step is notified, an unknown one skipped, and a delay or the end stops the run.
  unfoldable pub stretch : ℕ → ℕ → List Step → World F → World F
  stretch n i [] w = update_run run_id (completed_run n) w
  stretch n i (s ∷ ss) w = stretch_by s.type i s (stretch n (suc i) ss) w

  notified-IsCalm :
      (b : Bool) (s : Step) (w : World F) → IsCalm w → IsCalm (if b then notified s w else w)
  notified-IsCalm true s w calm = record { healthy = calm.healthy; answers = calm.answers }
  notified-IsCalm false s w calm = calm

  module _ (steps : List Step) where
    walk-round :
        (fuel visited i : ℕ) (s : Step)
        → get_elem? steps i ≡ some s
        → visited ≤ max_iterations steps
        → walk fl uuid ev steps run_id (suc fuel) visited i ≡ (
            run_step fl uuid ev steps run_id s i >>= λ next.
            follow (walk fl uuid ev steps run_id fuel (suc visited)) next)
    unfolding walk
    walk-round fuel visited i s here h = rw (here, walk) (rw (not_ltb h))
      where
        not_ltb : visited ≤ max_iterations steps → ltb (max_iterations steps) visited ≡ false
        not_ltb h = ground arith

    walk-end :
        (fuel visited i : ℕ)
        → get_elem? steps i ≡ none
        → walk fl uuid ev steps run_id (suc fuel) visited i
          ≡ complete_run fl uuid run_id (length steps)
    unfolding walk
    walk-end fuel visited i out = rw (out, walk)

    next_index-linear : (s : Step) (i : ℕ) → s.next_step ≡ [] → next_index steps s i ≡ suc i
    unfolding next_index
    next_index-linear s i h = ground arith

    -- One step, with any continuation.
    step_by-linear :
        (type : StepType) (s : Step) (i : ℕ) (rest : World F → World F) (k : ℕ → M F (Unit {0}))
        (w : World F)
        → s.next_step ≡ []
        → type ≢ condition
        → IsCalm w
        → ((w' : World F) → IsCalm w' → k (suc i) w' ≡ (ok tt, rest w'))
        → (step_by fl uuid type ev steps run_id s i >>= λ next. follow k next) w
          ≡ (ok tt, stretch_by type i s rest w)
    unfolding step_by
    step_by-linear channel s i rest k w plain nc calm h =
        simp (dispatch_channel-calm s w calm, next_index-linear s i plain)
          (h _ (notified-IsCalm (consents w.db.preferences s) s w calm))
    step_by-linear delay s i rest k w plain nc calm h =
        simp (next_index-linear s i plain, pause_run-calm s (suc i) w calm)
    step_by-linear condition s i rest k w plain nc calm h = absurd (nc refl)
    step_by-linear (unknown t) s i rest k w plain nc calm h = h w calm

    pub walk-stretch :
        (fuel visited : ℕ) (front rest : List Step) (w : World F)
        → steps ≡ front ++ rest
        → All IsLinear rest
        → visited + length rest ≤ max_iterations steps
        → length rest < fuel
        → IsCalm w
        → walk fl uuid ev steps run_id fuel visited (length front) w
          ≡ (ok tt, stretch (length steps) (length front) rest w)
    unfolding stretch run_step
    walk-stretch zero visited front rest w e lin room h calm = absurd (omega arith)
    walk-stretch (suc fuel) visited front [] w e lin room h calm =
        ap (λ (m : M F (Unit {0})). m w) (walk-end fuel visited (length front) out)
        ∙ complete_run-calm (length steps) w calm
      where
        out : get_elem? steps (length front) ≡ none
        out = rw (e ∙ append-nil front) (get_elem?-length front)
    walk-stretch (suc fuel) visited front (s ∷ ss) w e (plain, lin) room h calm =
        ap (λ (m : M F (Unit {0})). m w)
          (walk-round fuel visited (length front) s here (omega arith))
        ∙ step_by-linear s.type s (length front) (stretch (length steps) (suc (length front)) ss) _
            w plain.0 plain.1 calm
            (λ w' calm'. rw (← next) (
              walk-stretch fuel (suc visited) (front ++ s ∷ []) ss w'
                (e ∙ sym (append_assoc front (s ∷ []) ss)) lin (omega arith) (omega arith) calm'))
      where
        here : get_elem? steps (length front) ≡ some s
        here = rw e (get_elem?-append front s ss)

        next : length (front ++ s ∷ []) ≡ suc (length front)
        next = omega (arith, length-append front (s ∷ []))
