-- ===== src/Workflows/Engine/Behaviour.antt =====
-- What each action of the engine may publish, and that none is stopped for want of fuel (engine.go).
use qeet_notify.Base.{
  ℕ, ◌+◌, ◌≤◌, ◌≡◌, ◌≢◌, refl, sym, ap, ◌∙◌, inl, inr, Bool, true, false, List, [], ◌∷◌, ◌++◌,
  append_assoc, append-nil, arith, length, length-append, All, All-append, if◌then◌else◌,
}
use qeet_notify.Base.Int.{ℤ}
use qeet_notify.Base.Text.{Str}
use qeet_notify.Workflows.Json.{Floats}
use qeet_notify.Workflows.Types.{
  StepType, channel, delay, condition, unknown, Step, Event, ChannelJob,
}
use qeet_notify.Platform.World.{
  World, M, Result, ok, err, out_of_fuel, Message, job_body, pure, modify, continue, tx_call,
  publish, ◌>>=◌,
}
use qeet_notify.Platform.World.Effects.{
  tx_call-published, tx_call-error, publish-error, publish-published,
}
use qeet_notify.Platform.Messaging.{channel_subject}
use qeet_notify.Subscribers.Preferences.{is_opted_in}
use qeet_notify.Workflows.Engine.{
  channel_job, insert_notification, send_job, dispatch_channel, complete_run, fail_run, pause_run,
  step_by, run_step,
}

-- A job of this event, on the subject of its tenant and of the job's channel.
pub record IsOwn {F : Type 0} (ev : Event F) (m : Message F) : Type 0 where
  pub job : ChannelJob F
  pub body : m.body ≡ job_body job
  pub subject : m.subject ≡ channel_subject ev.tenant_id job.channel
  pub tenant : job.tenant_id ≡ ev.tenant_id
  pub subscriber : job.subscriber_id ≡ ev.subscriber_id
  pub payload : job.payload ≡ ev.payload

-- From `w` to `w'` at most `k` messages were published, all of them jobs of the event.
pub record Sends {F : Type 0} (ev : Event F) (k : ℕ) (w w' : World F) : Type 0 where
  pub sent : List (Message F)
  pub appended : w'.published ≡ w.published ++ sent
  pub own : All (IsOwn ev) sent
  pub few : length sent ≤ k

module _ {F : Type 0} (ev : Event F) where
  pub Sends-none : (k : ℕ) {w w' : World F} → w'.published ≡ w.published → Sends ev k w w'
  Sends-none k {w} h = record {
    sent = [];
    appended = h ∙ sym (append-nil w.published);
    own = tt;
    few = omega arith;
  }

  Sends-trans : (j k : ℕ) {u v w : World F} → Sends ev j u v → Sends ev k v w → Sends ev (j + k) u w
  Sends-trans j k {u} a b = record {
    sent = a.sent ++ b.sent;
    appended =
        b.appended ∙ ap (λ l. l ++ b.sent) a.appended ∙ append_assoc u.published a.sent b.sent;
    own = All-append (IsOwn ev) a.sent b.sent a.own b.own;
    few = omega (arith, length-append a.sent b.sent, a.few, b.few);
  }

  pub Sends-le : (j k : ℕ) {u v : World F} → j ≤ k → Sends ev j u v → Sends ev k u v
  Sends-le j k h s = record {
    sent = s.sent;
    appended = s.appended;
    own = s.own;
    few = omega (arith, s.few, h);
  }

  -- Whatever the world, the action publishes at most `k` messages, jobs of the event, and is not
  -- stopped for want of fuel.
  pub record Behaves {A : Type 0} (k : ℕ) (m : M F A) : Type 0 where
    pub sends : (w : World F) → Sends ev k w (m w).1
    pub ends : (w : World F) → (m w).0 ≢ err out_of_fuel

  pub Behaves-pure : {A : Type 0} (k : ℕ) (a : A) → Behaves k (pure a)
  Behaves-pure k a = record { sends = λ w. Sends-none k refl; ends = λ w e. cc }

  Behaves-modify :
      (k : ℕ) (f : World F → World F)
      → ((w : World F) → (f w).published ≡ w.published)
      → Behaves k (modify f)
  Behaves-modify k f h = record { sends = λ w. Sends-none k (h w); ends = λ w e. cc }

  module _ {A B : Type 0} (j k : ℕ) (m : M F A) (f : A → M F B) (hm : Behaves j m)
      (hf : (a : A) → Behaves k (f a)) where
    continue-Sends :
        (w : World F) (r : Result A) {w' : World F}
        → Sends ev j w w'
        → Sends ev (j + k) w (continue r f w').1
    continue-Sends w (ok a) {w'} s = Sends-trans j k s ((hf a).sends w')
    continue-Sends w (err e) s = Sends-le j (j + k) (omega arith) s

    continue-ends :
        (r : Result A) (w' : World F) → r ≢ err out_of_fuel → (continue r f w').0 ≢ err out_of_fuel
    continue-ends (ok a) w' h = (hf a).ends w'
    continue-ends (err e) w' h = λ p. h (ground arith)

    pub Behaves-bind : Behaves (j + k) (m >>= f)
    Behaves-bind = record {
      sends = λ w. continue-Sends w (m w).0 (hm.sends w);
      ends = λ w. continue-ends (m w).0 (m w).1 (hm.ends w);
    }

  Behaves-tx_call : Behaves 0 tx_call
  Behaves-tx_call = record {
    sends = λ w. Sends-none 0 (tx_call-published w);
    ends = λ w. ground (arith, tx_call-error w);
  }

  pub Behaves-if :
      {A : Type 0} (k : ℕ) (b : Bool) (m n : M F A)
      → Behaves k m
      → Behaves k n
      → Behaves k (if b then m else n)
  Behaves-if k true m n hm hn = hm
  Behaves-if k false m n hm hn = hn

  pub Behaves-le : {A : Type 0} (j k : ℕ) {m : M F A} → j ≤ k → Behaves j m → Behaves k m
  Behaves-le j k h b = record { sends = λ w. Sends-le j k h (b.sends w); ends = b.ends }

  Behaves-is_opted_in : (t s ch cat : Str) → Behaves 0 (is_opted_in t s ch cat)
  unfolding is_opted_in
  Behaves-is_opted_in t s ch cat = record {
    sends = λ w. Sends-none 0 (tx_call-published w);
    ends = λ w e. cc;
  }

module _ {F : Type 0} (fl : Floats F) (uuid : ℕ → Str) (ev : Event F) where
  -- The job of a step, as dispatchChannel sends it.
  Behaves-publish :
      (step : Step) (id : Str)
      → Behaves ev 1 (
          publish
            (channel_subject ev.tenant_id step.channel)
            (job_body (channel_job fl uuid ev step id)))
  Behaves-publish step id = record {
    sends = λ w.
        elim (publish-published (channel_subject ev.tenant_id step.channel)
          (job_body (channel_job fl uuid ev step id)) w) [
            | inl e ↦ Sends-none ev 1 e
            | inr e ↦ record {
              sent =
                  record {
                    subject = channel_subject ev.tenant_id step.channel;
                    body = job_body (channel_job fl uuid ev step id);
                  }
                  ∷ [];
              appended = e;
              own = (
                record {
                  job = channel_job fl uuid ev step id;
                  body = refl;
                  subject = refl;
                  tenant = refl;
                  subscriber = refl;
                  payload = refl;
                },
                tt,
              );
              few = omega arith;
            }
          ];
    ends = λ w. ground (
      arith,
      publish-error (channel_subject ev.tenant_id step.channel)
          (job_body (channel_job fl uuid ev step id)) w,
    );
  }

  Behaves-insert :
      (step : Step) (run_id : Str) → Behaves ev 0 (insert_notification fl uuid ev step run_id)
  unfolding insert_notification
  Behaves-insert step run_id = record {
    sends = λ w. Sends-none ev 0 (ground (arith, tx_call-published w));
    ends = λ w. ground (arith, tx_call-error w);
  }

  Behaves-send_job : (step : Step) (run_id : Str) → Behaves ev 1 (send_job fl uuid ev step run_id)
  unfolding send_job
  Behaves-send_job step run_id =
      Behaves-bind ev 0 1 _ _ (Behaves-insert step run_id) (λ id. Behaves-publish step id)

  Behaves-dispatch_channel :
      (step : Step) (run_id : Str) → Behaves ev 1 (dispatch_channel fl uuid ev step run_id)
  unfolding dispatch_channel
  Behaves-dispatch_channel step run_id =
      Behaves-bind ev 0 1 _ _ (Behaves-is_opted_in ev _ _ _ _)
        (λ b. Behaves-if ev 1 b _ _ (Behaves-send_job step run_id) (Behaves-pure ev 1 tt))

  Behaves-pause_run :
      (run_id : Str) (delay_seconds : ℤ) (next : ℕ)
      → Behaves ev 0 (pause_run fl uuid run_id delay_seconds next)
  unfolding pause_run
  Behaves-pause_run run_id delay_seconds next =
      Behaves-bind ev 0 0 _ _ (Behaves-tx_call ev) (λ _. Behaves-modify ev 0 _ (λ w. refl))

  pub Behaves-fail_run : (run_id reason : Str) → Behaves ev 0 (fail_run fl uuid run_id reason)
  unfolding fail_run
  Behaves-fail_run run_id reason =
      Behaves-bind ev 0 0 _ _ (Behaves-tx_call ev) (λ _. Behaves-modify ev 0 _ (λ w. refl))

  pub Behaves-complete_run : (run_id : Str) (n : ℕ) → Behaves ev 0 (complete_run fl uuid run_id n)
  unfolding complete_run
  Behaves-complete_run run_id n =
      Behaves-bind ev 0 0 _ _ (Behaves-tx_call ev) (λ _. Behaves-modify ev 0 _ (λ w. refl))

  step_by-Behaves :
      (type : StepType) (steps : List Step) (run_id : Str) (step : Step) (i : ℕ)
      → Behaves ev 1 (step_by fl uuid type ev steps run_id step i)
  unfolding step_by
  step_by-Behaves channel steps run_id step i =
      Behaves-bind ev 1 0 _ _ (Behaves-dispatch_channel step run_id) (λ _. Behaves-pure ev 0 _)
  step_by-Behaves delay steps run_id step i =
      Behaves-bind ev 0 1 _ _ (Behaves-pause_run run_id step.delay_seconds _)
        (λ _. Behaves-pure ev 1 _)
  step_by-Behaves condition steps run_id step i = Behaves-pure ev 1 _
  step_by-Behaves (unknown t) steps run_id step i = Behaves-pure ev 1 _

  pub Behaves-run_step :
      (steps : List Step) (run_id : Str) (step : Step) (i : ℕ)
      → Behaves ev 1 (run_step fl uuid ev steps run_id step i)
  unfolding run_step
  Behaves-run_step steps run_id step i = step_by-Behaves step.type steps run_id step i
