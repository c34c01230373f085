-- ===== src/Api/Events/Answers.antt =====
-- What an answer tells of the event, whichever calls fail (events.go).
use qeet_notify.Base.{
  ℕ, ◌≡◌, refl, ◌∙◌, ◌⊎◌, inl, inr, Bool, true, false, not, ◌&&◌, ◌||◌, ◌==◌, Option, none, some,
  List, [], ◌∷◌, ◌++◌, Bool-cases,
}
use qeet_notify.Base.Text.{Str, str_eq, is_empty}
use qeet_notify.Api.Http.{Response, reply}
use qeet_notify.Api.Events.{
  TriggerEventRequest, Claim, answered, going_on, accepted_body, held_answer, duplicate, claimed,
  claim, release_idem, remember, refuse, event_of, queue_event, accept, decided, trigger_event,
  idem_key, idempotency_pending,
}
use qeet_notify.Platform.Cache.{get}
use qeet_notify.Platform.Cache.Keys.{set_nx-published, get-published, set-published, del-published}
use qeet_notify.Platform.Messaging.{event_subject}
use qeet_notify.Platform.World.{World, Result, ok, err, Message, event_body, publish, nats_failed}
use qeet_notify.Platform.World.Effects.{call-published, call-error}

abbrev Fair : Claim → Type 0
Fair (answered r) = (r.status == 202 && not r.replayed) ≡ false
Fair (going_on key) = Unit

held_answer-fair :
    (prev : Str) → ((held_answer prev).status == 202 && not (held_answer prev).replayed) ≡ false
unfolding held_answer
held_answer-fair prev = elim (Bool-cases (str_eq prev idempotency_pending)) [
  | inl e ↦ rw e refl
  | inr e ↦ rw e refl
]

duplicate-Fair : (key : Str) (r : Result (Option Str)) → Fair (duplicate key r)
duplicate-Fair key (ok (some prev)) = held_answer-fair prev
duplicate-Fair key (ok none) = tt
duplicate-Fair key (err e) = tt

module _ {F : Type 0} where
  abbrev pub event_message : Str → TriggerEventRequest F → Message F
  event_message tenant_id q = record {
    subject = event_subject tenant_id;
    body = event_body (event_of tenant_id q);
  }

  -- An answer that is no fresh 202, with nothing published, or a fresh 202 with the event published.
  abbrev pub Honest :
      Str → Option (TriggerEventRequest F) → List (Message F) → Result Response × World F → Type 0
  Honest tenant_id req before (r, v) =
      ((v.published ≡ before)
        × (a : Response) × (r ≡ ok a)
        × ((a.status == 202 && not a.replayed) ≡ false))
      ⊎ (q : TriggerEventRequest F) × (req ≡ some q)
        × (v.published ≡ before ++ event_message tenant_id q ∷ [])
        × (r ≡ ok (reply 202 accepted_body))

  publish-cases :
      (m : Message F) (w : World F)
      → (((publish m.subject m.body w).0 ≡ ok tt)
          × ((publish m.subject m.body w).1.published ≡ w.published ++ m ∷ []))
        ⊎ (((publish m.subject m.body w).0 ≡ err nats_failed)
            × ((publish m.subject m.body w).1.published ≡ w.published))
  unfolding publish
  publish-cases m w = elim (call-error nats_failed w) [
    | inl e ↦ simp (e, call-published nats_failed w) (inl (refl, refl))
    | inr e ↦ simp (e, call-published nats_failed w) (inr (refl, refl))
  ]

  release_idem-quiet :
      (key : Str) (w : World F)
      → ((release_idem key w).0 ≡ ok tt) × ((release_idem key w).1.published ≡ w.published)
  unfolding release_idem
  release_idem-quiet [] w = (refl, refl)
  release_idem-quiet (c ∷ key) w = (refl, del-published (c ∷ key) w)

  remember-quiet :
      (key : Str) (w : World F)
      → ((remember key w).0 ≡ ok tt) × ((remember key w).1.published ≡ w.published)
  unfolding remember
  remember-quiet [] w = (refl, refl)
  remember-quiet (c ∷ key) w = (refl, set-published (c ∷ key) _ _ w)

  refuse-Honest :
      (tenant_id key : Str) (status : ℕ) (body : Str) (req : Option (TriggerEventRequest F))
      (before : List (Message F)) (w : World F)
      → (status == 202) ≡ false
      → w.published ≡ before
      → Honest tenant_id req before (refuse key status body w)
  refuse-Honest tenant_id key status body req before w h same =
      rw (release_idem-quiet key w).0
        (inl ((release_idem-quiet key w).1 ∙ same, _, refl, rw h refl))

  queue_event-Honest :
      (tenant_id key : Str) (q : TriggerEventRequest F) (w : World F)
      → Honest tenant_id (some q) w.published (queue_event tenant_id key q w)
  unfolding queue_event
  queue_event-Honest tenant_id key q w =
      let u = (publish (event_subject tenant_id) (event_body (event_of tenant_id q)) w).1 in
      elim (publish-cases (event_message tenant_id q) w) [
        | inl (good, grown) ↦
            rw (good, (remember-quiet key u).0)
              (inr (q, refl, (remember-quiet key u).1 ∙ grown, refl))
        | inr (bad, same) ↦ rw bad (refuse-Honest tenant_id key 500 _ (some q) _ u refl same)
      ]

  accept-Honest :
      (tenant_id key : Str) (req : Option (TriggerEventRequest F)) (w : World F)
      → Honest tenant_id req w.published (accept tenant_id key req w)
  unfolding accept
  accept-Honest tenant_id key none w = refuse-Honest tenant_id key 400 _ none _ w refl refl
  accept-Honest tenant_id key (some q) w = elim (Bool-cases (is_empty q.event)) [
    | inl e ↦ rw e (refuse-Honest tenant_id key 422 _ (some q) _ w refl refl)
    | inr e ↦ rw e (elim (Bool-cases (is_empty q.subscriber_id)) [
      | inl e ↦ rw e (refuse-Honest tenant_id key 422 _ (some q) _ w refl refl)
      | inr e ↦ rw e (queue_event-Honest tenant_id key q w)
    ])
  ]

  abbrev Decides : List (Message F) → Result Claim × World F → Type 0
  Decides before (r, v) = (v.published ≡ before) × (c : Claim) × (r ≡ ok c) × Fair c

  claimed-Decides :
      (key : Str) (r : Result Bool) (before : List (Message F)) (w : World F)
      → w.published ≡ before
      → Decides before (claimed key r w)
  claimed-Decides key (err e) before w h = (h, _, refl, tt)
  claimed-Decides key (ok true) before w h = (h, _, refl, tt)
  claimed-Decides key (ok false) before w h =
      (get-published key w ∙ h, _, refl, duplicate-Fair key (get key w).0)

  claim-Decides :
      (has_redis : Bool) (tenant_id key : Str) (w : World F)
      → Decides w.published (claim has_redis tenant_id key w)
  unfolding claim
  claim-Decides has_redis tenant_id key w = elim (Bool-cases (is_empty key || not has_redis)) [
    | inl e ↦ rw e (refl, _, refl, tt)
    | inr e ↦ rw e (claimed-Decides (idem_key tenant_id key) _ _ _ (set_nx-published _ _ _ w))
  ]

  decided-Honest :
      (tenant_id : Str) (req : Option (TriggerEventRequest F)) (c : Claim)
      (before : List (Message F)) (w : World F)
      → Fair c
      → w.published ≡ before
      → Honest tenant_id req before (decided tenant_id req c w)
  decided-Honest tenant_id req (answered a) before w fair h = inl (h, a, refl, fair)
  decided-Honest tenant_id req (going_on key) before w fair h =
      rw (← h) (accept-Honest tenant_id key req w)

-- Whichever calls of Redis and NATS fail, the intake answers, and its answer is honest: a 202 that is
-- no replay comes with one message, the event of the request on the tenant's subject, published; with
-- every other answer nothing is published.
pub trigger_event-Honest :
    {F : Type 0} (has_redis : Bool) (tenant_id key : Str) (req : Option (TriggerEventRequest F))
    (w : World F)
    → Honest tenant_id req w.published (trigger_event has_redis (some tenant_id) key req w)
unfolding trigger_event
trigger_event-Honest has_redis tenant_id key req w =
    let (same, c, e, fair) = claim-Decides has_redis tenant_id key w in
    rw e (decided-Honest tenant_id req c w.published (claim has_redis tenant_id key w).1 fair same)
