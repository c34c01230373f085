-- ===== src/Api/Events/Idempotent.antt =====
-- Requests with the same key (events.go).
use qeet_notify.Base.{ℕ, ◌≡◌, refl, Bool, true, false, Option, none, some, List, [], ◌∷◌, ◌++◌}
use qeet_notify.Base.Int.{ℤ, pos, ◌+ℤ◌, lt_ℤ}
use qeet_notify.Base.Text.{Str, str, str_eq, is_empty}
use qeet_notify.Api.Http.{reply}
use qeet_notify.Api.Events.{
  TriggerEventRequest, answered, going_on, accepted_body, held_answer, claim, release_idem,
  remember, queue_event, accept, trigger_event, idem_key, idempotency_pending, idempotency_ttl,
}
use qeet_notify.Api.Events.Answers.{event_message}
use qeet_notify.Platform.Cache.{lookup, remove, put, set_nx, get, set, del}
use qeet_notify.Platform.Cache.Keys.{
  lookup-put, lookup-remove, call-quiet, call-passes, call-breaks,
}
use qeet_notify.Platform.World.{
  Body, World, ok, err, CacheEntry, redis_failed, nats_failed, publish,
}
use qeet_notify.Platform.World.Calm.{publish-passes}

module _ {F : Type 0} where
  -- A request that names an event and a subscriber.
  pub record IsValid (q : TriggerEventRequest F) : Type 0 where
    pub has_event : is_empty q.event ≡ false
    pub has_subscriber : is_empty q.subscriber_id ≡ false

  abbrev pub in_flight : Str → Str → World F → List CacheEntry
  in_flight tenant_id key w =
      put w.now (idem_key tenant_id key) idempotency_pending idempotency_ttl w.redis

  abbrev pub answered_keys : Str → Str → World F → List CacheEntry
  answered_keys tenant_id key w =
      put w.now (idem_key tenant_id key) accepted_body idempotency_ttl (in_flight tenant_id key w)

  claim-fresh :
      (tenant_id : Str) (c : ℕ) (key : Str) (w : World F)
      → w.faults ≡ []
      → lookup w.now (idem_key tenant_id (c ∷ key)) w.redis ≡ none
      → claim true tenant_id (c ∷ key) w ≡ (
        ok (going_on (idem_key tenant_id (c ∷ key))),
        record w { redis = in_flight tenant_id (c ∷ key) w },
      )
  unfolding claim set_nx
  claim-fresh tenant_id c key w quiet free = simp (call-quiet redis_failed w quiet, free) refl

  claim-held :
      (tenant_id : Str) (c : ℕ) (key prev : Str) (w : World F)
      → w.faults ≡ []
      → lookup w.now (idem_key tenant_id (c ∷ key)) w.redis ≡ some prev
      → claim true tenant_id (c ∷ key) w ≡ (ok (answered (held_answer prev)), w)
  unfolding claim set_nx get
  claim-held tenant_id c key prev w quiet held = simp (call-quiet redis_failed w quiet, held) refl

  -- The first request with a key.
  trigger_event-fresh :
      (tenant_id : Str) (c : ℕ) (key : Str) (q : TriggerEventRequest F) (w : World F)
      → w.faults ≡ []
      → IsValid q
      → lookup w.now (idem_key tenant_id (c ∷ key)) w.redis ≡ none
      → trigger_event true (some tenant_id) (c ∷ key) (some q) w ≡ (
        ok (reply 202 accepted_body),
        record w {
          published = w.published ++ event_message tenant_id q ∷ [];
          redis = answered_keys tenant_id (c ∷ key) w;
        },
      )
  unfolding trigger_event accept queue_event remember set
  trigger_event-fresh tenant_id c key q w quiet valid free =
      simp
        (
          claim-fresh tenant_id c key w quiet free,
          valid.has_event,
          valid.has_subscriber,
          publish-passes _ _ (record w { redis = in_flight tenant_id (c ∷ key) w }) quiet,
          call-quiet redis_failed
              (record w {
                published = w.published ++ event_message tenant_id q ∷ [];
                redis = in_flight tenant_id (c ∷ key) w;
              })
              quiet,
        )
        refl

  publish-breaks :
      (subject : Str) (body : Body F) (w : World F) {fs : List Bool}
      → w.faults ≡ true ∷ fs
      → publish subject body w ≡ (err nats_failed, record w { faults = fs })
  unfolding publish
  publish-breaks subject body w h = simp (call-breaks nats_failed w h) refl

  -- The tables of keys after a request whose event could not be published.
  abbrev pub released : Str → Str → World F → List CacheEntry
  released tenant_id key w = remove (idem_key tenant_id key) (in_flight tenant_id key w)

  trigger_event-failed :
      (tenant_id : Str) (c : ℕ) (key : Str) (q : TriggerEventRequest F) (w : World F)
      → w.faults ≡ false ∷ true ∷ []
      → IsValid q
      → lookup w.now (idem_key tenant_id (c ∷ key)) w.redis ≡ none
      → trigger_event true (some tenant_id) (c ∷ key) (some q) w ≡ (
        ok (reply 500 (str "failed to queue event")),
        record w { faults = []; redis = released tenant_id (c ∷ key) w },
      )
  unfolding trigger_event claim set_nx accept queue_event release_idem del
  trigger_event-failed tenant_id c key q w faults valid free =
      simp
        (
          call-passes redis_failed w faults,
          free,
          valid.has_event,
          valid.has_subscriber,
          publish-breaks _ _
              (record w { faults = true ∷ []; redis = in_flight tenant_id (c ∷ key) w }) refl,
          call-quiet redis_failed
              (record w { faults = []; redis = in_flight tenant_id (c ∷ key) w }) refl,
        )
        refl

  trigger_event-held :
      (tenant_id : Str) (c : ℕ) (key : Str) (req : Option (TriggerEventRequest F)) (w : World F)
      → w.faults ≡ []
      → lookup w.now (idem_key tenant_id (c ∷ key)) w.redis ≡ some accepted_body
      → trigger_event true (some tenant_id) (c ∷ key) req w
        ≡ (ok (record { status = 202; body = accepted_body; replayed = true }), w)
  unfolding trigger_event held_answer str_eq
  trigger_event-held tenant_id c key req w quiet held =
      rw (claim-held tenant_id c key accepted_body w quiet held) refl

  trigger_event-freed :
      (tenant_id : Str) (c : ℕ) (key : Str) (w : World F)
      → w.faults ≡ false ∷ true ∷ []
      → lookup w.now (idem_key tenant_id (c ∷ key)) w.redis ≡ some idempotency_pending
      → trigger_event {F = F} true (some tenant_id) (c ∷ key) none w ≡ (
        ok (reply 400 (str "invalid json")),
        record w { faults = []; redis = remove (idem_key tenant_id (c ∷ key)) w.redis },
      )
  unfolding trigger_event claim set_nx get accept release_idem del
  trigger_event-freed tenant_id c key w faults held =
      simp
        (
          call-passes redis_failed w faults,
          held,
          call-breaks redis_failed (record w { faults = true ∷ [] }) refl,
          call-quiet redis_failed (record w { faults = [] }) refl,
        )
        refl

-- A request with a free key that names an event and a subscriber is accepted, and any request of the
-- same tenant with the same key within the next 24 hours, whatever its body, gets the first answer as
-- a replay and changes nothing, so that the event is published once; no call fails.
pub trigger_event-replay :
    {F : Type 0} (tenant_id : Str) (c : ℕ) (key : Str) (q : TriggerEventRequest F)
    (again : Option (TriggerEventRequest F)) (later : ℤ) (w : World F)
    → w.faults ≡ []
    → IsValid q
    → lookup w.now (idem_key tenant_id (c ∷ key)) w.redis ≡ none
    → lt_ℤ later (w.now +ℤ pos idempotency_ttl) ≡ true
    → let first = trigger_event true (some tenant_id) (c ∷ key) (some q) w in
      (first.0 ≡ ok (reply 202 accepted_body))
      × (first.1.published ≡ w.published ++ event_message tenant_id q ∷ [])
      × (trigger_event true (some tenant_id) (c ∷ key) again (record first.1 { now = later }) ≡ (
        ok (record { status = 202; body = accepted_body; replayed = true }),
        record first.1 { now = later },
      ))
trigger_event-replay tenant_id c key q again later w quiet valid free soon =
    rw (trigger_event-fresh tenant_id c key q w quiet valid free) (
      refl,
      refl,
      trigger_event-held tenant_id c key again
          (record w {
            published = w.published ++ event_message tenant_id q ∷ [];
            redis = answered_keys tenant_id (c ∷ key) w;
            now = later;
          })
          quiet
          (lookup-put w.now later (idem_key tenant_id (c ∷ key)) accepted_body idempotency_ttl _
            soon),
    )

-- When only the publishing of the event fails, the request is answered with 500 and its key is free
-- again: a request with the same key is accepted at any later time, and its event published.
pub trigger_event-retry :
    {F : Type 0} (tenant_id : Str) (c : ℕ) (key : Str) (q : TriggerEventRequest F) (later : ℤ)
    (w : World F)
    → w.faults ≡ false ∷ true ∷ []
    → IsValid q
    → lookup w.now (idem_key tenant_id (c ∷ key)) w.redis ≡ none
    → let first = trigger_event true (some tenant_id) (c ∷ key) (some q) w in
      let second =
        trigger_event true (some tenant_id) (c ∷ key) (some q) (record first.1 { now = later }) in
      (first.0 ≡ ok (reply 500 (str "failed to queue event")))
      × (first.1.published ≡ w.published)
      × (second.0 ≡ ok (reply 202 accepted_body))
      × (second.1.published ≡ w.published ++ event_message tenant_id q ∷ [])
trigger_event-retry tenant_id c key q later w faults valid free =
    rw
      (
        trigger_event-failed tenant_id c key q w faults valid free,
        trigger_event-fresh tenant_id c key q
            (record w { faults = []; redis = released tenant_id (c ∷ key) w; now = later }) refl
            valid (lookup-remove later (idem_key tenant_id (c ∷ key)) _),
      )
      (refl, refl, refl, refl)

-- A request with the key of another that is still in flight, whose body is no JSON and for which only
-- the reading of the key fails, is answered with 400 and frees the key that it does not own: the next
-- request with the key is accepted and its event published.
trigger_event-stolen :
    {F : Type 0} (tenant_id : Str) (c : ℕ) (key : Str) (q : TriggerEventRequest F) (w : World F)
    → w.faults ≡ false ∷ true ∷ []
    → IsValid q
    → lookup w.now (idem_key tenant_id (c ∷ key)) w.redis ≡ some idempotency_pending
    → let bad = trigger_event true (some tenant_id) (c ∷ key) none w in
      let next = trigger_event true (some tenant_id) (c ∷ key) (some q) bad.1 in
      (bad.0 ≡ ok (reply 400 (str "invalid json")))
      × (next.0 ≡ ok (reply 202 accepted_body))
      × (next.1.published ≡ w.published ++ event_message tenant_id q ∷ [])
trigger_event-stolen tenant_id c key q w faults valid held =
    rw
      (
        trigger_event-freed tenant_id c key w faults held,
        trigger_event-fresh tenant_id c key q
            (record w { faults = []; redis = remove (idem_key tenant_id (c ∷ key)) w.redis }) refl
            valid (lookup-remove w.now (idem_key tenant_id (c ∷ key)) w.redis),
      )
      (refl, refl, refl)
