-- ===== src/Api/Events.antt =====
-- platform/api/handler/events.go: the intake of events, with Idempotency-Key.
pub mod Answers
pub mod Idempotent
mod Tests
use qeet_notify.Base.{
  ℕ, ◌*◌, Bool, true, false, not, ◌||◌, Option, none, some, [], ◌∷◌, ◌++◌, if◌then◌else◌,
}
use qeet_notify.Base.Text.{Str, str, str_eq, is_empty}
use qeet_notify.Workflows.Json.{Fields}
use qeet_notify.Workflows.Types.{Event}
use qeet_notify.Api.Http.{Response, reply}
use qeet_notify.Platform.Cache.{set_nx, get, set, del}
use qeet_notify.Platform.Messaging.{event_subject}
use qeet_notify.Platform.World.{
  World, M, Result, ok, err, event_body, pure, try, publish, ◌>>=◌, ◌>>◌,
}

pub record TriggerEventRequest (F : Type 0) : Type 0 where
  pub event : Str
  pub subscriber_id : Str
  pub payload : Fields F

-- 24 hours in nanoseconds.
abbrev pub idempotency_ttl : ℕ
idempotency_ttl = 86400 * 1000000000

abbrev pub idempotency_pending : Str
idempotency_pending = str "__pending__"

abbrev pub accepted_body : Str
accepted_body = str "{\"status\":\"accepted\"}"

abbrev pub idem_key : Str → Str → Str
idem_key tenant_id key = str "idem:" ++ (tenant_id ++ (str ":" ++ key))

-- What the claim of a key decides: an answer, or going on with the key to release or to fill; the
-- empty key is none.
pub data Claim : Type 0 where
  answered : Response → Claim
  going_on : Str → Claim

-- The cached answer of a key that is held: 409 while the first request is in flight, else a replay.
unfoldable pub held_answer : Str → Response
held_answer prev =
    if str_eq prev idempotency_pending
    then reply 409 (str "a request with this Idempotency-Key is still being processed")
    else record { status = 202; body = prev; replayed = true }

abbrev duplicate : Str → Result (Option Str) → Claim
duplicate key (ok (some prev)) = answered (held_answer prev)
duplicate key (ok none) = going_on key
duplicate key (err e) = going_on key

module _ {F : Type 0} where
  abbrev claimed : Str → Result Bool → M F Claim
  claimed key (err e) = pure (going_on [])
  claimed key (ok true) = pure (going_on key)
  claimed key (ok false) = do r ← try (get key); pure (duplicate key r)

  unfoldable pub claim : Bool → Str → Str → M F Claim
  claim has_redis tenant_id key = if is_empty key || not has_redis then pure (going_on []) else do
    r ← try (set_nx (idem_key tenant_id key) idempotency_pending idempotency_ttl)
    claimed (idem_key tenant_id key) r

  unfoldable pub release_idem : Str → M F (Unit {0})
  release_idem key = if is_empty key then pure tt else try (del key) >> pure tt

  abbrev refuse : Str → ℕ → Str → M F Response
  refuse key status body = release_idem key >> pure (reply status body)

  abbrev event_of : Str → TriggerEventRequest F → Event F
  event_of tenant_id req = record {
    tenant_id = tenant_id;
    subscriber_id = req.subscriber_id;
    event = req.event;
    payload = req.payload;
    run_id = [];
  }

  unfoldable pub remember : Str → M F (Unit {0})
  remember key =
      if is_empty key then pure tt else try (set key accepted_body idempotency_ttl) >> pure tt

  abbrev queued : Str → Result (Unit {0}) → M F Response
  queued key (err e) = refuse key 500 (str "failed to queue event")
  queued key (ok _) = remember key >> pure (reply 202 accepted_body)

  unfoldable pub queue_event : Str → Str → TriggerEventRequest F → M F Response
  queue_event tenant_id key req = do
    r ← try (publish (event_subject tenant_id) (event_body (event_of tenant_id req)))
    queued key r

  -- The body of the request, none where it is no JSON of its type.
  unfoldable pub accept : Str → Str → Option (TriggerEventRequest F) → M F Response
  accept tenant_id key none = refuse key 400 (str "invalid json")
  accept tenant_id key (some req) =
      if is_empty req.event
      then refuse key 422 (str "event is required")
      else if is_empty req.subscriber_id
      then refuse key 422 (str "subscriber_id is required")
      else queue_event tenant_id key req

  abbrev decided : Str → Option (TriggerEventRequest F) → Claim → M F Response
  decided tenant_id req (answered r) = pure r
  decided tenant_id req (going_on key) = accept tenant_id key req

  -- `key` is the header Idempotency-Key, empty where it is missing.
  unfoldable pub trigger_event :
      Bool → Option Str → Str → Option (TriggerEventRequest F) → M F Response
  trigger_event has_redis none key req = pure (reply 401 (str "missing tenant context"))
  trigger_event has_redis (some tenant_id) key req =
      claim has_redis tenant_id key >>= decided tenant_id req
