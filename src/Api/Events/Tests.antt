-- ===== src/Api/Events/Tests.antt =====
-- The intake of events at concrete requests.
use qeet_notify.Base.{ℕ, ◌*◌, ◌≡◌, refl, true, false, none, some, [], ◌∷◌}
use qeet_notify.Base.Int.{pos}
use qeet_notify.Base.Text.{str}
use qeet_notify.Workflows.Json.{end}
use qeet_notify.Api.Http.{reply}
use qeet_notify.Api.Events.{TriggerEventRequest, accepted_body, trigger_event}
use qeet_notify.Api.Events.Answers.{event_message, Honest, trigger_event-Honest}
use qeet_notify.Api.Events.Idempotent.{IsValid, trigger_event-replay, trigger_event-retry}
use qeet_notify.Platform.Cache.{lookup}
use qeet_notify.Platform.Samples.{empty_db, calm_world}
use qeet_notify.Platform.World.{World, ok}

abbrev request : TriggerEventRequest ℕ
request = record { event = str "signup"; subscriber_id = str "u"; payload = end }

valid : IsValid request
valid = record { has_event = refl; has_subscriber = refl }

abbrev world : World ℕ
world = calm_world empty_db

-- An hour later.
abbrev later : ℕ
later = 3600 * 1000000000

trigger_event-Honest_example : Honest (str "t") (some request) [] (
    trigger_event true
      (some (str "t"))
      (str "k")
      (some request)
      (record world { faults = true ∷ [] }))
trigger_event-Honest_example =
    trigger_event-Honest true (str "t") (str "k") (some request)
      (record world { faults = true ∷ [] })

trigger_event-replay_example :
    let first = trigger_event true (some (str "t")) (str "k") (some request) world in
    (first.0 ≡ ok (reply 202 accepted_body))
    × (first.1.published ≡ event_message (str "t") request ∷ [])
    × (trigger_event true (some (str "t")) (str "k") none (record first.1 { now = pos later }) ≡ (
      ok (record { status = 202; body = accepted_body; replayed = true }),
      record first.1 { now = pos later },
    ))
unfolding lookup
trigger_event-replay_example =
    trigger_event-replay (str "t") 107 [] request none (pos later) world refl valid refl refl

abbrev unlucky : World ℕ
unlucky = record world { faults = false ∷ true ∷ [] }

trigger_event-retry_example :
    let first = trigger_event true (some (str "t")) (str "k") (some request) unlucky in
    let second =
      trigger_event true
        (some (str "t"))
        (str "k")
        (some request)
        (record first.1 { now = pos later }) in
    (first.0 ≡ ok (reply 500 (str "failed to queue event")))
    × (first.1.published ≡ [])
    × (second.0 ≡ ok (reply 202 accepted_body))
    × (second.1.published ≡ event_message (str "t") request ∷ [])
unfolding lookup
trigger_event-retry_example =
    trigger_event-retry (str "t") 107 [] request (pos later) unlucky refl valid refl
