-- ===== src/Platform/Messaging/Tests.antt =====
-- The theorems about messages at concrete inputs.
use qeet_notify.Base.{ℕ, ◌≤◌, ◌≡◌, refl, ◌⊎◌, some, [], ◌∷◌}
use qeet_notify.Base.Text.{str}
use qeet_notify.Platform.Samples.{empty_db, calm_world}
use qeet_notify.Platform.World.{World, ok}
use qeet_notify.Platform.Messaging.{channel_subject}
use qeet_notify.Platform.Messaging.Failure.{
  Msg, nak, term, handle_failure, failures, count_from, dead_message, handle_failure-keeps,
  failures-all,
}

abbrev job : Msg
job = record {
  subject = channel_subject (str "t") (str "sms");
  content = str "{}";
  delivered = some 5;
}

abbrev calm : World ℕ
calm = calm_world empty_db

handle_failure-keeps_example :
    let out = handle_failure job 5 (some (str "refused")) calm in
    ((out.0 ≡ ok nak) × (out.1.published ≡ []))
    ⊎ ((5 ≤ 5)
        × (out.0 ≡ ok term)
        × (out.1.published ≡ dead_message job (some (str "refused")) ∷ []))
handle_failure-keeps_example = handle_failure-keeps job 5 (some (str "refused")) calm

failures-all_example : failures job 3 (some (str "refused")) (count_from 1 3) calm ≡ (
  ok (nak ∷ nak ∷ term ∷ []),
  record calm {
    published = dead_message (record job { delivered = some 3 }) (some (str "refused")) ∷ [];
  },
)
failures-all_example =
    failures-all job 2 (str "refused") calm (record { healthy = refl; answers = refl })
