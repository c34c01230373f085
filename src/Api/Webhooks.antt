-- ===== src/Api/Webhooks.antt =====
-- platform/api/handler/webhooks.go: what the email providers report of a message. JSON and SHA-256
-- are parameters.
pub mod Bounces
mod Tests
use qeet_notify.Base.{
  Bool, true, false, not, ◌&&◌, ◌||◌, Option, none, some, List, [], ◌∷◌, ◌++◌, map, if◌then◌else◌,
  any,
}
use qeet_notify.Base.Text.{Str, str, str_eq, is_empty}
use qeet_notify.Workflows.Json.{Value, text, array, object, Items, nil, cons, Fields, get_key}
use qeet_notify.Api.Http.{Response, reply}
use qeet_notify.Channels.Notify.{update_notification}
use qeet_notify.Channels.Routing.{notify_decrypt}
use qeet_notify.Subscribers.Preferences.{add_suppression}
use qeet_notify.Platform.Database.{run_in_tenant}
use qeet_notify.Platform.Tables.{
  Notification, NotificationStatus, pending, queued, sent, delivered, failed, skipped, suppressed,
  Subscriber,
}
use qeet_notify.Platform.World.{
  World, M, Result, ok, err, db_failed, pure, gets, try, modify, pool_call, tx_call, visible, ◌>>=◌,
  ◌>>◌,
}

abbrev pub text_or_empty : {F : Type 0} → Value F → Str
text_or_empty (text s) = s
text_or_empty v = []

abbrev first_id : {F : Type 0} → Items F → Str
first_id nil = []
first_id (cons (object m) items) = text_or_empty (get_key (str "messageId") m)
first_id (cons v items) = []

abbrev recipient_id : {F : Type 0} → Value F → Str
recipient_id (array items) = first_id items
recipient_id v = []

abbrev bounce_id : {F : Type 0} → Value F → Str
bounce_id (object b) = recipient_id (get_key (str "bouncedRecipients") b)
bounce_id v = []

abbrev mail_id : {F : Type 0} → Value F → Str
mail_id (object m) = text_or_empty (get_key (str "messageId") m)
mail_id v = []

module _ {F : Type 0} (parse : Str → Option (Fields F)) where
  abbrev parsed_or : Fields F → Option (Fields F) → Fields F
  parsed_or payload none = payload
  parsed_or payload (some inner) = inner

  -- The notification inside an SNS envelope.
  abbrev pub unwrapped : Fields F → Value F → Fields F
  unwrapped payload (text msg) = parsed_or payload (parse msg)
  unwrapped payload v = payload

  unfoldable pub ses_event : Fields F → Str × Str
  ses_event payload =
      let kind = text_or_empty (get_key (str "notificationType") payload) in
      if str_eq kind (str "Bounce")
      then (str "bounced", bounce_id (get_key (str "bounce") payload))
      else if str_eq kind (str "Complaint")
      then (str "complained", [])
      else if str_eq kind (str "Delivery")
      then (str "delivered", mail_id (get_key (str "mail") payload))
      else ([], [])

  unfoldable pub resend_event : Fields F → Str × Str
  resend_event payload =
      let id = text_or_empty (get_key (str "email_id") payload) in
      let kind = text_or_empty (get_key (str "type") payload) in
      if str_eq kind (str "email.bounced")
      then (str "bounced", id)
      else if str_eq kind (str "email.complained")
      then (str "complained", id)
      else if str_eq kind (str "email.delivered")
      then (str "delivered", id)
      else if str_eq kind (str "email.opened")
      then (str "opened", id)
      else if str_eq kind (str "email.clicked")
      then (str "clicked", id)
      else ([], [])

  unfoldable pub extract_email_event : Str → Fields F → Str × Str
  unfolding ses_event resend_event
  extract_email_event provider payload =
      if str_eq provider (str "ses")
      then ses_event (unwrapped payload (get_key (str "Message") payload))
      else if str_eq provider (str "resend")
      then resend_event payload
      else ([], [])

  abbrev handled : Str × Str → Response × Option (Str × Str)
  handled (event_type, id) =
      if is_empty event_type || is_empty id
      then (reply 200 [], none)
      else (reply 200 [], some (event_type, id))

  -- The answer, and the event and message id that a goroutine goes on to process. The body of the
  -- request is none where it cannot be read.
  unfoldable pub inbound_email_webhook : Str → Option Str → Response × Option (Str × Str)
  inbound_email_webhook provider none = (reply 400 (str "read body"), none)
  inbound_email_webhook provider (some body) = decoded (parse body)
    where
      decoded : Option (Fields F) → Response × Option (Str × Str)
      decoded none = (reply 400 (str "invalid json"), none)
      decoded (some payload) = handled (extract_email_event provider payload)

-- The texts that the check of the column status allows.
unfoldable pub status_of : Str → Option NotificationStatus
status_of s =
    if str_eq s (str "pending")
    then some pending
    else if str_eq s (str "queued")
    then some queued
    else if str_eq s (str "sent")
    then some sent
    else if str_eq s (str "delivered")
    then some delivered
    else if str_eq s (str "failed")
    then some failed
    else if str_eq s (str "skipped")
    then some skipped
    else if str_eq s (str "suppressed")
    then some suppressed
    else none

abbrev pub is_bad : Str → Bool
is_bad event_type = str_eq event_type (str "bounced") || str_eq event_type (str "complained")

abbrev pub reason_of : Str → Str
reason_of event_type =
    if str_eq event_type (str "complained") then str "spam_complaint" else str "hard_bounce"

unfoldable pub find_message : Str → Str → List Notification → Option Notification
find_message id provider [] = none
find_message id provider (n ∷ ns) =
    if str_eq n.provider_message_id id && str_eq n.provider provider
    then some n
    else find_message id provider ns

abbrev plain_or_empty : Result (Unit {0}) → Str → Str
plain_or_empty (err e) plain = []
plain_or_empty (ok _) plain = plain

module _ {F : Type 0} (decrypt : Str → Str → Option Str) (hash_value : Str → Str) where
  -- SELECT COALESCE(notify_decrypt(email_encrypted, $2), '') … WHERE id = $1.
  unfoldable pub find_plain : Str → Str → World F → List (Subscriber F) → Str
  find_plain enc_key id w [] = []
  find_plain enc_key id w (s ∷ ss) =
      if str_eq s.id id && visible w s.tenant_id
      then notify_decrypt decrypt s.email_encrypted enc_key
      else find_plain enc_key id w ss

  unfoldable pub record_event : Notification → Str → Str → M F (Unit {0})
  record_event n event_type provider = do
    tx_call
    modify (λ w. record w {
      db = record w.db {
        delivery_events =
            w.db.delivery_events
            ++ record {
              tenant_id = n.tenant_id;
              notification_id = n.id;
              event_type = event_type;
              provider = provider;
              occurred_at = w.now;
            }
              ∷ [];
      };
    })

  unfoldable pub suppress_bad : Notification → Str → Str → M F (Unit {0})
  suppress_bad n event_type plain =
      if is_bad event_type && not (is_empty plain)
      then try (add_suppression hash_value n.tenant_id (str "email") plain (reason_of event_type))
        >> pure tt
      else pure tt

  -- Setting a status that the check does not allow fails where there is a row to set.
  abbrev checked : Notification → Option NotificationStatus → M F (Unit {0})
  checked n (some s) w = (ok tt, update_notification n.id (λ m. record m { status = s }) w)
  checked n none w =
      if any (λ m. str_eq m.id n.id && visible w m.tenant_id) w.db.notifications
      then (err db_failed, record w { aborted = true })
      else (ok tt, w)

  unfoldable pub set_status : Notification → Str → M F (Unit {0})
  unfolding status_of
  set_status n event_type = do
    tx_call
    checked n (status_of (if is_bad event_type then str "failed" else event_type))

  unfoldable pub apply_event : Str → Notification → Str → Str → M F (Unit {0})
  unfolding find_plain
  apply_event enc_key n event_type provider = do
    r ← try tx_call
    plain ← gets (λ w. plain_or_empty r (find_plain enc_key n.subscriber_id w w.db.subscribers))
    s ← try (record_event n event_type provider)
    suppress_bad n event_type plain
    u ← try (set_status n event_type)
    pure tt

  abbrev processed : Str → Str → Str → Option Notification → M F (Unit {0})
  processed enc_key event_type provider none = pure tt
  processed enc_key event_type provider (some n) =
      try (run_in_tenant n.tenant_id (apply_event enc_key n event_type provider)) >> pure tt

  abbrev looked_up : Str → Str → Str → Str → Result (Unit {0}) → M F (Unit {0})
  looked_up enc_key provider id event_type (err e) = pure tt
  looked_up enc_key provider id event_type (ok _) = do
    found ← gets (λ w. find_message id provider w.db.notifications)
    processed enc_key event_type provider found

  unfoldable pub process_email_event : Str → Str → Str → Str → M F (Unit {0})
  unfolding find_message
  process_email_event enc_key provider id event_type = do
    r ← try pool_call
    looked_up enc_key provider id event_type r

  -- The goroutine runs behind the answer.
  abbrev handed_on : Str → Str → Response × Option (Str × Str) → M F Response
  handed_on enc_key provider (a, none) = pure a
  handed_on enc_key provider (a, some (event_type, id)) =
      try (process_email_event enc_key provider id event_type) >> pure a

  -- The whole of InboundEmailWebhook.
  unfoldable pub receive_email_webhook :
      (Str → Option (Fields F)) → Str → Str → Option Str → M F Response
  receive_email_webhook parse enc_key provider body =
      handed_on enc_key provider (inbound_email_webhook parse provider body)
