-- ===== src/Channels/Notify.antt =====
-- What the channel workers record of a job: rows of notifications and delivery events.
pub mod Records
use qeet_notify.Base.{◌&&◌, Option, none, some, [], ◌∷◌, map, if◌then◌else◌}
use qeet_notify.Base.Text.{Str, str, str_eq}
use qeet_notify.Workflows.Types.{ChannelJob}
use qeet_notify.Platform.Tables.{Notification, sent, suppressed}
use qeet_notify.Platform.Messaging.{delivery_subject}
use qeet_notify.Platform.World.{
  World, M, Result, ok, err, Error, not_found, panicked, Message, delivery_body, pure, raise, try,
  modify, tx_call, publish, visible, ◌>>=◌, ◌>>◌,
}

-- UPDATE notifications … WHERE id = $n, under row-level security.
abbrev pub update_notification :
    {F : Type 0} → Str → (Notification → Notification) → World F → World F
update_notification id f w = record w {
  db = record w.db {
    notifications =
        map (λ n. if str_eq n.id id && visible w n.tenant_id then f n else n) w.db.notifications;
  };
}

abbrev pub sent_row : Str → Str → Notification → Notification
sent_row provider id n = record n { status = sent; provider = provider; provider_message_id = id }

abbrev pub event_type_of : Option Error → Str
event_type_of none = str "sent"
event_type_of (some e) = str "failed"

module _ {F : Type 0} where
  abbrev pub delivery_message : ChannelJob F → Str → Str → Option Error → Message F
  delivery_message job event_type provider send_err = record {
    subject = delivery_subject job.tenant_id;
    body = delivery_body (record {
      notification_id = job.notification_id;
      tenant_id = job.tenant_id;
      event_type = event_type;
      provider = provider;
      error = send_err;
    });
  }

  unfoldable pub record_delivery : ChannelJob F → Str → Str → Option Error → M F (Unit {0})
  record_delivery job event_type provider send_err = do
    r ← try (
        publish (delivery_message job event_type provider send_err).subject
          (delivery_message job event_type provider send_err).body)
    pure tt

  abbrev pub when_ok : Result (Unit {0}) → (World F → World F) → M F (Unit {0})
  when_ok (ok _) f = modify f
  when_ok (err e) f = pure tt

  -- The row of a notification that is not sent, and its delivery event.
  unfoldable pub mark_stopped : ChannelJob F → Str → Str → M F (Unit {0})
  mark_stopped job event_type provider = do
    r ← try tx_call
    when_ok r (update_notification job.notification_id (λ n. record n { status = suppressed }))
    record_delivery job event_type provider none

  abbrev pub mark_suppressed : ChannelJob F → M F (Unit {0})
  mark_suppressed job = mark_stopped job (str "suppressed") []

  -- A missing result with no error is the nil that result.ProviderMessageID dereferences.
  abbrev pub finish : ChannelJob F → Str → Option Str → Option Error → M F (Unit {0})
  finish job provider result (some e) = raise e
  finish job provider none none = raise panicked
  finish job provider (some id) none = do
    tx_call
    modify (update_notification job.notification_id (sent_row provider id))

  -- The address of the subscriber, decrypted; a missing row and an empty address are errors.
  abbrev pub address_or_error : Option Str → M F Str
  address_or_error none = raise not_found
  address_or_error (some []) = raise not_found
  address_or_error (some (c ∷ s)) = pure (c ∷ s)
