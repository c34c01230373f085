-- ===== src/Channels/Sms/Promotional.antt =====
-- Promotional SMS: the registry of numbers, the hours, and the query that guards both (worker.go).
use qeet_notify.Base.{
  ℕ, ◌≡◌, refl, Bool, true, false, none, some, List, [], ◌∷◌, ◌++◌, if◌then◌else◌, ◌∙◌, inl, inr,
  Bool-cases, Option-cases, ◌+◌, ◌-◌, ◌%◌, leb, ltb, any, map, ◌&&◌, arith,
}
use qeet_notify.Base.Int.{pos}
use qeet_notify.Base.Text.{Str, str, str_eq}
use qeet_notify.Workflows.Types.{ChannelJob}
use qeet_notify.Compliance.Dlt.{
  load_approved_templates, match_template, is_promotional_window_open, until_next_window,
  time_of_day,
}
use qeet_notify.Compliance.Ndnc.{registered, is_registered}
use qeet_notify.Channels.Notify.{
  mark_stopped, update_notification, delivery_message, record_delivery,
}
use qeet_notify.Channels.Rendering.{fetch, find_template}
use qeet_notify.Channels.Sms.{
  Outside, Worker, find_phone, find_row, send_in_window, send_promotional, send_matched,
  match_and_send, handle_job, Provider, name, sender_of, sms_for, providers_from,
}
use qeet_notify.Channels.Sms.Accepted.{query_text-calm, send_now-calm, sms_sent}
use qeet_notify.Channels.Sms.Reading.{approved}
use qeet_notify.Subscribers.Preferences.{is_suppressed, listed}
use qeet_notify.Platform.Tables.{DltRow, Template, Notification, sent, suppressed}
use qeet_notify.Platform.World.{World, Message, delivery_body, visible, ok, tx_call}
use qeet_notify.Platform.Messaging.{delivery_subject}
use qeet_notify.Channels.Types.{SmsMessage, sms_out}
use qeet_notify.Channels.Routing.{active_records}
use qeet_notify.Platform.World.Calm.{IsCalm, tx_call-calm, publish-calm}

module _ {F R : Type 0} (o : Outside F R) (worker : Worker) where
  -- The first four statements succeed, with these outcomes left behind each.
  pub record Reaches (w : World F) (a b c d : List Bool) : Type 0 where
    pub one : tx_call w ≡ (ok tt, record w { faults = a })
    pub two : tx_call (record w { faults = a }) ≡ (ok tt, record w { faults = b })
    pub three : tx_call (record w { faults = b }) ≡ (ok tt, record w { faults = c })
    pub four : tx_call (record w { faults = c }) ≡ (ok tt, record w { faults = d })

  -- A job with an address, a template and a DLT template reaches the last part of the pipeline.
  pub handle_job-send_matched :
      (job : ChannelJob F) (k : ℕ) (s rendered dlt_id : Str) (t : Template) (a b c d : List Bool)
      (w : World F)
      → Reaches w a b c d
      → find_phone o worker job.subscriber_id job.tenant_id w.db.subscribers ≡ some (k ∷ s)
      → listed o.hash_value job.tenant_id (str "sms") (k ∷ s) w.db.suppressions ≡ false
      → find_template job.template_id job.tenant_id w.db.templates ≡ some t
      → o.render t.body job.payload ≡ some rendered
      → match_template o.compile o.match_string
          (approved o.compile o.match_string job.tenant_id w.db)
          rendered
        ≡ dlt_id
      → handle_job o worker job w
        ≡ send_matched o worker job (k ∷ s) rendered dlt_id (record w { faults = d })
  unfolding handle_job is_suppressed match_and_send fetch load_approved_templates
  handle_job-send_matched job k s rendered dlt_id t a b c d w r phone free row text matched =
      simp (r.one, r.two, r.three, r.four, phone, free, row, text, matched) refl

  -- The row of a job whose number is registered, and its delivery event.
  abbrev pub blocked : ChannelJob F → World F → World F
  blocked job w =
      record (update_notification job.notification_id (λ n. record n { status = suppressed }) w) {
        published = w.published ++ delivery_message job (str "ndnc_blocked") (str "ndnc") none ∷ [];
      }

  mark_stopped-calm :
      (job : ChannelJob F) (w : World F)
      → IsCalm w
      → mark_stopped job (str "ndnc_blocked") (str "ndnc") w ≡ (ok tt, blocked job w)
  unfolding mark_stopped record_delivery
  mark_stopped-calm job w calm = simp (
    tx_call-calm w calm,
    publish-calm _ _
        (update_notification job.notification_id (λ n. record n { status = suppressed }) w)
        (record { healthy = calm.healthy; answers = calm.answers }),
  )

  send_matched-calm :
      (job : ChannelJob F) (phone rendered : Str) (c : ℕ) (id : Str) (r : DltRow) {p : Provider}
      {ps : List Provider} (w : World F)
      → IsCalm w
      → find_row w (c ∷ id) w.db.dlt_templates ≡ some r
      → str_eq r.category (str "promotional") ≡ true
      → providers_from o worker (
          ok (
            active_records o.decrypt job.tenant_id
              (str "sms")
              worker.enc_key
              w.db.provider_configs))
        ≡ p ∷ ps
      → send_matched o worker job phone rendered (c ∷ id) w ≡ (
          if registered o.hash_value phone w.db.ndnc_registry
          then (ok 0, blocked job w)
          else if is_promotional_window_open w.now
          then (
            ok 0,
            sms_sent o worker job p (sms_for o worker phone rendered (sender_of r) (c ∷ id)) w,
          )
          else (ok (until_next_window w.now), w))
  unfolding send_matched send_promotional is_registered send_in_window
  send_matched-calm job phone rendered c id r w calm row promo providers =
      simp (query_text-calm (λ r. r.category) (c ∷ id) r w calm row, promo, tx_call-calm w calm)
        (elim (Bool-cases (registered o.hash_value phone w.db.ndnc_registry)) [
          | inl yes_dnd ↦ simp (yes_dnd, mark_stopped-calm job w calm) refl
          | inr no_dnd ↦ rw no_dnd (elim (Bool-cases (is_promotional_window_open w.now)) [
            | inl opened ↦
                rw opened
                  (send_now-calm o worker job phone rendered (c ∷ id) r w calm row providers)
            | inr closed ↦ rw closed refl
          ])
        ])

sender_of-elim : (r : DltRow) → sender_of r ≡ elim r.sender_id [ none ↦ str "QEET" | some s ↦ s ]
sender_of-elim r = elim (Option-cases r.sender_id) [ inl e ↦ rw e refl | inr (s, e) ↦ rw e refl ]

-- The open hours of a time since 1970, in nanoseconds.
open_hours :
    (n : ℕ)
    → let t = (n + 19800000000000) % 86400000000000 in
      (is_promotional_window_open (pos n) ≡ (leb 36000000000000 t && ltb t 75600000000000))
      × (until_next_window (pos n)
          ≡ (if leb 36000000000000 t then 122400000000000 - t else 36000000000000 - t))
unfolding is_promotional_window_open until_next_window time_of_day
open_hours n = ground arith

-- When no call fails and the first approved template that matches a job's text is promotional, the
-- job of a number on the national registry is not sent: its notification is set to suppressed and
-- an "ndnc_blocked" event is published. Any other number gets the SMS while it is between 10:00 and
-- 21:00 in Asia/Kolkata (five and a half hours ahead of UTC; the clock is in nanoseconds since
-- 1970): the first provider accepts the rendered text for the number with the template's sender and
-- id, and the event "sent" and the row's status, provider and message id say so. Outside these hours
-- nothing changes and the job is deferred to the next 10:00. There is a provider.
pub handle_job-promotional :
    {F R : Type 0} (o : Outside F R) (worker : Worker) (job : ChannelJob F) (k : ℕ)
    (s rendered : Str) (c : ℕ) (id : Str) (t : Template) (r : DltRow) (p : Provider)
    (ps : List Provider) (n : ℕ) (w : World F)
    → IsCalm w
    → w.now ≡ pos n
    → find_phone o worker job.subscriber_id job.tenant_id w.db.subscribers ≡ some (k ∷ s)
    → listed o.hash_value job.tenant_id (str "sms") (k ∷ s) w.db.suppressions ≡ false
    → find_template job.template_id job.tenant_id w.db.templates ≡ some t
    → o.render t.body job.payload ≡ some rendered
    → match_template o.compile o.match_string
        (approved o.compile o.match_string job.tenant_id w.db)
        rendered
      ≡ c ∷ id
    → find_row w (c ∷ id) w.db.dlt_templates ≡ some r
    → str_eq r.category (str "promotional") ≡ true
    → providers_from o worker (
        ok
          (active_records o.decrypt job.tenant_id (str "sms") worker.enc_key w.db.provider_configs))
      ≡ p ∷ ps
    → let time = (n + 19800000000000) % 86400000000000 in
      let event : Str → Str → Message F = λ event_type provider. record {
        subject = delivery_subject job.tenant_id;
        body = delivery_body (record {
          notification_id = job.notification_id;
          tenant_id = job.tenant_id;
          event_type = event_type;
          provider = provider;
          error = none;
        });
      } in
      let with_row : (Notification → Notification) → List Notification = λ f.
        map
          (λ m. if str_eq m.id job.notification_id && visible w m.tenant_id then f m else m)
          w.db.notifications in
      let message : SmsMessage = record {
        to = k ∷ s;
        body = rendered;
        sender_id = elim r.sender_id [ none ↦ str "QEET" | some sender ↦ sender ];
        dlt_tmpl_id = c ∷ id;
        is_unicode = false;
        tags = [];
      } in
      handle_job o worker job w ≡ (
        if any (λ x. str_eq x.phone_hash (o.hash_value (k ∷ s))) w.db.ndnc_registry
        then (
          ok 0,
          record w {
            published = w.published ++ event (str "ndnc_blocked") (str "ndnc") ∷ [];
            db = record w.db { notifications = with_row (λ m. record m { status = suppressed }) };
          },
        )
        else if leb 36000000000000 time && ltb time 75600000000000
        then (
          ok 0,
          record w {
            faults = [];
            outbox = w.outbox ++ sms_out (name p) message ∷ [];
            published = w.published ++ event (str "sent") (name p) ∷ [];
            db = record w.db {
              notifications = with_row (λ m. record m {
                status = sent;
                provider = name p;
                provider_message_id = o.receipt (name p) message;
              });
            };
          },
        )
        else (
          ok (if leb 36000000000000 time then 122400000000000 - time else 36000000000000 - time),
          w,
        ))
handle_job-promotional o worker job k s rendered c id t r p ps n w calm clock phone free row text
      matched found promo providers =
    handle_job-send_matched o worker job k s rendered (c ∷ id) t w.faults w.faults w.faults w.faults
      w (record { one = call; two = call; three = call; four = call }) phone free row text matched
    ∙ send_matched-calm o worker job (k ∷ s) rendered c id r w calm found promo providers
    ∙ rw (clock, (open_hours n).0, (open_hours n).1, sender_of-elim r) refl
  where
    call : tx_call w ≡ (ok tt, w)
    call = tx_call-calm w calm
