-- ===== src/Channels/Email/Sent.antt =====
-- A job that is sent: by which provider, and what is recorded (worker.go).
use qeet_notify.Base.{
  ◌&&◌, map, if◌then◌else◌, ℕ, ◌≡◌, refl, Bool, true, false, Option, none, some, List, [], ◌∷◌,
  ◌++◌, arith,
}
use qeet_notify.Base.Text.{Str, str, str_eq}
use qeet_notify.Workflows.Types.{ChannelJob}
use qeet_notify.Channels.Types.{EmailMessage, email_out}
use qeet_notify.Channels.Rendering.{
  Rendered, render_email, rendered_by, rendered_or_error, find_template,
}
use qeet_notify.Channels.Routing.{active_records, load}
use qeet_notify.Subscribers.Preferences.{is_suppressed, listed}
use qeet_notify.Platform.Tables.{Template, sent}
use qeet_notify.Platform.Messaging.{delivery_subject}
use qeet_notify.Platform.World.{World, ok, err, db_failed, delivery_body, visible}
use qeet_notify.Platform.World.Calm.{
  IsCalm, tx_call-calm, publish-calm, tx_call-passes, tx_call-breaks, tx_call-aborted,
  publish-passes,
}
use qeet_notify.Channels.Fallback.{accepted, try_each-fallback}
use qeet_notify.Channels.Notify.{update_notification, record_delivery, delivery_message, sent_row}
use qeet_notify.Channels.Email.{
  Outside, Worker, Provider, name, find_email, providers_from, email_for, send_with_fallback,
  conclude, send_rendered, handle_job,
}

module _ {F : Type 0} (o : Outside F) (worker : Worker) where
  abbrev recorded : ChannelJob F → Str → World F → World F
  recorded job provider w = record w {
    published = w.published ++ delivery_message job (str "sent") provider none ∷ [];
  }

  conclude-calm :
      (job : ChannelJob F) (provider id : Str) (w : World F)
      → IsCalm w
      → conclude o worker job (record { result = some id; provider = provider; error = none }) w ≡ (
        ok tt,
        update_notification job.notification_id (sent_row provider id) (recorded job provider w),
      )
  unfolding conclude record_delivery
  conclude-calm job provider id w calm = simp (
    publish-calm _ _ w calm,
    tx_call-calm (recorded job provider w)
        (record { healthy = calm.healthy; answers = calm.answers }),
  )

  rendered_or_error-some :
      (job : ChannelJob F) {r : Rendered} (found : Option Template) (w : World F)
      → rendered_by o.render found job.payload ≡ some r
      → rendered_or_error o.render found job.payload w ≡ (ok r, w)
  rendered_or_error-some job none w e = absurd (ground arith)
  rendered_or_error-some job (some t) w e = rw e refl

  render_email-calm :
      (t id : Str) (job : ChannelJob F) {r : Rendered} (w : World F)
      → IsCalm w
      → rendered_by o.render (find_template id t w.db.templates) job.payload ≡ some r
      → render_email o.render t id job.payload w ≡ (ok r, w)
  unfolding render_email
  render_email-calm t id job w calm h =
      simp (tx_call-calm w calm) (rendered_or_error-some job _ w h)

  send_with_fallback-calm :
      (msg : EmailMessage) (t : Str) {p : Provider} {ps : List Provider} (w : World F)
      → IsCalm w
      → providers_from o worker
          (ok (active_records o.decrypt t (str "email") worker.enc_key w.db.provider_configs))
        ≡ p ∷ ps
      → send_with_fallback o worker msg t w ≡ (
        ok (record { result = some (o.receipt (name p) msg); provider = name p; error = none }),
        accepted name email_out o.receipt (name p) msg w,
      )
  unfolding send_with_fallback load
  send_with_fallback-calm msg t {p} {ps} w calm h =
      simp (tx_call-calm w calm)
        (rw h (try_each-fallback name email_out o.receipt [] p ps [] none msg w calm.answers))

  -- The world behind a job that was sent.
  abbrev pub delivered_to : ChannelJob F → Provider → Str → Rendered → World F → World F
  delivered_to job p to r w =
      update_notification job.notification_id
        (sent_row (name p) (o.receipt (name p) (email_for o worker job to r)))
        (recorded job (name p)
          (accepted name email_out o.receipt (name p) (email_for o worker job to r) w))

  send_rendered-calm :
      (job : ChannelJob F) (to : Str) {r : Rendered} {p : Provider} {ps : List Provider}
      (w : World F)
      → IsCalm w
      → rendered_by o.render
          (find_template job.template_id job.tenant_id w.db.templates)
          job.payload
        ≡ some r
      → providers_from o worker (
          ok (
            active_records o.decrypt job.tenant_id
              (str "email")
              worker.enc_key
              w.db.provider_configs))
        ≡ p ∷ ps
      → send_rendered o worker job to w ≡ (ok tt, delivered_to job p to r w)
  unfolding send_rendered
  send_rendered-calm job to {r} {p} w calm h k = simp (
    render_email-calm job.tenant_id job.template_id job w calm h,
    send_with_fallback-calm (email_for o worker job to r) job.tenant_id w calm k,
    conclude-calm job (name p) _
        (accepted name email_out o.receipt (name p) (email_for o worker job to r) w)
        (record { healthy = calm.healthy; answers = refl }),
  )

-- When no call fails, the subscriber has a decrypted address that is not suppressed, the template
-- renders and there is a provider, handleJob succeeds: the first provider gets the rendered email
-- for that address, a "sent" delivery event is published, and the notification's row is set to sent
-- with the provider and its message id. Nothing else changes.
pub handle_job-sent :
    {F : Type 0} (o : Outside F) (worker : Worker) (job : ChannelJob F) (c : ℕ) (s : Str)
    {r : Rendered} {p : Provider} {ps : List Provider} (w : World F)
    → IsCalm w
    → find_email o worker job.subscriber_id job.tenant_id w.db.subscribers ≡ some (c ∷ s)
    → listed o.hash_value job.tenant_id (str "email") (c ∷ s) w.db.suppressions ≡ false
    → rendered_by o.render (find_template job.template_id job.tenant_id w.db.templates) job.payload
      ≡ some r
    → providers_from o worker (
        ok (
          active_records o.decrypt job.tenant_id
            (str "email")
            worker.enc_key
            w.db.provider_configs))
      ≡ p ∷ ps
    → let message : EmailMessage = record {
      from = str "noreply@qeet.in";
      from_name = str "Qeet Notify";
      to = c ∷ s;
      subject = r.subject;
      html_body = r.body;
      text_body = [];
      reply_to = [];
      tags = (str "notification_id", job.notification_id) ∷ (str "tenant_id", job.tenant_id) ∷ [];
    } in
      handle_job o worker job w ≡ (
        ok tt,
        record w {
          faults = [];
          outbox = w.outbox ++ email_out (name p) message ∷ [];
          published =
              w.published
              ++ record {
                subject = delivery_subject job.tenant_id;
                body = delivery_body (record {
                  notification_id = job.notification_id;
                  tenant_id = job.tenant_id;
                  event_type = str "sent";
                  provider = name p;
                  error = none;
                });
              }
                ∷ [];
          db = record w.db {
            notifications =
                map
                  (λ n.
                    if str_eq n.id job.notification_id && visible w n.tenant_id
                    then record n {
                      status = sent;
                      provider = name p;
                      provider_message_id = o.receipt (name p) message;
                    }
                    else n)
                  w.db.notifications;
          };
        },
      )
unfolding handle_job is_suppressed
handle_job-sent o worker job c s w calm found free rendered providers =
    simp (tx_call-calm w calm, found, free)
      (send_rendered-calm o worker job (c ∷ s) w calm rendered providers)

module _ {F : Type 0} (o : Outside F) (worker : Worker) where
  aborted_before : World F → World F
  aborted_before w = record w { faults = []; aborted = true }

  send_with_fallback-aborted :
      (msg : EmailMessage) (t : Str) {p : Provider} (w : World F)
      → w.aborted ≡ false
      → w.faults ≡ true ∷ []
      → worker.primary ≡ some p
      → send_with_fallback o worker msg t w ≡ (
        ok (record { result = some (o.receipt (name p) msg); provider = name p; error = none }),
        accepted name email_out o.receipt (name p) msg (aborted_before w),
      )
  unfolding send_with_fallback load aborted_before
  send_with_fallback-aborted msg t w healthy faults primary =
      simp (tx_call-breaks w healthy faults, primary)
        (try_each-fallback name email_out o.receipt [] _ _ [] none msg (aborted_before w) refl)

  conclude-aborted :
      (job : ChannelJob F) (provider id : Str) (w : World F)
      → w.aborted ≡ true
      → w.faults ≡ []
      → conclude o worker job (record { result = some id; provider = provider; error = none }) w
        ≡ (err db_failed, recorded o worker job provider w)
  unfolding conclude record_delivery
  conclude-aborted job provider id w broken quiet =
      simp (publish-passes _ _ w quiet, tx_call-aborted (recorded o worker job provider w) broken)

  render_email-passes :
      (t id : Str) (job : ChannelJob F) {r : Rendered} {fs : List Bool} (w : World F)
      → w.aborted ≡ false
      → w.faults ≡ false ∷ fs
      → rendered_by o.render (find_template id t w.db.templates) job.payload ≡ some r
      → render_email o.render t id job.payload w ≡ (ok r, record w { faults = fs })
  unfolding render_email
  render_email-passes t id job {r} {fs} w healthy faults h =
      simp (tx_call-passes w healthy faults) (rendered_or_error-some o worker job _ _ h)

  send_rendered-aborted :
      (job : ChannelJob F) (to : Str) {r : Rendered} {p : Provider} (w : World F)
      → w.aborted ≡ false
      → w.faults ≡ false ∷ true ∷ []
      → worker.primary ≡ some p
      → rendered_by o.render
          (find_template job.template_id job.tenant_id w.db.templates)
          job.payload
        ≡ some r
      → send_rendered o worker job to w ≡ (
        err db_failed,
        recorded o worker job (name p) (
            accepted name email_out o.receipt
              (name p)
              (email_for o worker job to r)
              (aborted_before w)),
      )
  unfolding send_rendered aborted_before
  send_rendered-aborted job to {r} {p} w healthy faults primary h =
      simp
        (
          render_email-passes job.tenant_id job.template_id job w healthy faults h,
          send_with_fallback-aborted (email_for o worker job to r) job.tenant_id
              (record w { faults = true ∷ [] }) healthy refl primary,
        )
        (conclude-aborted job (name p) _ _ refl refl)

-- When only the query for the tenant's providers fails, the static primary provider gets the email
-- and accepts it, but handleJob returns an error, because the failed query has aborted the
-- transaction and the update of the notification is refused.
handle_job-aborted :
    {F : Type 0} (o : Outside F) (worker : Worker) (job : ChannelJob F) (c : ℕ) (s : Str)
    {r : Rendered} {p : Provider} (w : World F)
    → w.aborted ≡ false
    → w.faults ≡ false ∷ false ∷ false ∷ true ∷ []
    → worker.primary ≡ some p
    → find_email o worker job.subscriber_id job.tenant_id w.db.subscribers ≡ some (c ∷ s)
    → listed o.hash_value job.tenant_id (str "email") (c ∷ s) w.db.suppressions ≡ false
    → rendered_by o.render (find_template job.template_id job.tenant_id w.db.templates) job.payload
      ≡ some r
    → ((handle_job o worker job w).0 ≡ err db_failed)
      × ((handle_job o worker job w).1.outbox
          ≡ w.outbox ++ email_out (name p) (email_for o worker job (c ∷ s) r) ∷ [])
unfolding handle_job is_suppressed aborted_before
handle_job-aborted o worker job c s w healthy faults primary found free rendered =
    simp
      (
        tx_call-passes w healthy faults,
        tx_call-passes (record w { faults = false ∷ false ∷ true ∷ [] }) healthy refl,
        found,
        free,
        send_rendered-aborted o worker job (c ∷ s) (record w { faults = false ∷ true ∷ [] }) healthy
            refl primary rendered,
      )
      (refl, refl)
