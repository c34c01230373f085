-- ===== src/Channels/Email/Once.antt =====
-- How often and to whom a job is sent, whichever calls fail (worker.go).
use qeet_notify.Base.{◌≡◌, refl, sym, ap, ◌∙◌, false, Option, none, some, []}
use qeet_notify.Base.Text.{Str, str}
use qeet_notify.Workflows.Json.{Fields}
use qeet_notify.Workflows.Types.{ChannelJob}
use qeet_notify.Channels.Types.{EmailMessage, email_out}
use qeet_notify.Channels.Rendering.{
  Rendered, render_email, rendered_or_bad, rendered_or_error, find_template,
}
use qeet_notify.Channels.Routing.{load}
use qeet_notify.Subscribers.Preferences.{listed}
use qeet_notify.Platform.Tables.{Template}
use qeet_notify.Platform.World.{World, try, bad_template, not_found, gets}
use qeet_notify.Channels.Email.{
  Outside, Worker, name, find_email, providers_from, email_for, send_with_fallback, conclude,
  send_rendered, handle_job,
}
use qeet_notify.Channels.Fallback.{Sending, try_each-Once}
use qeet_notify.Channels.Notify.{mark_suppressed}
use qeet_notify.Channels.Notify.Records.{
  Keeps-record_delivery, Keeps-mark_stopped, Keeps-finish, Keeps-load,
}
use qeet_notify.Channels.Outbox.{
  One, One-with, Keeps, Keeps-pure, Keeps-raise, Keeps-bind, Keeps-tx_call, Once, Once-impl,
  Once-behind, Once-ahead, OnceIn-Once,
}
use qeet_notify.Channels.Gate.{address-One}

module _ {F : Type 0} (o : Outside F) (worker : Worker) where
  Keeps-conclude : (job : ChannelJob F) (s : Sending) → Keeps (conclude o worker job s)
  unfolding conclude
  Keeps-conclude job s =
      Keeps-bind _ _ (Keeps-record_delivery job _ _ _)
        (λ _. Keeps-finish job s.provider s.result s.error)

  Keeps-render : (t id : Str) (payload : Fields F) → Keeps (render_email o.render t id payload)
  unfolding render_email
  Keeps-render t id payload = Keeps-bind _ _ Keeps-tx_call (λ _.
      Keeps-bind (gets (λ w. find_template id t w.db.templates)) _ (record { kept = λ w. refl })
        (λ found. by_template found))
    where
      by_parts : (r : Option Rendered) → Keeps (rendered_or_bad o.render r)
      by_parts none = Keeps-raise bad_template
      by_parts (some r) = Keeps-pure r

      by_template : (found : Option Template) → Keeps (rendered_or_error o.render found payload)
      by_template none = Keeps-raise not_found
      by_template (some t) = by_parts _

  send_with_fallback-Once :
      (msg : EmailMessage) (t : Str)
      → Once email_out (λ m. m ≡ msg) (send_with_fallback o worker msg t)
  unfolding send_with_fallback
  send_with_fallback-Once msg t =
      Once-behind email_out _ (try (load o.decrypt t (str "email") worker.enc_key)) _
        (record { kept = (Keeps-load o.decrypt t (str "email") worker.enc_key).kept })
        (λ records.
          try_each-Once name email_out o.receipt (providers_from o worker records) [] none msg)

  -- A rendered job is accepted at most once, with the address that it was given.
  send_rendered-Once :
      (job : ChannelJob F) (to : Str)
      → Once email_out (λ m. m.to ≡ to) (send_rendered o worker job to)
  unfolding send_rendered
  send_rendered-Once job to =
      Once-behind email_out _ _ _ (Keeps-render job.tenant_id job.template_id job.payload)
        (λ rendered.
          Once-ahead email_out _ _ _
            (Once-impl email_out _ _ (λ m e. ap (λ (m : EmailMessage). m.to) e)
              (send_with_fallback-Once (email_for o worker job to rendered) job.tenant_id))
            (λ s. Keeps-conclude job s))

-- Whichever calls fail, a job of the email worker leaves through at most one provider and at most
-- once per delivery of the job; and if it does, the message goes to the decrypted address of the
-- job's subscriber in the job's tenant, and that address is not on the tenant's suppression list.
pub handle_job-once :
    {F : Type 0} (o : Outside F) (worker : Worker) (job : ChannelJob F) (w : World F)
    → One email_out
        (λ m.
          (find_email o worker job.subscriber_id job.tenant_id w.db.subscribers ≡ some m.to)
          × (listed o.hash_value job.tenant_id (str "email") m.to w.db.suppressions ≡ false))
        w.outbox
        (handle_job o worker job w).1.outbox
unfolding handle_job
handle_job-once o worker job w =
    One-with email_out _ _ _ _ (λ m (to, e, free, same). (e ∙ ap some (sym same), rw same free))
      (address-One email_out o.hash_value job.tenant_id (str "email")
        (λ d. find_email o worker job.subscriber_id job.tenant_id d.subscribers)
        (λ d to m. m.to ≡ to) (mark_suppressed job) (send_rendered o worker job)
        (Keeps-mark_stopped job (str "suppressed") [])
        (λ d to. OnceIn-Once email_out d _ (send_rendered-Once o worker job to)) w)
