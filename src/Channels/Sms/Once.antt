-- ===== src/Channels/Sms/Once.antt =====
-- How often, to whom and with which template an SMS leaves, whichever calls fail (worker.go).
use qeet_notify.Base.{
  ℕ, ◌≡◌, refl, sym, ap, ◌∙◌, inl, Bool, true, false, none, some, List, [], ◌∷◌, if◌then◌else◌,
}
use qeet_notify.Base.Text.{Str, str, str_eq, is_empty}
use qeet_notify.Workflows.Types.{ChannelJob}
use qeet_notify.Compliance.Dlt.{DltTemplate, match_template, is_promotional_window_open}
use qeet_notify.Compliance.Ndnc.{is_registered}
use qeet_notify.Channels.Types.{SmsMessage, sms_out}
use qeet_notify.Channels.Fallback.{Sending, try_each-Once}
use qeet_notify.Channels.Gate.{address-One}
use qeet_notify.Channels.Notify.{mark_suppressed}
use qeet_notify.Channels.Notify.Records.{
  Keeps-record_delivery, Keeps-mark_stopped, Keeps-finish, Keeps-load,
}
use qeet_notify.Channels.Outbox.{
  One, Keeps, Keeps-pure, Keeps-bind, Keeps-tx_call, tx_call-outbox, Once, Once-impl, Once-behind,
  Once-ahead, OnceIn, OnceIn-Once, OnceIn-behind,
}
use qeet_notify.Channels.Rendering.{find_template}
use qeet_notify.Channels.Routing.{load}
use qeet_notify.Channels.Sms.Reading.{
  fetch-Reads, fetch-ok, rendered-Reads, rendered-ok, approved, load_approved-Reads,
  load_approved-ok,
}
use qeet_notify.Channels.Sms.{
  Outside, Worker, name, find_phone, providers_from, send_with_fallback, sms_for, query_text,
  conclude, send_now, send_in_window, send_promotional, send_matched, match_and_send, handle_job,
}
use qeet_notify.Subscribers.Preferences.{listed}
use qeet_notify.Platform.Tables.{Db, DltRow, Template}
use qeet_notify.Platform.World.{World, M, try, gets, pure, ◌>>◌}

module _ {F R : Type 0} (o : Outside F R) (worker : Worker) where
  Keeps-query_text : (f : DltRow → Str) (id : Str) → Keeps {F = F} (query_text f id)
  unfolding query_text
  Keeps-query_text f id = record { kept = tx_call-outbox }

  Keeps-conclude : (job : ChannelJob F) (s : Sending) → Keeps (conclude o worker job s)
  unfolding conclude
  Keeps-conclude job s =
      Keeps-bind _ _ (Keeps-record_delivery job _ _ _)
        (λ _. Keeps-bind _ _ (Keeps-finish job s.provider s.result s.error) (λ _. Keeps-pure 0))

  send_with_fallback-Once :
      (msg : SmsMessage) (t : Str) → Once sms_out (λ m. m ≡ msg) (send_with_fallback o worker msg t)
  unfolding send_with_fallback
  send_with_fallback-Once msg t =
      Once-behind sms_out _ (try (load o.decrypt t (str "sms") worker.enc_key)) _
        (record { kept = (Keeps-load o.decrypt t (str "sms") worker.enc_key).kept })
        (λ records.
          try_each-Once name sms_out o.receipt (providers_from o worker records) [] none msg)

  -- What is sent for these three texts.
  abbrev Carries : Str → Str → Str → SmsMessage → Type 0
  Carries phone rendered dlt_id m = (m.to ≡ phone) × (m.body ≡ rendered) × (m.dlt_tmpl_id ≡ dlt_id)

  send_now-Once :
      (job : ChannelJob F) (phone rendered dlt_id : Str)
      → Once sms_out (Carries phone rendered dlt_id) (send_now o worker job phone rendered dlt_id)
  unfolding send_now
  send_now-Once job phone rendered dlt_id =
      Once-behind sms_out _ _ _ (Keeps-query_text _ dlt_id) (λ sender_id.
        Once-ahead sms_out _ _ _
          (Once-impl sms_out _ _
            (λ m e. (
              ap (λ (m : SmsMessage). m.to) e,
              ap (λ (m : SmsMessage). m.body) e,
              ap (λ (m : SmsMessage). m.dlt_tmpl_id) e,
            ))
            (send_with_fallback-Once (sms_for o worker phone rendered sender_id dlt_id)
              job.tenant_id))
          (λ s. Keeps-conclude job s))

  Once-Keeps : {A : Type 0} (p : SmsMessage → Type 0) (m : M F A) → Keeps m → Once sms_out p m
  Once-Keeps p m k = record { once = λ w. inl (k.kept w) }

  Once-if :
      {A : Type 0} (p : SmsMessage → Type 0) (b : Bool) (m n : M F A)
      → Once sms_out p m
      → Once sms_out p n
      → Once sms_out p (if b then m else n)
  Once-if p true m n h k = h
  Once-if p false m n h k = k

  Keeps-is_registered : (phone : Str) → Keeps {F = F} (is_registered o.hash_value phone)
  unfolding is_registered
  Keeps-is_registered phone = Keeps-bind _ _ Keeps-tx_call (λ _. record { kept = λ w. refl })

  send_in_window-Once :
      (job : ChannelJob F) (phone rendered dlt_id : Str)
      → Once sms_out
          (Carries phone rendered dlt_id)
          (send_in_window o worker job phone rendered dlt_id)
  unfolding send_in_window
  send_in_window-Once job phone rendered dlt_id =
      Once-behind sms_out _ (gets (λ w. w.now)) _ (record { kept = λ w. refl })
        (λ now.
          Once-if _ (is_promotional_window_open now) _ _ (send_now-Once job phone rendered dlt_id)
            (Once-Keeps _ _ (Keeps-pure _)))

  send_promotional-Once :
      (job : ChannelJob F) (phone rendered dlt_id : Str)
      → Once sms_out
          (Carries phone rendered dlt_id)
          (send_promotional o worker job phone rendered dlt_id)
  unfolding send_promotional
  send_promotional-Once job phone rendered dlt_id =
      Once-behind sms_out _ _ _ (Keeps-is_registered phone) (λ dnd.
        Once-if _ dnd _ _
          (Once-Keeps _ _ (
            Keeps-bind _ _ (Keeps-mark_stopped job (str "ndnc_blocked") (str "ndnc"))
              (λ _. Keeps-pure 0)))
          (send_in_window-Once job phone rendered dlt_id))

  send_matched-Once :
      (job : ChannelJob F) (phone rendered dlt_id : Str)
      → Once sms_out
          (λ m. Carries phone rendered dlt_id m × (is_empty m.dlt_tmpl_id ≡ false))
          (send_matched o worker job phone rendered dlt_id)
  unfolding send_matched
  send_matched-Once job phone rendered [] =
      Once-Keeps _ _ (Keeps-bind _ _ (Keeps-record_delivery job _ _ _) (λ _. Keeps-pure 0))
  send_matched-Once job phone rendered (c ∷ id) =
      Once-impl sms_out _ _ (λ m h. (h, rw (h.2) refl))
        (Once-behind sms_out _ _ _ (Keeps-query_text _ _) (λ category.
          Once-if _ (str_eq category (str "promotional")) _ _
            (send_promotional-Once job phone rendered (c ∷ id))
            (send_now-Once job phone rendered (c ∷ id))))

  -- A message that the tables of a job call for.
  abbrev pub IsCalledFor : ChannelJob F → Db F → Str → SmsMessage → Type 0
  IsCalledFor job d phone m =
      (m.to ≡ phone)
      × ((t : Template) × (find_template job.template_id job.tenant_id d.templates ≡ some t)
          × (o.render t.body job.payload ≡ some m.body))
      × (match_template o.compile o.match_string (approved o.compile o.match_string job.tenant_id d)
            m.body
          ≡ m.dlt_tmpl_id)
      × (is_empty m.dlt_tmpl_id ≡ false)

  called_for :
      (job : ChannelJob F) (d : Db F) (phone rendered : Str) (t : Template)
      (ts : List (DltTemplate o.compile o.match_string)) (m : SmsMessage)
      → find_template job.template_id job.tenant_id d.templates ≡ some t
      → o.render t.body job.payload ≡ some rendered
      → approved o.compile o.match_string job.tenant_id d ≡ ts
      → Carries phone rendered (match_template o.compile o.match_string ts rendered) m
      → is_empty m.dlt_tmpl_id ≡ false
      → IsCalledFor job d phone m
  called_for job d phone rendered t ts m row text read (to, body, id) filled =
      (to, (t, row, text ∙ ap some (sym body)), rw (body, read) (sym id), filled)

  match_and_send-OnceIn :
      (job : ChannelJob F) (d : Db F) (phone : Str)
      → OnceIn sms_out d (IsCalledFor job d phone) (match_and_send o worker job phone)
  unfolding match_and_send
  match_and_send-OnceIn job d phone =
      OnceIn-behind sms_out d _ _ _ (fetch-Reads job.tenant_id job.template_id) (λ w t e h.
        OnceIn-behind sms_out d _ _ _ (rendered-Reads o.render (o.render t.body job.payload))
          (λ v rendered e2 h2.
            OnceIn-behind sms_out d _ _ _
              (load_approved-Reads o.compile o.match_string job.tenant_id)
              (λ u ts e3 h3. OnceIn-Once sms_out d _ (
                Once-impl sms_out _ _
                  (λ m (c, filled).
                    called_for job d phone rendered t ts m
                      (ap (λ (d : Db F). find_template job.template_id job.tenant_id d.templates)
                          (sym e)
                        ∙ fetch-ok job.tenant_id job.template_id w t h)
                      (rendered-ok o.render _ v rendered h2)
                      (ap (approved o.compile o.match_string job.tenant_id) (sym e3)
                        ∙ load_approved-ok o.compile o.match_string job.tenant_id u ts h3)
                      c filled)
                  (send_matched-Once job phone rendered _)))))

  stop-Keeps : (job : ChannelJob F) → Keeps {A = ℕ} (mark_suppressed job >> pure 0)
  stop-Keeps job = Keeps-bind _ _ (Keeps-mark_stopped job (str "suppressed") []) (λ _. Keeps-pure 0)

-- Whichever calls fail, a job of the SMS worker leaves through at most one provider and at most once
-- per delivery of the job. If it does, the message goes to the decrypted phone number of the job's
-- subscriber in the job's tenant, that number is not on the tenant's suppression list, the text is
-- the rendering of the job's active template, and it carries a non-empty DLT id, that of the first
-- approved template of the tenant that matches the text.
pub handle_job-matched :
    {F R : Type 0} (o : Outside F R) (worker : Worker) (job : ChannelJob F) (w : World F)
    → One sms_out
        (λ m.
          (to : Str) × (find_phone o worker job.subscriber_id job.tenant_id w.db.subscribers
            ≡ some to)
          × (listed o.hash_value job.tenant_id (str "sms") to w.db.suppressions ≡ false)
          × IsCalledFor o worker job w.db to m)
        w.outbox
        (handle_job o worker job w).1.outbox
unfolding handle_job
handle_job-matched o worker job w =
    address-One sms_out o.hash_value job.tenant_id (str "sms")
      (λ d. find_phone o worker job.subscriber_id job.tenant_id d.subscribers)
      (IsCalledFor o worker job) (mark_suppressed job >> pure 0) (match_and_send o worker job)
      (stop-Keeps o worker job) (match_and_send-OnceIn o worker job) w
