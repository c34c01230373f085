-- ===== src/Channels/Sms/Unchecked.antt =====
-- An SMS whose category cannot be read (worker.go).
use qeet_notify.Base.{ℕ, ◌≡◌, refl, true, false, none, some, [], ◌∷◌, ◌++◌}
use qeet_notify.Base.Text.{Str, str, str_eq}
use qeet_notify.Workflows.Types.{ChannelJob}
use qeet_notify.Compliance.Dlt.{match_template}
use qeet_notify.Channels.Types.{SmsMessage, sms_out}
use qeet_notify.Channels.Fallback.{accepted, try_each-fallback}
use qeet_notify.Channels.Notify.{delivery_message, record_delivery}
use qeet_notify.Channels.Rendering.{find_template}
use qeet_notify.Channels.Routing.{load}
use qeet_notify.Channels.Sms.{
  Outside, Worker, Provider, name, find_phone, query_text, sms_for, send_with_fallback, conclude,
  send_now, send_matched, handle_job,
}
use qeet_notify.Channels.Sms.Reading.{approved}
use qeet_notify.Subscribers.Preferences.{listed}
use qeet_notify.Platform.Tables.{Template}
use qeet_notify.Platform.World.{World, err, db_failed}
use qeet_notify.Platform.World.Calm.{
  tx_call-passes, tx_call-breaks, tx_call-aborted, publish-passes,
}
use qeet_notify.Channels.Sms.Promotional.{handle_job-send_matched}

module _ {F R : Type 0} (o : Outside F R) (worker : Worker) where
  -- The SMS that the static provider gets when the query for the category has failed.
  abbrev pub unchecked : Str → Str → Str → SmsMessage
  unchecked phone rendered dlt_id = sms_for o worker phone rendered [] dlt_id

  conclude-aborted :
      (job : ChannelJob F) (provider id : Str) (w : World F)
      → w.aborted ≡ true
      → w.faults ≡ []
      → ((conclude o worker job
            (record { result = some id; provider = provider; error = none })
            w).0
          ≡ err db_failed)
        × ((conclude o worker job
              (record { result = some id; provider = provider; error = none })
              w).1.outbox
            ≡ w.outbox)
  unfolding conclude record_delivery
  conclude-aborted job provider id w broken quiet =
      simp
        (
          publish-passes _ _ w quiet,
          tx_call-aborted
              (record w {
                published = w.published ++ delivery_message job (str "sent") provider none ∷ [];
              })
              broken,
        )
        (refl, refl)

  send_now-aborted :
      (job : ChannelJob F) (phone rendered dlt_id : Str) (p : Provider) (w : World F)
      → w.aborted ≡ true
      → w.faults ≡ []
      → worker.primary ≡ some p
      → ((send_now o worker job phone rendered dlt_id w).0 ≡ err db_failed)
        × ((send_now o worker job phone rendered dlt_id w).1.outbox
            ≡ w.outbox ++ sms_out (name p) (unchecked phone rendered dlt_id) ∷ [])
  unfolding send_now query_text send_with_fallback load
  send_now-aborted job phone rendered dlt_id p w broken quiet primary =
      simp
        (
          tx_call-aborted w broken,
          primary,
          try_each-fallback name sms_out o.receipt [] p _ [] none (unchecked phone rendered dlt_id)
              w quiet,
        )
        (conclude-aborted job (name p) _
          (accepted name sms_out o.receipt (name p) (unchecked phone rendered dlt_id) w) broken
          refl)

-- When only the query for the category fails, the SMS leaves through the static primary provider
-- without a sender id, whatever the category, the national registry and the hour say; handleJob then
-- returns an error, so that the job is delivered again.
pub handle_job-unchecked :
    {F R : Type 0} (o : Outside F R) (worker : Worker) (job : ChannelJob F) (k : ℕ)
    (s rendered : Str) (c : ℕ) (id : Str) (t : Template) (p : Provider) (w : World F)
    → w.aborted ≡ false
    → w.faults ≡ false ∷ false ∷ false ∷ false ∷ true ∷ []
    → worker.primary ≡ some p
    → find_phone o worker job.subscriber_id job.tenant_id w.db.subscribers ≡ some (k ∷ s)
    → listed o.hash_value job.tenant_id (str "sms") (k ∷ s) w.db.suppressions ≡ false
    → find_template job.template_id job.tenant_id w.db.templates ≡ some t
    → o.render t.body job.payload ≡ some rendered
    → match_template o.compile o.match_string
        (approved o.compile o.match_string job.tenant_id w.db)
        rendered
      ≡ c ∷ id
    → ((handle_job o worker job w).0 ≡ err db_failed)
      × ((handle_job o worker job w).1.outbox
          ≡ w.outbox ++ sms_out (name p) (unchecked o worker (k ∷ s) rendered (c ∷ id)) ∷ [])
unfolding send_matched query_text str_eq
handle_job-unchecked o worker job k s rendered c id t p w healthy faults primary phone free row text
      matched =
    simp
      (
        handle_job-send_matched o worker job k s rendered (c ∷ id) t _ _ _ (true ∷ []) w
            (record {
              one = tx_call-passes w healthy faults;
              two =
                  tx_call-passes (record w { faults = false ∷ false ∷ false ∷ true ∷ [] }) healthy
                    refl;
              three = tx_call-passes (record w { faults = false ∷ false ∷ true ∷ [] }) healthy refl;
              four = tx_call-passes (record w { faults = false ∷ true ∷ [] }) healthy refl;
            })
            phone free row text matched,
        tx_call-breaks (record w { faults = true ∷ [] }) healthy refl,
      )
      (send_now-aborted o worker job (k ∷ s) rendered (c ∷ id) p
        (record w { faults = []; aborted = true }) refl refl primary)
