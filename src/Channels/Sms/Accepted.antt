-- ===== src/Channels/Sms/Accepted.antt =====
-- An SMS that the first provider accepts, when no call fails (worker.go).
use qeet_notify.Base.{◌≡◌, refl, none, some, List, [], ◌∷◌, ◌++◌}
use qeet_notify.Base.Text.{Str, str}
use qeet_notify.Workflows.Types.{ChannelJob}
use qeet_notify.Channels.Notify.{update_notification, delivery_message, record_delivery, sent_row}
use qeet_notify.Channels.Sms.{
  Outside, Worker, find_row, query_text, send_now, Provider, name, sender_of, sms_for, conclude,
  send_with_fallback, providers_from,
}
use qeet_notify.Platform.Tables.{DltRow}
use qeet_notify.Platform.World.{World, ok}
use qeet_notify.Channels.Types.{SmsMessage, sms_out}
use qeet_notify.Channels.Routing.{active_records, load}
use qeet_notify.Channels.Fallback.{accepted, try_each-fallback}
use qeet_notify.Platform.World.Calm.{IsCalm, tx_call-calm, publish-calm}

pub query_text-calm :
    {F : Type 0} (f : DltRow → Str) (id : Str) (r : DltRow) (w : World F)
    → IsCalm w
    → find_row w id w.db.dlt_templates ≡ some r
    → query_text f id w ≡ (ok (f r), w)
unfolding query_text
query_text-calm f id r w calm row = simp (tx_call-calm w calm, row) refl

module _ {F R : Type 0} (o : Outside F R) (worker : Worker) where
  -- The world behind an SMS that a provider accepted.
  abbrev told : ChannelJob F → Str → World F → World F
  told job provider w = record w {
    published = w.published ++ delivery_message job (str "sent") provider none ∷ [];
  }

  conclude-calm :
      (job : ChannelJob F) (provider id : Str) (w : World F)
      → IsCalm w
      → conclude o worker job (record { result = some id; provider = provider; error = none }) w ≡ (
        ok 0,
        update_notification job.notification_id (sent_row provider id) (told job provider w),
      )
  unfolding conclude record_delivery
  conclude-calm job provider id w calm = simp (
    publish-calm _ _ w calm,
    tx_call-calm (told job provider w) (record { healthy = calm.healthy; answers = calm.answers }),
  )

  send_with_fallback-calm :
      (msg : SmsMessage) (t : Str) {p : Provider} {ps : List Provider} (w : World F)
      → IsCalm w
      → providers_from o worker
          (ok (active_records o.decrypt t (str "sms") worker.enc_key w.db.provider_configs))
        ≡ p ∷ ps
      → send_with_fallback o worker msg t w ≡ (
        ok (record { result = some (o.receipt (name p) msg); provider = name p; error = none }),
        accepted name sms_out o.receipt (name p) msg w,
      )
  unfolding send_with_fallback load
  send_with_fallback-calm msg t {p} {ps} w calm h =
      simp (tx_call-calm w calm)
        (rw h (try_each-fallback name sms_out o.receipt [] p ps [] none msg w calm.answers))

  abbrev pub sms_sent : ChannelJob F → Provider → SmsMessage → World F → World F
  sms_sent job p msg w =
      update_notification job.notification_id (sent_row (name p) (o.receipt (name p) msg))
        (told job (name p) (accepted name sms_out o.receipt (name p) msg w))

  pub send_now-calm :
      (job : ChannelJob F) (phone rendered id : Str) (r : DltRow) {p : Provider}
      {ps : List Provider} (w : World F)
      → IsCalm w
      → find_row w id w.db.dlt_templates ≡ some r
      → providers_from o worker (
          ok (
            active_records o.decrypt job.tenant_id
              (str "sms")
              worker.enc_key
              w.db.provider_configs))
        ≡ p ∷ ps
      → send_now o worker job phone rendered id w
        ≡ (ok 0, sms_sent job p (sms_for o worker phone rendered (sender_of r) id) w)
  unfolding send_now
  send_now-calm job phone rendered id r {p} w calm row providers = simp (
    query_text-calm sender_of id r w calm row,
    send_with_fallback-calm (sms_for o worker phone rendered (sender_of r) id) job.tenant_id w calm
        providers,
    conclude-calm job (name p) _
        (accepted name sms_out o.receipt (name p) (sms_for o worker phone rendered (sender_of r) id)
          w)
        (record { healthy = calm.healthy; answers = refl }),
  )
