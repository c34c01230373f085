-- ===== src/Channels/WhatsApp/Once.antt =====
-- How often, to whom and with which template a WhatsApp message leaves (worker.go).
use qeet_notify.Base.{ℕ, ◌≡◌, refl, true, false, none, some, [], ◌∷◌, ◌++◌, if◌then◌else◌}
use qeet_notify.Base.Text.{Str, str, str_eq, is_empty}
use qeet_notify.Workflows.Types.{ChannelJob}
use qeet_notify.Channels.Types.{WhatsAppMessage}
use qeet_notify.Channels.Notify.{record_delivery, delivery_message}
use qeet_notify.Channels.WhatsApp.{
  Outside, Worker, build_components, find_whatsapp, find_template_row, session_open, session_key,
  send_marketing, category_marketing, send_categorised, process,
}
use qeet_notify.Subscribers.Preferences.{is_suppressed, listed}
use qeet_notify.Platform.Cache.{lookup}
use qeet_notify.Platform.Cache.Keys.{call-quiet}
use qeet_notify.Platform.Tables.{Db, DltRow}
use qeet_notify.Platform.World.{World, ok, redis_failed}
use qeet_notify.Platform.World.Calm.{IsCalm, tx_call-calm, publish-calm}

module _ {F : Type 0} (o : Outside F) (worker : Worker) where
  -- The message of the job's template in the tables, to this address.
  abbrev pub IsTemplated : ChannelJob F → Db F → Str → WhatsAppMessage → Type 0
  IsTemplated job d to m =
      (r : DltRow) × (find_template_row job.template_id job.tenant_id d.dlt_templates ≡ some r)
      × (m ≡ record {
        to = to;
        template_name = r.template_id_ext;
        language_code = if is_empty r.language_code then str "en_US" else r.language_code;
        category = r.category;
        parameters = build_components job.payload;
      })

-- When no call fails and the job's template is of the marketing category, a message goes out only
-- while the 24 hours of a session are running: without one nothing but a "skipped" event happens.
pub process-sessionless :
    {F : Type 0} (o : Outside F) (worker : Worker) (job : ChannelJob F) (k : ℕ) (s : Str)
    (r : DltRow) (w : World F)
    → IsCalm w
    → find_whatsapp o worker job.subscriber_id job.tenant_id w.db.subscribers ≡ some (k ∷ s)
    → listed o.hash_value job.tenant_id (str "whatsapp") (k ∷ s) w.db.suppressions ≡ false
    → find_template_row job.template_id job.tenant_id w.db.dlt_templates ≡ some r
    → str_eq r.category category_marketing ≡ true
    → lookup w.now (session_key job.subscriber_id job.tenant_id) w.redis ≡ none
    → process o worker job w ≡ (
      ok tt,
      record w {
        published =
            w.published ++ delivery_message job (str "skipped") (str "no_wa_session") none ∷ [];
      },
    )
unfolding process is_suppressed send_categorised send_marketing session_open record_delivery
process-sessionless o worker job k s r w calm found free row marketing closed =
    simp
      (
        tx_call-calm w calm,
        found,
        free,
        row,
        marketing,
        call-quiet redis_failed w calm.answers,
        closed,
        publish-calm _ _ w calm,
      )
      refl
