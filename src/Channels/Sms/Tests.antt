-- ===== src/Channels/Sms/Tests.antt =====
-- The SMS worker on one job, and its theorems at concrete inputs.
use qeet_notify.Base.{ℕ, ◌≡◌, refl, true, false, none, some, [], ◌∷◌, ◌++◌}
use qeet_notify.Base.Text.{Str, str, str_eq}
use qeet_notify.Compliance.Dlt.{match_template, compiled}
use qeet_notify.Channels.Types.{sms_out}
use qeet_notify.Channels.Routing.{active_records}
use qeet_notify.Channels.Rendering.{find_template}
use qeet_notify.Subscribers.Preferences.{listed}
use qeet_notify.Platform.Tables.{Template, DltRow}
use qeet_notify.Platform.Samples.{empty_db, calm_world, sample_subscriber}
use qeet_notify.Platform.World.{World, ok, err, db_failed, delivery_body}
use qeet_notify.Platform.Messaging.{delivery_subject}
use qeet_notify.Channels.Sms.{msg91, find_phone, find_row, handle_job}
use qeet_notify.Channels.Outbox.{One}
use qeet_notify.Channels.Sms.Samples.{outside, worker, job}
use qeet_notify.Channels.Sms.Once.{handle_job-matched, IsCalledFor}
use qeet_notify.Channels.Sms.Promotional.{handle_job-promotional}
use qeet_notify.Channels.Sms.Unchecked.{unchecked, handle_job-unchecked}

abbrev template : Template
template = record {
  id = str "m";
  tenant_id = str "t";
  name = [];
  channel = str "sms";
  locale = str "en";
  metadata = str "{}";
  subject = [];
  body = str "Sale";
  is_active = true;
}

abbrev row : DltRow
row = record {
  id = str "d";
  tenant_id = str "t";
  carrier = str "all";
  channel = str "sms";
  template_id_ext = str "e";
  template_name = [];
  pe_id = [];
  sender_id = some (str "SHOP");
  category = str "promotional";
  body_regex = str "Sale";
  status = str "approved";
  metadata = str "{}";
  language_code = [];
}

-- The number of the subscriber is registered, and it is half past five in the morning.
abbrev ready : World ℕ
ready = calm_world (record empty_db {
  subscribers = sample_subscriber ∷ [];
  templates = template ∷ [];
  dlt_templates = row ∷ [];
  ndnc_registry =
      record { phone_hash = str "+91"; category = str "all"; source = str "manual" } ∷ [];
})

handle_job-matched_example :
    One sms_out
      (λ m.
        (to : Str) × (find_phone outside worker (str "u") (str "t") ready.db.subscribers ≡ some to)
        × (listed (λ v. v) (str "t") (str "sms") to [] ≡ false)
        × IsCalledFor outside worker job ready.db to m)
      []
      (handle_job outside worker job ready).1.outbox
handle_job-matched_example = handle_job-matched outside worker job ready

handle_job-promotional_example : handle_job outside worker job ready ≡ (
  ok 0,
  record ready {
    published =
        record {
          subject = delivery_subject (str "t");
          body = delivery_body (record {
            notification_id = str "n";
            tenant_id = str "t";
            event_type = str "ndnc_blocked";
            provider = str "ndnc";
            error = none;
          });
        }
        ∷ [];
  },
)
unfolding find_phone find_template str_eq find_row match_template compiled active_records
handle_job-promotional_example =
    handle_job-promotional outside worker job 43 (str "91") (str "Sale") 100 [] template row
      (msg91 (str "key")) [] 1000 ready (record { healthy = refl; answers = refl }) refl refl refl
      refl refl refl refl refl refl

abbrev unlucky : World ℕ
unlucky = record ready { faults = false ∷ false ∷ false ∷ false ∷ true ∷ [] }

handle_job-unchecked_example :
    ((handle_job outside worker job unlucky).0 ≡ err db_failed)
    × ((handle_job outside worker job unlucky).1.outbox
        ≡ []
          ++ sms_out (str "msg91") (unchecked outside worker (str "+91") (str "Sale") (str "d"))
            ∷ [])
unfolding find_phone find_template str_eq match_template compiled
handle_job-unchecked_example =
    handle_job-unchecked outside worker job 43 (str "91") (str "Sale") 100 [] template
      (msg91 (str "key")) unlucky refl refl refl refl refl refl refl refl
