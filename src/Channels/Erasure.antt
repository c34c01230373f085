-- ===== src/Channels/Erasure.antt =====
-- An erased subscriber gets nothing: preferences.EraseSubscriber with the email and SMS workers.
mod Tests
use qeet_notify.Base.{
  ◌≡◌, refl, ap, ◌∙◌, ◌⊎◌, inl, inr, Bool, true, false, ◌&&◌, Option, none, some, List, [], ◌∷◌,
  map, if◌then◌else◌, Bool-cases,
}
use qeet_notify.Base.Text.{Str, str, str_eq}
use qeet_notify.Workflows.Types.{ChannelJob}
use qeet_notify.Channels.Email
use qeet_notify.Channels.Sms
use qeet_notify.Channels.Types.{email_out, sms_out}
use qeet_notify.Channels.Gate.{front-unaddressed}
use qeet_notify.Channels.Notify.{mark_suppressed}
use qeet_notify.Subscribers.Preferences.{erased, erase_rows, erase_subscriber}
use qeet_notify.Platform.Tables.{Db, Subscriber}
use qeet_notify.Platform.World.{World, M, Result, ok, err, tx_call, continue, modify, pure, ◌>>◌}
use qeet_notify.Platform.World.Effects.{tx_call-db, tx_call-error}

abbrev erasing : {F : Type 0} → Str → Str → Unit {0} → M F (Unit {0})
erasing tenant_id id _ =
    modify (λ w. record w {
      db = record w.db { subscribers = erase_rows tenant_id id w.db.subscribers };
    })

erase_subscriber-rows :
    {F : Type 0} (tenant_id id : Str) (w : World F)
    → (erase_subscriber tenant_id id w).0 ≡ ok tt
    → (erase_subscriber tenant_id id w).1.db.subscribers ≡ erase_rows tenant_id id w.db.subscribers
unfolding erase_subscriber
erase_subscriber-rows {F} tenant_id id w = go (tx_call w).0 (tx_call w).1 (tx_call-db w)
  where
    go :
        (r : Result (Unit {0})) (u : World F)
        → u.db ≡ w.db
        → (continue r (erasing tenant_id id) u).0 ≡ ok tt
        → (continue r (erasing tenant_id id) u).1.db.subscribers
          ≡ erase_rows tenant_id id w.db.subscribers
    go (ok _) u e h = rw e refl
    go (err x) u e h = cc

module _ {F : Type 0} (o : Email.Outside F) (worker : Email.Worker) where
  find_email-erased :
      (id tenant_id : Str) (rows : List (Subscriber F))
      → (Email.find_email o worker id tenant_id (erase_rows tenant_id id rows) ≡ none)
        ⊎ (Email.find_email o worker id tenant_id (erase_rows tenant_id id rows) ≡ some [])
  unfolding Email.find_email erase_rows
  find_email-erased id tenant_id [] = inl refl
  find_email-erased id tenant_id (s ∷ ss) =
      elim (Bool-cases (str_eq s.id id && str_eq s.tenant_id tenant_id)) [
        | inl e ↦ rw e (rw e (inr refl))
        | inr e ↦ simp e (find_email-erased id tenant_id ss)
      ]

module _ {F R : Type 0} (o : Sms.Outside F R) (worker : Sms.Worker) where
  find_phone-erased :
      (id tenant_id : Str) (rows : List (Subscriber F))
      → (Sms.find_phone o worker id tenant_id (erase_rows tenant_id id rows) ≡ none)
        ⊎ (Sms.find_phone o worker id tenant_id (erase_rows tenant_id id rows) ≡ some [])
  unfolding Sms.find_phone erase_rows
  find_phone-erased id tenant_id [] = inl refl
  find_phone-erased id tenant_id (s ∷ ss) =
      elim (Bool-cases (str_eq s.id id && str_eq s.tenant_id tenant_id)) [
        | inl e ↦ rw e (rw e (inr refl))
        | inr e ↦ simp e (find_phone-erased id tenant_id ss)
      ]

-- Behind a successful EraseSubscriber no job for that subscriber of that tenant sends an email or an
-- SMS, whichever calls fail and whatever else has happened since, as long as the rows of the
-- subscribers stay as the erasure left them.
pub erase_subscriber-silences :
    {F R : Type 0} (email : Email.Outside F) (email_worker : Email.Worker) (sms : Sms.Outside F R)
    (sms_worker : Sms.Worker) (job : ChannelJob F) (w u : World F)
    → (erase_subscriber job.tenant_id job.subscriber_id w).0 ≡ ok tt
    → u.db.subscribers ≡ (erase_subscriber job.tenant_id job.subscriber_id w).1.db.subscribers
    → ((Email.handle_job email email_worker job u).1.outbox ≡ u.outbox)
      × ((Sms.handle_job sms sms_worker job u).1.outbox ≡ u.outbox)
unfolding Email.handle_job Sms.handle_job
erase_subscriber-silences email email_worker sms sms_worker job w u erasing since =
    let rows = since ∙ erase_subscriber-rows job.tenant_id job.subscriber_id w erasing in
    (
      front-unaddressed email_out email.hash_value job.tenant_id (str "email")
          (λ d. Email.find_email email email_worker job.subscriber_id job.tenant_id d.subscribers)
          (λ d to m. Unit) _ _ u
          (rw rows (
            find_email-erased email email_worker job.subscriber_id job.tenant_id w.db.subscribers)),
      front-unaddressed sms_out sms.hash_value job.tenant_id (str "sms")
          (λ d. Sms.find_phone sms sms_worker job.subscriber_id job.tenant_id d.subscribers)
          (λ d to m. Unit) _ _ u
          (rw rows
            (find_phone-erased sms sms_worker job.subscriber_id job.tenant_id w.db.subscribers)),
    )
