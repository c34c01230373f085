-- ===== src/Api/Webhooks/Bounces.antt =====
-- What a bounce, a complaint and an open lead to (webhooks.go with the email worker).
use qeet_notify.Base.{
  ℕ, ◌≡◌, refl, sym, ap, ◌∙◌, inl, inr, true, false, Option, some, List, [], ◌∷◌, ◌++◌, arith,
  Bool-cases,
}
use qeet_notify.Base.Text.{Str, str, str_eq, str_eq_refl, is_empty}
use qeet_notify.Workflows.Json.{Fields}
use qeet_notify.Workflows.Types.{ChannelJob}
use qeet_notify.Api.Webhooks.{
  is_bad, reason_of, find_message, find_plain, record_event, suppress_bad, set_status, apply_event,
  process_email_event, status_of, extract_email_event, inbound_email_webhook, receive_email_webhook,
}
use qeet_notify.Channels.Email
use qeet_notify.Channels.Email.Once.{handle_job-once}
use qeet_notify.Channels.Types.{EmailMessage}
use qeet_notify.Platform.Database.{run_in_tenant, end_tx, commit}
use qeet_notify.Platform.Tables.{Notification, Suppression, failed}
use qeet_notify.Platform.World.{World, call, tx_call}
use qeet_notify.Platform.World.Calm.{IsCalm}
use qeet_notify.Subscribers.Preferences.{listed, add_row, add_suppression}

failed_status : status_of (str "failed") ≡ some failed
unfolding status_of str_eq
failed_status = refl

module _ (hash_value : Str → Str) where
  -- A suppression that has been added is found.
  pub listed-add_row :
      (t ch plain reason : Str) (rows : List Suppression)
      → listed hash_value t ch plain (add_row hash_value t ch plain reason rows) ≡ true
  unfolding add_row
  listed-add_row t ch plain reason rows = elim (Bool-cases (listed hash_value t ch plain rows)) [
    | inl e ↦ rw e e
    | inr e ↦ rw e (in_last rows)
  ]
    where
      in_last :
          (rows : List Suppression)
          → listed hash_value t ch plain (
              rows
              ++ record {
                tenant_id = t;
                channel = ch;
                value_hash = hash_value plain;
                reason = reason;
              }
                ∷ [])
            ≡ true
      in_last [] = rw (str_eq_refl t, str_eq_refl ch, str_eq_refl (hash_value plain)) refl
      in_last (r ∷ rs) = rw (in_last rs) (ground arith)

bad-named : (event_type : Str) → is_bad event_type ≡ true → is_empty event_type ≡ false
unfolding str_eq
bad-named [] bad = absurd cc
bad-named (c ∷ s) bad = refl

module _ {F : Type 0} (decrypt : Str → Str → Option Str) (hash_value : Str → Str) where
  abbrev settled : World F → World F
  settled w = record w { faults = []; aborted = false }

  processed_settled :
      (enc_key id provider event_type : Str) (n : Notification) (k : ℕ) (s : Str) (w : World F)
      → find_message id provider w.db.notifications ≡ some n
      → find_plain decrypt hash_value enc_key n.subscriber_id
          (record w { scope = n.tenant_id })
          w.db.subscribers
        ≡ k ∷ s
      → is_bad event_type ≡ true
      → (process_email_event decrypt hash_value enc_key provider id event_type
          (settled w)).1.db.suppressions
        ≡ add_row hash_value n.tenant_id
            (str "email")
            (k ∷ s)
            (reason_of event_type)
            w.db.suppressions
  unfolding process_email_event run_in_tenant end_tx commit call tx_call apply_event record_event
      suppress_bad set_status add_suppression
  processed_settled enc_key id provider event_type n k s w found plain bad =
      simp (found, plain, bad, failed_status) refl

  settled-calm : (w : World F) → IsCalm w → settled w ≡ w
  settled-calm w calm =
      ap (λ f. record w { faults = f; aborted = false }) (sym calm.answers)
      ∙ ap (λ b. record w { aborted = b }) (sym calm.healthy)

  -- A webhook with a bounce hands it on.
  receive_email_webhook-processed :
      (parse : Str → Option (Fields F)) (enc_key provider body : Str) (payload : Fields F)
      (event_type : Str) (i : ℕ) (id : Str) (w : World F)
      → parse body ≡ some payload
      → extract_email_event parse provider payload ≡ (event_type, i ∷ id)
      → is_bad event_type ≡ true
      → (receive_email_webhook decrypt hash_value parse enc_key provider (some body) w).1
        ≡ (process_email_event decrypt hash_value enc_key provider (i ∷ id) event_type w).1
  unfolding receive_email_webhook inbound_email_webhook
  receive_email_webhook-processed parse enc_key provider body payload event_type i id w read event
        bad =
      rw (read, event, bad-named event_type bad) refl

true-false : true ≡ false → ⊥
true-false e = cc

-- When no call fails, then behind an email webhook whose body parses and in which extractEmailEvent
-- finds a bounce or a complaint with the id of a message, the address of the message's subscriber is
-- suppressed for email: no job of that tenant whose subscriber has that address sends an email any
-- more, whichever calls fail then and whatever else has happened since, as long as the suppression
-- list stays as it was left. The message is found by its id and its subscriber has an address. Of a
-- complaint reported by SES nothing is stated: extractEmailEvent finds no message id in it.
pub receive_email_webhook-silences :
    {F : Type 0} (o : Email.Outside F) (worker : Email.Worker) (job : ChannelJob F)
    (parse : Str → Option (Fields F)) (body : Str) (payload : Fields F) (provider event_type : Str)
    (i : ℕ) (id : Str) (n : Notification) (k : ℕ) (s : Str) (w u : World F)
    → IsCalm w
    → parse body ≡ some payload
    → extract_email_event parse provider payload ≡ (event_type, i ∷ id)
    → find_message (i ∷ id) provider w.db.notifications ≡ some n
    → find_plain o.decrypt o.hash_value worker.enc_key n.subscriber_id
        (record w { scope = n.tenant_id })
        w.db.subscribers
      ≡ k ∷ s
    → is_bad event_type ≡ true
    → job.tenant_id ≡ n.tenant_id
    → Email.find_email o worker job.subscriber_id job.tenant_id u.db.subscribers ≡ some (k ∷ s)
    → u.db.suppressions
      ≡ (receive_email_webhook o.decrypt o.hash_value parse worker.enc_key provider
          (some body)
          w).1.db.suppressions
    → (Email.handle_job o worker job u).1.outbox ≡ u.outbox
receive_email_webhook-silences {F} o worker job parse body payload provider event_type i id n k s w
      u calm read event found plain bad same addressed since =
    elim (handle_job-once o worker job u) [
      | inl e ↦ e
      | inr (name, m, e, (address, free)) ↦ absurd (contradiction m address free)
    ]
  where
    rows :
        u.db.suppressions
        ≡ add_row o.hash_value n.tenant_id
            (str "email")
            (k ∷ s)
            (reason_of event_type)
            w.db.suppressions
    rows =
        since
        ∙ ap (λ (v : World F). v.db.suppressions)
            (receive_email_webhook-processed o.decrypt o.hash_value parse worker.enc_key provider
              body payload event_type i id w read event bad)
        ∙ ap
            (λ (v : World F).
              (process_email_event o.decrypt o.hash_value worker.enc_key provider (i ∷ id)
                event_type v).1.db.suppressions)
            (sym (settled-calm o.decrypt o.hash_value w calm))
        ∙ processed_settled o.decrypt o.hash_value worker.enc_key (i ∷ id) provider event_type n k s
            w found plain bad

    stopped : listed o.hash_value job.tenant_id (str "email") (k ∷ s) u.db.suppressions ≡ true
    stopped =
        rw (same, rows)
          (listed-add_row o.hash_value n.tenant_id (str "email") (k ∷ s) (reason_of event_type)
            w.db.suppressions)

    some_injective : {a b : Str} → some a ≡ some b → a ≡ b
    some_injective h = cc

    contradiction :
        (m : EmailMessage)
        → Email.find_email o worker job.subscriber_id job.tenant_id u.db.subscribers ≡ some m.to
        → listed o.hash_value job.tenant_id (str "email") m.to u.db.suppressions ≡ false
        → ⊥
    contradiction m address free = true-false (
        sym stopped
        ∙ ap (λ a. listed o.hash_value job.tenant_id (str "email") a u.db.suppressions)
            (some_injective (sym addressed ∙ address))
        ∙ free)
