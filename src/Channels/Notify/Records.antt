-- ===== src/Channels/Notify/Records.antt =====
-- Recording sends nothing through a provider.
use qeet_notify.Base.{refl, Option, none, some}
use qeet_notify.Base.Text.{Str}
use qeet_notify.Workflows.Types.{ChannelJob}
use qeet_notify.Platform.Tables.{suppressed}
use qeet_notify.Platform.World.{Result, ok, err, Error, panicked, try, tx_call}
use qeet_notify.Channels.Outbox.{
  Keeps, tx_call-outbox, publish-outbox, Keeps-raise, Keeps-bind, Keeps-tx_call,
}
use qeet_notify.Channels.Routing.{load}
use qeet_notify.Channels.Notify.{
  update_notification, record_delivery, when_ok, mark_stopped, finish,
}

module _ {F : Type 0} where
  pub Keeps-record_delivery :
      (job : ChannelJob F) (event provider : Str) (e : Option Error)
      → Keeps (record_delivery job event provider e)
  unfolding record_delivery
  Keeps-record_delivery job event provider e = record { kept = λ w. publish-outbox _ _ w }

  pub Keeps-mark_stopped :
      (job : ChannelJob F) (event provider : Str) → Keeps (mark_stopped job event provider)
  unfolding mark_stopped
  Keeps-mark_stopped job event provider =
      Keeps-bind (try tx_call) _ (record { kept = tx_call-outbox })
        (λ r. Keeps-bind _ _ (marked r) (λ _. Keeps-record_delivery job event provider none))
    where
      marked :
          (r : Result (Unit {0}))
          → Keeps {F = F} (
              when_ok r
                (update_notification job.notification_id (λ n. record n { status = suppressed })))
      marked (ok _) = record { kept = λ w. refl }
      marked (err e) = record { kept = λ w. refl }

  pub Keeps-finish :
      (job : ChannelJob F) (provider : Str) (r : Option Str) (e : Option Error)
      → Keeps (finish job provider r e)
  Keeps-finish job provider r (some e) = Keeps-raise e
  Keeps-finish job provider none none = Keeps-raise panicked
  Keeps-finish job provider (some id) none =
      Keeps-bind _ _ Keeps-tx_call (λ _. record { kept = λ w. refl })

  pub Keeps-load :
      (decrypt : Str → Str → Option Str) (t ch k : Str) → Keeps {F = F} (load decrypt t ch k)
  unfolding load
  Keeps-load decrypt t ch k = Keeps-bind _ _ Keeps-tx_call (λ _. record { kept = λ w. refl })
