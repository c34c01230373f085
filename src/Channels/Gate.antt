-- ===== src/Channels/Gate.antt =====
-- The front of every channel worker: the address is looked up, and a suppressed one is not sent to.
use qeet_notify.Base.{
  ◌≡◌, refl, sym, ap, ◌∙◌, ◌⊎◌, inl, inr, false, Option, none, some, [], ◌∷◌, if◌then◌else◌,
  Bool-cases,
}
use qeet_notify.Base.Text.{Str}
use qeet_notify.Channels.Types.{Outgoing}
use qeet_notify.Channels.Notify.{address_or_error}
use qeet_notify.Channels.Outbox.{One, One-from, One-with, Keeps, tx_call-outbox, OnceIn}
use qeet_notify.Subscribers.Preferences.{is_suppressed, listed}
use qeet_notify.Platform.Tables.{Db}
use qeet_notify.Platform.World.{World, M, gets, tx_call, ◌>>=◌, ◌>>◌}
use qeet_notify.Platform.World.Effects.{tx_call-db, tx_call-error}

module _ {F A X : Type 0} (out : Str → X → Outgoing) (hash : Str → Str) (t ch : Str)
    (find : Db F → Option Str) (p : Db F → Str → X → Type 0) (m : M F A) (n : Str → M F A) where
  -- What follows the address.
  abbrev gate : Str → M F A
  gate to = is_suppressed hash t ch to >>= λ stopped. if stopped then m else n to

  abbrev pub front : M F A
  front = do tx_call; found ← gets (λ w. find w.db); to ← address_or_error found; gate to

  -- Without an address nothing is sent.
  pub front-unaddressed :
      (w : World F) → (find w.db ≡ none) ⊎ (find w.db ≡ some []) → (front w).1.outbox ≡ w.outbox
  front-unaddressed w h = elim (tx_call-error w) [
    | inr e ↦ rw e (tx_call-outbox w)
    | inl e ↦ rw (e, tx_call-db w) (by_address (find w.db) h)
  ]
    where
      by_address :
          (found : Option Str)
          → (found ≡ none) ⊎ (found ≡ some [])
          → ((address_or_error found >>= gate) (tx_call w).1).1.outbox ≡ w.outbox
      by_address found (inl e) = rw e (tx_call-outbox w)
      by_address found (inr e) = rw e (tx_call-outbox w)

  module _ (keeps : Keeps m) (sends : (d : Db F) (to : Str) → OnceIn out d (p d to) (n to)) where
    gate-One :
        (to : Str) (w : World F)
        → One out
            (λ x. (listed hash t ch to w.db.suppressions ≡ false) × p w.db to x)
            w.outbox
            (gate to w).1.outbox
    unfolding is_suppressed
    gate-One to w = elim (tx_call-error w) [
      | inr e ↦ rw e (inl (tx_call-outbox w))
      | inl e ↦
          rw (e, tx_call-db w)
            (elim (Bool-cases (listed hash t ch to w.db.suppressions)) [
              | inl hit ↦ rw hit (inl (keeps.kept (tx_call w).1 ∙ tx_call-outbox w))
              | inr miss ↦ rw miss (
                  One-from out _ _ _ _ (tx_call-outbox w) (
                    One-with out _ _ _ _ (λ x h. (refl, h))
                      ((sends w.db to).once_in (tx_call w).1 (tx_call-db w))))
            ])
    ]

    -- Whichever calls fail, at most one message leaves, to the address that was found and is not
    -- suppressed.
    pub address-One :
        (w : World F)
        → One out
            (λ x.
              (to : Str) × (find w.db ≡ some to)
              × (listed hash t ch to w.db.suppressions ≡ false)
              × p w.db to x)
            w.outbox
            (front w).1.outbox
    address-One w = elim (tx_call-error w) [
      | inr e ↦ rw e (inl (tx_call-outbox w))
      | inl e ↦ rw (e, tx_call-db w) (by_address (find w.db) refl)
    ]
      where
        by_address :
            (found : Option Str)
            → find w.db ≡ found
            → One out
                (λ x.
                  (to : Str) × (find w.db ≡ some to)
                  × (listed hash t ch to w.db.suppressions ≡ false)
                  × p w.db to x)
                w.outbox
                ((address_or_error found >>= gate) (tx_call w).1).1.outbox
        by_address none h = inl (tx_call-outbox w)
        by_address (some []) h = inl (tx_call-outbox w)
        by_address (some (c ∷ s)) h = One-from out _ _ _ _ (tx_call-outbox w) (
            One-with out _ _ _ _
              (λ x r. (
                c ∷ s,
                h,
                ap (λ (d : Db F). listed hash t ch (c ∷ s) d.suppressions) (sym (tx_call-db w))
                    ∙ r.0,
                rw (← tx_call-db w) r.1,
              ))
              (gate-One (c ∷ s) (tx_call w).1))
