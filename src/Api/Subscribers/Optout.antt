-- ===== src/Api/Subscribers/Optout.antt =====
-- Preferences and the consent ledger change together, or one without the other (subscribers.go).
use qeet_notify.Base.{
  none, Bool, ◌&&◌, if◌then◌else◌, ℕ, ◌≡◌, refl, ap, ◌∙◌, ◌⊎◌, inl, inr, true, false, [], ◌∷◌, ◌++◌,
  arith,
}
use qeet_notify.Base.Int.{ℤ}
use qeet_notify.Base.Text.{Str, str, str_eq, is_empty}
use qeet_notify.Api.Http.{reply}
use qeet_notify.Api.Subscribers.Choices.{or_all, link_entry, opt_out, follow_link}
use qeet_notify.Subscribers.Consent.{Entry, consent_row, record_consent}
use qeet_notify.Subscribers.Preferences.{
  unsubscribe, unsubscribe_rows, opt_out_row, opted_in_by, is_opted_in,
}
use qeet_notify.Platform.Tables.{Db}
use qeet_notify.Platform.Database.Atomic.{run_in_tenant-Whole}
use qeet_notify.Platform.World.Calm.{IsCalm}
use qeet_notify.Subscribers.Preferences.Consent.{
  is_opted_in-calm, unsubscribe_rows-opted_out, setting-upsert_ne,
}
use qeet_notify.Subscribers.Preferences.Specific.{setting, most_specific}
use qeet_notify.Platform.World.{World, Result, ok, err, db_failed, tx_call}
use qeet_notify.Platform.World.Effects.{tx_call-db, tx_call-now}

module _ {F : Type 0} where
  -- A statement that fails leaves the transaction aborted; one that succeeds does not.
  pub tx_call-aborts :
      (w : World F)
      → (((tx_call w).0 ≡ ok tt) × ((tx_call w).1.aborted ≡ false))
        ⊎ (((tx_call w).0 ≡ err db_failed) × ((tx_call w).1.aborted ≡ true))
  unfolding tx_call
  tx_call-aborts w = ground arith

  abbrev with_entry : Entry → Db F → ℤ → Db F
  with_entry e d now = record d { consent_ledger = d.consent_ledger ++ consent_row e now ∷ [] }

  -- Both rows of an opt-out.
  abbrev opted_out : Str → Str → Str → Str → Db F → World F → Db F
  opted_out tenant_id subscriber_id channel ip d w =
      with_entry (link_entry tenant_id subscriber_id channel ip)
        (record d { preferences = unsubscribe_rows tenant_id subscriber_id channel d.preferences })
        w.now

  opt_out-both :
      (tenant_id subscriber_id channel ip : Str) (w : World F) (u : Unit {0})
      → (opt_out tenant_id subscriber_id channel ip w).0 ≡ ok u
      → (opt_out tenant_id subscriber_id channel ip w).1.aborted ≡ false
      → (opt_out tenant_id subscriber_id channel ip w).1.db
        ≡ opted_out tenant_id subscriber_id channel ip w.db w
  unfolding opt_out unsubscribe record_consent
  opt_out-both tenant_id subscriber_id channel ip w u =
      let v = (tx_call w).1 in
      let without : Db F → Db F = λ d. record d {
        preferences = unsubscribe_rows tenant_id subscriber_id channel d.preferences;
      } in
      let entry = link_entry tenant_id subscriber_id channel ip in
      let w1 = record v { db = without v.db } in
      elim (tx_call-aborts w) [
        | inr (e, x) ↦ rw e (λ h k. absurd cc)
        | inl (e, x) ↦ rw e (elim (tx_call-aborts w1) [
          | inr (e1, x1) ↦ rw e1 (λ h k. absurd cc)
          | inl (e1, x1) ↦ rw e1 (λ h k.
              ap (λ d. with_entry entry d (tx_call w1).1.now) (tx_call-db w1)
              ∙ ap (with_entry entry w1.db) (tx_call-now w1 ∙ tx_call-now w)
              ∙ ap (λ (d : Db F). with_entry entry (without d) w.now) (tx_call-db w))
        ])
      ]

-- What an opt-out leaves: one entry at the end of the ledger, the answers of IsOptedIn, and the other
-- tables as they were.
pub record OptedOut {F : Type 0} (tenant_id subscriber_id channel ip : Str) (before after : Db F)
    : Type 0 where
  pub entered :
      (now : ℤ) × (after.consent_ledger
        ≡ before.consent_ledger
          ++ record {
            tenant_id = tenant_id;
            subscriber_id = subscriber_id;
            channel = channel;
            category = str "all";
            opted_in = false;
            source = str "unsubscribe_link";
            purpose = [];
            version = [];
            actor = str "subscriber";
            ip_address = ip;
            created_at = now;
          }
            ∷ [])
  pub silenced :
      (category : Str) (u : World F)
      → IsCalm u
      → u.db.preferences ≡ after.preferences
      → (setting tenant_id subscriber_id channel category before.preferences ≡ none)
        ⊎ (category ≡ str "all")
      → (is_opted_in tenant_id subscriber_id channel category u).0 ≡ ok false
  pub others :
      (t s ch cat : Str)
      → (str_eq channel ch && str_eq (str "all") cat) ≡ false
      → setting t s ch cat after.preferences ≡ setting t s ch cat before.preferences
  pub rest :
      after
      ≡ record before { preferences = after.preferences; consent_ledger = after.consent_ledger }

opted_out-OptedOut :
    {F : Type 0} (tenant_id subscriber_id channel ip : Str) (d : Db F) (w : World F)
    → OptedOut tenant_id subscriber_id channel ip d
        (opted_out tenant_id subscriber_id channel ip d w)
opted_out-OptedOut tenant_id subscriber_id channel ip d w = record {
  entered = (w.now, refl);
  silenced = λ category u calm same free.
      ap (λ (x : Result Bool × World _). x.0)
        (is_opted_in-calm tenant_id subscriber_id channel category u calm)
      ∙ ap (λ rows. ok (opted_in_by (most_specific tenant_id subscriber_id channel category rows)))
          same
      ∙ ap ok
          (unsubscribe_rows-opted_out tenant_id subscriber_id channel category d.preferences free);
  others = λ t s ch cat apart.
      unfold unsubscribe_rows in
      setting-upsert_ne (opt_out_row tenant_id subscriber_id channel) t s ch cat d.preferences
        apart;
  rest = refl;
}

-- Whichever calls fail, the unsubscribe link either answers with an error and leaves the tables as
-- they were, or it answers 200 and both have happened. The opt-out of the channel, "all" where the
-- link names none, is stored: IsOptedIn, none of whose calls fails, answers false for the subscriber
-- and that channel, for the category "all" and every category with no row of its own on the channel,
-- and the preferences for other channels and categories are as they were. And one entry of the
-- subscriber, the channel and the caller's address, for the category "all" and not opted in, stands at
-- the end of the consent ledger. The other tables stay as they were.
pub follow_link-both :
    {F : Type 0} (t s : ℕ) (tenant_id subscriber_id channel ip : Str) (w : World F)
    → let (r, v) = follow_link (t ∷ tenant_id) (s ∷ subscriber_id) channel ip w in
      ((r ≡ ok (reply 500 (str "unsubscribe failed"))) × (v.db ≡ w.db))
      ⊎ ((r ≡ ok (reply 200 (str "{\"status\":\"unsubscribed\"}")))
          × OptedOut
              (t ∷ tenant_id)
              (s ∷ subscriber_id)
              (if is_empty channel then str "all" else channel)
              ip
              w.db
              v.db)
unfolding follow_link
follow_link-both {F} t s tenant_id subscriber_id channel ip w =
    elim (run_in_tenant-Whole (t ∷ tenant_id)
      (opt_out (t ∷ tenant_id) (s ∷ subscriber_id) (or_all channel) ip) w) [
        | inl (e, h, same) ↦ rw h (inl (refl, same))
        | inr (a, u, h, scoped, start, healthy, good, k) ↦
            rw
              (
                good,
                k
                    ∙ opt_out-both (t ∷ tenant_id) (s ∷ subscriber_id) (or_all channel) ip u a h
                        healthy
                    ∙ ap
                        (λ (d : Db F).
                          opted_out (t ∷ tenant_id) (s ∷ subscriber_id) (or_all channel) ip d u)
                        start,
              )
              (inr (
                refl,
                opted_out-OptedOut (t ∷ tenant_id) (s ∷ subscriber_id) (or_all channel) ip w.db u,
              ))
      ]
