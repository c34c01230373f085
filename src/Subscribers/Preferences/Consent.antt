-- ===== src/Subscribers/Preferences/Consent.antt =====
-- What IsOptedIn answers, and what Unsubscribe changes of it (preferences.go).
use qeet_notify.Base.{
  ◌≡◌, ap, sym, ◌∙◌, ◌≢◌, Bool, true, false, ◌&&◌, none, some, List, [], ◌∷◌, arith, Bool-cases,
  ◌⊎◌, inl, inr,
}
use qeet_notify.Base.Text.{Str, str_eq, str_eq_sound, str_eq_refl}
use qeet_notify.Platform.Tables.{Preference}
use qeet_notify.Platform.World.{World, Result, ok, err, tx_call, ◌>>◌}
use qeet_notify.Platform.World.Calm.{IsCalm, tx_call-calm}
use qeet_notify.Subscribers.Preferences.{
  opted_in_by, is_opted_in, opt_out_row, upsert, unsubscribe, unsubscribe_rows, wildcard,
}
use qeet_notify.Subscribers.Preferences.Specific.{setting, most_specific, choose-most_specific}

-- What IsOptedIn makes of the outcome of its query.
abbrev pub opted_in_after : Result (Unit {0}) → Str → Str → Str → Str → List Preference → Bool
opted_in_after (ok _) t s ch cat rows = opted_in_by (most_specific t s ch cat rows)
opted_in_after (err e) t s ch cat rows = true

-- IsOptedIn never fails. When its query succeeds it answers by the most specific preference: the
-- row of the channel and category, else that of the channel and "all", else that of "all" and the
-- category, else that of "all" and "all", else opted in. When the query fails it answers opted in.
pub is_opted_in-most_specific :
    {F : Type 0} (t s ch cat : Str) (w : World F)
    → (is_opted_in t s ch cat w).0
      ≡ ok (opted_in_after (tx_call w).0 t s ch cat (tx_call w).1.db.preferences)
unfolding is_opted_in
is_opted_in-most_specific t s ch cat w =
    ground (arith, choose-most_specific t s ch cat (tx_call w).1.db.preferences)

setting-upsert_self :
    (q : Preference) (ps : List Preference)
    → opted_in_by (setting q.tenant_id q.subscriber_id q.channel q.category (upsert q ps))
      ≡ q.is_opted_in
unfolding setting upsert
setting-upsert_self q [] = ground (
  arith,
  str_eq_refl q.tenant_id,
  str_eq_refl q.subscriber_id,
  str_eq_refl q.channel,
  str_eq_refl q.category,
)
setting-upsert_self q (p ∷ ps) = ground (arith, setting-upsert_self q ps)

-- A row of another channel or category is as it was.
pub setting-upsert_ne :
    (q : Preference) (t s ch cat : Str) (ps : List Preference)
    → (str_eq q.channel ch && str_eq q.category cat) ≡ false
    → setting t s ch cat (upsert q ps) ≡ setting t s ch cat ps
unfolding setting upsert
setting-upsert_ne q t s ch cat [] h = ground arith
setting-upsert_ne q t s ch cat (p ∷ ps) h = ground (
  arith,
  setting-upsert_ne q t s ch cat ps h,
  str_eq_sound p.channel q.channel,
  str_eq_sound p.category q.category,
)

str_eq_ne : (s t : Str) → s ≢ t → str_eq s t ≡ false
str_eq_ne s t n = elim (Bool-cases (str_eq s t)) [
  | inl e ↦ absurd (n (str_eq_sound s t e))
  | inr e ↦ e
]

-- After an opt-out of a channel, no row for the category itself keeps the subscriber in.
pub unsubscribe_rows-opted_out :
    (t s ch cat : Str) (rows : List Preference)
    → (setting t s ch cat rows ≡ none) ⊎ (cat ≡ wildcard)
    → opted_in_by (most_specific t s ch cat (unsubscribe_rows t s ch rows)) ≡ false
unfolding unsubscribe_rows
unsubscribe_rows-opted_out t s ch cat rows (inr h) =
    rw h (ground (arith, setting-upsert_self (opt_out_row t s ch) rows))
unsubscribe_rows-opted_out t s ch cat rows (inl h) = elim (Bool-cases (str_eq wildcard cat)) [
  | inl e ↦
      rw (← str_eq_sound wildcard cat e)
        (ground (arith, setting-upsert_self (opt_out_row t s ch) rows))
  | inr e ↦
      rw (setting-upsert_ne (opt_out_row t s ch) t s ch cat rows (ground arith), h)
        (ground (arith, setting-upsert_self (opt_out_row t s ch) rows))
]

module _ {F : Type 0} (t s ch cat : Str) (w : World F) (calm : IsCalm w) where
  abbrev unsubscribed : World F
  unsubscribed = record w {
    db = record w.db { preferences = unsubscribe_rows t s ch w.db.preferences };
  }

  unsubscribe-calm : unsubscribe t s ch w ≡ (ok tt, unsubscribed)
  unfolding unsubscribe
  unsubscribe-calm = simp (tx_call-calm w calm)

  pub is_opted_in-calm :
      is_opted_in t s ch cat w ≡ (ok (opted_in_by (most_specific t s ch cat w.db.preferences)), w)
  unfolding is_opted_in
  is_opted_in-calm = simp (tx_call-calm w calm, choose-most_specific)

-- After Unsubscribe from a channel, IsOptedIn answers false for that channel, for the category
-- "all" and for every category with no row of its own on that channel; no call fails.
is_opted_in-unsubscribe :
    {F : Type 0} (t s ch cat : Str) (w : World F)
    → IsCalm w
    → (setting t s ch cat w.db.preferences ≡ none) ⊎ (cat ≡ wildcard)
    → ((unsubscribe t s ch >> is_opted_in t s ch cat) w).0 ≡ ok false
is_opted_in-unsubscribe t s ch cat w calm h =
    simp (unsubscribe-calm t s ch cat w calm, is_opted_in-calm t s ch cat _ still)
      (ap ok (unsubscribe_rows-opted_out t s ch cat w.db.preferences h))
  where
    still : IsCalm (unsubscribed t s ch cat w calm)
    still = record { healthy = calm.healthy; answers = calm.answers }

-- Unsubscribe from "all" leaves a row of a channel and category in force: where it opts the
-- subscriber in, IsOptedIn still answers true for that channel and category. The channel is not
-- "all" and no call fails.
is_opted_in-unsubscribe_all :
    {F : Type 0} (t s ch cat : Str) {p : Preference} (w : World F)
    → IsCalm w
    → ch ≢ wildcard
    → setting t s ch cat w.db.preferences ≡ some p
    → p.is_opted_in ≡ true
    → ((unsubscribe t s wildcard >> is_opted_in t s ch cat) w).0 ≡ ok true
is_opted_in-unsubscribe_all t s ch cat {p} w calm n h o =
    simp (unsubscribe-calm t s wildcard cat w calm, is_opted_in-calm t s ch cat _ still, kept)
      (ap ok o)
  where
    still : IsCalm (unsubscribed t s wildcard cat w calm)
    still = record { healthy = calm.healthy; answers = calm.answers }

    apart : (str_eq wildcard ch && str_eq wildcard cat) ≡ false
    apart = ground (arith, str_eq_ne wildcard ch (λ e. n (sym e)))

    kept : setting t s ch cat (unsubscribe_rows t s wildcard w.db.preferences) ≡ some p
    kept =
        unfold unsubscribe_rows in
        setting-upsert_ne (opt_out_row t s wildcard) t s ch cat w.db.preferences apart ∙ h
