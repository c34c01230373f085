-- ===== src/Api/Subscribers/Ledger.antt =====
-- The consent ledger only grows, and a failure of the ledger loses the preference (subscribers.go).
use qeet_notify.Base.{
  not, select, if◌then◌else◌, ℕ, ◌≡◌, refl, sym, ap, ◌∙◌, ◌⊎◌, inl, inr, true, false, Option, some,
  List, [], ◌∷◌, ◌++◌, map, Bool-cases, append_assoc, append-nil,
}
use qeet_notify.Base.Int.{ℤ}
use qeet_notify.Base.Text.{Str, str, is_empty}
use qeet_notify.Api.Middleware.{finish_tx, tenant_tx}
use qeet_notify.Api.Subscribers.{PreferenceItem}
use qeet_notify.Api.Subscribers.Choices.{
  api_entry, chosen_row, set_preference, updated, set_each, update_preferences,
}
use qeet_notify.Platform.World.Effects.{tx_call-now}
use qeet_notify.Subscribers.Consent.{consent_row, record_consent}
use qeet_notify.Subscribers.Preferences.{upsert}
use qeet_notify.Platform.Tables.{Db, ConsentRow, Preference}
use qeet_notify.Platform.World.{World, Result, ok, db_failed, tx_call}
use qeet_notify.Platform.World.Calm.{tx_call-passes, tx_call-breaks, tx_call-aborted}
use qeet_notify.Api.Audit.Trail.{actor, actor-same}
use qeet_notify.Api.Http.{Response}
use qeet_notify.Api.Subscribers.Optout.{tx_call-aborts}
use qeet_notify.Platform.World.Effects.{tx_call-db}
use qeet_notify.Platform.Cache.Keys.{call-passes}

-- The preference and the entry of a choice; a missing category is "all".
abbrev pub stored_choice : Str → Str → PreferenceItem → Preference
stored_choice t s p = record {
  tenant_id = t;
  subscriber_id = s;
  channel = p.channel;
  category = if is_empty p.category then str "all" else p.category;
  is_opted_in = p.is_opted_in;
}

abbrev pub ledger_row : Str → Str → Str → Str → ℤ → PreferenceItem → ConsentRow
ledger_row t s actor ip now p = record {
  tenant_id = t;
  subscriber_id = s;
  channel = p.channel;
  category = if is_empty p.category then str "all" else p.category;
  opted_in = p.is_opted_in;
  source = str "api";
  purpose = [];
  version = [];
  actor = actor;
  ip_address = ip;
  created_at = now;
}

entry-ledger_row :
    (t s actor ip : Str) (now : ℤ) (p : PreferenceItem)
    → consent_row (api_entry t s actor ip p) now ≡ ledger_row t s actor ip now p
entry-ledger_row t s actor ip now p = elim (Bool-cases (is_empty p.category)) [
  | inl e ↦ rw e refl
  | inr e ↦ rw (e, e) refl
]

-- One choice after another.
abbrev pub chosen : Str → Str → List PreferenceItem → List Preference → List Preference
chosen t s [] rows = rows
chosen t s (p ∷ ps) rows = chosen t s ps (upsert (stored_choice t s p) rows)

-- The choices that name a channel.
abbrev pub named : List PreferenceItem → List PreferenceItem
named ps = select (λ p. not (is_empty p.channel)) ps

module _ {F : Type 0} (t s actor ip : Str) where
  abbrev pub with_choices : List PreferenceItem → ℤ → Db F → Db F
  with_choices ps now d = record d {
    preferences = chosen t s ps d.preferences;
    consent_ledger = d.consent_ledger ++ map (ledger_row t s actor ip now) ps;
  }

  -- The transaction is aborted, or all is stored.
  abbrev pub Settled : List PreferenceItem → World F → Result Response × World F → Type 0
  Settled ps w (r, v) =
      (v.aborted ≡ true) ⊎ ((r ≡ ok updated) × (v.db ≡ with_choices (named ps) w.now w.db))

  set_each-aborted :
      (ps : List PreferenceItem) (w : World F)
      → w.aborted ≡ true
      → (set_each t s actor ip ps w).1.aborted ≡ true
  unfolding set_each set_preference
  set_each-aborted [] w h = h
  set_each-aborted (p ∷ ps) w h = elim (Bool-cases (is_empty p.channel)) [
    | inl e ↦ rw e (set_each-aborted ps w h)
    | inr e ↦ rw (e, tx_call-aborted w h) h
  ]

  -- The world behind a choice and its entry.
  abbrev behind : PreferenceItem → World F → World F → World F
  behind p v u = record u {
    db = record u.db {
      consent_ledger = u.db.consent_ledger ++ consent_row (api_entry t s actor ip p) u.now ∷ [];
    };
  }

  abbrev with_choice : PreferenceItem → World F → World F
  with_choice p v = record v {
    db = record v.db { preferences = upsert (chosen_row t s p) v.db.preferences };
  }

  add-choice :
      (p : PreferenceItem) (ps : List PreferenceItem) (now : ℤ) (d : Db F)
      → with_choices ps now (record d {
        preferences = upsert (chosen_row t s p) d.preferences;
        consent_ledger = d.consent_ledger ++ consent_row (api_entry t s actor ip p) now ∷ [];
      })
        ≡ with_choices (p ∷ ps) now d
  add-choice p ps now d =
      ap (λ l. record d { preferences = chosen t s (p ∷ ps) d.preferences; consent_ledger = l })
        (append_assoc d.consent_ledger (consent_row (api_entry t s actor ip p) now ∷ [])
            (map (ledger_row t s actor ip now) ps)
          ∙ ap (λ x. d.consent_ledger ++ x ∷ map (ledger_row t s actor ip now) ps)
              (entry-ledger_row t s actor ip now p))

  set_each-Settled :
      (ps : List PreferenceItem) (w : World F) → Settled ps w (set_each t s actor ip ps w)
  unfolding set_each set_preference record_consent
  set_each-Settled [] w =
      inr
        (refl, ap (λ l. record w.db { consent_ledger = l }) (sym (append-nil w.db.consent_ledger)))
  set_each-Settled (p ∷ ps) w = elim (Bool-cases (is_empty p.channel)) [
    | inl e ↦ rw e (set_each-Settled ps w)
    | inr e ↦ rw e (
        let u = with_choice p (tx_call w).1 in
        let v = (tx_call u).1 in
        elim (tx_call-aborts w) [
          | inr (x, broken) ↦ rw x (inl broken)
          | inl (x, fine) ↦ rw x (elim (tx_call-aborts u) [
            | inr (y, broken) ↦ rw y (inl (set_each-aborted ps v broken))
            | inl (y, healthy) ↦ rw y (elim (set_each-Settled ps (behind p w v)) [
              | inl broken ↦ inl broken
              | inr (answered, k) ↦ inr (
                answered,
                k
                    ∙ ap
                        (λ (d : Db F). with_choices (named ps) v.now (record d {
                          consent_ledger =
                              d.consent_ledger ++ consent_row (api_entry t s actor ip p) v.now ∷ [];
                        }))
                        (tx_call-db u)
                    ∙ add-choice p (named ps) v.now (tx_call w).1.db
                    ∙ ap (λ now. with_choices (p ∷ named ps) now (tx_call w).1.db)
                        (tx_call-now u ∙ tx_call-now w)
                    ∙ ap (with_choices (p ∷ named ps) w.now) (tx_call-db w),
              )
            ])
          ])
        ])
  ]

-- Whichever calls fail, UpdatePreferences either leaves its transaction aborted, so that nothing of it
-- is kept, or it answers that the preferences are updated and has stored, one after the other, each
-- preference of the request that names a channel, for this subscriber of the tenant, and has appended
-- one entry for each to the consent ledger, in their order, with the caller, the address and the time
-- of the request; nothing else of the tables has changed. A missing category is "all".
pub update_preferences-stores :
    {F : Type 0} (tenant_id subscriber_id : Str) (key_hash : Option Str) (ip : Str)
    (ps : List PreferenceItem) (w : World F)
    → Settled tenant_id subscriber_id
        (actor key_hash).1
        ip
        ps
        w
        (update_preferences tenant_id subscriber_id key_hash ip (some ps) w)
unfolding update_preferences
update_preferences-stores tenant_id subscriber_id key_hash ip ps w =
    rw (actor-same key_hash) (set_each-Settled tenant_id subscriber_id (actor key_hash).1 ip ps w)

-- When only the entry of the ledger for the last preference of a request fails, the client is told
-- that its preferences are updated, but none of them is: the failed entry, whose error is dropped, has
-- aborted the request's transaction. The request holds one preference, for a channel.
update_preferences-lost :
    {F : Type 0} (t : ℕ) (tenant_id subscriber_id : Str) (key_hash : Option Str) (ip : Str)
    (p : PreferenceItem) (w : World F)
    → w.aborted ≡ false
    → w.faults ≡ false ∷ false ∷ false ∷ true ∷ []
    → is_empty p.channel ≡ false
    → let (r, v) =
        tenant_tx
          (t ∷ tenant_id)
          (update_preferences (t ∷ tenant_id) subscriber_id key_hash ip (some (p ∷ [])))
          w in
      (r ≡ ok updated) × (v.db ≡ w.db)
unfolding tenant_tx finish_tx update_preferences set_each set_preference record_consent
update_preferences-lost t tenant_id subscriber_id key_hash ip p w healthy faults named =
    simp
      (
        call-passes db_failed w faults,
        tx_call-passes (record w { faults = false ∷ false ∷ true ∷ [] }) healthy refl,
        named,
        tx_call-passes (record w { faults = false ∷ true ∷ []; scope = t ∷ tenant_id }) healthy
            refl,
        tx_call-breaks
            (record w {
              db = record w.db {
                preferences = upsert (chosen_row (t ∷ tenant_id) subscriber_id p) w.db.preferences;
              };
              faults = true ∷ [];
              scope = t ∷ tenant_id;
            })
            healthy refl,
      )
      (refl, refl)
