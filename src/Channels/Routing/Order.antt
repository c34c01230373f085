-- ===== src/Channels/Routing/Order.antt =====
-- The order in which a tenant's providers are tried (router.go).
use qeet_notify.Base.{
  ◌≡◌, refl, ap, ◌∙◌, true, false, Option, List, [], ◌∷◌, ◌++◌, map, All, select, Bool-cases, inl,
  inr,
}
use qeet_notify.Base.Int.{le_ℤ}
use qeet_notify.Base.Text.{Str}
use qeet_notify.Channels.Routing.{
  Record, insert_record, sort_records, record_of, is_usable, active_records,
}
use qeet_notify.Platform.Tables.{ProviderConfig}

abbrev Above : Record → List Record → Type 0
Above n rs = All (λ r. le_ℤ r.priority n.priority ≡ false) rs

sort_records-least :
    (n : Record) (rs : List Record) → Above n rs → sort_records (rs ++ n ∷ []) ≡ n ∷ sort_records rs
unfolding sort_records insert_record
sort_records-least n [] h = refl
sort_records-least n (r ∷ rs) (h, hs) = rw (sort_records-least n rs hs, h) refl

module _ (decrypt : Str → Str → Option Str) (tenant_id channel enc_key : Str)
    (c : ProviderConfig) where
  -- The usable rows have later priorities than this one.
  abbrev pub Comes : List ProviderConfig → Type 0
  Comes rows =
      All (λ d. is_usable tenant_id channel d ≡ true → le_ℤ d.priority c.priority ≡ false) rows

  abbrev usable : List ProviderConfig → List Record
  usable rows = map (record_of decrypt enc_key) (select (is_usable tenant_id channel) rows)

  usable-append :
      (rows : List ProviderConfig)
      → is_usable tenant_id channel c ≡ true
      → usable (rows ++ c ∷ []) ≡ usable rows ++ record_of decrypt enc_key c ∷ []
  usable-append [] h = rw h refl
  usable-append (d ∷ rows) h = elim (Bool-cases (is_usable tenant_id channel d)) [
    | inl e ↦ rw e (ap (λ rs. record_of decrypt enc_key d ∷ rs) (usable-append rows h))
    | inr e ↦ rw e (usable-append rows h)
  ]

  usable-Above :
      (rows : List ProviderConfig) → Comes rows → Above (record_of decrypt enc_key c) (usable rows)
  usable-Above [] h = tt
  usable-Above (d ∷ rows) (first, h) = elim (Bool-cases (is_usable tenant_id channel d)) [
    | inl e ↦ rw e (first e, usable-Above rows h)
    | inr e ↦ rw e (usable-Above rows h)
  ]

  -- A usable row with the least priority is the first record.
  pub active_records-least :
      (rows : List ProviderConfig)
      → is_usable tenant_id channel c ≡ true
      → Comes rows
      → active_records decrypt tenant_id channel enc_key (rows ++ c ∷ [])
        ≡ record_of decrypt enc_key c ∷ active_records decrypt tenant_id channel enc_key rows
  unfolding active_records
  active_records-least rows h first =
      ap sort_records (usable-append rows h)
      ∙ sort_records-least (record_of decrypt enc_key c) (usable rows) (usable-Above rows first)
