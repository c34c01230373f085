-- ===== src/Api/Providers/Leading.antt =====
-- Which provider a worker tries first (providers.go with domains/routing).
use qeet_notify.Base.{
  ℕ, ◌≡◌, refl, ap, ◌∙◌, true, false, ◌||◌, Option, some, [], ◌∷◌, ◌++◌, arith, Bool-cases, inl,
  inr,
}
use qeet_notify.Base.Text.{Str, str_eq_refl, is_empty}
use qeet_notify.Workflows.Json.{Fields}
use qeet_notify.Api.Http.{reply}
use qeet_notify.Api.Providers.{Outside, CreateRequest, created, or_one, is_refused, create_provider}
use qeet_notify.Channels.Routing.{is_usable, active_records, load, notify_decrypt}
use qeet_notify.Channels.Routing.Order.{Comes, active_records-least}
use qeet_notify.Platform.Tables.{ProviderConfig}
use qeet_notify.Platform.World.{World, ok}
use qeet_notify.Platform.World.Calm.{IsCalm, tx_call-calm}
use qeet_notify.Platform.World.Effects.{tx_call-db, tx_call-error, tx_call-made, ok-injective}

module _ {F : Type 0} (o : Outside F) (uuid : ℕ → Str) (enc_key tenant_id : Str)
    (req : CreateRequest F) (config : Fields F) where
  abbrev pub new_row : World F → ProviderConfig
  new_row w = created o enc_key tenant_id req config (uuid w.made)

  create_provider-rows :
      (w : World F)
      → req.config ≡ some config
      → (create_provider o uuid enc_key tenant_id (some req) w).0
        ≡ ok (reply 201 (o.id_json (uuid w.made)))
      → (create_provider o uuid enc_key tenant_id (some req) w).1.db.provider_configs
        ≡ w.db.provider_configs ++ new_row w ∷ []
  unfolding create_provider
  create_provider-rows w given =
      rw given (elim (Bool-cases (is_empty req.channel || is_empty req.provider)) [
        | inl e ↦ rw e (λ h. absurd (ground (arith, ok-injective h)))
        | inr e ↦ rw e (elim (tx_call-error w) [
          | inr x ↦ rw x (λ h. absurd (ground (arith, ok-injective h)))
          | inl x ↦
              rw (x, tx_call-made w, tx_call-db w)
                (elim (Bool-cases (is_refused tenant_id req w.db.provider_configs)) [
                  | inl y ↦ rw y (λ h. absurd (ground (arith, ok-injective h)))
                  | inr y ↦ rw y (λ h. refl)
                ])
        ])
      ])

  is_usable-new :
      (id : Str)
      → is_usable tenant_id req.channel (created o enc_key tenant_id req config id) ≡ true
  is_usable-new id = rw (str_eq_refl tenant_id, str_eq_refl req.channel) refl

notify_decrypt-inverse :
    (decrypt : Str → Str → Option Str) (c key plain : Str)
    → is_empty c ≡ false
    → decrypt c key ≡ some plain
    → notify_decrypt decrypt c key ≡ plain
notify_decrypt-inverse decrypt c key plain full inverse = rw (full, inverse) refl

-- A new provider with the least priority is tried first: behind a creation that is answered with
-- 201, whichever calls fail, the workers of its channel load it in front of the providers that they
-- loaded before, with the decrypted credentials of the request. Those before have greater
-- priorities, decrypting the credentials gives back what was encrypted, the encrypted text is not
-- empty, the configurations stay as the creation left them, and the loading's call does not fail.
pub create_provider-leads :
    {F : Type 0} (o : Outside F) (decrypt : Str → Str → Option Str) (uuid : ℕ → Str)
    (enc_key tenant_id : Str) (req : CreateRequest F) (config : Fields F) (w u : World F)
    → req.config ≡ some config
    → (create_provider o uuid enc_key tenant_id (some req) w).0
      ≡ ok (reply 201 (o.id_json (uuid w.made)))
    → is_empty (o.encrypt (o.marshal config) enc_key) ≡ false
    → decrypt (o.encrypt (o.marshal config) enc_key) enc_key ≡ some (o.marshal config)
    → Comes decrypt tenant_id req.channel enc_key
        (new_row o uuid enc_key tenant_id req config w)
        w.db.provider_configs
    → u.db.provider_configs
      ≡ (create_provider o uuid enc_key tenant_id (some req) w).1.db.provider_configs
    → IsCalm u
    → (load decrypt tenant_id req.channel enc_key u).0
      ≡ ok (
          record {
            provider_name = req.provider;
            config = o.marshal config;
            priority = or_one req.priority;
          }
          ∷ active_records decrypt tenant_id req.channel enc_key w.db.provider_configs)
unfolding load
create_provider-leads o decrypt uuid enc_key tenant_id req config w u given done full inverse first
      same calm =
    simp (tx_call-calm u calm) (
      ap (λ rows. ok (active_records decrypt tenant_id req.channel enc_key rows))
        (same ∙ create_provider-rows o uuid enc_key tenant_id req config w given done)
      ∙ ap ok (
          active_records-least decrypt tenant_id req.channel enc_key _ w.db.provider_configs
            (is_usable-new o uuid enc_key tenant_id req config (uuid w.made)) first)
      ∙ ap
          (λ c. ok (
            record { provider_name = req.provider; config = c; priority = or_one req.priority }
            ∷ active_records decrypt tenant_id req.channel enc_key w.db.provider_configs))
          (notify_decrypt-inverse decrypt _ enc_key (o.marshal config) full inverse))
