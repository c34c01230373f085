-- ===== src/Api/Providers.antt =====
-- platform/api/handler/providers.go: the tenant's own providers, with encrypted credentials.
-- encoding/json and pgp_sym_encrypt are parameters; the timestamps of rows are left out.
pub mod Leading
mod Tests
use qeet_notify.Base.{
  ℕ, zero, suc, Bool, true, false, not, ◌&&◌, ◌||◌, Option, none, some, List, [], ◌∷◌, ◌++◌, map,
  if◌then◌else◌, any, select,
}
use qeet_notify.Base.Int.{ℤ, pos, negsuc, le_ℤ, lt_ℤ}
use qeet_notify.Base.Text.{Str, str, str_eq, is_empty}
use qeet_notify.Workflows.Json.{Fields}
use qeet_notify.Api.Http.{Response, reply}
use qeet_notify.Api.Rows.{is_own, update_own, delete_own, fits_int, when_hit, when_fine, exec_given}
use qeet_notify.Platform.Tables.{ProviderConfig}
use qeet_notify.Platform.World.{
  World, M, Result, ok, err, pure, gets, try, modify, tx_call, ◌>>=◌, ◌>>◌,
}

pub record ProviderRow : Type 0 where
  pub id : Str
  pub channel : Str
  pub provider : Str
  pub priority : ℤ
  pub is_active : Bool

-- A missing priority is 0, a missing or null config `none`.
pub record CreateRequest (F : Type 0) : Type 0 where
  pub channel : Str
  pub provider : Str
  pub priority : ℤ
  pub config : Option (Fields F)

pub record UpdateRequest (F : Type 0) : Type 0 where
  pub priority : Option ℤ
  pub is_active : Option Bool
  pub config : Option (Fields F)

-- `less` is the order of texts by which ORDER BY channel sorts.
pub record Outside (F : Type 0) : Type 0 where
  pub rows_json : List ProviderRow → Str
  pub id_json : Str → Str
  pub marshal : Fields F → Str
  pub encrypt : Str → Str → Str
  pub less : Str → Str → Bool

abbrev row_of : ProviderConfig → ProviderRow
row_of c = record {
  id = c.id;
  channel = c.channel;
  provider = c.provider;
  priority = c.priority;
  is_active = c.is_active;
}

abbrev pub provider_id : ProviderConfig → Str
provider_id c = c.id

abbrev pub provider_tenant : ProviderConfig → Str
provider_tenant c = c.tenant_id

-- The checks of the table: the channel, and the unique (tenant_id, channel, provider).
abbrev is_provider_channel : Str → Bool
is_provider_channel s =
    str_eq s (str "email")
    || str_eq s (str "sms")
    || str_eq s (str "whatsapp")
    || str_eq s (str "push")
    || str_eq s (str "webhook")

abbrev is_taken : Str → Str → Str → List ProviderConfig → Bool
is_taken tenant_id channel provider =
    any
      (λ c. str_eq c.tenant_id tenant_id && str_eq c.channel channel && str_eq c.provider provider)

abbrev pub or_one : ℤ → ℤ
or_one (pos zero) = pos 1
or_one (pos (suc n)) = pos (suc n)
or_one (negsuc n) = negsuc n

abbrev is_refused : {F : Type 0} → Str → CreateRequest F → List ProviderConfig → Bool
is_refused tenant_id req rows =
    is_taken tenant_id req.channel req.provider rows
    || not (is_provider_channel req.channel)
    || not (fits_int (or_one req.priority))

abbrev on_configs : {F : Type 0} → (List ProviderConfig → List ProviderConfig) → World F → World F
on_configs f w = record w { db = record w.db { provider_configs = f w.db.provider_configs } }

module _ {F : Type 0} (o : Outside F) where
  -- ORDER BY channel, priority.
  abbrev comes_first : ProviderConfig → ProviderConfig → Bool
  comes_first c d =
      o.less c.channel d.channel || (str_eq c.channel d.channel && le_ℤ c.priority d.priority)

  insert_config : ProviderConfig → List ProviderConfig → List ProviderConfig
  insert_config c [] = c ∷ []
  insert_config c (d ∷ ds) = if comes_first c d then c ∷ d ∷ ds else d ∷ insert_config c ds

  unfoldable pub sort_configs : List ProviderConfig → List ProviderConfig
  unfolding insert_config
  sort_configs [] = []
  sort_configs (c ∷ cs) = insert_config c (sort_configs cs)

  abbrev rows_reply : Result (Unit {0}) → List ProviderRow → Response
  rows_reply (err e) rows = reply 500 (str "query failed")
  rows_reply (ok _) rows = reply 200 (o.rows_json rows)

  unfoldable pub list_providers : Str → M F Response
  unfolding sort_configs
  list_providers tenant_id = do
    r ← try tx_call
    rows ← gets (λ w.
        map row_of
          (sort_configs (select (λ c. str_eq c.tenant_id tenant_id) w.db.provider_configs)))
    pure (rows_reply r rows)

  abbrev pub created : Str → Str → CreateRequest F → Fields F → Str → ProviderConfig
  created enc_key tenant_id req config id = record {
    id = id;
    tenant_id = tenant_id;
    channel = req.channel;
    provider = req.provider;
    priority = or_one req.priority;
    config_encrypted = o.encrypt (o.marshal config) enc_key;
    is_active = true;
  }

  module _ (uuid : ℕ → Str) (enc_key tenant_id : Str) where
    abbrev inserted : CreateRequest F → Fields F → Result (Unit {0}) → M F Response
    inserted req config (err e) w = (ok (reply 500 (str "create failed")), w)
    inserted req config (ok _) w =
        if is_refused tenant_id req w.db.provider_configs
        then (ok (reply 500 (str "create failed")), record w { aborted = true })
        else (
          ok (reply 201 (o.id_json (uuid w.made))),
          record w {
            db = record w.db {
              provider_configs =
                  w.db.provider_configs ++ created enc_key tenant_id req config (uuid w.made) ∷ [];
            };
            made = suc w.made;
          },
        )

    abbrev missing : Response
    missing = reply 422 (str "channel, provider, and config are required")

    abbrev with_config : CreateRequest F → Option (Fields F) → M F Response
    with_config req none = pure missing
    with_config req (some config) =
        if is_empty req.channel || is_empty req.provider
        then pure missing
        else do r ← try tx_call; inserted req config r

    unfoldable pub create_provider : Option (CreateRequest F) → M F Response
    create_provider none = pure (reply 400 (str "invalid json"))
    create_provider (some req) = with_config req req.config

  abbrev change : Str → Str → (ProviderConfig → ProviderConfig) → World F → World F
  change tenant_id id f = on_configs (update_own provider_id provider_tenant f id tenant_id)

  -- A priority that does not fit fails the update of a row that is hit.
  abbrev set_priority : Str → Str → ℤ → Result (Unit {0}) → M F (Unit {0})
  set_priority tenant_id id p (err e) w = (ok tt, w)
  set_priority tenant_id id p (ok _) w =
      if not (fits_int p)
        && any (is_own provider_id provider_tenant id tenant_id) w.db.provider_configs
      then (ok tt, record w { aborted = true })
      else (ok tt, change tenant_id id (λ c. record c { priority = p }) w)

  abbrev given_priority : Str → Str → Option ℤ → M F (Unit {0})
  given_priority tenant_id id none = pure tt
  given_priority tenant_id id (some p) = do r ← try tx_call; set_priority tenant_id id p r

  abbrev set_rest : Str → Str → UpdateRequest F → M F Response
  set_rest tenant_id id req = do
    given_priority tenant_id id req.priority
    exec_given req.is_active (λ b. change tenant_id id (λ c. record c { is_active = b }))
    pure (reply 200 (o.id_json id))

  abbrev set_config :
      Str → Str → Str → UpdateRequest F → Fields F → Result (Unit {0}) → M F Response
  set_config enc_key tenant_id id req config (err e) = pure (reply 500 (str "update failed"))
  set_config enc_key tenant_id id req config (ok _) =
      modify (
        change tenant_id id
          (λ c. record c { config_encrypted = o.encrypt (o.marshal config) enc_key }))
      >> set_rest tenant_id id req

  abbrev updated : Str → Str → Str → UpdateRequest F → Option (Fields F) → M F Response
  updated enc_key tenant_id id req none = set_rest tenant_id id req
  updated enc_key tenant_id id req (some config) = do
    r ← try tx_call
    set_config enc_key tenant_id id req config r

  unfoldable pub update_provider : Str → Str → Str → Option (UpdateRequest F) → M F Response
  update_provider enc_key tenant_id id none = pure (reply 400 (str "invalid json"))
  update_provider enc_key tenant_id id (some req) = updated enc_key tenant_id id req req.config

module _ {F : Type 0} where
  unfoldable pub delete_provider : Str → Str → M F Response
  delete_provider tenant_id id = do
    r ← try tx_call
    hit ← gets (λ w. any (is_own provider_id provider_tenant id tenant_id) w.db.provider_configs)
    when_hit r hit (reply 404 (str "not found"))
        (modify (on_configs (delete_own provider_id provider_tenant id tenant_id))) (reply 204 [])
