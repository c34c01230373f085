-- ===== src/Channels/Routing.antt =====
-- domains/routing/router.go: the tenant's own providers for a channel, by priority; and the database
-- function notify_decrypt, with pgp_sym_decrypt as a parameter that is `none` where it fails.
pub mod Order
use qeet_notify.Base.{Bool, ◌&&◌, Option, none, some, List, [], ◌∷◌, map, select, if◌then◌else◌}
use qeet_notify.Base.Int.{ℤ, le_ℤ}
use qeet_notify.Base.Text.{Str, str_eq, is_empty}
use qeet_notify.Platform.Tables.{ProviderConfig}
use qeet_notify.Platform.World.{M, gets, tx_call, ◌>>◌}

pub record Record : Type 0 where
  pub provider_name : Str
  pub config : Str
  pub priority : ℤ

abbrev or_unchanged : Option Str → Str → Str
or_unchanged none c = c
or_unchanged (some p) c = p

-- ORDER BY priority ASC.
insert_record : Record → List Record → List Record
insert_record r [] = r ∷ []
insert_record r (s ∷ ss) =
    let rest = insert_record r ss in if le_ℤ r.priority s.priority then r ∷ s ∷ ss else s ∷ rest

unfoldable pub sort_records : List Record → List Record
unfolding insert_record
sort_records [] = []
sort_records (r ∷ rs) = insert_record r (sort_records rs)

abbrev pub is_usable : Str → Str → ProviderConfig → Bool
is_usable tenant_id channel c =
    str_eq c.tenant_id tenant_id && str_eq c.channel channel && c.is_active

module _ (decrypt : Str → Str → Option Str) where
  abbrev pub notify_decrypt : Str → Str → Str
  notify_decrypt c key = if is_empty c then c else or_unchanged (decrypt c key) c

  abbrev pub record_of : Str → ProviderConfig → Record
  record_of enc_key c = record {
    provider_name = c.provider;
    config = notify_decrypt c.config_encrypted enc_key;
    priority = c.priority;
  }

  unfoldable pub active_records : Str → Str → Str → List ProviderConfig → List Record
  unfolding sort_records
  active_records tenant_id channel enc_key rows =
      sort_records (map (record_of enc_key) (select (is_usable tenant_id channel) rows))

  unfoldable pub load : {F : Type 0} → Str → Str → Str → M F (List Record)
  load tenant_id channel enc_key = do
    tx_call
    gets (λ w. active_records tenant_id channel enc_key w.db.provider_configs)
