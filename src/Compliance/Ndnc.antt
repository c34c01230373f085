-- ===== src/Compliance/Ndnc.antt =====
-- domains/compliance/ndnc/ndnc.go: the national registry of numbers that refuse promotional SMS.
-- SHA-256 in hexadecimal is a parameter.
use qeet_notify.Base.{Bool, ◌&&◌, List, [], ◌∷◌, ◌++◌, any, if◌then◌else◌}
use qeet_notify.Base.Text.{Str, str, str_eq, is_empty}
use qeet_notify.Platform.Tables.{NdncRow}
use qeet_notify.Platform.World.{M, gets, modify, tx_call, ◌>>◌}

module _ (hash_phone : Str → Str) where
  abbrev pub registered : Str → List NdncRow → Bool
  registered phone = any (λ r. str_eq r.phone_hash (hash_phone phone))

  unfoldable pub is_registered : {F : Type 0} → Str → M F Bool
  is_registered phone = do tx_call; gets (λ w. registered phone w.db.ndnc_registry)

  abbrev or_default : Str → Str → Str
  or_default s fallback = if is_empty s then fallback else s

  -- ON CONFLICT DO NOTHING, under PRIMARY KEY (phone_hash, category).
  unfoldable pub add_number : Str → Str → Str → List NdncRow → List NdncRow
  add_number phone category source rows =
      if any (λ r. str_eq r.phone_hash (hash_phone phone) && str_eq r.category category) rows
      then rows
      else rows
        ++ record { phone_hash = hash_phone phone; category = category; source = source } ∷ []

  unfoldable pub register : {F : Type 0} → Str → Str → Str → M F (Unit {0})
  unfolding add_number
  register phone category source = do
    tx_call
    modify (λ w. record w {
      db = record w.db {
        ndnc_registry =
            add_number phone (or_default category (str "all")) (or_default source (str "manual"))
              w.db.ndnc_registry;
      };
    })
