-- ===== src/Subscribers/Preferences/Tests.antt =====
-- The theorems about preferences at concrete inputs.
use qeet_notify.Base.{ℕ, ◌≡◌, true, [], ◌∷◌}
use qeet_notify.Base.Text.{str, str_eq}
use qeet_notify.Platform.Tables.{Preference}
use qeet_notify.Platform.Samples.{empty_db, calm_world}
use qeet_notify.Platform.World.{World, ok, tx_call}
use qeet_notify.Subscribers.Preferences.{is_opted_in}
use qeet_notify.Subscribers.Preferences.Specific.{setting}
use qeet_notify.Subscribers.Preferences.Consent.{is_opted_in-most_specific}

abbrev marketing : Preference
marketing = record {
  tenant_id = str "t";
  subscriber_id = str "u";
  channel = str "sms";
  category = str "marketing";
  is_opted_in = true;
}

abbrev opted_in : World ℕ
opted_in = calm_world (record empty_db { preferences = marketing ∷ [] })

is_opted_in-most_specific_example :
    (is_opted_in (str "t") (str "u") (str "sms") (str "marketing") opted_in).0 ≡ ok true
unfolding tx_call setting str_eq
is_opted_in-most_specific_example =
    is_opted_in-most_specific (str "t") (str "u") (str "sms") (str "marketing") opted_in
