-- ===== src/Api/Subscribers/Tests.antt =====
-- The handlers of subscribers at concrete requests.
use qeet_notify.Base.{ℕ, ◌≡◌, ◌⊎◌, false, none, some, [], ◌∷◌}
use qeet_notify.Base.Text.{str}
use qeet_notify.Api.Http.{reply}
use qeet_notify.Api.Subscribers.{PreferenceItem}
use qeet_notify.Api.Subscribers.Choices.{follow_link, update_preferences}
use qeet_notify.Api.Subscribers.Ledger.{Settled, update_preferences-stores}
use qeet_notify.Api.Subscribers.Optout.{OptedOut, follow_link-both}
use qeet_notify.Platform.Samples.{empty_db, calm_world}
use qeet_notify.Platform.World.{World, ok}

abbrev world : World ℕ
world = calm_world empty_db

abbrev choice : PreferenceItem
choice = record { channel = str "sms"; category = []; is_opted_in = false }

follow_link-both_example :
    let (r, v) = follow_link (str "t") (str "u") [] (str "1.2.3.4") world in
    ((r ≡ ok (reply 500 (str "unsubscribe failed"))) × (v.db ≡ world.db))
    ⊎ ((r ≡ ok (reply 200 (str "{\"status\":\"unsubscribed\"}")))
        × OptedOut (str "t") (str "u") (str "all") (str "1.2.3.4") world.db v.db)
follow_link-both_example = follow_link-both 116 117 [] [] [] (str "1.2.3.4") world

update_preferences-stores_example :
    Settled
      (str "t")
      (str "u")
      (str "system")
      (str "1.2.3.4")
      (choice ∷ [])
      world
      (update_preferences (str "t") (str "u") none (str "1.2.3.4") (some (choice ∷ [])) world)
update_preferences-stores_example =
    update_preferences-stores (str "t") (str "u") none (str "1.2.3.4") (choice ∷ []) world
