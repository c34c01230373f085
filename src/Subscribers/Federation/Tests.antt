-- ===== src/Subscribers/Federation/Tests.antt =====
-- Events about users at concrete inputs.
use qeet_notify.Base.{ℕ, ◌≡◌, refl, true, some, [], ◌∷◌, ◌++◌, length, arith}
use qeet_notify.Base.Text.{Str, str, str_eq}
use qeet_notify.Base.Text.Search.{has_suffix}
use qeet_notify.Platform.Database.{run_in_tenant, end_tx, commit}
use qeet_notify.Platform.Samples.{empty_db, calm_world, sample_subscriber}
use qeet_notify.Platform.World.{World, ok, call, tx_call}
use qeet_notify.Subscribers.Federation.{UserEvent, upsert_subscriber, on_user_event}
use qeet_notify.Subscribers.Federation.Refreshed.{Stored, on_user_event-Stored}
use qeet_notify.Subscribers.Federation.Confined.{Confined, on_user_event-Confined}

abbrev event : UserEvent
event = record {
  tenant_id = str "t";
  user_id = str "x";
  email = str "new@b";
  phone = [];
  locale = [];
  timezone = [];
}

abbrev newcomer : UserEvent
newcomer = record event { user_id = str "y" }

abbrev encrypt : Str → Str → Str
encrypt plain key = key ++ plain

abbrev world : World ℕ
world = calm_world (record empty_db { subscribers = sample_subscriber ∷ [] })

on_user_event-Confined_example :
    let (r, v) =
      on_user_event encrypt (λ n. n ∷ []) (str "k") (str "user.updated") (some event) world in
    (r ≡ ok tt) × Confined event world.db v.db
unfolding str_eq
on_user_event-Confined_example =
    on_user_event-Confined encrypt (λ n. n ∷ []) (str "k") (str "user.updated") event world
      (omega arith)

-- A user that is new gets a row behind the others.
enrolled_newcomer :
    let v =
      (on_user_event encrypt
        (λ n. n ∷ [])
        (str "k")
        (str "user.created")
        (some newcomer)
        world).1 in
    length v.db.subscribers ≡ 2
unfolding on_user_event upsert_subscriber run_in_tenant end_tx commit call tx_call str_eq has_suffix
enrolled_newcomer = refl

-- The row of a subscriber that was erased.
abbrev erased_world : World ℕ
erased_world = calm_world (record empty_db {
  subscribers = record sample_subscriber { email_encrypted = []; is_deleted = true } ∷ [];
})

on_user_event-Stored_example :
    Stored encrypt
      (λ n. n ∷ [])
      (str "k")
      event
      (on_user_event encrypt
        (λ n. n ∷ [])
        (str "k")
        (str "user.updated")
        (some event)
        erased_world).1.db
unfolding has_suffix str_eq
on_user_event-Stored_example =
    on_user_event-Stored encrypt (λ n. n ∷ []) (str "k") (str "user.updated") event erased_world
      (record { healthy = refl; answers = refl }) refl
