-- ===== src/Subscribers/Federation/Refreshed.antt =====
-- What an event about a user stores (federation.go).
use qeet_notify.Base.{
  ℕ, ◌≡◌, refl, ◌∙◌, true, false, ◌||◌, some, List, [], ◌∷◌, ◌++◌, map, inl, inr, if◌then◌else◌,
  any, All, All-append, Bool-cases, arith,
}
use qeet_notify.Base.Text.{Str, str, str_eq_refl}
use qeet_notify.Base.Text.Search.{has_suffix}
use qeet_notify.Subscribers.Federation.{
  UserEvent, is_user, sealed, refreshed, enrolled, upserted, upsert_subscriber, on_user_event,
}
use qeet_notify.Platform.Database.Committed.{run_in_tenant-calm}
use qeet_notify.Platform.Tables.{Db, Subscriber}
use qeet_notify.Platform.World.{World, ok}
use qeet_notify.Platform.World.Calm.{IsCalm, tx_call-calm}

module _ {F : Type 0} (encrypt : Str → Str → Str) (uuid : ℕ → Str) (enc_key : Str)
    (ev : UserEvent) where
  -- A row of the event's user holds the event's addresses, encrypted, and none where it has none.
  abbrev pub IsFresh : Subscriber F → Type 0
  IsFresh s =
      is_user ev s ≡ true
      → (s.email_encrypted ≡ sealed encrypt enc_key ev.email)
        × (s.phone_encrypted ≡ sealed encrypt enc_key ev.phone)

  IsFresh-map :
      (rows : List (Subscriber F))
      → All IsFresh
          (map (λ s. if is_user ev s then refreshed encrypt uuid enc_key ev s else s) rows)
  IsFresh-map [] = tt
  IsFresh-map (s ∷ rows) = elim (Bool-cases (is_user ev s)) [
    | inl e ↦ rw e ((λ h. (refl, refl)), IsFresh-map rows)
    | inr e ↦ rw e ((λ h. absurd cc), IsFresh-map rows)
  ]

  IsFresh-absent : (rows : List (Subscriber F)) → any (is_user ev) rows ≡ false → All IsFresh rows
  IsFresh-absent [] e = tt
  IsFresh-absent (s ∷ rows) e = elim (Bool-cases (is_user ev s)) [
    | inl x ↦ absurd (ground arith)
    | inr x ↦ ((λ h. absurd cc), IsFresh-absent rows (ground arith))
  ]

  present-map :
      (rows : List (Subscriber F))
      → any
          (is_user ev)
          (map (λ s. if is_user ev s then refreshed encrypt uuid enc_key ev s else s) rows)
        ≡ any (is_user ev) rows
  present-map [] = refl
  present-map (s ∷ rows) = elim (Bool-cases (is_user ev s)) [
    | inl e ↦ rw (e, e) refl
    | inr e ↦ rw (e, e) (present-map rows)
  ]

  present-append :
      (rows : List (Subscriber F)) (s : Subscriber F)
      → is_user ev s ≡ true
      → any (is_user ev) (rows ++ s ∷ []) ≡ true
  present-append [] s e = rw e refl
  present-append (r ∷ rows) s e = ground (arith, present-append rows s e)

  -- The user has a row, and it is fresh.
  abbrev pub Stored : Db F → Type 0
  Stored d = (any (is_user ev) d.subscribers ≡ true) × All IsFresh d.subscribers

  upserted-Stored : (w : World F) → Stored (upserted encrypt uuid enc_key ev w).db
  upserted-Stored w = elim (Bool-cases (any (is_user ev) w.db.subscribers)) [
    | inl e ↦ rw e (present-map w.db.subscribers ∙ e, IsFresh-map w.db.subscribers)
    | inr e ↦ rw e (
      present-append w.db.subscribers (enrolled encrypt uuid enc_key ev w)
          (rw (str_eq_refl ev.tenant_id, str_eq_refl ev.user_id) refl),
      All-append IsFresh w.db.subscribers (enrolled encrypt uuid enc_key ev w ∷ [])
          (IsFresh-absent w.db.subscribers e) ((λ h. (refl, refl)), tt),
    )
  ]

  upsert_subscriber-calm :
      (w : World F)
      → IsCalm w
      → upsert_subscriber encrypt uuid enc_key ev w ≡ (ok tt, upserted encrypt uuid enc_key ev w)
  unfolding upsert_subscriber
  upsert_subscriber-calm w calm = simp (tx_call-calm w calm) refl

  upserted-IsCalm : (w : World F) → IsCalm w → IsCalm (upserted encrypt uuid enc_key ev w)
  upserted-IsCalm w calm = elim (Bool-cases (any (is_user ev) w.db.subscribers)) [
    | inl e ↦ rw e (record { healthy = calm.healthy; answers = calm.answers })
    | inr e ↦ rw e (record { healthy = calm.healthy; answers = calm.answers })
  ]

-- When no call fails, an event that a user was created or updated leaves the user with a row, and
-- every row of that user in that tenant holds the addresses of the event, encrypted, and none where
-- the event has none; also where the row had been erased before.
pub on_user_event-Stored :
    {F : Type 0} (encrypt : Str → Str → Str) (uuid : ℕ → Str) (enc_key subject : Str)
    (ev : UserEvent) (w : World F)
    → IsCalm w
    → (has_suffix subject (str "user.created") || has_suffix subject (str "user.updated")) ≡ true
    → Stored encrypt uuid enc_key ev (on_user_event encrypt uuid enc_key subject (some ev) w).1.db
unfolding on_user_event
on_user_event-Stored {F} encrypt uuid enc_key subject ev w calm told =
    let u : World F = record w { aborted = false; scope = ev.tenant_id } in
    let after = upserted encrypt uuid enc_key ev u in
    let quiet : IsCalm u = record { healthy = refl; answers = calm.answers } in
    let kept = upserted-IsCalm encrypt uuid enc_key ev u quiet in
    rw
      (
        told,
        run_in_tenant-calm ev.tenant_id (upsert_subscriber encrypt uuid enc_key ev) w after tt calm
            (upsert_subscriber-calm encrypt uuid enc_key ev u quiet) kept.healthy kept.answers,
      )
      (upserted-Stored encrypt uuid enc_key ev u)
