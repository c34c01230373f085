-- ===== src/Subscribers/Federation/Confined.antt =====
-- What an event about a user may touch (federation.go).
use qeet_notify.Base.{
  ℕ, suc, ◌≡◌, ◌≤◌, refl, sym, ap, Bool, true, false, not, ◌||◌, some, List, [], ◌∷◌, ◌++◌, map,
  inl, inr, if◌then◌else◌, any, select, length, length-append, append-nil, Bool-cases, arith,
}
use qeet_notify.Base.Text.{Str, str, str_eq_refl}
use qeet_notify.Base.Text.Search.{has_suffix}
use qeet_notify.Subscribers.Federation.{
  UserEvent, is_user, refreshed, enrolled, upserted, left, upsert_subscriber,
  soft_delete_subscriber, on_user_event,
}
use qeet_notify.Platform.Database.{run_in_tenant}
use qeet_notify.Platform.Database.Atomic.{run_in_tenant-Whole}
use qeet_notify.Platform.Tables.{Db, Subscriber}
use qeet_notify.Platform.World.{World, M, ok, pure, modify, tx_call, try, ◌>>◌}
use qeet_notify.Platform.World.Effects.{tx_call-db, tx_call-error}

module _ {A : Type 0} (p : A → Bool) (f : A → A) (keeps : (a : A) → p (f a) ≡ p a) where
  abbrev on_those : A → A
  on_those a = if p a then f a else a

  others-map :
      (rows : List A) → select (λ a. not (p a)) (map on_those rows) ≡ select (λ a. not (p a)) rows
  others-map [] = refl
  others-map (a ∷ rows) = elim (Bool-cases (p a)) [
    | inl e ↦ rw (e, keeps a, e) (others-map rows)
    | inr e ↦ rw (e, e) (ap (λ t. a ∷ t) (others-map rows))
  ]

  length-those : (rows : List A) → length (select p (map on_those rows)) ≡ length (select p rows)
  length-those [] = refl
  length-those (a ∷ rows) = elim (Bool-cases (p a)) [
    | inl e ↦ rw (e, keeps a, e) (ap (λ n. suc n) (length-those rows))
    | inr e ↦ rw (e, e) (length-those rows)
  ]

module _ {A : Type 0} (p : A → Bool) where
  length-absent : (rows : List A) → any p rows ≡ false → length (select p rows) ≡ 0
  length-absent [] e = refl
  length-absent (a ∷ rows) e = ground (arith, length-absent rows)

  select-append : (xs ys : List A) → select p (xs ++ ys) ≡ select p xs ++ select p ys
  select-append [] ys = refl
  select-append (x ∷ xs) ys = ground (arith, select-append xs ys)

module _ {F : Type 0} (ev : UserEvent) where
  abbrev pub is_other : Subscriber F → Bool
  is_other s = not (is_user ev s)

  -- Only the subscribers differ, and of these only the one row of the event's user.
  pub record Confined (before after : Db F) : Type 0 where
    pub others : select is_other after.subscribers ≡ select is_other before.subscribers
    pub single : length (select (is_user ev) after.subscribers) ≤ 1
    pub rest : after ≡ record before { subscribers = after.subscribers }

  -- The user has at most one row.
  abbrev pub IsSingle : Db F → Type 0
  IsSingle d = length (select (is_user ev) d.subscribers) ≤ 1

  unchanged : (before after : Db F) → IsSingle before → after ≡ before → Confined before after
  unchanged before after one same = rw same (record { others = refl; single = one; rest = refl })

  moved : {before same after : Db F} → before ≡ same → Confined before after → Confined same after
  moved h k = rw (sym h) k

  changed :
      (f : Subscriber F → Subscriber F) (w : World F)
      → ((s : Subscriber F) → is_user ev (f s) ≡ is_user ev s)
      → IsSingle w.db
      → Confined w.db (record w.db {
        subscribers = map (λ s. if is_user ev s then f s else s) w.db.subscribers;
      })
  changed f w keeps one = record {
    others = others-map (is_user ev) f keeps w.db.subscribers;
    single = rw (length-those (is_user ev) f keeps w.db.subscribers) one;
    rest = refl;
  }

  added :
      (s : Subscriber F) (w : World F)
      → is_user ev s ≡ true
      → any (is_user ev) w.db.subscribers ≡ false
      → Confined w.db (record w.db { subscribers = w.db.subscribers ++ s ∷ [] })
  added s w e absent = record {
    others =
        rw (select-append is_other w.db.subscribers (s ∷ []), e)
          (append-nil (select is_other w.db.subscribers));
    single =
        rw
          (
            select-append (is_user ev) w.db.subscribers (s ∷ []),
            e,
            length-append (select (is_user ev) w.db.subscribers) (s ∷ []),
            length-absent (is_user ev) w.db.subscribers absent,
          )
          (omega arith);
    rest = refl;
  }

  -- A statement that may fail.
  exec-Confined :
      (f : World F → World F) (w : World F)
      → IsSingle w.db
      → ((u : World F) → IsSingle u.db → Confined u.db (f u).db)
      → Confined w.db ((try (tx_call >> modify f) >> pure tt) w).1.db
  exec-Confined f w one good = elim (tx_call-error w) [
    | inr e ↦ rw e (unchanged w.db (tx_call w).1.db one (tx_call-db w))
    | inl e ↦ rw e (moved (tx_call-db w) (good (tx_call w).1 (rw (tx_call-db w) one)))
  ]

module _ {F : Type 0} (encrypt : Str → Str → Str) (uuid : ℕ → Str) (enc_key : Str)
    (ev : UserEvent) where
  upserted-Confined :
      (w : World F) → IsSingle ev w.db → Confined ev w.db (upserted encrypt uuid enc_key ev w).db
  upserted-Confined w one = elim (Bool-cases (any (is_user ev) w.db.subscribers)) [
    | inl e ↦ rw e (changed ev (refreshed encrypt uuid enc_key ev) w (λ s. refl) one)
    | inr e ↦ rw e (
        added ev (enrolled encrypt uuid enc_key ev w) w
          (rw (str_eq_refl ev.tenant_id, str_eq_refl ev.user_id) refl) e)
  ]

  left-Confined :
      (w : World F) → IsSingle ev w.db → Confined ev w.db (left encrypt uuid enc_key ev w).db
  left-Confined w one = changed ev (λ s. record s { is_deleted = true }) w (λ s. refl) one

  -- A transaction of a confined body.
  tenant-Confined :
      (fn : M F (Unit {0})) (w : World F)
      → ((u : World F) → IsSingle ev u.db → Confined ev u.db (fn u).1.db)
      → IsSingle ev w.db
      → Confined ev w.db (run_in_tenant ev.tenant_id fn w).1.db
  tenant-Confined fn w good one = elim (run_in_tenant-Whole ev.tenant_id fn w) [
    | inl (x, h, same) ↦ unchanged ev w.db (run_in_tenant ev.tenant_id fn w).1.db one same
    | inr (a, u, h, scoped, start, healthy, fine, k) ↦ rw (k, sym start) (good u (rw start one))
  ]

  handled :
      (fn : M F (Unit {0})) (w : World F)
      → ((u : World F) → IsSingle ev u.db → Confined ev u.db (fn u).1.db)
      → IsSingle ev w.db
      → let (r, v) = (try (run_in_tenant ev.tenant_id fn) >> pure tt) w in
        (r ≡ ok tt) × Confined ev w.db v.db
  handled fn w good one = (refl, tenant-Confined fn w good one)

  upsert_subscriber-Confined :
      (w : World F)
      → IsSingle ev w.db
      → Confined ev w.db (upsert_subscriber encrypt uuid enc_key ev w).1.db
  unfolding upsert_subscriber
  upsert_subscriber-Confined w one =
      exec-Confined ev (upserted encrypt uuid enc_key ev) w one upserted-Confined

  soft_delete_subscriber-Confined :
      (w : World F)
      → IsSingle ev w.db
      → Confined ev w.db (soft_delete_subscriber encrypt uuid enc_key ev w).1.db
  unfolding soft_delete_subscriber
  soft_delete_subscriber-Confined w one =
      exec-Confined ev (left encrypt uuid enc_key ev) w one left-Confined

-- Whatever the subject of a message about a user, and whichever calls fail, it is handled without an
-- error and changes at most the one subscriber of that user in that tenant: the other subscribers
-- keep their rows in their order, the other tables stay as they are, and where the user had at most
-- one row, the user still has at most one, also when the message is delivered again.
pub on_user_event-Confined :
    {F : Type 0} (encrypt : Str → Str → Str) (uuid : ℕ → Str) (enc_key subject : Str)
    (ev : UserEvent) (w : World F)
    → IsSingle ev w.db
    → let (r, v) = on_user_event encrypt uuid enc_key subject (some ev) w in
      (r ≡ ok tt) × Confined ev w.db v.db
unfolding on_user_event
on_user_event-Confined encrypt uuid enc_key subject ev w one =
    elim (Bool-cases
      (has_suffix subject (str "user.created") || has_suffix subject (str "user.updated"))) [
        | inl e ↦ rw e (
            handled encrypt uuid enc_key ev (upsert_subscriber encrypt uuid enc_key ev) w
              (upsert_subscriber-Confined encrypt uuid enc_key ev) one)
        | inr e ↦ rw e (elim (Bool-cases (has_suffix subject (str "user.deleted"))) [
          | inl x ↦ rw x (
              handled encrypt uuid enc_key ev (soft_delete_subscriber encrypt uuid enc_key ev) w
                (soft_delete_subscriber-Confined encrypt uuid enc_key ev) one)
          | inr x ↦ rw x (refl, unchanged ev w.db w.db one refl)
        ])
      ]
