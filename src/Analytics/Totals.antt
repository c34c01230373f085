-- ===== src/Analytics/Totals.antt =====
-- The totals of a tenant against its rows, and delivery events that become rows (aggregator.go,
-- query.go).
use qeet_notify.Base.{
  ℕ, ◌≡◌, refl, sym, ap, ◌∙◌, ◌⊎◌, inl, inr, Bool, true, false, ◌&&◌, Option, some, List, [], ◌∷◌,
  ◌++◌, map, arith, any, select, length, Bool-cases, if◌then◌else◌,
}
use qeet_notify.Base.Int.{ℤ}
use qeet_notify.Base.Text.{Str, str, str_eq, str_eq_sound}
use qeet_notify.Analytics.{
  Labels, DeliveryTotals, of_type, grouped, set_total, read_totals, no_totals, rows_of,
  query_totals, handle, is_insertable,
}
use qeet_notify.Platform.Tables.{DeliveryRow, Db}
use qeet_notify.Platform.World.{World, Result, ok, err, db_failed, DeliveryEvent, pool_call}
use qeet_notify.Platform.World.Calm.{IsCalm, tx_call-calm}
use qeet_notify.Platform.World.Effects.{call-db, call-error, call-now}

-- The last count of a type, else the default.
last_count : Str → List (Str × ℕ) → ℕ → ℕ
last_count word [] d = d
last_count word ((t, n) ∷ gs) d = last_count word gs (if str_eq t word then n else d)

last_count-map :
    (word : Str) (count : Str → ℕ) (ts : List Str) (d : ℕ)
    → last_count word (map (λ t. (t, count t)) ts) d
      ≡ (if any (λ t. str_eq t word) ts then count word else d)
unfolding last_count
last_count-map word count [] d = refl
last_count-map word count (t ∷ ts) d = ground (
  arith,
  last_count-map word count ts (count t),
  last_count-map word count ts d,
  str_eq_sound t word,
)

-- No row of a type that stands in none.
count_none :
    (word : Str) (rows : List DeliveryRow)
    → any (λ t. str_eq t word) (map (λ (r : DeliveryRow). r.event_type) rows) ≡ false
    → length (select (of_type word) rows) ≡ 0
count_none word [] h = refl
count_none word (r ∷ rows) h = ground (arith, count_none word rows)

-- Two words are no one text.
apart : (t a b : Str) → str_eq a b ≡ false → str_eq t a ≡ true → str_eq t b ≡ false
apart t a b h e = rw (str_eq_sound t a e) h

module _ (word : Str) (get : DeliveryTotals → ℕ)
    (sets : (t : Str) (n : ℕ) (d : DeliveryTotals)
      → get (set_total t n d) ≡ (if str_eq t word then n else get d)) where
  read_totals-last :
      (gs : List (Str × ℕ)) (d : DeliveryTotals)
      → get (read_totals gs d) ≡ last_count word gs (get d)
  unfolding read_totals last_count
  read_totals-last [] d = refl
  read_totals-last ((t, n) ∷ gs) d =
      read_totals-last gs (set_total t n d) ∙ ap (last_count word gs) (sets t n d)

  total_of :
      (types : List Str → List Str) (rows : List DeliveryRow)
      → get no_totals ≡ 0
      → ((t : Str) (ts : List Str) → any (λ u. str_eq u t) (types ts) ≡ any (λ u. str_eq u t) ts)
      → get (read_totals (grouped types rows) no_totals) ≡ length (select (of_type word) rows)
  total_of types rows zeroed lists =
      read_totals-last (grouped types rows) no_totals
      ∙ last_count-map word (λ t. length (select (of_type t) rows)) _ (get no_totals)
      ∙ by_presence (any (λ t. str_eq t word) (map (λ (r : DeliveryRow). r.event_type) rows)) refl
    where
      by_presence :
          (b : Bool)
          → any (λ t. str_eq t word) (map (λ (r : DeliveryRow). r.event_type) rows) ≡ b
          → (if any (λ t. str_eq t word) (types (map (λ (r : DeliveryRow). r.event_type) rows))
              then length (select (of_type word) rows)
              else get no_totals)
            ≡ length (select (of_type word) rows)
      by_presence true e =
          rw (lists word (map (λ (r : DeliveryRow). r.event_type) rows)) (rw e refl)
      by_presence false e =
          rw (lists word (map (λ (r : DeliveryRow). r.event_type) rows))
            (rw e (zeroed ∙ sym (count_none word rows e)))

-- Each branch of the switch sets its own total.
queued_set :
    (t : Str) (n : ℕ) (d : DeliveryTotals)
    → (set_total t n d).queued ≡ (if str_eq t (str "queued") then n else d.queued)
unfolding str_eq
queued_set t n d = ground (arith)

sent_set :
    (t : Str) (n : ℕ) (d : DeliveryTotals)
    → (set_total t n d).sent ≡ (if str_eq t (str "sent") then n else d.sent)
unfolding str_eq
sent_set t n d = ground (arith, apart t (str "queued") (str "sent") refl)

delivered_set :
    (t : Str) (n : ℕ) (d : DeliveryTotals)
    → (set_total t n d).delivered ≡ (if str_eq t (str "delivered") then n else d.delivered)
unfolding str_eq
delivered_set t n d = ground (
  arith,
  apart t (str "queued") (str "delivered") refl,
  apart t (str "sent") (str "delivered") refl,
)

failed_set :
    (t : Str) (n : ℕ) (d : DeliveryTotals)
    → (set_total t n d).failed ≡ (if str_eq t (str "failed") then n else d.failed)
unfolding str_eq
failed_set t n d = ground (
  arith,
  apart t (str "queued") (str "failed") refl,
  apart t (str "sent") (str "failed") refl,
  apart t (str "delivered") (str "failed") refl,
)

opened_set :
    (t : Str) (n : ℕ) (d : DeliveryTotals)
    → (set_total t n d).opened ≡ (if str_eq t (str "opened") then n else d.opened)
unfolding str_eq
opened_set t n d = ground (
  arith,
  apart t (str "queued") (str "opened") refl,
  apart t (str "sent") (str "opened") refl,
  apart t (str "delivered") (str "opened") refl,
  apart t (str "failed") (str "opened") refl,
)

select-select :
    (p q : DeliveryRow → Bool) (rows : List DeliveryRow)
    → length (select p (select q rows)) ≡ length (select (λ r. q r && p r) rows)
select-select p q [] = refl
select-select p q (r ∷ rows) = ground (arith, select-select p q rows)

-- How many rows of a tenant have this type.
abbrev pub count_rows : Str → Str → List DeliveryRow → ℕ
count_rows tenant_id word rows =
    length (select (λ r. str_eq r.tenant_id tenant_id && str_eq r.event_type word) rows)

total_count :
    (word : Str) (get : DeliveryTotals → ℕ)
    → ((t : Str) (n : ℕ) (d : DeliveryTotals)
        → get (set_total t n d) ≡ (if str_eq t word then n else get d))
    → (types : List Str → List Str) (tenant_id : Str) (rows : List DeliveryRow) → get no_totals ≡ 0
    → ((t : Str) (ts : List Str) → any (λ u. str_eq u t) (types ts) ≡ any (λ u. str_eq u t) ts)
    → get (read_totals (grouped types (rows_of tenant_id rows)) no_totals)
      ≡ count_rows tenant_id word rows
total_count word get sets types tenant_id rows zeroed lists =
    total_of word get sets types (rows_of tenant_id rows) zeroed lists
    ∙ select-select (of_type word) (λ r. str_eq r.tenant_id tenant_id) rows

-- The totals are what counting says: when its query succeeds, QueryTotals gives for each of the five
-- stages the number of the tenant's delivery events of that type, in whatever order PostgreSQL
-- groups the types. GROUP BY gives just the types that stand in the rows.
pub query_totals-counts :
    {F : Type 0} (types : List Str → List Str) (tenant_id : Str) (w : World F)
    → ((t : Str) (ts : List Str) → any (λ u. str_eq u t) (types ts) ≡ any (λ u. str_eq u t) ts)
    → IsCalm w
    → (d : DeliveryTotals) × (query_totals types tenant_id w ≡ (ok d, w))
      × (d.queued ≡ count_rows tenant_id (str "queued") w.db.delivery_events)
      × (d.sent ≡ count_rows tenant_id (str "sent") w.db.delivery_events)
      × (d.delivered ≡ count_rows tenant_id (str "delivered") w.db.delivery_events)
      × (d.failed ≡ count_rows tenant_id (str "failed") w.db.delivery_events)
      × (d.opened ≡ count_rows tenant_id (str "opened") w.db.delivery_events)
unfolding query_totals
query_totals-counts types tenant_id w lists calm =
    let rows = w.db.delivery_events in
    (
      read_totals (grouped types (rows_of tenant_id rows)) no_totals,
      simp (tx_call-calm w calm) refl,
      total_count (str "queued") (λ d. d.queued) queued_set types tenant_id rows refl lists,
      total_count (str "sent") (λ d. d.sent) sent_set types tenant_id rows refl lists,
      total_count (str "delivered") (λ d. d.delivered) delivered_set types tenant_id rows refl
          lists,
      total_count (str "failed") (λ d. d.failed) failed_set types tenant_id rows refl lists,
      total_count (str "opened") (λ d. d.opened) opened_set types tenant_id rows refl lists,
    )

module _ {F : Type 0} (ev : DeliveryEvent) where
  -- The tables with the row of this event.
  abbrev pub with_row : Db F → ℤ → Db F
  with_row d now = record d {
    delivery_events =
        d.delivery_events
        ++ record {
          tenant_id = ev.tenant_id;
          notification_id = ev.notification_id;
          event_type = ev.event_type;
          provider = ev.provider;
          occurred_at = now;
        }
          ∷ [];
  }

  abbrev pub Counted : World F → Result (Option Labels) × World F → Type 0
  Counted w (r, v) =
      ((r ≡ err db_failed) × (v.db ≡ w.db))
      ⊎ ((labels : Labels) × (r ≡ ok (some labels))
          × (labels.event_type ≡ ev.event_type)
          × (labels.provider ≡ ev.provider)
          × (v.db ≡ with_row w.db w.now))

-- The aggregator acknowledges a delivery event only when it is counted: whichever calls fail, its
-- handler either returns an error, so that the message is delivered again, and leaves the tables as
-- they were, or it has added one row of the event's tenant, notification, type and provider, with
-- the time of the handling, and nothing else, and counts the event under its type and provider.
pub handle-Counted :
    {F : Type 0} (ev : DeliveryEvent) (w : World F) → Counted ev w (handle (some ev) w)
unfolding handle
handle-Counted {F} ev w =
    let v = (pool_call w).1 in
    elim (call-error db_failed v) [
      | inr e ↦ rw e (inl (refl, call-db db_failed v ∙ call-db db_failed w))
      | inl e ↦ rw e (elim (Bool-cases (is_insertable ev (pool_call v).1)) [
        | inr x ↦ rw x (inl (refl, call-db db_failed v ∙ call-db db_failed w))
        | inl x ↦ rw x (
            inr (
              _,
              refl,
              refl,
              refl,
              ap (λ d. with_row ev d (pool_call v).1.now)
                    (call-db db_failed v ∙ call-db db_failed w)
                  ∙ ap (with_row ev w.db) (call-now db_failed v ∙ call-now db_failed w),
            ))
      ])
    ]
