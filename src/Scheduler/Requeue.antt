-- ===== src/Scheduler/Requeue.antt =====
-- Which runs a scan re-enqueues, and what becomes of their rows (scheduler.go).
use qeet_notify.Base.{
  take-all, suc, ◌≤◌, ◌≡◌, refl, sym, ap, ◌∙◌, ◌⊎◌, inl, inr, Bool, true, false, ◌&&◌, ◌||◌, none,
  List, [], ◌∷◌, ◌++◌, append_assoc, append-nil, map, arith, length, All, select, Bool-cases,
  if◌then◌else◌,
}
use qeet_notify.Base.Text.{Str, str_eq, str_eq_refl}
use qeet_notify.Platform.Tables.{Run}
use qeet_notify.Platform.World.{World, Message, ok, event_body, visible}
use qeet_notify.Platform.World.Calm.{IsCalm, tx_call-calm, publish-calm}
use qeet_notify.Platform.Messaging.{event_subject}
use qeet_notify.Workflows.Json.{end}
use qeet_notify.Scheduler.Order.{sort-Ordered, EarliestFirst, Ordered-EarliestFirst, count-sort}
use qeet_notify.Scheduler.{
  batch, is_due, due_runs, clear_resume, resume_event, requeue, requeue_all, scan, sort_runs,
  insert_run,
}

abbrev resume_message : {F : Type 0} → Str → Str → Message F
resume_message tenant_id run_id = record {
  subject = event_subject tenant_id;
  body = event_body (resume_event tenant_id run_id);
}

abbrev has : Str → List Str → Bool
has x [] = false
has x (y ∷ ys) = str_eq x y || has x ys

module _ {F : Type 0} where
  has-insert :
      (x : Str) (r : Run F) (rs : List (Run F))
      → has x (map (λ r. r.id) (insert_run r rs)) ≡ (str_eq x r.id || has x (map (λ r. r.id) rs))
  unfolding insert_run
  has-insert x r [] = refl
  has-insert x r (s ∷ ss) = ground (arith, has-insert x r ss)

  has-sort :
      (x : Str) (rs : List (Run F))
      → has x (map (λ r. r.id) (sort_runs rs)) ≡ has x (map (λ r. r.id) rs)
  unfolding sort_runs
  has-sort x [] = refl
  has-sort x (r ∷ rs) = has-insert x r (sort_runs rs) ∙ ap (λ b. str_eq x r.id || b) (has-sort x rs)

  length-insert : (r : Run F) (rs : List (Run F)) → length (insert_run r rs) ≡ suc (length rs)
  unfolding insert_run
  length-insert r [] = refl
  length-insert r (s ∷ ss) = ground (arith, length-insert r ss)

  length-sort : (rs : List (Run F)) → length (sort_runs rs) ≡ length rs
  unfolding sort_runs
  length-sort [] = refl
  length-sort (r ∷ rs) = length-insert r (sort_runs rs) ∙ ap suc (length-sort rs)

  has-select :
      (p : Run F → Bool) (x : Str) (r : Run F) (rs : List (Run F))
      → has x (map (λ r. r.id) (select p rs)) ≡ true
      → has x (map (λ r. r.id) (select p (r ∷ rs))) ≡ true
  has-select p x r rs h = ground arith

  -- What clearing does to one row.
  abbrev cleared : (Str → Bool) → Str → Run F → Run F
  cleared see id r = if str_eq r.id id && see r.tenant_id then record r { resume_at = none } else r

  abbrev pub clear_rows : (Str → Bool) → List Str → List (Run F) → List (Run F)
  clear_rows see [] runs = runs
  clear_rows see (id ∷ ids) runs = clear_rows see ids (map (cleared see id) runs)

  pub requeued : Str → List Str → World F → World F
  requeued tenant_id ids w = record w {
    db = record w.db { runs = clear_rows (visible w) ids w.db.runs };
    published = w.published ++ map (resume_message tenant_id) ids;
  }

module _ {F : Type 0} (tenant_id : Str) where
  requeue-calm :
      (run_id : Str) (w : World F)
      → IsCalm w
      → requeue tenant_id run_id w ≡ (ok tt, requeued tenant_id (run_id ∷ []) w)
  unfolding requeue requeued
  requeue-calm run_id w calm = simp (
    tx_call-calm w calm,
    publish-calm (event_subject tenant_id) (event_body (resume_event tenant_id run_id))
        (clear_resume run_id w) (record { healthy = calm.healthy; answers = calm.answers }),
  )

  requeue_all-calm :
      (ids : List Str) (w : World F)
      → IsCalm w
      → requeue_all tenant_id ids w ≡ (ok tt, requeued tenant_id ids w)
  unfolding requeue_all requeued
  requeue_all-calm [] w calm = λ i. (ok tt, record w { published = sym (append-nil w.published) i })
  requeue_all-calm (id ∷ ids) w calm =
      simp
        (
          requeue-calm id w calm,
          requeue_all-calm ids (requeued tenant_id (id ∷ []) w)
              (record { healthy = calm.healthy; answers = calm.answers }),
        )
        (λ i. (
          ok tt,
          record w {
            db = record w.db { runs = clear_rows (visible w) (id ∷ ids) w.db.runs };
            published =
                append_assoc w.published (resume_message tenant_id id ∷ [])
                  (map (resume_message tenant_id) ids) i;
          },
        ))

  scan-calm :
      (w : World F)
      → IsCalm w
      → scan tenant_id w ≡ (ok tt, requeued tenant_id (due_runs w tenant_id) w)
  unfolding scan
  scan-calm w calm = simp (tx_call-calm w calm, requeue_all-calm)

-- What one clearing after another does to a row.
module _ {F : Type 0} (see : Str → Bool) where
  abbrev cleared_by : List Str → Run F → Run F
  cleared_by [] r = r
  cleared_by (id ∷ ids) r = cleared_by ids (cleared see id r)

  clear_rows-map :
      (ids : List Str) (runs : List (Run F)) → clear_rows see ids runs ≡ map (cleared_by ids) runs
  clear_rows-map [] [] = refl
  clear_rows-map [] (r ∷ rs) = ap (λ l. r ∷ l) (clear_rows-map [] rs)
  clear_rows-map (id ∷ ids) runs = clear_rows-map ids (map (cleared see id) runs) ∙ compose runs
    where
      compose :
          (rs : List (Run F))
          → map (cleared_by ids) (map (cleared see id) rs) ≡ map (cleared_by (id ∷ ids)) rs
      compose [] = refl
      compose (r ∷ rs) = ap (λ l. cleared_by ids (cleared see id r) ∷ l) (compose rs)

  -- Clearing leaves all but the time as it is, and a row once cleared stays so.
  record Clears (ids : List Str) (r : Run F) : Type 0 where
    same_id : (cleared_by ids r).id ≡ r.id
    same_tenant : (cleared_by ids r).tenant_id ≡ r.tenant_id
    same_status : (cleared_by ids r).status ≡ r.status
    emptied : r.resume_at ≡ none → (cleared_by ids r).resume_at ≡ none
    emptied_if_listed :
        has r.id ids ≡ true → see r.tenant_id ≡ true → (cleared_by ids r).resume_at ≡ none
    kept : ((cleared_by ids r).resume_at ≡ none) ⊎ ((cleared_by ids r).resume_at ≡ r.resume_at)

  Clears-all : (ids : List Str) (r : Run F) → Clears ids r
  Clears-all [] r = record {
    same_id = refl;
    same_tenant = refl;
    same_status = refl;
    emptied = λ e. e;
    emptied_if_listed = λ h v. cc;
    kept = inr refl;
  }
  Clears-all (id ∷ ids) r = elim (Bool-cases (str_eq r.id id && see r.tenant_id)) [
    | inl e ↦
        let c = Clears-all ids (record r { resume_at = none }) in
        record {
          same_id = rw (e, cleared_by) c.same_id;
          same_tenant = rw (e, cleared_by) c.same_tenant;
          same_status = rw (e, cleared_by) c.same_status;
          emptied = λ _. rw (e, cleared_by) (c.emptied refl);
          emptied_if_listed = λ _ _. rw (e, cleared_by) (c.emptied refl);
          kept = inl (rw (e, cleared_by) (c.emptied refl));
        }
    | inr e ↦
        let c = Clears-all ids r in
        record {
          same_id = rw (e, cleared_by) c.same_id;
          same_tenant = rw (e, cleared_by) c.same_tenant;
          same_status = rw (e, cleared_by) c.same_status;
          emptied = λ n. rw (e, cleared_by) (c.emptied n);
          emptied_if_listed = λ h v. rw (e, cleared_by) (ground (arith, c.emptied_if_listed));
          kept = rw (e, cleared_by) c.kept;
        }
  ]

module _ {F : Type 0} where
  -- Every due row is in the selection, so after the clearing none is due.
  none-due :
      (p : Run F → Bool) (q : Run F → Bool) (f : Run F → Run F) (rs : List (Run F))
      → All (λ r. q (f r) ≡ false) rs
      → select q (map f rs) ≡ []
  none-due p q f [] h = refl
  none-due p q f (r ∷ rs) (e, h) = rw e (none-due p q f rs h)

  All-impl :
      (p : Run F → Bool) (ids : List Str) (rs : List (Run F))
      → ((x : Str) → has x (map (λ r. r.id) (select p rs)) ≡ true → has x ids ≡ true)
      → All (λ r. p r ≡ true → has r.id ids ≡ true) rs
  All-impl p ids [] h = tt
  All-impl p ids (r ∷ rs) h = (
    λ e. h r.id (rw e (ground (arith, str_eq_refl r.id))),
    All-impl p ids rs (λ x k. h x (has-select p x r rs k)),
  )

  length-map-id : (rs : List (Run F)) → length (map (λ r. r.id) rs) ≡ length rs
  length-map-id [] = refl
  length-map-id (r ∷ rs) = ap suc (length-map-id rs)

  -- With no more due rows than the batch, each of them is re-enqueued.
  due_runs_complete :
      (tenant_id : Str) (w : World F)
      → length (select (is_due w tenant_id) w.db.runs) ≤ batch
      → All (λ r. is_due w tenant_id r ≡ true → has r.id (due_runs w tenant_id) ≡ true) w.db.runs
  unfolding due_runs
  due_runs_complete tenant_id w h =
      All-impl (is_due w tenant_id) _ w.db.runs (λ x k. rw all (has-sort x due ∙ k))
    where
      due : List (Run F)
      due = select (is_due w tenant_id) w.db.runs

      all : due_runs w tenant_id ≡ map (λ r. r.id) (sort_runs due)
      all = take-all batch _ (omega (arith, length-map-id (sort_runs due), length-sort due))

  module _ (tenant_id : Str) (w : World F) (ids : List Str) where
    not_due :
        (r : Run F)
        → (is_due w tenant_id r ≡ true → has r.id ids ≡ true)
        → is_due w tenant_id (cleared_by (visible w) ids r) ≡ false
    not_due r h =
        let c = Clears-all (visible w) ids r in
        ground (arith, h, c.same_tenant, c.same_status, c.kept, c.emptied_if_listed)

    All-not_due :
        (rs : List (Run F))
        → All (λ r. is_due w tenant_id r ≡ true → has r.id ids ≡ true) rs
        → All (λ r. is_due w tenant_id (cleared_by (visible w) ids r) ≡ false) rs
    All-not_due [] h = tt
    All-not_due (r ∷ rs) (k, h) = (not_due r k, All-not_due rs h)

  none_left :
      (tenant_id : Str) (w : World F)
      → length (select (is_due w tenant_id) w.db.runs) ≤ batch
      → due_runs (requeued tenant_id (due_runs w tenant_id) w) tenant_id ≡ []
  unfolding due_runs requeued sort_runs
  none_left tenant_id w few =
      rw (clear_rows-map (visible w) (due_runs w tenant_id) w.db.runs) (rw gone)
    where
      gone :
          select
            (is_due w tenant_id)
            (map (cleared_by (visible w) (due_runs w tenant_id)) w.db.runs)
          ≡ []
      gone = none-due (is_due w tenant_id) (is_due w tenant_id) _ w.db.runs (
          All-not_due tenant_id w (due_runs w tenant_id) w.db.runs
            (due_runs_complete tenant_id w few))

module _ {F : Type 0} where
  map-map :
      {A B : Type 0} (f : A → B) (g : Run F → A) (rs : List (Run F))
      → map f (map g rs) ≡ map (λ r. f (g r)) rs
  map-map f g [] = refl
  map-map f g (r ∷ rs) = ap (λ l. f (g r) ∷ l) (map-map f g rs)

  due_runs-sorted :
      (tenant_id : Str) (w : World F)
      → length (select (is_due w tenant_id) w.db.runs) ≤ batch
      → due_runs w tenant_id ≡ map (λ r. r.id) (sort_runs (select (is_due w tenant_id) w.db.runs))
  unfolding due_runs
  due_runs-sorted tenant_id w few =
      let due = select (is_due w tenant_id) w.db.runs in
      take-all batch _ (omega (arith, length-map-id (sort_runs due), length-sort due))

-- When no call fails and no more runs of the tenant are due than the batch holds, a scan publishes
-- one resume event for each due run, with its id, on the tenant's event subject, the earliest
-- resume_at first, and a scan after it publishes nothing.
pub scan-scan :
    {F : Type 0} (tenant_id : Str) (w : World F)
    → IsCalm w
    → length (select (is_due w tenant_id) w.db.runs) ≤ batch
    → ((rs : List (Run F)) × EarliestFirst rs
        × ((p : Run F → Bool)
            → length (select p rs) ≡ length (select p (select (is_due w tenant_id) w.db.runs)))
        × ((scan tenant_id w).1.published
            ≡ w.published
              ++ map
                  (λ r. record {
                    subject = event_subject tenant_id;
                    body = event_body (record {
                      tenant_id = tenant_id;
                      subscriber_id = [];
                      event = [];
                      payload = end;
                      run_id = r.id;
                    });
                  })
                  rs))
      × ((scan tenant_id (scan tenant_id w).1).1.published ≡ (scan tenant_id w).1.published)
unfolding requeued
scan-scan {F} tenant_id w calm few =
    let due = select (is_due w tenant_id) w.db.runs in
    rw (scan-calm tenant_id w calm) (
      (
        sort_runs due,
        Ordered-EarliestFirst (sort_runs due) (sort-Ordered due),
        (λ p. count-sort p due),
        ap (λ ids. w.published ++ map (resume_message tenant_id) ids)
              (due_runs-sorted tenant_id w few)
            ∙ ap (λ l. w.published ++ l)
                (map-map (resume_message tenant_id) (λ r. r.id) (sort_runs due)),
      ),
      rw (scan-calm tenant_id _ still, none_left tenant_id w few) (append-nil _),
    )
  where
    still : IsCalm (requeued tenant_id (due_runs w tenant_id) w)
    still = record { healthy = calm.healthy; answers = calm.answers }
