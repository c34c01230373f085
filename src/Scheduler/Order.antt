-- ===== src/Scheduler/Order.antt =====
-- The order in which due runs are put back (the query of Tick in scheduler.go).
use qeet_notify.Base.{
  ◌≡◌, refl, sym, ap, ◌∙◌, inl, inr, Bool, true, false, Option, none, some, List, [], ◌∷◌, arith,
  length, All, select, Bool-cases,
}
use qeet_notify.Base.Int.{ℤ, le_ℤ}
use qeet_notify.Platform.Tables.{Run}
use qeet_notify.Scheduler.{at_most, sort_runs, insert_run}

at_most_trans : (a b c : Option ℤ) → at_most a b ≡ true → at_most b c ≡ true → at_most a c ≡ true
at_most_trans none none none h k = refl
at_most_trans none none (some c) h k = absurd cc
at_most_trans none (some b) c h k = absurd cc
at_most_trans (some a) b none h k = refl
at_most_trans (some a) none (some c) h k = absurd cc
at_most_trans (some a) (some b) (some c) h k = ground arith

at_most-total : (a b : Option ℤ) → at_most a b ≡ false → at_most b a ≡ true
at_most-total none none h = refl
at_most-total none (some b) h = refl
at_most-total (some a) none h = absurd cc
at_most-total (some a) (some b) h = ground arith

module _ {F : Type 0} where
  abbrev NotAfter : Run F → Run F → Type 0
  NotAfter r s = at_most r.resume_at s.resume_at ≡ true

  abbrev pub Ordered : List (Run F) → Type 0
  Ordered [] = Unit
  Ordered (r ∷ rs) = All (NotAfter r) rs × Ordered rs

  All-NotAfter :
      (r s : Run F) (rs : List (Run F)) → NotAfter r s → All (NotAfter s) rs → All (NotAfter r) rs
  All-NotAfter r s [] h k = tt
  All-NotAfter r s (t ∷ ts) h (k, ks) =
      (at_most_trans r.resume_at s.resume_at t.resume_at h k, All-NotAfter r s ts h ks)

  All-insert :
      (P : Run F → Type 0) (r : Run F) (rs : List (Run F))
      → P r
      → All P rs
      → All P (insert_run r rs)
  unfolding insert_run
  All-insert P r [] h k = (h, tt)
  All-insert P r (s ∷ ss) h (k, ks) = elim (Bool-cases (at_most r.resume_at s.resume_at)) [
    | inl e ↦ rw e (h, (k, ks))
    | inr e ↦ rw e (k, All-insert P r ss h ks)
  ]

  insert-Ordered : (r : Run F) (rs : List (Run F)) → Ordered rs → Ordered (insert_run r rs)
  unfolding insert_run
  insert-Ordered r [] h = (tt, tt)
  insert-Ordered r (s ∷ ss) (k, ks) = elim (Bool-cases (at_most r.resume_at s.resume_at)) [
    | inl e ↦ rw e ((e, All-NotAfter r s ss e k), (k, ks))
    | inr e ↦ rw e (
      All-insert (NotAfter s) r ss (at_most-total r.resume_at s.resume_at e) k,
      insert-Ordered r ss ks,
    )
  ]

  pub sort-Ordered : (rs : List (Run F)) → Ordered (sort_runs rs)
  unfolding sort_runs
  sort-Ordered [] = tt
  sort-Ordered (r ∷ rs) = insert-Ordered r (sort_runs rs) (sort-Ordered rs)

  -- No run stands behind one whose time is later.
  abbrev Earlier : Run F → Run F → Type 0
  Earlier r s = (a b : ℤ) → r.resume_at ≡ some a → s.resume_at ≡ some b → le_ℤ a b ≡ true

  abbrev pub EarliestFirst : List (Run F) → Type 0
  EarliestFirst [] = Unit
  EarliestFirst (r ∷ rs) = All (Earlier r) rs × EarliestFirst rs

  NotAfter-Earlier : (r s : Run F) → NotAfter r s → Earlier r s
  NotAfter-Earlier r s h a b e k =
      ap (λ x. at_most x (some b)) (sym e) ∙ ap (at_most r.resume_at) (sym k) ∙ h

  All-Earlier : (r : Run F) (rs : List (Run F)) → All (NotAfter r) rs → All (Earlier r) rs
  All-Earlier r [] h = tt
  All-Earlier r (s ∷ ss) (h, hs) = (NotAfter-Earlier r s h, All-Earlier r ss hs)

  pub Ordered-EarliestFirst : (rs : List (Run F)) → Ordered rs → EarliestFirst rs
  Ordered-EarliestFirst [] h = tt
  Ordered-EarliestFirst (r ∷ rs) (h, hs) = (All-Earlier r rs h, Ordered-EarliestFirst rs hs)

  count-insert :
      (p : Run F → Bool) (r : Run F) (rs : List (Run F))
      → length (select p (insert_run r rs)) ≡ length (select p (r ∷ rs))
  unfolding insert_run
  count-insert p r [] = refl
  count-insert p r (s ∷ ss) = ground (arith, count-insert p r ss)

  pub count-sort :
      (p : Run F → Bool) (rs : List (Run F))
      → length (select p (sort_runs rs)) ≡ length (select p rs)
  unfolding sort_runs
  count-sort p [] = refl
  count-sort p (r ∷ rs) = count-insert p r (sort_runs rs) ∙ ground (arith, count-sort p rs)
