-- ===== src/Api/Dlt/Loaded.antt =====
-- The DLT templates that an SMS worker loads, behind each statement of dlt.go.
use qeet_notify.Base.{
  ℕ, ◌≡◌, refl, ap, ◌∙◌, ◌⊎◌, inl, inr, Bool, true, false, ◌&&◌, Option, none, some, List, [], ◌∷◌,
  ◌++◌, arith, All, any, select, Bool-cases, Option-cases,
}
use qeet_notify.Base.Text.{Str, str, str_eq, str_eq_sound}
use qeet_notify.Api.Rows.{is_own, update_own, exec_given}
use qeet_notify.Api.Dlt.{
  Outside, RegisterRequest, UpdateRequest, dlt_id, dlt_tenant, passes_checks, pe_set, sender_set,
  inserted, registered, set_status, set_ids,
}
use qeet_notify.Channels.Sms.Reading.{approved}
use qeet_notify.Compliance.Dlt.{DltTemplate, is_approved, compiled, match_template}
use qeet_notify.Platform.Tables.{DltRow, Db}
use qeet_notify.Platform.World.{World, Result, ok, err, tx_call}
use qeet_notify.Platform.World.Effects.{tx_call-db, tx_call-error}

select-append :
    (p : DltRow → Bool) (rows : List DltRow) (r : DltRow)
    → p r ≡ false
    → select p (rows ++ r ∷ []) ≡ select p rows
select-append p [] r h = rw h refl
select-append p (q ∷ rows) r h = ground (arith, select-append p rows r h)

and_left : (a b : Bool) → (a && b) ≡ true → a ≡ true
and_left a b h = ground arith

and_right : (a b : Bool) → (a && b) ≡ true → b ≡ true
and_right a b h = ground arith

module _ {R : Type 0} (compile : Str → Option R) (match_string : R → Str → Bool) where
  -- A change that no worker looks at.
  loaded-update :
      (p : DltRow → Bool) (f : DltRow → DltRow) (id tenant_id : Str) (rows : List DltRow)
      → ((r : DltRow) → p (f r) ≡ p r)
      → ((r : DltRow) → (f r).id ≡ r.id)
      → ((r : DltRow) → (f r).carrier ≡ r.carrier)
      → ((r : DltRow) → (f r).body_regex ≡ r.body_regex)
      → compiled compile match_string (select p (update_own dlt_id dlt_tenant f id tenant_id rows))
        ≡ compiled compile match_string (select p rows)
  unfolding compiled
  loaded-update p f id tenant_id [] hp hi hc hb = refl
  loaded-update p f id tenant_id (r ∷ rows) hp hi hc hb =
      ground (arith, hp r, hi r, hc r, hb r, loaded-update p f id tenant_id rows hp hi hc hb)

  -- What is known of the row that is approved: its id, and what a worker for SMS asks of it.
  pub record Fits (body : Str) (regex : R) (r : DltRow) : Type 0 where
    pub sms : str_eq r.channel (str "sms") ≡ true
    pub anyone : str_eq r.carrier (str "all") ≡ true
    pub compiles : compile r.body_regex ≡ some regex
    pub matches : match_string regex body ≡ true

  abbrev pub matching : Str → List (DltTemplate compile match_string) → Bool
  matching body = any (λ t. match_string t.regex body)

  module _ (p : DltRow → Bool) (body : Str) (x : DltRow) where
    match_head :
        (regex : R) (xs : List DltRow)
        → p x ≡ true
        → compile x.body_regex ≡ some regex
        → match_string regex body ≡ true
        → match_template compile match_string
            (compiled compile match_string (select p (x ∷ xs)))
            body
          ≡ x.id
    unfolding compiled match_template
    match_head regex xs hp hc hm = rw (hp, hc, hm) refl

    -- A row whose template does not match is passed over.
    match_tail :
        (xs ys : List DltRow)
        → matching body (compiled compile match_string (select p (x ∷ xs))) ≡ false
        → (matching body (compiled compile match_string (select p xs)) ≡ false)
          × (match_template compile match_string
                (compiled compile match_string (select p (x ∷ ys)))
                body
              ≡ match_template compile match_string
                  (compiled compile match_string (select p ys))
                  body)
    unfolding compiled match_template
    match_tail xs ys = elim (Bool-cases (p x)) [
      | inr e ↦ rw e (λ h. (h, refl))
      | inl e ↦ rw e (elim (Option-cases (compile x.body_regex)) [
        | inl c ↦ rw c (λ h. (h, refl))
        | inr (regex, c) ↦ rw c (elim (Bool-cases (match_string regex body)) [
          | inl m ↦ rw m (λ h. absurd cc)
          | inr m ↦ rw m (λ h. (h, refl))
        ])
      ])
    ]

  abbrev pub approve : DltRow → DltRow
  approve r = record r { status = str "approved" }

  abbrev pub for_sms : Str → DltRow → Bool
  for_sms tenant_id = is_approved compile match_string tenant_id (str "all")

  is_approved-approve :
      (body : Str) (regex : R) (tenant_id : Str) (r : DltRow)
      → str_eq r.tenant_id tenant_id ≡ true
      → Fits body regex r
      → for_sms tenant_id (approve r) ≡ true
  unfolding str_eq
  is_approved-approve body regex tenant_id r e fits = rw (e, fits.sms, fits.anyone) refl

  -- Approving the row of this id makes its template the one that matches.
  loaded-approve :
      (body : Str) (regex : R) (id tenant_id : Str) (rows : List DltRow)
      → All (λ r. is_own dlt_id dlt_tenant id tenant_id r ≡ true → Fits body regex r) rows
      → any (is_own dlt_id dlt_tenant id tenant_id) rows ≡ true
      → matching body (compiled compile match_string (select (for_sms tenant_id) rows)) ≡ false
      → match_template compile match_string
          (compiled compile match_string
            (select (for_sms tenant_id) (update_own dlt_id dlt_tenant approve id tenant_id rows)))
          body
        ≡ id
  loaded-approve body regex id tenant_id [] h own none_yet = absurd cc
  loaded-approve body regex id tenant_id (r ∷ rows) (fits, h) own none_yet =
      elim (Bool-cases (is_own dlt_id dlt_tenant id tenant_id r)) [
        | inl e ↦ rw e (
            match_head (for_sms tenant_id) body (approve r) regex _
              (is_approved-approve body regex tenant_id r (and_right _ _ e) (fits e))
              (fits e).compiles (fits e).matches
            ∙ str_eq_sound r.id id (and_left _ _ e))
        | inr e ↦
            let (clear, skip) =
              match_tail (for_sms tenant_id) body r rows
                (update_own dlt_id dlt_tenant approve id tenant_id rows) none_yet in
            rw e (skip ∙ loaded-approve body regex id tenant_id rows h (rw e at own) clear)
      ]

  module _ {F : Type 0} (tenant_id : Str) where
    abbrev pub loaded : Db F → List (DltTemplate compile match_string)
    loaded = approved compile match_string tenant_id

    -- A statement whose error is dropped, on a column that no worker looks at.
    exec_given-keeps :
        {A : Type 0} (v : Option A) (f : A → World F → World F)
        → ((a : A) (u : World F) → loaded (f a u).db ≡ loaded u.db)
        → (u : World F)
        → ((exec_given v f u).0 ≡ ok tt) × (loaded (exec_given v f u).1.db ≡ loaded u.db)
    exec_given-keeps none f h u = (refl, refl)
    exec_given-keeps (some a) f h u = elim (tx_call-error u) [
      | inl e ↦ rw e (refl, h a (tx_call u).1 ∙ ap loaded (tx_call-db u))
      | inr e ↦ rw e (refl, ap loaded (tx_call-db u))
    ]

    pub set_ids-keeps :
        (o : Outside F) (id : Str) (req : UpdateRequest) (u : World F)
        → loaded (set_ids o tenant_id id req u).1.db ≡ loaded u.db
    set_ids-keeps o id req u =
        let (fine, kept) =
          exec_given-keeps req.pe_id (pe_set tenant_id id)
            (λ v u.
              loaded-update (for_sms tenant_id) (λ r. record r { pe_id = v }) id tenant_id
                u.db.dlt_templates (λ r. refl) (λ r. refl) (λ r. refl) (λ r. refl))
            u in
        let (fine', kept') =
          exec_given-keeps req.sender_id (sender_set tenant_id id)
            (λ v u.
              loaded-update (for_sms tenant_id) (λ r. record r { sender_id = some v }) id tenant_id
                u.db.dlt_templates (λ r. refl) (λ r. refl) (λ r. refl) (λ r. refl))
            (exec_given req.pe_id (pe_set tenant_id id) u).1 in
        rw (fine, fine') (kept' ∙ kept)

    is_pending :
        (o : Outside F) (req : RegisterRequest F) (id : Str)
        → for_sms tenant_id (registered o tenant_id req id) ≡ false
    unfolding str_eq
    is_pending o req id = ground arith

    pub inserted-keeps :
        (o : Outside F) (uuid : ℕ → Str) (req : RegisterRequest F) (r : Result (Unit {0}))
        (u : World F)
        → loaded (inserted o uuid tenant_id req r u).1.db ≡ loaded u.db
    unfolding str_eq
    inserted-keeps o uuid req (err e) u = refl
    inserted-keeps o uuid req (ok _) u = elim (Bool-cases (passes_checks req)) [
      | inr e ↦ rw e refl
      | inl e ↦ rw e (
          ap (compiled compile match_string) (
            select-append (for_sms tenant_id) u.db.dlt_templates
              (registered o tenant_id req (uuid u.made)) (is_pending o req (uuid u.made))))
    ]

    abbrev pub Approves : Str → R → Str → World F → Result Bool × World F → Type 0
    Approves body regex id u (r, v) =
        (r ≡ ok false)
        ⊎ (r ≡ ok true)
          × (All (λ r. is_own dlt_id dlt_tenant id tenant_id r ≡ true → Fits body regex r)
                u.db.dlt_templates
              → matching body (loaded u.db) ≡ false
              → match_template compile match_string (loaded v.db) body ≡ id)

    pub set_status-Approves :
        (body : Str) (regex : R) (id : Str) (u : World F)
        → Approves body regex id u (set_status tenant_id id (some (str "approved")) u)
    unfolding str_eq
    set_status-Approves body regex id u = elim (tx_call-error u) [
      | inr e ↦ rw e (inl refl)
      | inl e ↦
          rw (e, tx_call-db u)
            (elim (Bool-cases (any (is_own dlt_id dlt_tenant id tenant_id) u.db.dlt_templates)) [
              | inr x ↦ rw x (inl refl)
              | inl x ↦ rw x (
                  inr (
                    refl,
                    λ fits clear.
                        loaded-approve body regex id tenant_id u.db.dlt_templates fits x clear,
                  ))
            ])
    ]
