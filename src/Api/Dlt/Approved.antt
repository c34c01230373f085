-- ===== src/Api/Dlt/Approved.antt =====
-- What the state of a DLT template means for the SMS of its tenant (dlt.go with compliance/dlt).
use qeet_notify.Base.{
  ℕ, ◌≡◌, refl, ap, ◌∙◌, inl, inr, Bool, true, false, Option, none, some, ◌∷◌, arith, All, any,
  Bool-cases,
}
use qeet_notify.Base.Text.{Str, str, str_eq}
use qeet_notify.Api.Http.{reply}
use qeet_notify.Api.Rows.{is_own, exec_given}
use qeet_notify.Api.Dlt.{
  Outside, RegisterRequest, UpdateRequest, dlt_id, dlt_tenant, lacks_field, pe_set, sender_set,
  set_status, set_ids, register_dlt_template, update_dlt_template,
}
use qeet_notify.Api.Dlt.Loaded.{Fits, matching, set_ids-keeps, inserted-keeps, set_status-Approves}
use qeet_notify.Channels.Sms.Reading.{approved}
use qeet_notify.Compliance.Dlt.{match_template}
use qeet_notify.Platform.World.{World, ok, tx_call}
use qeet_notify.Api.Middleware.Committed.{tenant_tx-calm}
use qeet_notify.Api.Middleware.{tenant_tx}
use qeet_notify.Platform.World.Calm.{IsCalm, tx_call-calm}
use qeet_notify.Platform.World.Effects.{tx_call-db, ok-injective}

-- A registration lets no SMS through: whichever calls fail and whatever the request asks for, the
-- templates that the SMS workers of the tenant load stay the same, because a new one is pending.
pub register_dlt_template-pending :
    {R F : Type 0} (compile : Str → Option R) (match_string : R → Str → Bool) (o : Outside F)
    (uuid : ℕ → Str) (tenant_id : Str) (req : Option (RegisterRequest F)) (w : World F)
    → approved compile match_string tenant_id (register_dlt_template o uuid tenant_id req w).1.db
      ≡ approved compile match_string tenant_id w.db
unfolding register_dlt_template
register_dlt_template-pending compile match_string o uuid tenant_id none w = refl
register_dlt_template-pending compile match_string o uuid tenant_id (some req) w =
    elim (Bool-cases (lacks_field req)) [
      | inl e ↦ rw e refl
      | inr e ↦ rw e (
          inserted-keeps compile match_string tenant_id o uuid req (tx_call w).0 (tx_call w).1
          ∙ ap (approved compile match_string tenant_id) (tx_call-db w))
    ]

update_dlt_template-opens :
    {R F : Type 0} (compile : Str → Option R) (match_string : R → Str → Bool) (o : Outside F)
    (tenant_id id body : Str) (pe_id sender_id : Option Str) (regex : R) (w : World F)
    → (update_dlt_template o tenant_id id
        (some (record { status = some (str "approved"); pe_id = pe_id; sender_id = sender_id }))
        w).0
      ≡ ok (reply 200 (o.id_json id))
    → All
        (λ r.
          is_own dlt_id dlt_tenant id tenant_id r ≡ true → Fits compile match_string body regex r)
        w.db.dlt_templates
    → matching compile match_string body (approved compile match_string tenant_id w.db) ≡ false
    → match_template compile match_string
        (approved compile match_string tenant_id
          (update_dlt_template o tenant_id id
            (some (record { status = some (str "approved"); pe_id = pe_id; sender_id = sender_id }))
            w).1.db)
        body
      ≡ id
unfolding update_dlt_template
update_dlt_template-opens compile match_string o tenant_id id body pe_id sender_id regex w =
    elim (set_status-Approves compile match_string tenant_id body regex id w) [
      | inl e ↦ rw e (λ h. absurd (ground (arith, ok-injective h)))
      | inr (e, opens) ↦ rw e (λ h fits clear.
          ap (λ ts. match_template compile match_string ts body)
            (set_ids-keeps compile match_string tenant_id o id
              (record { status = some (str "approved"); pe_id = pe_id; sender_id = sender_id })
              (set_status tenant_id id (some (str "approved")) w).1)
          ∙ opens fits clear)
    ]

module _ {F : Type 0} where
  exec_given-IsCalm :
      {A : Type 0} (v : Option A) (f : A → World F → World F) (u : World F)
      → IsCalm u
      → ((a : A) → IsCalm (f a u))
      → ((exec_given v f u).0 ≡ ok tt) × IsCalm (exec_given v f u).1
  exec_given-IsCalm none f u calm h = (refl, calm)
  exec_given-IsCalm (some a) f u calm h = rw (tx_call-calm u calm) (refl, h a)

  set_ids-IsCalm :
      (o : Outside F) (tenant_id id : Str) (req : UpdateRequest) (u : World F)
      → IsCalm u
      → ((set_ids o tenant_id id req u).0 ≡ ok (reply 200 (o.id_json id)))
        × IsCalm (set_ids o tenant_id id req u).1
  set_ids-IsCalm o tenant_id id req u calm =
      let (fine, calm') =
        exec_given-IsCalm req.pe_id (pe_set tenant_id id) u calm
          (λ v. record { healthy = calm.healthy; answers = calm.answers }) in
      let (fine', calm'') =
        exec_given-IsCalm req.sender_id (sender_set tenant_id id)
          (exec_given req.pe_id (pe_set tenant_id id) u).1 calm'
          (λ v. record { healthy = calm'.healthy; answers = calm'.answers }) in
      rw (fine, fine') (refl, calm'')

  update_dlt_template-IsCalm :
      (o : Outside F) (tenant_id id : Str) (pe_id sender_id : Option Str) (u : World F)
      → IsCalm u
      → any (is_own dlt_id dlt_tenant id tenant_id) u.db.dlt_templates ≡ true
      → let (r, v) =
          update_dlt_template o tenant_id id
            (some (record { status = some (str "approved"); pe_id = pe_id; sender_id = sender_id }))
            u in
        (r ≡ ok (reply 200 (o.id_json id))) × IsCalm v
  unfolding update_dlt_template str_eq
  update_dlt_template-IsCalm o tenant_id id pe_id sender_id u calm own =
      rw (tx_call-calm u calm, own)
        (set_ids-IsCalm o tenant_id id
          (record { status = some (str "approved"); pe_id = pe_id; sender_id = sender_id }) _
          (record { healthy = calm.healthy; answers = calm.answers }))

-- Approving a template opens its text. When no call fails, the request is for a row that the tenant
-- has, this row is for SMS and for all carriers and its expression compiles and matches a text that
-- no approved template matched before, then the update to the status "approved", run in its
-- transaction, is answered with 200 and an SMS of this text then matches the updated template.
pub update_dlt_template-approves :
    {R F : Type 0} (compile : Str → Option R) (match_string : R → Str → Bool) (o : Outside F)
    (c : ℕ) (tenant id body : Str) (pe_id sender_id : Option Str) (regex : R) (w : World F)
    → IsCalm w
    → any (is_own dlt_id dlt_tenant id (c ∷ tenant)) w.db.dlt_templates ≡ true
    → All
        (λ r.
          is_own dlt_id dlt_tenant id (c ∷ tenant) r ≡ true
          → Fits compile match_string body regex r)
        w.db.dlt_templates
    → matching compile match_string body (approved compile match_string (c ∷ tenant) w.db) ≡ false
    → let (r, v) =
        tenant_tx
          (c ∷ tenant)
          (update_dlt_template o (c ∷ tenant) id (
            some (record { status = some (str "approved"); pe_id = pe_id; sender_id = sender_id })))
          w in
      (r ≡ ok (reply 200 (o.id_json id)))
      × (match_template compile match_string (approved compile match_string (c ∷ tenant) v.db) body
          ≡ id)
update_dlt_template-approves compile match_string o c tenant id body pe_id sender_id regex w calm
      own fits clear =
    let u = record w { scope = c ∷ tenant } in
    let (answer, after) =
      update_dlt_template-IsCalm o (c ∷ tenant) id pe_id sender_id u
        (record { healthy = calm.healthy; answers = calm.answers }) own in
    let (told, kept) =
      tenant_tx-calm c tenant
        (update_dlt_template o (c ∷ tenant) id
          (some (record { status = some (str "approved"); pe_id = pe_id; sender_id = sender_id })))
        w calm answer refl after in
    (
      told,
      ap
            (λ d.
              match_template compile match_string (approved compile match_string (c ∷ tenant) d)
                body)
            kept
          ∙ update_dlt_template-opens compile match_string o (c ∷ tenant) id body pe_id sender_id
              regex u answer fits clear,
    )
