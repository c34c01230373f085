-- ===== src/Api/Templates/Deleted.antt =====
-- What becomes of the messages of a deleted template (templates.go with the SMS worker).
use qeet_notify.Base.{
  ◌≡◌, refl, sym, ap, ◌∙◌, false, none, some, List, [], ◌∷◌, arith, any, Bool-cases, inl, inr,
}
use qeet_notify.Base.Text.{Str}
use qeet_notify.Workflows.Types.{ChannelJob}
use qeet_notify.Api.Http.{reply}
use qeet_notify.Api.Rows.{is_own, update_own}
use qeet_notify.Api.Templates.{template_id, template_tenant, delete_template}
use qeet_notify.Channels.Rendering.{find_template}
use qeet_notify.Channels.Sms.{Outside, Worker, handle_job}
use qeet_notify.Channels.Sms.Once.{handle_job-matched}
use qeet_notify.Platform.Tables.{Template, Db}
use qeet_notify.Platform.World.{World, ok}
use qeet_notify.Platform.World.Effects.{tx_call-db, tx_call-error, ok-injective}

abbrev deactivated : Str → Str → List Template → List Template
deactivated id tenant_id =
    update_own template_id template_tenant (λ t. record t { is_active = false }) id tenant_id

find_template-deactivated :
    (id tenant_id : Str) (rows : List Template)
    → find_template id tenant_id (deactivated id tenant_id rows) ≡ none
unfolding find_template
find_template-deactivated id tenant_id [] = refl
find_template-deactivated id tenant_id (t ∷ rows) =
    ground (arith, find_template-deactivated id tenant_id rows)

delete_template-rows :
    {F : Type 0} (id tenant_id : Str) (w : World F)
    → (delete_template tenant_id id w).0 ≡ ok (reply 204 [])
    → (delete_template tenant_id id w).1.db.templates ≡ deactivated id tenant_id w.db.templates
unfolding delete_template
delete_template-rows {F} id tenant_id w = elim (tx_call-error w) [
  | inr e ↦ rw e (λ h. absurd (ground (arith, ok-injective h)))
  | inl e ↦
      rw (e, tx_call-db w)
        (elim (Bool-cases (any (is_own template_id template_tenant id tenant_id) w.db.templates)) [
          | inr x ↦ rw x (λ h. absurd (ground (arith, ok-injective h)))
          | inl x ↦
              rw x (λ h. ap (λ (d : Db F). deactivated id tenant_id d.templates) (tx_call-db w))
        ])
]

-- Behind a deletion of a template that is answered with 204, no SMS job of that template leaves
-- through a provider, whichever calls fail and whatever else has happened since, as long as the
-- templates stay as the deletion left them.
pub delete_template-silences :
    {F R : Type 0} (o : Outside F R) (worker : Worker) (job : ChannelJob F) (w u : World F)
    → (delete_template job.tenant_id job.template_id w).0 ≡ ok (reply 204 [])
    → u.db.templates ≡ (delete_template job.tenant_id job.template_id w).1.db.templates
    → (handle_job o worker job u).1.outbox ≡ u.outbox
delete_template-silences o worker job w u done same = elim (handle_job-matched o worker job u) [
  | inl e ↦ e
  | inr (provider, m, e, (to, found, free, (addressed, (t, row, rendered), matched, filled))) ↦
      absurd (
        some-ne-none (
          sym row
          ∙ ap (find_template job.template_id job.tenant_id)
              (same ∙ delete_template-rows job.template_id job.tenant_id w done)
          ∙ find_template-deactivated job.template_id job.tenant_id w.db.templates))
]
  where
    some-ne-none : {t : Template} → some t ≡ none → ⊥
    some-ne-none h = cc
