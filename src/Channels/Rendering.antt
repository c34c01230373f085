-- ===== src/Channels/Rendering.antt =====
-- domains/templates/rendering: the template of a job, rendered for its payload. Handlebars
-- (raymond) is a parameter, `none` where it reports an error.
use qeet_notify.Base.{◌&&◌, Option, none, some, List, [], ◌∷◌, if◌then◌else◌}
use qeet_notify.Base.Text.{Str, str_eq}
use qeet_notify.Workflows.Json.{Fields}
use qeet_notify.Platform.Tables.{Template}
use qeet_notify.Platform.World.{M, not_found, bad_template, pure, raise, gets, tx_call, ◌>>=◌, ◌>>◌}

pub record Rendered : Type 0 where
  pub subject : Str
  pub body : Str

unfoldable pub find_template : Str → Str → List Template → Option Template
find_template id tenant_id [] = none
find_template id tenant_id (t ∷ ts) =
    if str_eq t.id id && str_eq t.tenant_id tenant_id && t.is_active
    then some t
    else find_template id tenant_id ts

abbrev pub template_or_error : {F : Type 0} → Option Template → M F Template
template_or_error none = raise not_found
template_or_error (some t) = pure t

unfoldable pub fetch : {F : Type 0} → Str → Str → M F Template
unfolding find_template
fetch tenant_id template_id = do
  tx_call
  t ← gets (λ w. find_template template_id tenant_id w.db.templates)
  template_or_error t

module _ {F : Type 0} (render : Str → Fields F → Option Str) where
  abbrev pub both : Option Str → Option Str → Option Rendered
  both none b = none
  both (some a) none = none
  both (some a) (some b) = some (record { subject = a; body = b })

  abbrev pub rendered_by : Option Template → Fields F → Option Rendered
  rendered_by none payload = none
  rendered_by (some t) payload = both (render t.subject payload) (render t.body payload)

  abbrev pub rendered_or_bad : Option Rendered → M F Rendered
  rendered_or_bad none = raise bad_template
  rendered_or_bad (some r) = pure r

  abbrev pub rendered_or_error : Option Template → Fields F → M F Rendered
  rendered_or_error none payload = raise not_found
  rendered_or_error (some t) payload = rendered_or_bad (rendered_by (some t) payload)

  unfoldable pub render_email : Str → Str → Fields F → M F Rendered
  unfolding find_template
  render_email tenant_id template_id payload = do
    tx_call
    t ← gets (λ w. find_template template_id tenant_id w.db.templates)
    rendered_or_error t payload

  abbrev pub text_or_bad : Option Str → M F Str
  text_or_bad none = raise bad_template
  text_or_bad (some text) = pure text

  abbrev pub render_text : Str → Fields F → M F Str
  render_text tmpl payload = text_or_bad (render tmpl payload)
