-- ===== src/Channels/Sms/Reading.antt =====
-- What the steps before an SMS is sent read: the template, its rendering and the approved templates.
use qeet_notify.Base.{◌≡◌, sym, ap, ◌∙◌, Bool, Option, none, some, List, select}
use qeet_notify.Base.Text.{Str, str}
use qeet_notify.Workflows.Json.{Fields}
use qeet_notify.Compliance.Dlt.{DltTemplate, is_approved, compiled, load_approved_templates}
use qeet_notify.Channels.Outbox.{Reads, Reads-pure, Reads-raise, Reads-gets, Reads-query, query-ok}
use qeet_notify.Channels.Rendering.{fetch, find_template, template_or_error, text_or_bad}
use qeet_notify.Platform.Tables.{Db, Template}
use qeet_notify.Platform.World.{World, ok, tx_call, not_found, bad_template}
use qeet_notify.Platform.World.Effects.{tx_call-db, ok-injective}

module _ {F : Type 0} where
  found-Reads : (found : Option Template) → Reads {F = F} (template_or_error found)
  found-Reads none = Reads-raise not_found
  found-Reads (some t) = Reads-pure t

  pub fetch-Reads : (t id : Str) → Reads {F = F} (fetch t id)
  unfolding fetch
  fetch-Reads t id = Reads-query _ (λ _. record {
    sends_nothing = record { kept = λ w. (found-Reads _).sends_nothing.kept w };
    same_db = λ w. (found-Reads _).same_db w;
  })

  found-ok :
      (found : Option Template) (w : World F) (t : Template)
      → (template_or_error found w).0 ≡ ok t
      → found ≡ some t
  found-ok none w t h = cc
  found-ok (some a) w t h = cc

  -- A fetched template is a row of the tables.
  pub fetch-ok :
      (tenant id : Str) (w : World F) (t : Template)
      → (fetch tenant id w).0 ≡ ok t
      → find_template id tenant w.db.templates ≡ some t
  unfolding fetch
  fetch-ok tenant id w t h =
      ap (λ (d : Db F). find_template id tenant d.templates) (sym (tx_call-db w))
      ∙ found-ok _ (tx_call w).1 t (query-ok _ w t h)

  module _ (render : Str → Fields F → Option Str) where
    pub rendered-Reads : (r : Option Str) → Reads {F = F} (text_or_bad render r)
    rendered-Reads none = Reads-raise bad_template
    rendered-Reads (some t) = Reads-pure t

    pub rendered-ok :
        (r : Option Str) (w : World F) (text : Str)
        → (text_or_bad render r w).0 ≡ ok text
        → r ≡ some text
    rendered-ok none w t h = cc
    rendered-ok (some a) w t h = cc

  module _ {R : Type 0} (compile : Str → Option R) (match_string : R → Str → Bool) where
    abbrev pub approved : Str → Db F → List (DltTemplate compile match_string)
    approved tenant_id d =
        compiled compile match_string
          (select (is_approved compile match_string tenant_id (str "all")) d.dlt_templates)

    pub load_approved-Reads :
        (t : Str) → Reads {F = F} (load_approved_templates compile match_string t (str "all"))
    unfolding load_approved_templates
    load_approved-Reads t = Reads-query _ (λ _. Reads-gets _)

    pub load_approved-ok :
        (t : Str) (w : World F) (ts : List (DltTemplate compile match_string))
        → (load_approved_templates compile match_string t (str "all") w).0 ≡ ok ts
        → approved t w.db ≡ ts
    unfolding load_approved_templates
    load_approved-ok t w ts h =
        let got = query-ok {F = F} _ w ts h in
        ap (λ (d : Db F). approved t d) (sym (tx_call-db w)) ∙ ok-injective got
