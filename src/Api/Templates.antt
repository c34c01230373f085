-- ===== src/Api/Templates.antt =====
-- platform/api/handler/templates.go: the message templates of a tenant. encoding/json, strconv.Atoi,
-- the formatting of times and the order of texts are parameters; the timestamps of rows are left out.
pub mod Versions
pub mod Deleted
mod Tests
use qeet_notify.Base.{
  ℕ, suc, Bool, true, false, not, ◌&&◌, ◌||◌, Option, none, some, List, [], ◌∷◌, ◌++◌, map,
  if◌then◌else◌, any, select, take, drop, length,
}
use qeet_notify.Base.Int.{ℤ, pos, ◌+ℤ◌}
use qeet_notify.Base.Text.{Str, str, str_eq, is_empty}
use qeet_notify.Workflows.Json.{Value, Fields, end, int, text}
use qeet_notify.Api.Http.{Response, reply}
use qeet_notify.Api.Rows.{
  or_current, is_own, find_own, update_own, page_limit, page_offset, when_hit, when_fine,
  answer_row,
}
use qeet_notify.Api.Subscribers.Changes.{set_key, merge}
use qeet_notify.Platform.Tables.{Template}
use qeet_notify.Platform.World.{
  World, M, Result, ok, err, panicked, pure, raise, gets, try, modify, tx_call, ◌>>=◌, ◌>>◌,
}

pub record TemplateRow : Type 0 where
  pub template : Template
  pub version : ℤ

pub record CreateRequest (F : Type 0) : Type 0 where
  pub name : Str
  pub channel : Str
  pub locale : Str
  pub subject : Str
  pub body : Str
  pub metadata : Fields F

pub record UpdateRequest (F : Type 0) : Type 0 where
  pub name : Option Str
  pub subject : Option Str
  pub body : Option Str
  pub locale : Option Str
  pub metadata : Fields F
  pub is_active : Option Bool

-- `version_of` is COALESCE((metadata->>'version')::int, 1), none where the cast fails. `unmarshal`
-- is none where the text is null or no object, which leaves a nil map.
pub record Outside (F : Type 0) : Type 0 where
  pub rows_json : List TemplateRow → ℕ → Str
  pub row_json : TemplateRow → Str
  pub id_json : Str → Str
  pub version_json : Str → ℤ → Str
  pub marshal : Fields F → Str
  pub unmarshal : Str → Option (Fields F)
  pub version_of : Str → Option ℤ
  pub rfc3339 : ℤ → Str
  pub atoi : Str → Option ℤ
  pub less : Str → Str → Bool

abbrev pub template_id : Template → Str
template_id t = t.id

abbrev pub template_tenant : Template → Str
template_tenant t = t.tenant_id

abbrev or_empty : {F : Type 0} → Option (Fields F) → Fields F
or_empty none = end
or_empty (some m) = m

abbrev or_en : Str → Str
or_en s = if is_empty s then str "en" else s

-- The check of channel and the unique (tenant_id, name, channel, locale).
abbrev is_template_channel : Str → Bool
is_template_channel s =
    str_eq s (str "email")
    || str_eq s (str "sms")
    || str_eq s (str "whatsapp")
    || str_eq s (str "push")
    || str_eq s (str "inapp")
    || str_eq s (str "webhook")

abbrev same_key : Template → Template → Bool
same_key t u =
    str_eq t.tenant_id u.tenant_id
    && str_eq t.name u.name
    && str_eq t.channel u.channel
    && str_eq t.locale u.locale

abbrev not_found : Response
not_found = reply 404 (str "not found")

abbrev on_rows : {F : Type 0} → (List Template → List Template) → World F → World F
on_rows f w = record w { db = record w.db { templates = f w.db.templates } }

abbrev is_wanted : Str → Str → Template → Bool
is_wanted tenant_id channel t =
    str_eq t.tenant_id tenant_id && (is_empty channel || str_eq t.channel channel)

-- cur.Version + 1.
abbrev pub next_version : ℤ → ℤ
next_version v = v +ℤ pos 1

module _ {F : Type 0} where
  abbrev pub changed : UpdateRequest F → Template → Str → Template → Template
  changed req cur metadata t = record t {
    name = or_current req.name cur.name;
    subject = or_current req.subject cur.subject;
    body = or_current req.body cur.body;
    locale = or_current req.locale cur.locale;
    metadata = metadata;
    is_active = or_current req.is_active cur.is_active;
  }

  -- Another row of the tenant with the new name and locale.
  abbrev clashes : UpdateRequest F → Template → List Template → Bool
  clashes req cur = any (λ t. same_key (changed req cur [] cur) t && not (str_eq t.id cur.id))

  unfoldable pub delete_template : Str → Str → M F Response
  delete_template tenant_id id = do
    r ← try tx_call
    hit ← gets (λ w. any (is_own template_id template_tenant id tenant_id) w.db.templates)
    when_hit r hit not_found
        (modify (
          on_rows (
            update_own template_id template_tenant (λ t. record t { is_active = false }) id
              tenant_id)))
        (reply 204 [])

module _ {F : Type 0} (o : Outside F) where
  -- ORDER BY name.
  insert_template : Template → List Template → List Template
  insert_template t [] = t ∷ []
  insert_template t (u ∷ us) =
      if o.less t.name u.name || str_eq t.name u.name then t ∷ u ∷ us else u ∷ insert_template t us

  unfoldable pub sort_templates : List Template → List Template
  unfolding insert_template
  sort_templates [] = []
  sort_templates (t ∷ ts) = insert_template t (sort_templates ts)

  -- The rows with their versions; the cast of one fails the query.
  versioned : Option ℤ → Template → Option (List TemplateRow) → Option (List TemplateRow)
  versioned none t rest = none
  versioned (some v) t none = none
  versioned (some v) t (some rows) = some (record { template = t; version = v } ∷ rows)

  unfoldable pub with_versions : List Template → Option (List TemplateRow)
  unfolding versioned
  with_versions [] = some []
  with_versions (t ∷ ts) = versioned (o.version_of t.metadata) t (with_versions ts)

  abbrev failed_query : Response → M F Response
  failed_query a w = (ok a, record w { aborted = true })

  abbrev page_reply : Result (Unit {0}) → Option (List TemplateRow) → M F Response
  page_reply (err e) rows = pure (reply 500 (str "query failed"))
  page_reply (ok _) none = failed_query (reply 500 (str "query failed"))
  page_reply (ok _) (some rows) = pure (reply 200 (o.rows_json rows (length rows)))

  unfoldable pub list_templates : Str → Str → Str → Str → M F Response
  unfolding sort_templates with_versions
  list_templates tenant_id limit offset channel = do
    r ← try tx_call
    rows ← gets (λ w. with_versions (
        take (page_limit o.atoi 200 50 limit) (
          drop (page_offset o.atoi offset)
            (sort_templates (select (is_wanted tenant_id channel) w.db.templates)))))
    page_reply r rows

  -- A row with its version, whose cast may fail the query.
  abbrev reading : Option ℤ → (ℤ → M F Response) → M F Response
  reading none next = failed_query not_found
  reading (some v) next = next v

  unfoldable pub get_template : Str → Str → M F Response
  unfolding find_own
  get_template tenant_id id = do
    r ← try tx_call
    found ← gets (λ w. find_own template_id template_tenant id tenant_id w.db.templates)
    answer_row r found not_found (λ t.
        reading (o.version_of t.metadata)
          (λ v. pure (reply 200 (o.row_json (record { template = t; version = v })))))

  abbrev pub created : Str → CreateRequest F → Str → Template
  created tenant_id req id = record {
    id = id;
    tenant_id = tenant_id;
    name = req.name;
    channel = req.channel;
    locale = or_en req.locale;
    metadata = o.marshal (set_key (str "version") (int (pos 1)) req.metadata);
    subject = req.subject;
    body = req.body;
    is_active = true;
  }

  abbrev inserted : (ℕ → Str) → Str → CreateRequest F → Result (Unit {0}) → M F Response
  inserted uuid tenant_id req (err e) w = (ok (reply 500 (str "create failed")), w)
  inserted uuid tenant_id req (ok _) w =
      if any (same_key (created tenant_id req (uuid w.made))) w.db.templates
        || not (is_template_channel req.channel)
      then failed_query (reply 500 (str "create failed")) w
      else (
        ok (reply 201 (o.id_json (uuid w.made))),
        record w {
          db = record w.db {
            templates = w.db.templates ++ created tenant_id req (uuid w.made) ∷ [];
          };
          made = suc w.made;
        },
      )

  unfoldable pub create_template : (ℕ → Str) → Str → Option (CreateRequest F) → M F Response
  create_template uuid tenant_id none = pure (reply 400 (str "invalid json"))
  create_template uuid tenant_id (some req) =
      if is_empty req.name || is_empty req.channel || is_empty req.body
      then pure (reply 422 (str "name, channel, and body are required"))
      else do r ← try tx_call; inserted uuid tenant_id req r

  abbrev pub new_metadata : UpdateRequest F → Fields F → ℤ → Str
  new_metadata req m v =
      o.marshal (set_key (str "version") (int (next_version v)) (merge req.metadata m))

  abbrev stored :
      Str → Str → UpdateRequest F → Template → Fields F → ℤ → Result (Unit {0}) → M F Response
  stored tenant_id id req cur m v (err e) w = (ok (reply 500 (str "update failed")), w)
  stored tenant_id id req cur m v (ok _) w =
      if clashes req cur w.db.templates then failed_query (reply 500 (str "update failed")) w else (
        ok (reply 200 (o.version_json id (next_version v))),
        on_rows
            (update_own template_id template_tenant (changed req cur (new_metadata req m v)) id
              tenant_id)
            w,
      )

  -- Writing to a nil map panics.
  abbrev store : Str → Str → UpdateRequest F → Template → ℤ → Option (Fields F) → M F Response
  store tenant_id id req cur v none = raise panicked
  store tenant_id id req cur v (some m) = do r ← try tx_call; stored tenant_id id req cur m v r

  unfoldable pub update_template : Str → Str → Option (UpdateRequest F) → M F Response
  unfolding find_own
  update_template tenant_id id none = pure (reply 400 (str "invalid json"))
  update_template tenant_id id (some req) = do
    r ← try tx_call
    found ← gets (λ w. find_own template_id template_tenant id tenant_id w.db.templates)
    answer_row r found not_found (λ t.
        reading (o.version_of t.metadata)
          (λ v. store tenant_id id req t v (o.unmarshal t.metadata)))

  abbrev marked : ℤ → ℤ → Fields F → Fields F
  marked now v m =
      set_key (str "published_at") (text (o.rfc3339 now))
        (set_key (str "published_version") (int v) m)

  abbrev mark : Str → Str → Template → ℤ → M F Response
  mark tenant_id id t v = do
    metadata ← gets (λ w. o.marshal (marked w.now v (or_empty (o.unmarshal t.metadata))))
    r ← try tx_call
    when_fine r (reply 500 (str "publish failed"))
        (modify (
          on_rows (
            update_own template_id template_tenant (λ t. record t { metadata = metadata }) id
              tenant_id)))
        (reply 200 (o.version_json id v))

  unfoldable pub publish_template : Str → Str → M F Response
  unfolding find_own
  publish_template tenant_id id = do
    r ← try tx_call
    found ← gets (λ w. find_own template_id template_tenant id tenant_id w.db.templates)
    answer_row r found not_found (λ t. reading (o.version_of t.metadata) (mark tenant_id id t))
