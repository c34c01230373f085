-- ===== src/Api/Templates/Versions.antt =====
-- What an update of a template leaves (templates.go).
use qeet_notify.Base.{
  ◌≡◌, refl, ap, ◌∙◌, true, Option, some, List, [], ◌∷◌, arith, Bool-cases, inl, inr,
}
use qeet_notify.Base.Int.{ℤ}
use qeet_notify.Base.Text.{Str, str, str_eq, str_eq_refl}
use qeet_notify.Workflows.Json.{Value, Fields, end, field, get_key, int}
use qeet_notify.Api.Http.{reply}
use qeet_notify.Api.Rows.{is_own, find_own, update_own, fits_int}
use qeet_notify.Api.Subscribers.Changes.{set_key, merge}
use qeet_notify.Api.Templates.{
  Outside, UpdateRequest, template_id, template_tenant, next_version, new_metadata, changed,
  clashes, stored, update_template,
}
use qeet_notify.Platform.Tables.{Template, Db}
use qeet_notify.Platform.World.{World, Result, ok, err, tx_call}
use qeet_notify.Platform.World.Effects.{tx_call-db, tx_call-error, ok-injective}

get_key-set_key :
    {F : Type 0} (k : Str) (v : Value F) (m : Fields F) → get_key k (set_key k v m) ≡ v
unfolding get_key set_key
get_key-set_key k v end = rw (str_eq_refl k) refl
get_key-set_key k v (field j u m) = elim (Bool-cases (str_eq j k)) [
  | inl e ↦ rw e (rw e refl)
  | inr e ↦ rw e (rw e (get_key-set_key k v m))
]

-- The update of a row that a query finds by its id.
some-injective : {A : Type 0} {x y : A} → some x ≡ some y → x ≡ y
some-injective h = cc

module _ {A : Type 0} (id_of tenant_of : A → Str) (f : A → A) (id tenant_id : Str)
    (hi : (b : A) → id_of (f b) ≡ id_of b) (ht : (b : A) → tenant_of (f b) ≡ tenant_of b) where
  find_own-update :
      (rows : List A) (a : A)
      → find_own id_of tenant_of id tenant_id rows ≡ some a
      → find_own id_of tenant_of id tenant_id (update_own id_of tenant_of f id tenant_id rows)
        ≡ some (f a)
  unfolding find_own
  find_own-update [] a h = absurd cc
  find_own-update (b ∷ rows) a h = elim (Bool-cases (is_own id_of tenant_of id tenant_id b)) [
    | inl e ↦ rw e (rw (hi b, ht b) (rw e (ap (λ x. some (f x)) (some-injective (rw e at h)))))
    | inr e ↦ rw e (rw e (find_own-update rows a (rw e at h)))
  ]

module _ {F : Type 0} (o : Outside F) (tenant_id id : Str) (req : UpdateRequest F) where
  abbrev find : List Template → Option Template
  find = find_own template_id template_tenant id tenant_id

  stored-found :
      (cur : Template) (m : Fields F) (v : ℤ) (r : Result (Unit {0})) (u : World F)
      → find u.db.templates ≡ some cur
      → (stored o tenant_id id req cur m v r u).0
        ≡ ok (reply 200 (o.version_json id (next_version v)))
      → find (stored o tenant_id id req cur m v r u).1.db.templates
        ≡ some (changed req cur (new_metadata o req m v) cur)
  stored-found cur m v (err e) u found = λ h. absurd (ground (arith, ok-injective h))
  stored-found cur m v (ok _) u found = elim (Bool-cases (clashes req cur u.db.templates)) [
    | inl e ↦ rw e (λ h. absurd (ground (arith, ok-injective h)))
    | inr e ↦ rw e (λ h.
        find_own-update template_id template_tenant (changed req cur (new_metadata o req m v)) id
          tenant_id (λ t. refl) (λ t. refl) u.db.templates cur found)
  ]

-- Behind an update that is answered with 200, whichever calls fail, the row holds what the request
-- gives and its old values elsewhere, and its version has grown by one, whatever version the
-- request's own metadata ask for. The row was found with a version v, its metadata are an object,
-- v + 1 fits into an INT, and the version that PostgreSQL reads from an encoded map is the number
-- that stands there.
update_template-version :
    {F : Type 0} (o : Outside F) (tenant_id id : Str) (req : UpdateRequest F) (cur : Template)
    (m : Fields F) (v : ℤ) (w : World F)
    → ((m : Fields F) (n : ℤ)
        → get_key (str "version") m ≡ int n
        → fits_int n ≡ true
        → o.version_of (o.marshal m) ≡ some n)
    → find_own template_id template_tenant id tenant_id w.db.templates ≡ some cur
    → o.version_of cur.metadata ≡ some v
    → o.unmarshal cur.metadata ≡ some m
    → fits_int (next_version v) ≡ true
    → (update_template o tenant_id id (some req) w).0
      ≡ ok (reply 200 (o.version_json id (next_version v)))
    → (find_own template_id template_tenant id tenant_id
          (update_template o tenant_id id (some req) w).1.db.templates
        ≡ some (changed req cur (new_metadata o req m v) cur))
      × (o.version_of (new_metadata o req m v) ≡ some (next_version v))
unfolding update_template
update_template-version {F} o tenant_id id req cur m v w reads found version object fits =
    elim (tx_call-error w) [
      | inr e ↦ rw e (λ h. absurd (ground (arith, ok-injective h)))
      | inl e ↦
          rw (e, tx_call-db w, found, version, object)
            (λ h. (
              stored-found o tenant_id id req cur m v _ _
                  (ap (λ (d : Db F). find_own template_id template_tenant id tenant_id d.templates)
                      (tx_call-db (tx_call w).1 ∙ tx_call-db w)
                    ∙ found)
                  h,
              reads _ _
                  (get_key-set_key (str "version") (int (next_version v)) (merge req.metadata m))
                  fits,
            ))
    ]
