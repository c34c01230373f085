-- ===== src/Api/Rows.antt =====
-- What the handlers of platform/api/handler share: statements on the rows of one tenant, by id, their
-- answers, and the numbers of a page. Rows stand in the order in which they were inserted.
use qeet_notify.Base.{
  ℕ, Bool, true, false, not, ◌&&◌, ◌||◌, Option, none, some, List, [], ◌∷◌, ◌++◌, map,
  if◌then◌else◌, select,
}
use qeet_notify.Base.Int.{ℤ, pos, negsuc, le_ℤ}
use qeet_notify.Base.Text.{Str, str_eq, is_empty}
use qeet_notify.Api.Http.{Response}
use qeet_notify.Platform.World.{World, M, Result, ok, err, pure, try, modify, tx_call, ◌>>=◌, ◌>>◌}

module _ {A : Type 0} where
  -- ORDER BY created_at DESC.
  abbrev pub latest_first : List A → List A
  latest_first [] = []
  latest_first (r ∷ rs) = latest_first rs ++ r ∷ []

  module _ (id_of tenant_of : A → Str) where
    -- WHERE id = … AND tenant_id = ….
    abbrev pub is_own : Str → Str → A → Bool
    is_own id tenant_id r = str_eq (id_of r) id && str_eq (tenant_of r) tenant_id

    unfoldable pub find_own : Str → Str → List A → Option A
    find_own id tenant_id [] = none
    find_own id tenant_id (r ∷ rs) =
        if is_own id tenant_id r then some r else find_own id tenant_id rs

    -- UPDATE.
    abbrev pub update_own : (A → A) → Str → Str → List A → List A
    update_own f id tenant_id = map (λ r. if is_own id tenant_id r then f r else r)

    -- DELETE.
    abbrev pub delete_own : Str → Str → List A → List A
    delete_own id tenant_id = select (λ r. not (is_own id tenant_id r))

-- A filter of a query, which an empty parameter leaves out.
abbrev pub passes_filter : Str → Str → Bool
passes_filter wanted s = is_empty wanted || str_eq s wanted

-- A count whose error is dropped.
abbrev pub count_or_zero : Result (Unit {0}) → ℕ → ℕ
count_or_zero (err e) n = 0
count_or_zero (ok _) n = n

-- A field of a request that may be missing, over its current value.
abbrev pub or_current {ℓ} : {A : Type ℓ} → Option A → A → A
or_current none a = a
or_current (some b) a = b

-- What a column of type INT holds.
abbrev pub fits_int : ℤ → Bool
fits_int p = le_ℤ (negsuc 2147483647) p && le_ℤ p (pos 2147483647)

-- A number that is at least `low` and at most `high`, else the default.
abbrev between : ℕ → ℕ → ℕ → Option ℤ → ℕ
between low high default none = default
between low high default (some (negsuc n)) = default
between low high default (some (pos n)) =
    if le_ℤ (pos low) (pos n) && le_ℤ (pos n) (pos high) then n else default

abbrev from_zero : Option ℤ → ℕ
from_zero none = 0
from_zero (some (negsuc n)) = 0
from_zero (some (pos n)) = n

-- The query parameters limit and offset, by strconv.Atoi.
module _ (atoi : Str → Option ℤ) where
  abbrev pub page_limit : ℕ → ℕ → Str → ℕ
  page_limit most default l = if is_empty l then default else between 1 most default (atoi l)

  abbrev pub page_offset : Str → ℕ
  page_offset o = if is_empty o then 0 else from_zero (atoi o)

module _ {F : Type 0} where
  -- `if err != nil || result.RowsAffected() == 0`.
  abbrev pub when_hit :
      Result (Unit {0}) → Bool → Response → M F (Unit {0}) → Response → M F Response
  when_hit (err e) hit bad act good = pure bad
  when_hit (ok _) false bad act good = pure bad
  when_hit (ok _) true bad act good = act >> pure good

  -- `if err != nil`.
  abbrev pub when_fine : Result (Unit {0}) → Response → M F (Unit {0}) → Response → M F Response
  when_fine (err e) bad act good = pure bad
  when_fine (ok _) bad act good = act >> pure good

  -- A row read into its answer.
  abbrev pub answer_row :
      {A : Type 0} → Result (Unit {0}) → Option A → Response → (A → M F Response) → M F Response
  answer_row (err e) found bad next = pure bad
  answer_row (ok _) none bad next = pure bad
  answer_row (ok _) (some a) bad next = next a

  abbrev unless_failed : (World F → World F) → Result (Unit {0}) → M F (Unit {0})
  unless_failed f (err e) = pure tt
  unless_failed f (ok _) = modify f

  -- A statement whose error is dropped.
  abbrev pub exec_dropped : (World F → World F) → M F (Unit {0})
  exec_dropped f = do r ← try tx_call; unless_failed f r

  -- The same for a field of a request that may be missing.
  abbrev pub exec_given : {A : Type 0} → Option A → (A → World F → World F) → M F (Unit {0})
  exec_given none f = pure tt
  exec_given (some a) f = exec_dropped (f a)
