-- ===== src/Compliance/Dlt.antt =====
-- domains/compliance/dlt/dlt.go: the hours of promotional SMS, and the approved templates. Regular
-- expressions are a parameter: `compile` is none for a malformed one. Times are nanoseconds of UTC.
pub mod Window
use qeet_notify.Base.{
  ℕ, suc, ◌+◌, ◌-◌, ◌*◌, ◌/◌, ◌%◌, Bool, ◌&&◌, ◌||◌, Option, none, some, List, [], ◌∷◌,
  if◌then◌else◌, ltb, leb, select,
}
use qeet_notify.Base.Int.{ℤ, pos, negsuc, ◌+ℤ◌}
use qeet_notify.Base.Text.{Str, str, str_eq}
use qeet_notify.Platform.Tables.{DltRow}
use qeet_notify.Platform.World.{M, pure, gets, tx_call, ◌>>=◌, ◌>>◌}

abbrev pub second : ℕ
second = 1000000000

abbrev pub hour : ℕ
hour = 3600 * second

abbrev pub day : ℕ
day = 24 * hour

-- Asia/Kolkata, five and a half hours ahead.
abbrev pub ist_offset : ℕ
ist_offset = 19800 * second

-- The time since midnight in Asia/Kolkata.
unfoldable pub time_of_day : ℤ → ℕ
time_of_day (pos n) = (n + ist_offset) % day
time_of_day (negsuc n) = (day - suc n % day + ist_offset) % day

unfoldable pub is_promotional_window_open : ℤ → Bool
unfolding time_of_day
is_promotional_window_open now = let h = time_of_day now / hour in leb 10 h && ltb h 21

-- How long after `now` the next 10:00 is; on the stroke of 10:00 it is tomorrow's.
unfoldable pub until_next_window : ℤ → ℕ
unfolding time_of_day
until_next_window now =
    let t = time_of_day now in if leb (10 * hour) t then 10 * hour + day - t else 10 * hour - t

abbrev pub resume_at_next_window : ℤ → ℤ
resume_at_next_window now = now +ℤ pos (until_next_window now)

module _ {R : Type 0} (compile : Str → Option R) (match_string : R → Str → Bool) where
  pub record DltTemplate : Type 0 where
    pub id : Str
    pub carrier : Str
    pub regex : R

  abbrev pub is_approved : Str → Str → DltRow → Bool
  is_approved tenant_id carrier r =
      str_eq r.tenant_id tenant_id
      && str_eq r.channel (str "sms")
      && (str_eq r.carrier carrier || str_eq r.carrier (str "all"))
      && str_eq r.status (str "approved")

  -- A row whose expression does not compile is skipped.
  unfoldable pub compiled : List DltRow → List DltTemplate
  compiled [] = []
  compiled (r ∷ rs) =
      let rest = compiled rs in
      elim (compile r.body_regex) [
        | none ↦ rest
        | some regex ↦ record { id = r.id; carrier = r.carrier; regex = regex } ∷ rest
      ]

  unfoldable pub load_approved_templates : {F : Type 0} → Str → Str → M F (List DltTemplate)
  unfolding compiled
  load_approved_templates tenant_id carrier = do
    tx_call
    gets (λ w. compiled (select (is_approved tenant_id carrier) w.db.dlt_templates))

  unfoldable pub match_template : List DltTemplate → Str → Str
  match_template [] body = []
  match_template (t ∷ ts) body = if match_string t.regex body then t.id else match_template ts body
