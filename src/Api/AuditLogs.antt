-- ===== src/Api/AuditLogs.antt =====
-- platform/api/handler/auditlogs.go: the audit trail of a tenant, filtered and in pages.
-- encoding/json, strconv.Atoi and time.Parse are parameters.
use qeet_notify.Base.{
  ℕ, Bool, true, ◌&&◌, Option, none, some, List, if◌then◌else◌, select, take, drop, length,
}
use qeet_notify.Base.Int.{ℤ, le_ℤ}
use qeet_notify.Base.Text.{Str, str, str_eq, is_empty}
use qeet_notify.Api.Http.{Response, reply}
use qeet_notify.Api.Rows.{passes_filter, count_or_zero, latest_first, page_limit, page_offset}
use qeet_notify.Platform.Tables.{AuditRow}
use qeet_notify.Platform.World.{M, Result, ok, err, pure, gets, try, tx_call, ◌>>=◌}

-- The query parameters, empty where they are missing.
pub record Filter : Type 0 where
  pub limit : Str
  pub offset : Str
  pub action : Str
  pub resource_type : Str
  pub actor_id : Str
  pub from : Str
  pub to : Str

-- `parse_time` is time.Parse of RFC 3339, none where it fails.
pub record Outside : Type 0 where
  pub page_json : List AuditRow → ℕ → Str
  pub atoi : Str → Option ℤ
  pub parse_time : Str → Option ℤ

-- A bound that does not parse is left out.
abbrev is_since : Option ℤ → ℤ → Bool
is_since none t = true
is_since (some s) t = le_ℤ s t

abbrev is_until : Option ℤ → ℤ → Bool
is_until none t = true
is_until (some s) t = le_ℤ t s

module _ (o : Outside) where
  abbrev time_bound : Str → Option ℤ
  time_bound s = if is_empty s then none else o.parse_time s

  abbrev pub is_wanted : Str → Filter → AuditRow → Bool
  is_wanted tenant_id f r =
      str_eq r.tenant_id tenant_id
      && passes_filter f.action r.action
      && passes_filter f.resource_type r.resource_type
      && passes_filter f.actor_id r.actor_id
      && is_since (time_bound f.from) r.occurred_at
      && is_until (time_bound f.to) r.occurred_at

  abbrev page_reply : Result (Unit {0}) → List AuditRow → ℕ → Response
  page_reply (err e) rows total = reply 500 (str "query failed")
  page_reply (ok _) rows total = reply 200 (o.page_json rows total)

  unfoldable pub list_audit_logs : {F : Type 0} → Str → Filter → M F Response
  list_audit_logs tenant_id f = do
    r ← try tx_call
    total ← gets (λ w. count_or_zero r (length (select (is_wanted tenant_id f) w.db.audit_logs)))
    s ← try tx_call
    rows ← gets (λ w. take (page_limit o.atoi 200 50 f.limit) (
        drop (page_offset o.atoi f.offset)
          (latest_first (select (is_wanted tenant_id f) w.db.audit_logs))))
    pure (page_reply s rows total)
