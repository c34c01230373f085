-- ===== src/Platform/Messaging/Subjects.antt =====
-- The tenant of a subject is read back from it (streams.go).
use qeet_notify.Base.{◌≡◌, [], ◌∷◌, ◌++◌}
use qeet_notify.Base.Text.{Str, str, str_eq}
use qeet_notify.Base.Text.Search.{Lacks, split_n_from, split_n_from-join}
use qeet_notify.Platform.Messaging.{
  event_subject, channel_subject, delivery_subject, dlq_subject, tenant_from_subject,
}

-- The tenant of a text with the common prefix and at least one dot behind the tenant.
tenant_from_subject-dotted :
    (tenant rest : Str)
    → Lacks 46 tenant
    → tenant_from_subject (str "qeet-notify." ++ (tenant ++ 46 ∷ rest)) ≡ tenant
unfolding tenant_from_subject split_n_from str_eq
tenant_from_subject-dotted tenant rest h = rw (split_n_from-join 46 0 [] tenant rest h)

-- For a tenant id with no dot, tenantFromSubject of each of its subjects (events, any channel,
-- delivery, dead letters) is the tenant id.
tenant_from_subject-subjects :
    (tenant channel : Str)
    → Lacks 46 tenant
    → (tenant_from_subject (event_subject tenant) ≡ tenant)
      × (tenant_from_subject (channel_subject tenant channel) ≡ tenant)
      × (tenant_from_subject (delivery_subject tenant) ≡ tenant)
      × (tenant_from_subject (dlq_subject tenant) ≡ tenant)
unfolding event_subject channel_subject delivery_subject dlq_subject
tenant_from_subject-subjects tenant channel h = (
  tenant_from_subject-dotted tenant (str "events") h,
  tenant_from_subject-dotted tenant (str "channel." ++ channel) h,
  tenant_from_subject-dotted tenant (str "delivery") h,
  tenant_from_subject-dotted tenant (str "dlq") h,
)
