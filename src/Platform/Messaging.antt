-- ===== src/Platform/Messaging.antt =====
-- platform/messaging/streams.go: the subjects of the message bus.
pub mod Failure
pub mod Subjects
mod Tests
use qeet_notify.Base.{List, [], ◌∷◌, ◌++◌, if◌then◌else◌}
use qeet_notify.Base.Text.{Str, str, str_eq}
use qeet_notify.Base.Text.Search.{split_n_from}

unfoldable pub event_subject : Str → Str
event_subject tenant_id = str "qeet-notify." ++ (tenant_id ++ str ".events")

unfoldable pub channel_subject : Str → Str → Str
channel_subject tenant_id channel =
    str "qeet-notify." ++ (tenant_id ++ (str ".channel." ++ channel))

unfoldable pub delivery_subject : Str → Str
delivery_subject tenant_id = str "qeet-notify." ++ (tenant_id ++ str ".delivery")

unfoldable pub dlq_subject : Str → Str
dlq_subject tenant_id = str "qeet-notify." ++ (tenant_id ++ str ".dlq")

abbrev tenant_part : List Str → Str
tenant_part [] = []
tenant_part (p ∷ []) = []
tenant_part (p ∷ q ∷ _) = if str_eq p (str "qeet-notify") then q else []

-- The second of at most three parts between dots, behind "qeet-notify"; else empty.
unfoldable pub tenant_from_subject : Str → Str
unfolding split_n_from
tenant_from_subject subject = tenant_part (split_n_from 46 2 [] subject)
