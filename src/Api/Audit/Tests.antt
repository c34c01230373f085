-- ===== src/Api/Audit/Tests.antt =====
-- The audit trail at a concrete request.
use qeet_notify.Base.{ℕ, ◌≡◌, refl, true, none, some, [], ◌∷◌}
use qeet_notify.Base.Text.{str}
use qeet_notify.Api.Http.{Response, reply}
use qeet_notify.Api.Audit.{Visit, is_uuid, resource_type, audit}
use qeet_notify.Api.Audit.Trail.{Recorded, audit-Recorded}
use qeet_notify.Platform.Samples.{empty_db, calm_world}
use qeet_notify.Platform.World.{World, M, ok}

resource_type_example : resource_type (str "/v1/templates/{id}/publish") ≡ str "templates"
unfolding resource_type
resource_type_example = refl

is_uuid_example : is_uuid (str "123e4567-e89b-12d3-A456-426614174000") ≡ true
unfolding is_uuid
is_uuid_example = refl

abbrev visit : Visit
visit = record {
  method = str "DELETE";
  pattern = str "/v1/templates/{id}";
  params = str "m" ∷ [];
  remote_addr = str "10.0.0.1:99";
  user_agent = str "curl";
  tenant_id = str "t";
  key_hash = some (str "0123456789abcdef0123");
}

abbrev world : World ℕ
world = calm_world empty_db

abbrev handler : M ℕ Response
handler w = (ok (reply 204 []), w)

audit-Recorded_example :
    Recorded (λ s. none) visit (reply 204 []) world (audit (λ s. none) visit handler world)
audit-Recorded_example = audit-Recorded (λ s. none) visit handler (reply 204 []) world refl
