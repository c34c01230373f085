-- ===== src/Api/Routes.antt =====
-- cmd/server/main.go: the middleware of the routes under api.Route("/v1"), in its order. The public
-- unsubscribe link and the webhooks of the email providers are other routes, which it does not guard.
pub mod Guarded
mod Tests
use qeet_notify.Base.{ℕ, Option, some, List}
use qeet_notify.Base.Text.{Str}
use qeet_notify.Api.Http.{Request, Response}
use qeet_notify.Api.Audit.{Visit, audit}
use qeet_notify.Api.Middleware.{Caller, auth, scope_guard, rate_limit, tenant_tx}
use qeet_notify.Platform.World.{M}

-- The route that chi has found, and the connection.
pub record Route : Type 0 where
  pub pattern : Str
  pub params : List Str
  pub remote_addr : Str
  pub user_agent : Str

-- What Audit sees of a request of this caller.
abbrev pub visit_of : Request → Route → Caller → Visit
visit_of r route c = record {
  method = r.method;
  pattern = route.pattern;
  params = route.params;
  remote_addr = route.remote_addr;
  user_agent = route.user_agent;
  tenant_id = c.tenant_id;
  key_hash = some c.key_hash;
}

-- Auth, ScopeGuard, RateLimit, Audit and TenantTx around a handler.
abbrev pub serve :
    {F : Type 0}
    → (Str → Option Str)
    → (Str → Str)
    → ℕ
    → ℕ
    → Request
    → Route
    → (Caller → M F Response)
    → M F Response
serve split_host_port hash_api_key limit window r route next = auth hash_api_key r (λ c.
    scope_guard r c (
      rate_limit limit window c.tenant_id
        (audit split_host_port (visit_of r route c) (tenant_tx c.tenant_id (next c)))))
