-- ===== src/Api/Routes/Tests.antt =====
-- The routes under /v1 at concrete requests.
use qeet_notify.Base.{ℕ, ◌≡◌, false, none, [], ◌∷◌, inl, inr}
use qeet_notify.Base.Text.{str, str_eq, is_empty}
use qeet_notify.Api.Http.{Request, Response, reply}
use qeet_notify.Api.Middleware.{Caller, find_key, find_master}
use qeet_notify.Api.Routes.{Route, serve}
use qeet_notify.Api.Middleware.Guarded.{Known}
use qeet_notify.Api.Routes.Guarded.{Guarded, serve-Guarded}
use qeet_notify.Platform.Samples.{empty_db, calm_world}
use qeet_notify.Platform.World.{World, M, ok}

abbrev world : World ℕ
world = calm_world (record empty_db {
  api_keys =
      record {
        id = str "1";
        tenant_id = str "t";
        name = str "reader";
        key_hash = str "k";
        prefix = [];
        scope = str "read";
        revoked_at = none;
      }
      ∷ [];
})

abbrev reading : Request
reading = record { method = str "GET"; path = str "/v1/subscribers"; api_key = str "k" }

abbrev answer : Response
answer = reply 200 (str "ok")

abbrev handler : Caller → M ℕ Response
handler c w = (ok answer, w)

-- The one key belongs to "t".
caller_has_tenant : (c : Caller) → Known (str "k") world.db c → is_empty c.tenant_id ≡ false
unfolding find_key find_master str_eq
caller_has_tenant c (inl h) = cc
caller_has_tenant c (inr (h, k)) = cc

abbrev route : Route
route = record {
  pattern = str "/v1/subscribers";
  params = [];
  remote_addr = str "10.0.0.1:99";
  user_agent = str "curl";
}

serve-Guarded_example :
    Guarded
      (λ s. none)
      (str "k")
      reading
      route
      handler
      world.db
      (serve (λ s. none) (λ k. k) 1000 60 reading route handler world)
serve-Guarded_example =
    serve-Guarded (λ s. none) (λ k. k) 1000 60 reading route handler world caller_has_tenant
