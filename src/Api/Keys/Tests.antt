-- ===== src/Api/Keys/Tests.antt =====
-- API keys at concrete requests.
use qeet_notify.Base.{none, ℕ, ◌≡◌, refl, some, [], ◌++◌}
use qeet_notify.Base.Text.{str, str_eq}
use qeet_notify.Api.Http.{Request, reply}
use qeet_notify.Api.Keys.{Outside, KeyRequest, create_api_key, revoke_api_key}
use qeet_notify.Api.Keys.Lifecycle.{Refused, create_api_key-lookup, revoke_api_key-Refused}
use qeet_notify.Api.Middleware.{find_master, lookup_tenant_by_key}
use qeet_notify.Api.Routes.{Route, serve}
use qeet_notify.Platform.Samples.{empty_db, calm_world}
use qeet_notify.Platform.World.{World, ok, tx_call}

abbrev outside : Outside
outside = record {
  rows_json = λ rows. [];
  created_json = λ id raw prefix scope. id;
  random = λ n. some (str "abcd");
  hex = λ s. s;
  sha256 = λ s. str "#" ++ s;
}

abbrev reader : KeyRequest
reader = record { name = str "ci"; scope = str "read" }

abbrev world : World ℕ
world = calm_world empty_db

abbrev holding : World ℕ
holding = (create_api_key outside (λ n. str "1") (str "t") (some reader) world).1

create_api_key-lookup_example :
    (lookup_tenant_by_key (str "#qn_live_abcd") holding).0
    ≡ ok (some (record { tenant_id = str "t"; scope = str "read"; key_hash = str "#qn_live_abcd" }))
unfolding create_api_key tx_call str_eq
create_api_key-lookup_example =
    create_api_key-lookup outside (λ n. str "1") (str "t") reader (str "abcd") (reply 201 (str "1"))
      world holding refl refl refl refl refl

abbrev request : Request
request = record { method = str "GET"; path = str "/v1/subscribers"; api_key = str "qn_live_abcd" }

abbrev route : Route
route = record {
  pattern = str "/v1/subscribers";
  params = [];
  remote_addr = str "10.0.0.1:99";
  user_agent = str "curl";
}

abbrev revoking : World ℕ
revoking = (revoke_api_key (str "t") (str "1") holding).1

revoke_api_key-Refused_example : Refused revoking (
    serve
      (λ s. none)
      (λ k. str "#" ++ k)
      1000
      60
      request
      route
      (λ c w. (ok (reply 200 []), w))
      revoking)
unfolding create_api_key revoke_api_key find_master tx_call str_eq
revoke_api_key-Refused_example =
    revoke_api_key-Refused (λ s. none) (λ k. str "#" ++ k) 1000 60 request route
      (λ c w. (ok (reply 200 []), w)) (str "1") (str "t") holding revoking refl ((λ h. refl), tt)
      refl refl
