-- ===== src/Api/Oidc/Tests.antt =====
-- The dashboard's tokens at concrete inputs.
use qeet_notify.Base.{ℕ, ◌≡◌, ◌==◌, refl, Bool, true, false, none, some, [], ◌∷◌, if◌then◌else◌}
use qeet_notify.Base.Int.{pos}
use qeet_notify.Base.Text.{Str, str, str_eq}
use qeet_notify.Api.Http.{Response, reply}
use qeet_notify.Api.Oidc.{Claims, Jwks, Outside, dashboard_auth}
use qeet_notify.Api.Oidc.Guarded.{Guarded, Verifies, dashboard_auth-Guarded}
use qeet_notify.Platform.Samples.{empty_db, calm_world}
use qeet_notify.Platform.World.{World, M, ok}

abbrev claims : Claims
claims = record { sub = str "me"; iss = str "qeet"; exp = pos 99999999999 }

-- A key signs the token of its own number.
abbrev signs : ℕ → ℕ → Bool
signs t k = t == k

abbrev outside : Outside ℕ ℕ
outside = record {
  parse = λ s. some 7;
  read = λ t k c. if t == k then (true, claims) else (false, c);
}

verifies : Verifies outside signs (λ t. true) (λ t. claims)
verifies = record {
  refuses = λ t k c e. rw e refl;
  reads = λ t k e. rw e refl;
  rereads = λ t k e. rw e refl;
}

abbrev world : World ℕ
world = calm_world empty_db

abbrev empty_cache : Jwks ℕ
empty_cache = record { key_set = none; fetched = pos 0 }

abbrev dashboard : Str → M ℕ Response
dashboard sub w = (ok (reply 200 sub), w)

dashboard_auth-Guarded_example :
    Guarded outside signs
      (λ t. true)
      (λ t. claims)
      verifies
      (str "qeet")
      dashboard
      (str "Bearer abc")
      world
      (dashboard_auth outside
        (str "qeet")
        dashboard
        (str "Bearer abc")
        (some (5 ∷ 7 ∷ []))
        empty_cache
        world)
dashboard_auth-Guarded_example =
    dashboard_auth-Guarded outside signs (λ t. true) (λ t. claims) verifies (str "qeet") dashboard
      (str "Bearer abc") (some (5 ∷ 7 ∷ [])) empty_cache world

-- The second key has signed the token, so the request goes on for its subject.
lets_in :
    (dashboard_auth outside
      (str "qeet")
      dashboard
      (str "Bearer abc")
      (some (5 ∷ 7 ∷ []))
      empty_cache
      world).0.0
    ≡ ok (reply 200 (str "me"))
unfolding dashboard_auth str_eq
lets_in = refl

-- An empty set of keys, which an answer of the issuer without keys leaves, refuses a good token.
refuses :
    (dashboard_auth outside
      (str "qeet")
      dashboard
      (str "Bearer abc")
      (some (7 ∷ []))
      (record { key_set = some []; fetched = world.now })
      world).0.0
    ≡ ok (reply 401 (str "token invalid or expired"))
unfolding dashboard_auth str_eq
refuses = refl
