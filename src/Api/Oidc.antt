-- ===== src/Api/Oidc.antt =====
-- platform/api/middleware/oidc.go: tokens of qeet-id, checked with the keys that the issuer publishes.
-- The clock is read once for a request, in nanoseconds.
pub mod Guarded
mod Tests
use qeet_notify.Base.{
  ℕ, ◌/◌, Bool, true, false, not, ◌&&◌, Option, none, some, List, [], ◌∷◌, if◌then◌else◌,
}
use qeet_notify.Base.Int.{ℤ, pos, negsuc, ◌-ℤ◌, le_ℤ, lt_ℤ}
use qeet_notify.Base.Text.{Str, str, str_eq, is_empty}
use qeet_notify.Base.Text.Search.{has_prefix, trim_prefix}
use qeet_notify.Api.Http.{Response, reply}
use qeet_notify.Platform.World.{World, M, Result, ok}

pub record Claims : Type 0 where
  pub sub : Str
  pub iss : Str
  pub exp : ℤ

abbrev pub no_claims : Claims
no_claims = record { sub = []; iss = []; exp = pos 0 }

-- The process's cache of the keys; `none` is nil.
pub record Jwks (K : Type 0) : Type 0 where
  pub key_set : Option (List K)
  pub fetched : ℤ

-- Parsing a token, and the keys that a request to the issuer gives, are code of libraries. `read`
-- tells whether Claims returns no error, and what it leaves in the claims that it is given.
pub record Outside (K T : Type 0) : Type 0 where
  pub parse : Str → Option T
  pub read : T → K → Claims → Bool × Claims

abbrev pub unix_seconds : ℤ → ℤ
unix_seconds (pos n) = pos (n / 1000000000)
unix_seconds (negsuc n) = negsuc (n / 1000000000)

abbrev pub is_acceptable : Str → ℤ → Claims → Bool
is_acceptable issuer now c =
    not (is_empty c.sub) && str_eq c.iss issuer && le_ℤ (unix_seconds now) c.exp

-- Less than five minutes old.
abbrev pub is_recent : ℤ → ℤ → Bool
is_recent now fetched = lt_ℤ (now -ℤ fetched) (pos 300000000000)

module _ {K : Type 0} (answer : Option (List K)) (now : ℤ) where
  abbrev pub fetch : Option (List K) → Jwks K → Option (List K) × Jwks K
  fetch none c = (none, c)
  fetch (some ks) c = (some ks, record { key_set = some ks; fetched = now })

  abbrev pub cached : Option (List K) → Jwks K → Option (List K) × Jwks K
  cached none c = fetch answer c
  cached (some ks) c = if is_recent now c.fetched then (some ks, c) else fetch answer c

  -- `answer` is what the issuer would send now.
  unfoldable pub get : Jwks K → Option (List K) × Jwks K
  get c = cached c.key_set c

module _ {K T : Type 0} (o : Outside K T) where
  -- The claims pass from one key to the next, up to the first without an error.
  unfoldable pub first_verified : T → List K → Claims → Claims
  first_verified t [] c = c
  first_verified t (k ∷ ks) c =
      let (fine, d) = o.read t k c in let rest = first_verified t ks d in if fine then d else rest

module _ {K T F : Type 0} (o : Outside K T) (issuer : Str) (next : Str → M F Response) where
  abbrev pub admitted : ℤ → Claims → M F Response
  admitted now c w =
      if is_acceptable issuer now c
      then next c.sub w
      else (ok (reply 401 (str "token invalid or expired")), w)

  abbrev authorized : ℤ → List K → Option T → M F Response
  authorized now ks none w = (ok (reply 401 (str "invalid token")), w)
  authorized now ks (some t) w = admitted now (first_verified o t ks no_claims) w

  abbrev with_keys : Str → Option (List K) → M F Response
  with_keys raw none w = (ok (reply 503 (str "jwks unavailable")), w)
  with_keys raw (some ks) w = authorized w.now ks (o.parse raw) w

  -- The answer to a request with this Authorization header, and the cache behind it.
  unfoldable pub dashboard_auth :
      Str → Option (List K) → Jwks K → World F → (Result Response × World F) × Jwks K
  unfolding get first_verified has_prefix
  dashboard_auth header answer cache w =
      let raw = trim_prefix header (str "Bearer ") in
      let (found, after) = get answer w.now cache in
      if is_empty raw
      then ((ok (reply 401 (str "missing Authorization")), w), cache)
      else (with_keys raw found w, after)
