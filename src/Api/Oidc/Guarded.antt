-- ===== src/Api/Oidc/Guarded.antt =====
-- Whom the dashboard lets in (oidc.go).
use qeet_notify.Base.{
  if◌then◌else◌, ap, ◌∙◌, ◌≡◌, refl, sym, ◌⊎◌, inl, inr, Bool, true, false, not, ◌&&◌, Option, none,
  some, List, [], ◌∷◌, any, leb, Bool-cases, arith,
}
use qeet_notify.Base.Int.{ℤ, pos, negsuc, le_ℤ}
use qeet_notify.Base.Text.{Str, str, str_eq, str_eq_sound, is_empty}
use qeet_notify.Base.Text.Search.{trim_prefix}
use qeet_notify.Api.Http.{Response}
use qeet_notify.Api.Oidc.{
  admitted, Claims, no_claims, Jwks, Outside, unix_seconds, is_recent, fetch, cached, get,
  first_verified, is_acceptable, authorized, with_keys, dashboard_auth,
}
use qeet_notify.Platform.World.{World, M, Result, ok}

is_recent-now : (now : ℤ) → is_recent now now ≡ true
is_recent-now (pos n) = ground arith
is_recent-now (negsuc n) = ground arith

and3 : (a b c : Bool) → (a && b && c) ≡ true → (a ≡ true) × (b ≡ true) × (c ≡ true)
and3 true true true h = (refl, refl, refl)
and3 true true false h = absurd cc
and3 true false c h = absurd cc
and3 false b c h = absurd cc

-- The keys that are found are kept, and are not older than five minutes.
module _ {K : Type 0} (now : ℤ) where
  abbrev pub IsKept : Option (List K) × Jwks K → Type 0
  IsKept (none, c) = Unit
  IsKept (some ks, c) = (c.key_set ≡ some ks) × (is_recent now c.fetched ≡ true)

  fetch-IsKept : (answer : Option (List K)) (c : Jwks K) → IsKept (fetch answer now answer c)
  fetch-IsKept none c = tt
  fetch-IsKept (some ks) c = (refl, is_recent-now now)

  cached-IsKept :
      (answer known : Option (List K)) (c : Jwks K)
      → c.key_set ≡ known
      → IsKept (cached answer now known c)
  cached-IsKept answer none c h = fetch-IsKept answer c
  cached-IsKept answer (some ks) c h = elim (Bool-cases (is_recent now c.fetched)) [
    | inl e ↦ rw e (h, e)
    | inr e ↦ rw e (fetch-IsKept answer c)
  ]

  get-IsKept : (answer : Option (List K)) (c : Jwks K) → IsKept (get answer now c)
  unfolding get
  get-IsKept answer c = cached-IsKept answer c.key_set c refl

-- What Claims of go-jose does: with a key that has not signed the token it fails and leaves the claims
-- as they were; with one that has, it fills in the token's own claims, also a second time.
pub record Verifies {K T : Type 0} (o : Outside K T) (signs : T → K → Bool) (whole : T → Bool)
    (claims_of : T → Claims) : Type 0 where
  pub refuses : (t : T) (k : K) (c : Claims) → signs t k ≡ false → o.read t k c ≡ (false, c)
  pub reads : (t : T) (k : K) → signs t k ≡ true → o.read t k no_claims ≡ (whole t, claims_of t)
  pub rereads :
      (t : T) (k : K) → signs t k ≡ true → o.read t k (claims_of t) ≡ (whole t, claims_of t)

module _ {K T : Type 0} (o : Outside K T) (signs : T → K → Bool) (whole : T → Bool)
    (claims_of : T → Claims) (verifies : Verifies o signs whole claims_of) where
  first_verified-again : (t : T) (ks : List K) → first_verified o t ks (claims_of t) ≡ claims_of t
  unfolding first_verified
  first_verified-again t [] = refl
  first_verified-again t (k ∷ ks) = elim (Bool-cases (signs t k)) [
    | inr e ↦ rw (verifies.refuses t k (claims_of t) e) (first_verified-again t ks)
    | inl e ↦ rw (verifies.rereads t k e) (either (whole t) (first_verified-again t ks))
  ]
    where
      either :
          (b : Bool) {c : Claims} → c ≡ claims_of t → (if b then claims_of t else c) ≡ claims_of t
      either true h = refl
      either false h = h

  -- No key has signed the token and no claims are read, or one has and they are the token's.
  first_verified-signed :
      (t : T) (ks : List K)
      → (first_verified o t ks no_claims ≡ no_claims)
        ⊎ ((any (signs t) ks ≡ true) × (first_verified o t ks no_claims ≡ claims_of t))
  unfolding first_verified
  first_verified-signed t [] = inl refl
  first_verified-signed t (k ∷ ks) = elim (Bool-cases (signs t k)) [
    | inr e ↦ rw (verifies.refuses t k no_claims e, e) (first_verified-signed t ks)
    | inl e ↦
        rw (verifies.reads t k e, e) (inr (refl, either (whole t) (first_verified-again t ks)))
  ]
    where
      either :
          (b : Bool) {c : Claims} → c ≡ claims_of t → (if b then claims_of t else c) ≡ claims_of t
      either true h = refl
      either false h = h

  acceptable-signed :
      (issuer : Str) (now : ℤ) (t : T) (ks : List K)
      → is_acceptable issuer now (first_verified o t ks no_claims) ≡ true
      → (any (signs t) ks ≡ true) × (first_verified o t ks no_claims ≡ claims_of t)
  acceptable-signed issuer now t ks h = elim (first_verified-signed t ks) [
    | inr e ↦ e
    | inl e ↦ absurd (unacceptable e h)
  ]
    where
      unacceptable : {c : Claims} → c ≡ no_claims → is_acceptable issuer now c ≡ true → ⊥
      unacceptable same = rw same (λ x. cc)

  module _ {F : Type 0} (issuer : Str) (next : Str → M F Response) (header : Str)
      (w : World F) where
    -- A request is refused and changes nothing, or it goes on for the subject of a token that one of
    -- the issuer's keys signs, of this issuer and not expired; these keys are kept and are not older
    -- than five minutes.
    abbrev pub Guarded : (Result Response × World F) × Jwks K → Type 0
    Guarded (out, after) =
        ((a : Response) × (out ≡ (ok a, w)) × (leb 400 a.status ≡ true))
        ⊎ (t : T) × (ks : List K) × (o.parse (trim_prefix header (str "Bearer ")) ≡ some t)
          × (any (signs t) ks ≡ true)
          × (is_empty (claims_of t).sub ≡ false)
          × ((claims_of t).iss ≡ issuer)
          × (le_ℤ (unix_seconds w.now) (claims_of t).exp ≡ true)
          × (out ≡ next (claims_of t).sub w)
          × (after.key_set ≡ some ks)
          × (is_recent w.now after.fetched ≡ true)

    -- The token is read, with keys that are kept.
    token-Guarded :
        (ks : List K) (after : Jwks K) (t : Option T)
        → o.parse (trim_prefix header (str "Bearer ")) ≡ t
        → after.key_set ≡ some ks
        → is_recent w.now after.fetched ≡ true
        → Guarded (authorized o issuer next w.now ks t w, after)
    token-Guarded ks after none parsed kept recent = inl (_, refl, refl)
    token-Guarded ks after (some t) parsed kept recent =
        let c = first_verified o t ks no_claims in
        elim (Bool-cases (is_acceptable issuer w.now c)) [
          | inr e ↦ rw e (inl (_, refl, refl))
          | inl e ↦
              let (signed, same) = acceptable-signed issuer w.now t ks e in
              accepted ks after t (parsed, kept, recent, signed) c same e
        ]
      where
        accepted :
            (ks : List K) (after : Jwks K) (t : T)
            → (o.parse (trim_prefix header (str "Bearer ")) ≡ some t)
              × (after.key_set ≡ some ks)
              × (is_recent w.now after.fetched ≡ true)
              × (any (signs t) ks ≡ true)
            → (c : Claims) → c ≡ claims_of t
            → is_acceptable issuer w.now c ≡ true
            → Guarded (admitted o issuer next w.now c w, after)
        accepted ks after t (parsed, kept, recent, signed) c same e =
            let own = ap (is_acceptable issuer w.now) (sym same) ∙ e in
            let (named, ours, valid) =
              and3 (not (is_empty (claims_of t).sub)) (str_eq (claims_of t).iss issuer)
                (le_ℤ (unix_seconds w.now) (claims_of t).exp) own in
            rw same (
              rw own (
                inr (
                  t,
                  ks,
                  parsed,
                  signed,
                  ground arith,
                  str_eq_sound (claims_of t).iss issuer ours,
                  valid,
                  refl,
                  kept,
                  recent,
                )))

    keys-Guarded :
        (found : Option (List K)) (after : Jwks K)
        → IsKept w.now (found, after)
        → Guarded (with_keys o issuer next (trim_prefix header (str "Bearer ")) found w, after)
    keys-Guarded none after h = inl (_, refl, refl)
    keys-Guarded (some ks) after h =
        token-Guarded ks after (o.parse (trim_prefix header (str "Bearer "))) refl h.0 h.1

-- DashboardAuth lets a request in only with a good token: the request is refused with a status of at
-- least 400 and changes nothing, or it goes on as the subject of its token, and then one of the
-- issuer's keys has signed that token, the claims of the token have a subject, name this issuer and
-- have not expired, and the keys were fetched less than five minutes ago and are kept. The library
-- reads the claims of a token with the keys that have signed it, and with no other key.
pub dashboard_auth-Guarded :
    {K T F : Type 0} (o : Outside K T) (signs : T → K → Bool) (whole : T → Bool)
    (claims_of : T → Claims) (verifies : Verifies o signs whole claims_of) (issuer : Str)
    (next : Str → M F Response) (header : Str) (answer : Option (List K)) (cache : Jwks K)
    (w : World F)
    → Guarded o signs whole claims_of verifies issuer next header w
        (dashboard_auth o issuer next header answer cache w)
unfolding dashboard_auth
dashboard_auth-Guarded o signs whole claims_of verifies issuer next header answer cache w =
    elim (Bool-cases (is_empty (trim_prefix header (str "Bearer ")))) [
      | inl e ↦ rw e (inl (_, refl, refl))
      | inr e ↦ rw e (
          keys-Guarded o signs whole claims_of verifies issuer next header w
            (get answer w.now cache).0 (get answer w.now cache).1 (get-IsKept w.now answer cache))
    ]
