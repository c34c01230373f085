-- ===== src/Platform/Cache/Keys.antt =====
-- What a key holds after it is set, claimed and deleted, and what the commands leave alone.
use qeet_notify.Base.{
  ℕ, ◌≡◌, refl, ◌∙◌, inl, inr, Bool, true, false, Option, none, some, List, [], ◌∷◌, arith,
}
use qeet_notify.Base.Int.{ℤ, pos, ◌+ℤ◌, lt_ℤ}
use qeet_notify.Base.Text.{Str, str_eq_refl}
use qeet_notify.Platform.World.{CacheEntry, World, M, ok, err, Error, redis_failed, call, ◌>>=◌}
use qeet_notify.Platform.World.Effects.{call-published, call-error}
use qeet_notify.Platform.Cache.{lookup, remove, put, set_nx, get, set, del, claim_free}

pub lookup-put :
    (now later : ℤ) (key value : Str) (ttl : ℕ) (es : List CacheEntry)
    → lt_ℤ later (now +ℤ pos ttl) ≡ true
    → lookup later key (put now key value ttl es) ≡ some value
unfolding lookup put
lookup-put now later key value ttl es h = rw (str_eq_refl key, h) refl

pub lookup-remove :
    (now : ℤ) (key : Str) (es : List CacheEntry) → lookup now key (remove key es) ≡ none
unfolding lookup remove
lookup-remove now key [] = refl
lookup-remove now key (e ∷ es) = ground (arith, lookup-remove now key es)

module _ {F : Type 0} where
  -- The next call, by its outcome.
  pub call-passes :
      (e : Error) (w : World F) {fs : List Bool}
      → w.faults ≡ false ∷ fs
      → call e w ≡ (ok tt, record w { faults = fs })
  unfolding call
  call-passes e w h = ground arith

  pub call-breaks :
      (e : Error) (w : World F) {fs : List Bool}
      → w.faults ≡ true ∷ fs
      → call e w ≡ (err e, record w { faults = fs })
  unfolding call
  call-breaks e w h = ground arith

  pub call-quiet : (e : Error) (w : World F) → w.faults ≡ [] → call e w ≡ (ok tt, w)
  unfolding call
  call-quiet e w h = ground arith

  command-published :
      {A : Type 0} (e : Error) (f : Unit {0} → M F A) (w : World F)
      → ((u : World F) → (f tt u).1.published ≡ u.published)
      → ((call e >>= f) w).1.published ≡ w.published
  command-published e f w h = elim (call-error e w) [
    | inl good ↦ rw good (h (call e w).1 ∙ call-published e w)
    | inr bad ↦ rw bad (call-published e w)
  ]

  claim_free-published :
      (key value : Str) (ttl : ℕ) (held : Option Str) (w : World F)
      → (claim_free key value ttl held w).1.published ≡ w.published
  claim_free-published key value ttl none w = refl
  claim_free-published key value ttl (some v) w = refl

  pub set_nx-published :
      (key value : Str) (ttl : ℕ) (w : World F) → (set_nx key value ttl w).1.published ≡ w.published
  unfolding set_nx
  set_nx-published key value ttl w =
      command-published redis_failed _ w (λ u. claim_free-published key value ttl _ u)

  pub get-published : (key : Str) (w : World F) → (get key w).1.published ≡ w.published
  unfolding get
  get-published key w = command-published redis_failed _ w (λ u. refl)

  pub set-published :
      (key value : Str) (ttl : ℕ) (w : World F) → (set key value ttl w).1.published ≡ w.published
  unfolding set
  set-published key value ttl w = command-published redis_failed _ w (λ u. refl)

  pub del-published : (key : Str) (w : World F) → (del key w).1.published ≡ w.published
  unfolding del
  del-published key w = command-published redis_failed _ w (λ u. refl)
