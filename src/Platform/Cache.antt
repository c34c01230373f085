-- ===== src/Platform/Cache.antt =====
-- The commands of Redis that the program uses, as Redis documents them, on the keys of a process's
-- view. Each may fail; a key is gone at the time at which it expires.
pub mod Keys
use qeet_notify.Base.{
  ℕ, Bool, true, false, not, ◌&&◌, Option, none, some, List, [], ◌∷◌, if◌then◌else◌, select,
}
use qeet_notify.Base.Int.{ℤ, pos, ◌+ℤ◌, lt_ℤ}
use qeet_notify.Base.Text.{Str, str_eq}
use qeet_notify.Platform.World.{
  CacheEntry, World, M, redis_failed, call, pure, gets, modify, ◌>>=◌, ◌>>◌,
}

unfoldable pub lookup : ℤ → Str → List CacheEntry → Option Str
lookup now key [] = none
lookup now key (e ∷ es) =
    if str_eq e.key key && lt_ℤ now e.expires_at then some e.value else lookup now key es

unfoldable pub remove : Str → List CacheEntry → List CacheEntry
remove key es = select (λ e. not (str_eq e.key key)) es

unfoldable pub put : ℤ → Str → Str → ℕ → List CacheEntry → List CacheEntry
unfolding remove
put now key value ttl es =
    record { key = key; value = value; expires_at = now +ℤ pos ttl } ∷ remove key es

module _ {F : Type 0} where
  abbrev on_keys : (List CacheEntry → List CacheEntry) → World F → World F
  on_keys f w = record w { redis = f w.redis }

  abbrev claim_free : Str → Str → ℕ → Option Str → M F Bool
  claim_free key value ttl none = modify (λ w. on_keys (put w.now key value ttl) w) >> pure true
  claim_free key value ttl (some v) = pure false

  -- SET key value NX EX ttl: whether the key was free.
  unfoldable pub set_nx : Str → Str → ℕ → M F Bool
  unfolding lookup put
  set_nx key value ttl = do
    call redis_failed
    held ← gets (λ w. lookup w.now key w.redis)
    claim_free key value ttl held

  -- GET key; none where there is no such key.
  unfoldable pub get : Str → M F (Option Str)
  unfolding lookup
  get key = do call redis_failed; gets (λ w. lookup w.now key w.redis)

  unfoldable pub set : Str → Str → ℕ → M F (Unit {0})
  unfolding put
  set key value ttl = do call redis_failed; modify (λ w. on_keys (put w.now key value ttl) w)

  unfoldable pub del : Str → M F (Unit {0})
  unfolding remove
  del key = do call redis_failed; modify (on_keys (remove key))
