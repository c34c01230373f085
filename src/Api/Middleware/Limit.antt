-- ===== src/Api/Middleware/Limit.antt =====
-- The rate limit over time (ratelimit.go), and answers whose commit fails (tenant_tx.go).
use qeet_notify.Base.{
  ℕ, zero, suc, ◌+◌, ◌≡◌, ◌<◌, refl, ap, ◌∙◌, Bool, true, false, List, [], ◌∷◌, ◌++◌, if◌then◌else◌,
  ltb, arith, not, select,
}
use qeet_notify.Base.Int.{ℤ, pos, negsuc, ◌+ℤ◌, lt_ℤ}
use qeet_notify.Base.Text.{Str, str, str_eq, str_eq_refl}
use qeet_notify.Api.Http.{Response, reply}
use qeet_notify.Api.Middleware.{counted, rate_limit, finish_tx, tenant_tx}
use qeet_notify.Platform.Cache.Keys.{call-quiet, call-passes, call-breaks}
use qeet_notify.Platform.World.{World, M, Result, ok, db_failed, redis_failed, modify, ◌>>◌}
use qeet_notify.Platform.World.Calm.{tx_call-passes}

lt-add : (now : ℤ) (d window : ℕ) → d < window → lt_ℤ (now +ℤ pos d) (now +ℤ pos window) ≡ true
lt-add (pos n) d window h = ground arith
lt-add (negsuc n) d window h = ground arith

lt-later : (now : ℤ) (window : ℕ) → 0 < window → lt_ℤ now (now +ℤ pos window) ≡ true
lt-later (pos n) window h = ground arith
lt-later (negsuc n) window h = ground arith

from_zero : (n : ℕ) → n ≡ 0 + n
from_zero n = omega arith

shift : (k n : ℕ) → k + suc n ≡ suc k + n
shift k n = omega arith

abbrev key : Str → Str
key tenant_id = str "rl:" ++ tenant_id

abbrev answer : ℕ → Response → ℕ → Response
answer limit a n = if ltb limit (suc n) then reply 429 (str "rate limit exceeded") else a

module _ {F : Type 0} (limit window d : ℕ) (tenant_id : Str) (a : Response) where
  -- A request that comes `d` after the one before, to a handler that answers `a`.
  abbrev pub visit : M F Response
  visit =
      modify (λ w. record w { now = w.now +ℤ pos d })
      >> rate_limit limit window tenant_id (λ w. (ok a, w))

  -- The process behind so many requests, one after the other.
  abbrev pub visits : ℕ → World F → World F
  visits zero w = w
  visits (suc n) w = visits n (visit w).1

  -- The counter that the next request finds.
  record Counts (n : ℕ) (w : World F) : Type 0 where
    quiet : w.faults ≡ []
    count : counted (w.now +ℤ pos d) (key tenant_id) w.counters ≡ n

  abbrev visited : World F → ℕ → World F
  visited w n = record w {
    now = w.now +ℤ pos d;
    counters =
        record { key = key tenant_id; count = suc n; expires_at = (w.now +ℤ pos d) +ℤ pos window }
        ∷ select (λ c. not (str_eq c.key (key tenant_id))) w.counters;
  }

  answered_by :
      (b : Bool) (w : World F)
      → if◌then◌else◌ {A = M F Response} b
          (λ w. (ok (reply 429 (str "rate limit exceeded")), w))
          (λ w. (ok a, w))
          w
        ≡ (ok (if b then reply 429 (str "rate limit exceeded") else a), w)
  answered_by true w = refl
  answered_by false w = refl

  visit_lem :
      (n : ℕ) (w : World F)
      → 0 < window
      → Counts n w
      → visit w ≡ (ok (answer limit a n), visited w n)
  unfolding rate_limit counted
  visit_lem n w h c =
      simp
        (
          call-quiet redis_failed (record w { now = w.now +ℤ pos d }) c.quiet,
          c.count,
          str_eq_refl (key tenant_id),
          lt-later (w.now +ℤ pos d) window h,
        )
        (answered_by (ltb limit (suc n)) (visited w n))

  visited-Counts : (n : ℕ) (w : World F) → d < window → Counts n w → Counts (suc n) (visited w n)
  unfolding counted
  visited-Counts n w h c = record {
    quiet = c.quiet;
    count = rw (str_eq_refl (key tenant_id), lt-add (w.now +ℤ pos d) d window h) refl;
  }

  visits-answer :
      (k n : ℕ) (w : World F)
      → d < window
      → Counts n w
      → (visit (visits k w)).0 ≡ ok (answer limit a (k + n))
  visits-answer zero n w h c =
      rw (visit_lem n w (omega arith) c) (ap (λ m. ok (answer limit a m)) (from_zero n))
  visits-answer (suc k) n w h c =
      ap (λ (v : Result Response × World F). (visit (visits k v.1)).0)
        (visit_lem n w (omega arith) c)
      ∙ (visits-answer k (suc n) (visited w n) h (visited-Counts n w h c)
          ∙ ap (λ m. ok (answer limit a m)) (shift k n))

-- A tenant that sends one request at a time, each less than a window behind the last, is refused with
-- 429 from the request behind its first `limit` ones on, however slow it is, and for ever, because
-- each request starts the window anew. No call fails.
rate_limit-steady :
    {F : Type 0} (limit window d k : ℕ) (tenant_id : Str) (a : Response) (w : World F)
    → w.faults ≡ []
    → d < window
    → counted (w.now +ℤ pos d) (key tenant_id) w.counters ≡ 0
    → (visit limit window d tenant_id a (visits limit window d tenant_id a k w)).0
      ≡ ok (if ltb k limit then a else reply 429 (str "rate limit exceeded"))
rate_limit-steady limit window d k tenant_id a w quiet h fresh =
    visits-answer limit window d tenant_id a k 0 w h (record { quiet = quiet; count = fresh })
    ∙ ap ok (same_answer limit k a)
  where
    same_answer :
        (limit k : ℕ) (a : Response)
        → answer limit a (k + 0)
          ≡ (if ltb k limit then a else reply 429 (str "rate limit exceeded"))
    same_answer limit k a = ground arith

-- When the handler answers below 400 and only the commit behind it fails, the client has got that
-- answer, but the tables are as they were before the request.
tenant_tx-lost :
    {F : Type 0} (t : ℕ) (tenant_id : Str) (next : M F Response) (a : Response) (fs gs : List Bool)
    (v w : World F)
    → w.aborted ≡ false
    → w.faults ≡ false ∷ false ∷ fs
    → next (record w { faults = fs; scope = t ∷ tenant_id }) ≡ (ok a, v)
    → ltb a.status 400 ≡ true
    → v.aborted ≡ false
    → v.faults ≡ true ∷ gs
    → ((tenant_tx (t ∷ tenant_id) next w).0 ≡ ok a)
      × ((tenant_tx (t ∷ tenant_id) next w).1.db ≡ w.db)
unfolding tenant_tx finish_tx
tenant_tx-lost t tenant_id next a fs gs v w healthy faults run good sound broken =
    simp
      (
        call-passes db_failed w faults,
        tx_call-passes (record w { faults = false ∷ fs }) healthy refl,
        run,
        good,
        sound,
        call-breaks db_failed v broken,
      )
      (refl, refl)
