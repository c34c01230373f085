-- ===== src/Platform/World.antt =====
-- What a process sees: the database, the messages it has published, the clock, and which of its
-- calls of PostgreSQL and NATS will fail. An action runs on it and may return an error.
pub mod Calm
pub mod Effects
use qeet_notify.Base.{ℕ, Option, Bool, true, false, not, ◌||◌, List, [], ◌∷◌, ◌++◌, if◌then◌else◌}
use qeet_notify.Base.Int.{ℤ}
use qeet_notify.Base.Text.{Str, str_eq}
use qeet_notify.Workflows.Types.{Event, ChannelJob}
use qeet_notify.Channels.Types.{Outgoing}
use qeet_notify.Platform.Tables.{Db}

pub data Error : Type 0 where
  db_failed nats_failed decode_failed out_of_fuel : Error
  not_found bad_template bad_config provider_failed redis_failed panicked : Error

pub data Result {ℓ} (A : Type ℓ) : Type ℓ where
  ok : A → Result A
  err : Error → Result A

-- What HandleFailure keeps of a message that it gives up.
pub record DeadLetter : Type 0 where
  pub subject : Str
  pub error : Str
  pub delivered : ℕ
  pub content : Str

-- A delivery event; no error is `none`.
pub record DeliveryEvent : Type 0 where
  pub notification_id : Str
  pub tenant_id : Str
  pub event_type : Str
  pub provider : Str
  pub error : Option Error

-- A JSON message as the value that was marshalled.
pub data Body (F : Type 0) : Type 0 where
  event_body : Event F → Body F
  job_body : ChannelJob F → Body F
  dead_letter_body : DeadLetter → Body F
  delivery_body : DeliveryEvent → Body F

pub record Message (F : Type 0) : Type 0 where
  pub subject : Str
  pub body : Body F

-- A key of Redis with the time at which it expires.
pub record CacheEntry : Type 0 where
  pub key : Str
  pub value : Str
  pub expires_at : ℤ

-- A counter of Redis.
pub record Counter : Type 0 where
  pub key : Str
  pub count : ℕ
  pub expires_at : ℤ

-- `faults` lists the outcomes of the calls to come, `true` for a call that fails; behind its end
-- every call succeeds. `aborted` is set when a statement of the open transaction has failed;
-- PostgreSQL then refuses the statements that follow. `scope` is app.tenant_id, and `rls` tells
-- whether the database role is subject to row-level security. `made` counts generated ids;
-- `outbox` holds what the providers have accepted.
pub record World (F : Type 0) : Type 0 where
  pub db : Db F
  pub published : List (Message F)
  pub outbox : List Outgoing
  pub redis : List CacheEntry
  pub counters : List Counter
  pub now : ℤ
  pub faults : List Bool
  pub aborted : Bool
  pub scope : Str
  pub rls : Bool
  pub made : ℕ

abbrev pub M : Type 0 → Type 0 → Type 0
M F A = World F → Result A × World F

module _ {F A : Type 0} where
  abbrev pub pure : A → M F A
  pure a w = (ok a, w)

  abbrev pub raise : Error → M F A
  raise e w = (err e, w)

  abbrev pub gets : (World F → A) → M F A
  gets f w = (ok (f w), w)

  -- The error of an action as a value; what the action has done stays done.
  abbrev pub try : M F A → M F (Result A)
  try m w = let (r, w') = m w in (ok r, w')

abbrev pub modify : {F : Type 0} → (World F → World F) → M F (Unit {0})
modify f w = (ok tt, f w)

module _ {F A B : Type 0} where
  abbrev pub continue : Result A → (A → M F B) → M F B
  continue (ok a) f w = f a w
  continue (err e) f w = (err e, w)

  infixl 5 ◌>>=◌ ◌>>◌
  abbrev pub ◌>>=◌ : M F A → (A → M F B) → M F B
  ◌>>=◌ m f w = let (r, w') = m w in continue r f w'

  abbrev pub ◌>>◌ : M F A → M F B → M F B
  m >> n = m >>= λ _. n

-- The next call of an external service, with the error that it gives where it fails.
unfoldable pub call : {F : Type 0} → Error → M F (Unit {0})
call e w = elim w.faults [
  | [] ↦ (ok tt, w)
  | b ∷ bs ↦ if b then (err e, record w { faults = bs }) else (ok tt, record w { faults = bs })
]

-- A statement on the pool, outside a transaction.
abbrev pub pool_call : {F : Type 0} → M F (Unit {0})
pool_call = call db_failed

abbrev failed_statement : {F : Type 0} → Result (Unit {0}) × World F → Result (Unit {0}) × World F
failed_statement (ok u, w) = (ok u, w)
failed_statement (err e, w) = (err e, record w { aborted = true })

-- A statement of the open transaction.
unfoldable pub tx_call : {F : Type 0} → M F (Unit {0})
unfolding call
tx_call w = if w.aborted then (err db_failed, w) else failed_statement (call db_failed w)

-- js.Publish.
unfoldable pub publish : {F : Type 0} → Str → Body F → M F (Unit {0})
unfolding call
publish subject body = do
  call nats_failed
  modify
      (λ w. record w { published = w.published ++ record { subject = subject; body = body } ∷ [] })

-- Sending through a provider.
unfoldable pub deliver : {F : Type 0} → Outgoing → M F (Unit {0})
unfolding call
deliver out = do call provider_failed; modify (λ w. record w { outbox = w.outbox ++ out ∷ [] })

-- Whether the policy tenant_isolation lets the open transaction see a row of this tenant.
abbrev pub visible : {F : Type 0} → World F → Str → Bool
visible w tenant_id = not w.rls || str_eq w.scope tenant_id
