-- ===== src/Channels/Fallback.antt =====
-- The loop that the senders of all channels share: each provider in turn until one accepts. `out`
-- records what a provider accepted, `receipt` is the id that it gives.
use qeet_notify.Base.{
  ℕ, zero, suc, ◌≡◌, refl, ◌⊎◌, inl, inr, Bool, true, Option, none, some, List, [], ◌∷◌, ◌++◌,
  arith, length,
}
use qeet_notify.Base.Text.{Str}
use qeet_notify.Channels.Types.{Outgoing}
use qeet_notify.Channels.Routing.{Record}
use qeet_notify.Channels.Outbox.{Once, One-from, deliver-outbox}
use qeet_notify.Platform.World.{
  World, M, Result, ok, err, Error, provider_failed, call, deliver, pure, try, ◌>>=◌, ◌>>◌,
}

-- What sendWithFallback returns.
pub record Sending : Type 0 where
  pub result : Option Str
  pub provider : Str
  pub error : Option Error

module _ {P : Type 0} where
  abbrev maybe_list : Option P → List P
  maybe_list none = []
  maybe_list (some p) = p ∷ []

  abbrev pub static_from : Option P → Option P → List P
  static_from none fallback = []
  static_from (some p) fallback = p ∷ maybe_list fallback

  abbrev also : Option P → Option (List P) → Option (List P)
  also none ps = none
  also (some p) none = none
  also (some p) (some ps) = some (p ∷ ps)

  -- BuildProviders: the providers of the rows in their order, none where one row has an error.
  abbrev pub build_each : (Record → Option P) → List Record → Option (List P)
  build_each build [] = some []
  build_each build (r ∷ rs) = also (build r) (build_each build rs)

  abbrev or_static : List P → Option (List P) → List P
  or_static static none = static
  or_static static (some []) = static
  or_static static (some (p ∷ ps)) = p ∷ ps

  -- The tenant's providers, or the static ones where loading or building fails or gives none.
  abbrev pub choose_providers : List P → (Record → Option P) → Result (List Record) → List P
  choose_providers static build (err e) = static
  choose_providers static build (ok records) = or_static static (build_each build records)

-- Outcomes of providers that refuse.
abbrev pub refusals : ℕ → List Bool
refusals zero = []
refusals (suc k) = true ∷ refusals k

module _ {P X : Type 0} (name : P → Str) (out : Str → X → Outgoing) (receipt : Str → X → Str) where
  module _ {F : Type 0} where
    unfoldable pub send : P → X → M F Str
    send p msg = do deliver (out (name p) msg); pure (receipt (name p) msg)

    -- The last provider's name and error where none accepts.
    unfoldable pub try_each : List P → Str → Option Error → X → M F Sending
    try_each [] last last_err msg =
        pure (record { result = none; provider = last; error = last_err })
    try_each (p ∷ ps) last last_err msg = do
      r ← try (send p msg)
      elim r [
        | ok id ↦ pure (record { result = some id; provider = name p; error = none })
        | err e ↦ try_each ps (name p) (some e) msg
      ]

  -- The world when a provider has accepted the message and no failure is left to come.
  abbrev pub accepted : {F : Type 0} → Str → X → World F → World F
  accepted provider msg w = record w { outbox = w.outbox ++ out provider msg ∷ []; faults = [] }

  -- When the providers in front refuse and the next one accepts, that one sends, and none behind it.
  pub try_each-fallback :
      {F : Type 0} (front : List P) (p : P) (back : List P) (last : Str) (e : Option Error)
      (msg : X) (w : World F)
      → w.faults ≡ refusals (length front)
      → try_each (front ++ p ∷ back) last e msg w ≡ (
        ok (record { result = some (receipt (name p) msg); provider = name p; error = none }),
        accepted (name p) msg w,
      )
  unfolding try_each send deliver call
  try_each-fallback [] p back last e msg w h = ground arith
  try_each-fallback (q ∷ front) p back last e msg w h = rw h (
      try_each-fallback front p back (name q) (some provider_failed) msg
        (record w { faults = refusals (length front) }) refl)

  send-outbox :
      {F : Type 0} (p : P) (msg : X) (w : World F)
      → (((send p msg w).0 ≡ ok (receipt (name p) msg))
          × ((send p msg w).1.outbox ≡ w.outbox ++ out (name p) msg ∷ []))
        ⊎ (((send p msg w).0 ≡ err provider_failed) × ((send p msg w).1.outbox ≡ w.outbox))
  unfolding send
  send-outbox p msg w = elim (deliver-outbox (out (name p) msg) w) [
    | inl (e, sent) ↦ inl (rw e refl, rw e sent)
    | inr (e, sent) ↦ inr (rw e refl, rw e sent)
  ]

  pub try_each-Once :
      {F : Type 0} (ps : List P) (last : Str) (e : Option Error) (msg : X)
      → Once {F = F} out (λ m. m ≡ msg) (try_each ps last e msg)
  unfolding try_each
  try_each-Once [] last e msg = record { once = λ w. inl refl }
  try_each-Once {F} (p ∷ ps) last e msg =
      let rest = try_each-Once {F = F} ps (name p) (some provider_failed) msg in
      record {
        once = λ w. elim (send-outbox p msg w) [
          | inl (good, sent) ↦ rw good (inr (name p, msg, sent, refl))
          | inr (bad, sent) ↦
              simp bad (One-from out (λ m. m ≡ msg) _ _ _ sent (rest.once (send p msg w).1))
        ];
      }
