-- ===== src/Platform/World/Effects.antt =====
-- What the calls leave as it is, and which errors they give.
use qeet_notify.Base.{◌≡◌, ◌⊎◌, [], ◌∷◌, ◌++◌, arith}
use qeet_notify.Base.Text.{Str}
use qeet_notify.Platform.World.{
  World, Error, ok, err, db_failed, nats_failed, Body, call, tx_call, publish,
}

pub ok-injective : {A : Type 0} {a b : A} → ok a ≡ ok b → a ≡ b
ok-injective h = cc

module _ {F : Type 0} where
  -- Only the outcomes to come and the transaction's state change.
  pub call-db : (e : Error) (w : World F) → (call e w).1.db ≡ w.db
  unfolding call
  call-db e w = ground arith

  pub call-published : (e : Error) (w : World F) → (call e w).1.published ≡ w.published
  unfolding call
  call-published e w = ground arith

  pub call-now : (e : Error) (w : World F) → (call e w).1.now ≡ w.now
  unfolding call
  call-now e w = ground arith

  pub call-error : (e : Error) (w : World F) → ((call e w).0 ≡ ok tt) ⊎ ((call e w).0 ≡ err e)
  unfolding call
  call-error e w = ground arith

  pub tx_call-db : (w : World F) → (tx_call w).1.db ≡ w.db
  unfolding tx_call
  tx_call-db w = ground arith

  pub tx_call-published : (w : World F) → (tx_call w).1.published ≡ w.published
  unfolding tx_call
  tx_call-published w = ground arith

  pub tx_call-made : (w : World F) → (tx_call w).1.made ≡ w.made
  unfolding tx_call
  tx_call-made w = ground arith

  pub tx_call-now : (w : World F) → (tx_call w).1.now ≡ w.now
  unfolding tx_call
  tx_call-now w = ground arith

  pub tx_call-error : (w : World F) → ((tx_call w).0 ≡ ok tt) ⊎ ((tx_call w).0 ≡ err db_failed)
  unfolding tx_call
  tx_call-error w = ground arith

  pub publish-error :
      (subject : Str) (body : Body F) (w : World F)
      → ((publish subject body w).0 ≡ ok tt) ⊎ ((publish subject body w).0 ≡ err nats_failed)
  unfolding publish
  publish-error subject body w = ground arith

  pub publish-published :
      (subject : Str) (body : Body F) (w : World F)
      → ((publish subject body w).1.published ≡ w.published)
        ⊎ ((publish subject body w).1.published
            ≡ w.published ++ record { subject = subject; body = body } ∷ [])
  unfolding publish
  publish-published subject body w = ground arith
