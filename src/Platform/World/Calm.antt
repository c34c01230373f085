-- ===== src/Platform/World/Calm.antt =====
-- Calls that do not fail.
use qeet_notify.Base.{◌≡◌, Bool, true, false, List, [], ◌∷◌, ◌++◌, arith}
use qeet_notify.Base.Text.{Str}
use qeet_notify.Platform.World.{World, Error, ok, err, db_failed, Body, call, tx_call, publish}

-- No transaction has failed and every call to come succeeds.
pub record IsCalm {F : Type 0} (w : World F) : Type 0 where
  pub healthy : w.aborted ≡ false
  pub answers : w.faults ≡ []

module _ {F : Type 0} where
  pub call-calm : (e : Error) (w : World F) → IsCalm w → call e w ≡ (ok tt, w)
  unfolding call
  call-calm e w c = ground arith

  pub tx_call-calm : (w : World F) → IsCalm w → tx_call w ≡ (ok tt, w)
  unfolding tx_call
  tx_call-calm w c = ground arith

  pub publish-calm :
      (subject : Str) (body : Body F) (w : World F)
      → IsCalm w
      → publish subject body w ≡ (
        ok tt,
        record w { published = w.published ++ record { subject = subject; body = body } ∷ [] },
      )
  unfolding publish
  publish-calm subject body w c = ground arith

  -- The next statement of a healthy transaction, by its outcome.
  pub tx_call-passes :
      (w : World F) {fs : List Bool}
      → w.aborted ≡ false
      → w.faults ≡ false ∷ fs
      → tx_call w ≡ (ok tt, record w { faults = fs })
  unfolding tx_call call
  tx_call-passes w h e = ground arith

  pub tx_call-breaks :
      (w : World F) {fs : List Bool}
      → w.aborted ≡ false
      → w.faults ≡ true ∷ fs
      → tx_call w ≡ (err db_failed, record w { faults = fs; aborted = true })
  unfolding tx_call call
  tx_call-breaks w h e = ground arith

  pub tx_call-aborted : (w : World F) → w.aborted ≡ true → tx_call w ≡ (err db_failed, w)
  unfolding tx_call
  tx_call-aborted w h = ground arith

  -- Publishing does not depend on the transaction.
  pub publish-passes :
      (subject : Str) (body : Body F) (w : World F)
      → w.faults ≡ []
      → publish subject body w ≡ (
        ok tt,
        record w { published = w.published ++ record { subject = subject; body = body } ∷ [] },
      )
  unfolding publish call
  publish-passes subject body w h = ground arith
