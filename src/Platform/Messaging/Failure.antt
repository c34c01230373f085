-- ===== src/Platform/Messaging/Failure.antt =====
-- platform/messaging/consume.go: another attempt, or the dead-letter subject.
use qeet_notify.Base.{
  ℕ, zero, suc, ◌+◌, ◌⊎◌, ◌≤◌, ◌<◌, ◌≡◌, false, Option, none, some, List, [], ◌∷◌, ◌++◌, ltb, arith,
  if◌then◌else◌,
}
use qeet_notify.Base.Text.{Str, str}
use qeet_notify.Platform.World.{
  World, M, Message, Result, ok, err, DeadLetter, dead_letter_body, pure, try, call, publish, ◌>>=◌,
}
use qeet_notify.Platform.World.Calm.{IsCalm, publish-calm}
use qeet_notify.Platform.Messaging.{tenant_from_subject, dlq_subject}

-- A message of the stream; `delivered` is the server's count of deliveries, if it is known.
pub record Msg : Type 0 where
  pub subject : Str
  pub content : Str
  pub delivered : Option ℕ

pub data Verdict : Type 0 where
  ack nak term : Verdict

abbrev pub default_max_deliver : ℕ
default_max_deliver = 5

abbrev delivered_or_one : Option ℕ → ℕ
delivered_or_one none = 1
delivered_or_one (some n) = n

abbrev error_text : Option Str → Str
error_text none = str "unknown error"
error_text (some e) = e

abbrev pub dead_letter : Msg → Option Str → DeadLetter
dead_letter msg handler_err = record {
  subject = msg.subject;
  error = error_text handler_err;
  delivered = delivered_or_one msg.delivered;
  content = msg.content;
}

abbrev published_or_nak : {F : Type 0} → Result (Unit {0}) → M F Verdict
published_or_nak (ok _) = pure term
published_or_nak (err e) = pure nak

unfoldable pub handle_failure : {F : Type 0} → Msg → ℕ → Option Str → M F Verdict
handle_failure msg max_deliver handler_err =
    if ltb (delivered_or_one msg.delivered) max_deliver then pure nak else (do
      r ← try (
          publish (dlq_subject (tenant_from_subject msg.subject))
            (dead_letter_body (dead_letter msg handler_err)))
      published_or_nak r)

-- The failed deliveries of one message with the same error, one after another, by their counts.
abbrev pub failures : {F : Type 0} → Msg → ℕ → Option Str → List ℕ → M F (List Verdict)
failures msg max_deliver handler_err [] = pure []
failures msg max_deliver handler_err (n ∷ ns) = do
  v ← handle_failure (record msg { delivered = some n }) max_deliver handler_err
  vs ← failures msg max_deliver handler_err ns
  pure (v ∷ vs)

abbrev pub count_from : ℕ → ℕ → List ℕ
count_from n zero = []
count_from n (suc k) = n ∷ count_from (suc n) k

abbrev pub naks : ℕ → List Verdict
naks zero = []
naks (suc k) = nak ∷ naks k

abbrev pub dead_message : {F : Type 0} → Msg → Option Str → Message F
dead_message msg handler_err = record {
  subject = dlq_subject (tenant_from_subject msg.subject);
  body = dead_letter_body (dead_letter msg handler_err);
}

-- HandleFailure terminates a message only behind its last delivery and only together with its dead
-- letter on the tenant's subject; in every other case, also where the dead letter cannot be
-- published, it asks for another delivery and publishes nothing. It never returns an error.
pub handle_failure-keeps :
    {F : Type 0} (msg : Msg) (max_deliver : ℕ) (handler_err : Option Str) (w : World F)
    → let out = handle_failure msg max_deliver handler_err w in
      ((out.0 ≡ ok nak) × (out.1.published ≡ w.published))
      ⊎ ((max_deliver ≤ delivered_or_one msg.delivered)
          × (out.0 ≡ ok term)
          × (out.1.published ≡ w.published ++ dead_message msg handler_err ∷ []))
unfolding handle_failure publish call
handle_failure-keeps msg max_deliver handler_err w = ground arith

module _ {F : Type 0} (msg : Msg) (max_deliver : ℕ) (handler_err : Option Str) where
  abbrev buried : World F → World F
  buried w = record w {
    published =
        w.published ++ dead_message (record msg { delivered = some max_deliver }) handler_err ∷ [];
  }

  handle_failure-early :
      (n : ℕ) (w : World F)
      → n < max_deliver
      → handle_failure (record msg { delivered = some n }) max_deliver handler_err w ≡ (ok nak, w)
  unfolding handle_failure
  handle_failure-early n w h = ground arith

  handle_failure-last :
      (w : World F)
      → IsCalm w
      → handle_failure (record msg { delivered = some max_deliver }) max_deliver handler_err w
        ≡ (ok term, buried w)
  unfolding handle_failure
  handle_failure-last w calm = rw (not_before) (simp (publish-calm _ _ w calm))
    where
      not_before : ltb max_deliver max_deliver ≡ false
      not_before = ground arith

  failures-from :
      (k n : ℕ) (w : World F)
      → IsCalm w
      → n + k ≡ max_deliver
      → failures msg max_deliver handler_err (count_from n (suc k)) w
        ≡ (ok (naks k ++ term ∷ []), buried w)
  failures-from zero n w calm e = rw at_last (simp (handle_failure-last w calm))
    where
      at_last : n ≡ max_deliver
      at_last = omega arith
  failures-from (suc k) n w calm e =
      simp (handle_failure-early n w (omega arith), failures-from k (suc n) w calm (omega arith))

-- A message whose handler fails with the same error at each of its deliveries 1 to n + 1, the
-- greatest number, is asked for again n times, then dead-lettered once and terminated, and publishes
-- nothing else; no publish fails. The dead letter has the subject and the content of the message,
-- the error and the count n + 1, and goes to the dead letters of the message's tenant.
pub failures-all :
    {F : Type 0} (msg : Msg) (n : ℕ) (error : Str) (w : World F)
    → IsCalm w
    → failures msg (suc n) (some error) (count_from 1 (suc n)) w ≡ (
      ok (naks n ++ term ∷ []),
      record w {
        published =
            w.published
            ++ record {
              subject = dlq_subject (tenant_from_subject msg.subject);
              body = dead_letter_body (record {
                subject = msg.subject;
                error = error;
                delivered = suc n;
                content = msg.content;
              });
            }
              ∷ [];
      },
    )
failures-all msg n error w calm = failures-from msg (suc n) (some error) n 1 w calm (omega arith)
