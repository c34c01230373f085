-- ===== src/Api/Http.antt =====
-- What requests carry and what handlers answer.
use qeet_notify.Base.{ℕ, Bool, false}
use qeet_notify.Base.Text.{Str}

-- `api_key` is the header X-Qeet-Api-Key, empty where it is missing.
pub record Request : Type 0 where
  pub method : Str
  pub path : Str
  pub api_key : Str

-- `replayed` is the header Idempotent-Replayed. The body of an error is its message, and
-- that of an encoder is without the line break at its end.
pub record Response : Type 0 where
  pub status : ℕ
  pub body : Str
  pub replayed : Bool

-- http.Error, or a status with a body.
abbrev pub reply : ℕ → Str → Response
reply status body = record { status = status; body = body; replayed = false }
