-- ===== src/Workflows/Types.antt =====
-- domains/workflows/engine/types.go: steps, events and channel jobs.
use qeet_notify.Base.Int.{ℤ}
use qeet_notify.Base.Text.{Str}
use qeet_notify.Workflows.Json.{Fields}

-- `unknown` stands for every other string in the field.
pub data StepType : Type 0 where
  channel delay condition : StepType
  unknown : Str → StepType

pub record Step : Type 0 where
  pub id : Str
  pub type : StepType
  pub channel : Str
  pub template_id : Str
  pub delay_seconds : ℤ
  pub condition : Str
  pub true_step : Str
  pub false_step : Str
  pub next_step : Str

pub record Event (F : Type 0) : Type 0 where
  pub tenant_id : Str
  pub subscriber_id : Str
  pub event : Str
  pub payload : Fields F
  pub run_id : Str

pub record ChannelJob (F : Type 0) : Type 0 where
  pub tenant_id : Str
  pub notification_id : Str
  pub subscriber_id : Str
  pub channel : Str
  pub template_id : Str
  pub payload : Fields F
