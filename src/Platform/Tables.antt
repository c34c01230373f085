-- ===== src/Platform/Tables.antt =====
-- The rows of the tables that the modelled code reads and writes (migrations/*.up.sql), less the
-- columns that no modelled query names. An empty text stands for NULL in a nullable text column, but
-- for sender_id, which is an option.
use qeet_notify.Base.{ℕ, Bool, true, false, Option, none, some, List}
use qeet_notify.Base.Int.{ℤ}
use qeet_notify.Base.Text.{Str}
use qeet_notify.Workflows.Json.{Fields}
use qeet_notify.Workflows.Types.{Step}

-- `definition` is the text of the JSON column steps, and `steps` what it decodes to, `none` where it
-- is no list of steps.
pub record Workflow : Type 0 where
  pub id : Str
  pub tenant_id : Str
  pub name : Str
  pub definition : Str
  pub trigger_event : Str
  pub steps : Option (List Step)
  pub is_active : Bool

pub data RunStatus : Type 0 where
  running completed failed cancelled : RunStatus

-- status = 'running'
abbrev pub is_running : RunStatus → Bool
is_running running = true
is_running _ = false

pub record Run (F : Type 0) : Type 0 where
  pub id : Str
  pub tenant_id : Str
  pub workflow_id : Str
  pub subscriber_id : Str
  pub trigger_event : Str
  pub trigger_payload : Option (Fields F)
  pub status : RunStatus
  pub current_step_index : ℤ
  pub resume_at : Option ℤ
  pub error : Str

pub data NotificationStatus : Type 0 where
  pending queued sent delivered failed skipped suppressed : NotificationStatus

-- `content` is the text of the JSON column.
pub record Notification : Type 0 where
  pub id : Str
  pub tenant_id : Str
  pub workflow_run_id : Str
  pub subscriber_id : Str
  pub channel : Str
  pub template_id : Str
  pub status : NotificationStatus
  pub provider : Str
  pub provider_message_id : Str
  pub content : Str
  pub is_read : Bool

pub record Preference : Type 0 where
  pub tenant_id : Str
  pub subscriber_id : Str
  pub channel : Str
  pub category : Str
  pub is_opted_in : Bool

pub record Suppression : Type 0 where
  pub tenant_id : Str
  pub channel : Str
  pub value_hash : Str
  pub reason : Str

pub record ConsentRow : Type 0 where
  pub tenant_id : Str
  pub subscriber_id : Str
  pub channel : Str
  pub category : Str
  pub opted_in : Bool
  pub source : Str
  pub purpose : Str
  pub version : Str
  pub actor : Str
  pub ip_address : Str
  pub created_at : ℤ

pub record Tenant : Type 0 where
  pub id : Str
  pub api_key_hash : Str

pub record ApiKey : Type 0 where
  pub id : Str
  pub tenant_id : Str
  pub name : Str
  pub key_hash : Str
  pub prefix : Str
  pub scope : Str
  pub revoked_at : Option ℤ

-- revoked_at IS NOT NULL
abbrev pub is_revoked : Option ℤ → Bool
is_revoked none = false
is_revoked (some t) = true

-- `push_tokens` is the text of the JSON column.
pub record Subscriber (F : Type 0) : Type 0 where
  pub id : Str
  pub tenant_id : Str
  pub external_id : Str
  pub email_encrypted : Str
  pub phone_encrypted : Str
  pub whatsapp_id : Str
  pub push_tokens : Str
  pub locale : Str
  pub timezone : Str
  pub metadata : Fields F
  pub is_deleted : Bool
  pub created_at : ℤ

-- `metadata` is the text of the JSON column, and `language_code` one of its keys.
pub record DltRow : Type 0 where
  pub id : Str
  pub tenant_id : Str
  pub carrier : Str
  pub channel : Str
  pub template_id_ext : Str
  pub template_name : Str
  pub pe_id : Str
  pub sender_id : Option Str
  pub category : Str
  pub body_regex : Str
  pub status : Str
  pub metadata : Str
  pub language_code : Str

pub record NdncRow : Type 0 where
  pub phone_hash : Str
  pub category : Str
  pub source : Str

pub record DeliveryRow : Type 0 where
  pub tenant_id : Str
  pub notification_id : Str
  pub event_type : Str
  pub provider : Str
  pub occurred_at : ℤ

-- `metadata` is the text of the JSON column.
pub record Template : Type 0 where
  pub id : Str
  pub tenant_id : Str
  pub name : Str
  pub channel : Str
  pub locale : Str
  pub metadata : Str
  pub subject : Str
  pub body : Str
  pub is_active : Bool

-- `status` is what new_value holds.
pub record AuditRow : Type 0 where
  pub tenant_id : Str
  pub actor_type : Str
  pub actor_id : Str
  pub action : Str
  pub resource_type : Str
  pub resource_id : Str
  pub status : ℕ
  pub ip_address : Str
  pub user_agent : Str
  pub occurred_at : ℤ

pub record ProviderConfig : Type 0 where
  pub id : Str
  pub tenant_id : Str
  pub channel : Str
  pub provider : Str
  pub priority : ℤ
  pub config_encrypted : Str
  pub is_active : Bool

pub record Db (F : Type 0) : Type 0 where
  pub tenants : List Tenant
  pub api_keys : List ApiKey
  pub workflows : List Workflow
  pub runs : List (Run F)
  pub notifications : List Notification
  pub preferences : List Preference
  pub suppressions : List Suppression
  pub consent_ledger : List ConsentRow
  pub subscribers : List (Subscriber F)
  pub templates : List Template
  pub provider_configs : List ProviderConfig
  pub dlt_templates : List DltRow
  pub ndnc_registry : List NdncRow
  pub delivery_events : List DeliveryRow
  pub audit_logs : List AuditRow
