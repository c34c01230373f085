-- ===== src/Platform/Samples.antt =====
-- A database and a process for tests.
use qeet_notify.Base.{ℕ, true, false, []}
use qeet_notify.Base.Int.{pos}
use qeet_notify.Base.Text.{str}
use qeet_notify.Workflows.Json.{end}
use qeet_notify.Platform.Tables.{Db, Subscriber}
use qeet_notify.Platform.World.{World}

abbrev pub empty_db : Db ℕ
empty_db = record {
  tenants = [];
  api_keys = [];
  workflows = [];
  runs = [];
  notifications = [];
  preferences = [];
  suppressions = [];
  consent_ledger = [];
  subscribers = [];
  templates = [];
  provider_configs = [];
  dlt_templates = [];
  ndnc_registry = [];
  delivery_events = [];
  audit_logs = [];
}

-- A process in a transaction of tenant "t" that meets no fault.
abbrev pub calm_world : Db ℕ → World ℕ
calm_world db = record {
  db = db;
  published = [];
  outbox = [];
  redis = [];
  counters = [];
  now = pos 1000;
  faults = [];
  aborted = false;
  scope = str "t";
  rls = true;
  made = 0;
}

-- The subscriber "u" of tenant "t", reachable on each channel.
abbrev pub sample_subscriber : Subscriber ℕ
sample_subscriber = record {
  id = str "u";
  tenant_id = str "t";
  external_id = str "x";
  email_encrypted = str "a@b";
  phone_encrypted = str "+91";
  whatsapp_id = str "wa";
  push_tokens = str "[]";
  locale = str "en";
  timezone = str "UTC";
  metadata = end;
  is_deleted = false;
  created_at = pos 0;
}
