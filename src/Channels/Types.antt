-- ===== src/Channels/Types.antt =====
-- What leaves through a provider (domains/channels/*/provider.go).
use qeet_notify.Base.{Bool, List}
use qeet_notify.Base.Text.{Str}

pub record EmailMessage : Type 0 where
  pub from : Str
  pub from_name : Str
  pub to : Str
  pub subject : Str
  pub html_body : Str
  pub text_body : Str
  pub reply_to : Str
  pub tags : List (Str × Str)

pub record SmsMessage : Type 0 where
  pub to : Str
  pub body : Str
  pub sender_id : Str
  pub dlt_tmpl_id : Str
  pub is_unicode : Bool
  pub tags : List (Str × Str)

-- `parameters` are the texts of the one body component; none where there is no component.
pub record WhatsAppMessage : Type 0 where
  pub to : Str
  pub template_name : Str
  pub language_code : Str
  pub category : Str
  pub parameters : List Str

-- A request of the webhook worker: the encoded payload with its signature.
pub record WebhookRequest : Type 0 where
  pub url : Str
  pub body : Str
  pub signature : Str

-- A message that a provider has accepted, with the provider's name.
pub data Outgoing : Type 0 where
  email_out : Str → EmailMessage → Outgoing
  sms_out : Str → SmsMessage → Outgoing
  whatsapp_out : Str → WhatsAppMessage → Outgoing
  webhook_out : WebhookRequest → Outgoing
  -- A message of Redis pub/sub: its channel, the notification and the tenant.
  inapp_out : Str → Str → Str → Outgoing
