-- ===== src/Mails.antt =====
-- The gate of lifecycle mail: server/internal/lifecycle/processor.go, with the tables of templates of
-- server/internal/domain/mailer.go. The mailer and the preferences are parameters; log lines are left
-- out, and so are the fields of a message that the gate does not read.
mod Consent
mod Tests
use featuresignals_unified.Base.{
  Bool, true, false, not, ◌&&◌, Option, none, some, List, [], ◌∷◌, if◌then◌else◌,
}
use featuresignals_unified.Base.Text.{Text, bytes, text_eq}
use featuresignals_unified.Base.Assoc.{lookup}

pub data EmailPriority : Type 0 where
  transactional important lifecycle : EmailPriority

pub record EmailMessage : Type 0 where
  pub to : Text
  pub from_email : Text
  pub reply_to : Text
  pub template : Text

abbrev template_meta : List (Text × EmailPriority)
template_meta =
    (bytes "welcome", transactional)
    ∷ (bytes "activation_first_flag", lifecycle)
    ∷ (bytes "activation_first_eval", lifecycle)
    ∷ (bytes "team_invite", transactional)
    ∷ (bytes "team_joined", lifecycle)
    ∷ (bytes "trial_midpoint", important)
    ∷ (bytes "trial_ending", important)
    ∷ (bytes "trial_expired", important)
    ∷ (bytes "weekly_digest", lifecycle)
    ∷ (bytes "re_engage_48h", lifecycle)
    ∷ (bytes "re_engage_14d", lifecycle)
    ∷ (bytes "re_engage_90d", lifecycle)
    ∷ (bytes "upgrade_limit_hit", lifecycle)
    ∷ (bytes "renewal_upcoming", important)
    ∷ (bytes "payment_success", transactional)
    ∷ (bytes "payment_failed", transactional)
    ∷ (bytes "payment_failed_final", transactional)
    ∷ (bytes "cancellation_confirmed", transactional)
    ∷ (bytes "downgrade_effective", important)
    ∷ (bytes "deletion_requested", transactional)
    ∷ (bytes "deletion_canceled", transactional)
    ∷ (bytes "feature_announcement", lifecycle)
    ∷ (bytes "enterprise_inquiry_ack", transactional)
    ∷ (bytes "security_alert", transactional)
    ∷ (bytes "api_key_created", important)
    ∷ (bytes "export_ready", transactional)
    ∷ (bytes "environment_ready", transactional)
    ∷ (bytes "password_reset", transactional)
    ∷ (bytes "feature_spotlight_segments", lifecycle)
    ∷ (bytes "feature_spotlight_webhooks", lifecycle)
    ∷ (bytes "feature_spotlight_team", lifecycle)
    ∷ []

record Sender : Type 0 where
  from_email : Text
  reply_to : Text

abbrev sender_identity : List (Text × Sender)
sender_identity =
    (
      bytes "payment_success",
      record {
        from_email = bytes "billing@featuresignals.com";
        reply_to = bytes "support@featuresignals.com";
      },
    )
    ∷ (
      bytes "payment_failed",
      record {
        from_email = bytes "billing@featuresignals.com";
        reply_to = bytes "support@featuresignals.com";
      },
    )
    ∷ (
      bytes "payment_failed_final",
      record {
        from_email = bytes "billing@featuresignals.com";
        reply_to = bytes "support@featuresignals.com";
      },
    )
    ∷ (
      bytes "cancellation_confirmed",
      record {
        from_email = bytes "billing@featuresignals.com";
        reply_to = bytes "support@featuresignals.com";
      },
    )
    ∷ (
      bytes "downgrade_effective",
      record {
        from_email = bytes "billing@featuresignals.com";
        reply_to = bytes "support@featuresignals.com";
      },
    )
    ∷ (
      bytes "renewal_upcoming",
      record {
        from_email = bytes "billing@featuresignals.com";
        reply_to = bytes "support@featuresignals.com";
      },
    )
    ∷ (
      bytes "upgrade_limit_hit",
      record {
        from_email = bytes "billing@featuresignals.com";
        reply_to = bytes "support@featuresignals.com";
      },
    )
    ∷ (
      bytes "enterprise_inquiry_ack",
      record {
        from_email = bytes "sales@featuresignals.com";
        reply_to = bytes "sales@featuresignals.com";
      },
    )
    ∷ (
      bytes "security_alert",
      record {
        from_email = bytes "security@featuresignals.com";
        reply_to = bytes "security@featuresignals.com";
      },
    )
    ∷ (
      bytes "deletion_requested",
      record {
        from_email = bytes "noreply@featuresignals.com";
        reply_to = bytes "support@featuresignals.com";
      },
    )
    ∷ (
      bytes "deletion_canceled",
      record {
        from_email = bytes "noreply@featuresignals.com";
        reply_to = bytes "support@featuresignals.com";
      },
    )
    ∷ (
      bytes "environment_ready",
      record {
        from_email = bytes "noreply@featuresignals.com";
        reply_to = bytes "support@featuresignals.com";
      },
    )
    ∷ []

abbrev or_lifecycle : Option EmailPriority → EmailPriority
or_lifecycle none = lifecycle
or_lifecycle (some p) = p

-- The priority of a template; an unknown one is lifecycle mail.
unfoldable pub priority_of : Text → EmailPriority
priority_of template = or_lifecycle (lookup template template_meta)

abbrev pub is_important : EmailPriority → Bool
is_important lifecycle = false
is_important _ = true

unfoldable pub should_send : Bool → Text → EmailPriority → Bool
should_send consent preference priority =
    if not consent
    then false
    else if text_eq preference (bytes "transactional")
    then false
    else if text_eq preference (bytes "important")
    then is_important priority
    else true

-- The condition of Send. `preferences` is what the store answers, `none` an error.
abbrev by_preferences : Option (Bool × Text) → EmailPriority → Bool
by_preferences none priority = true
by_preferences (some (consent, preference)) priority = should_send consent preference priority

abbrev is_transactional : EmailPriority → Bool
is_transactional transactional = true
is_transactional _ = false

unfoldable pub is_allowed : Text → Option (Bool × Text) → EmailPriority → Bool
is_allowed user_id preferences priority =
    if not (is_transactional priority) && not (text_eq user_id [])
    then by_preferences preferences priority
    else true

-- The sender of a template, where the handler has set none.
abbrev with_sender : EmailMessage → Option Sender → EmailMessage
with_sender msg none = msg
with_sender msg (some s) = record msg {
  from_email = s.from_email;
  reply_to = if text_eq msg.reply_to [] then s.reply_to else msg.reply_to;
}

unfoldable pub addressed : EmailMessage → EmailMessage
addressed msg =
    if text_eq msg.from_email [] then with_sender msg (lookup msg.template sender_identity) else msg

pub data MailEvent : Type 0 where
  email_sent : Text → Text → Text → MailEvent
  email_failed : Text → Text → Text → MailEvent

-- What Send hands to the mailer and to the emitter of events, the newest first.
pub record Outbox : Type 0 where
  pub handed : List EmailMessage
  pub events : List MailEvent

-- From the call of the mailer on. The result is whether there is no error.
abbrev hand_over : (EmailMessage → Bool) → Text → EmailMessage → Outbox → Bool × Outbox
hand_over delivers user_id msg out =
    if delivers msg
    then (
      true,
      record {
        handed = msg ∷ out.handed;
        events = email_sent user_id msg.template msg.to ∷ out.events;
      },
    )
    else (
      false,
      record {
        handed = msg ∷ out.handed;
        events = email_failed user_id msg.template msg.to ∷ out.events;
      },
    )

-- Send
unfoldable pub send :
    (EmailMessage → Bool) → Option (Bool × Text) → Text → EmailMessage → Outbox → Bool × Outbox
send delivers preferences user_id msg out =
    if not (is_allowed user_id preferences (priority_of msg.template))
    then (true, out)
    else hand_over delivers user_id (addressed msg) out
