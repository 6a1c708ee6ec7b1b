-- ===== src/Mails/Tests.antt =====
-- Concrete mails of server/internal/lifecycle/processor.go.
use featuresignals_unified.Base.{◌≡◌, ◌⊎◌, refl, Bool, true, false, none, some, [], ◌∷◌}
use featuresignals_unified.Base.Text.{Text, bytes}
use featuresignals_unified.Mails.{
  EmailMessage, Outbox, transactional, priority_of, addressed, send, is_allowed,
}
use featuresignals_unified.Mails.Consent.{MayReach, IsHanded, send-IsHanded}

abbrev mail : Text → EmailMessage
mail template = record { to = bytes "a@b"; from_email = []; reply_to = []; template = template }

abbrev empty_outbox : Outbox
empty_outbox = record { handed = []; events = [] }

abbrev accepts : EmailMessage → Bool
accepts msg = true

abbrev ending : EmailMessage
ending = mail (bytes "trial_ending")

send-IsHanded_example :
    ((MayReach (bytes "u") (some (true, bytes "important")) (priority_of (bytes "trial_ending"))
        → ⊥)
      × (send accepts (some (true, bytes "important")) (bytes "u") ending empty_outbox
          ≡ (true, empty_outbox)))
    ⊎ (MayReach (bytes "u") (some (true, bytes "important")) (priority_of (bytes "trial_ending"))
        × IsHanded accepts
            (bytes "u")
            (addressed ending)
            empty_outbox
            (send accepts (some (true, bytes "important")) (bytes "u") ending empty_outbox))
send-IsHanded_example =
    send-IsHanded accepts (some (true, bytes "important")) (bytes "u") ending empty_outbox

-- A digest stops at the wish for important mail alone; a failed reading and an unknown preference let
-- it through.
is_allowed_tests :
    (is_allowed (bytes "u") (some (true, bytes "important")) (priority_of (bytes "weekly_digest"))
      ≡ false)
    × (is_allowed (bytes "u") (some (true, bytes "never")) (priority_of (bytes "weekly_digest"))
        ≡ true)
    × (is_allowed (bytes "u") none (priority_of (bytes "weekly_digest")) ≡ true)
    × (is_allowed (bytes "u") (some (false, [])) (priority_of (bytes "welcome")) ≡ true)
unfolding is_allowed priority_of featuresignals_unified.Base.Assoc.lookup
    featuresignals_unified.Base.Text.text_eq featuresignals_unified.Mails.should_send
is_allowed_tests = (refl, refl, refl, refl)

addressed_test :
    (addressed (mail (bytes "security_alert"))).from_email ≡ bytes "security@featuresignals.com"
unfolding addressed featuresignals_unified.Base.Text.text_eq
    featuresignals_unified.Base.Assoc.lookup
addressed_test = refl
