-- ===== src/Mails/Consent.antt =====
-- Whom lifecycle mail reaches: server/internal/lifecycle/processor.go.
use featuresignals_unified.Base.{
  ◌≡◌, ◌≢◌, ◌⊎◌, ◌↔◌, refl, ap, inl, inr, Bool, true, false, Bool-cases, Option, none, some, [],
  ◌∷◌, if◌then◌else◌,
}
use featuresignals_unified.Base.Text.{Text, bytes, text_eq, text_eq_iff}
use featuresignals_unified.Mails.{
  EmailPriority, transactional, important, lifecycle, EmailMessage, priority_of, should_send,
  is_allowed, addressed, email_sent, email_failed, Outbox, send, hand_over, by_preferences,
  is_important, is_transactional,
}

-- The user consents, does not ask for transactional mail alone, and asks for important mail alone
-- only when this is important. Every other preference, an empty or unknown one too, agrees.
abbrev pub Agrees : Bool → Text → EmailPriority → Type 0
Agrees consent preference priority =
    (consent ≡ true)
    × (preference ≢ bytes "transactional")
    × (preference ≡ bytes "important" → priority ≡ important)

-- The preferences cannot be read, or agree.
abbrev pub Permits : Option (Bool × Text) → EmailPriority → Type 0
Permits none priority = Unit
Permits (some (consent, preference)) priority = Agrees consent preference priority

-- The mail is transactional, is for no user in particular, or the preferences permit it.
abbrev pub MayReach : Text → Option (Bool × Text) → EmailPriority → Type 0
MayReach user_id preferences priority =
    (priority ≡ transactional) ⊎ (user_id ≡ []) ⊎ Permits preferences priority

eq_no : (s t : Text) → text_eq s t ≡ false → s ≢ t
eq_no s t f same = cc (f, (text_eq_iff s t).1 same)

is_important-eq :
    (p : EmailPriority) → is_transactional p ≡ false → is_important p ≡ true → p ≡ important
is_important-eq transactional a b = absurd (cc a)
is_important-eq important a b = refl
is_important-eq lifecycle a b = absurd (cc b)

should_send_iff :
    (consent : Bool) (preference : Text) (priority : EmailPriority)
    → is_transactional priority ≡ false
    → (should_send consent preference priority ≡ true) ↔ Agrees consent preference priority
unfolding should_send
should_send_iff false preference priority other = ((λ h. absurd (cc h)), λ a. absurd (cc (a.0)))
should_send_iff true preference priority other =
    elim (Bool-cases (text_eq preference (bytes "transactional"))) [
      | inl t ↦ rw t (
        (λ h. absurd (cc h)),
        λ a. absurd (a.1 ((text_eq_iff preference (bytes "transactional")).0 t)),
      )
      | inr f ↦ elim (Bool-cases (text_eq preference (bytes "important"))) [
        | inl t ↦
            rw (f, t)
              (
                (λ h. (
                  refl,
                  eq_no preference (bytes "transactional") f,
                  λ _. is_important-eq priority other h,
                )),
                λ a. ap is_important (a.2 ((text_eq_iff preference (bytes "important")).0 t)),
              )
        | inr g ↦
            rw (f, g)
              (
                (λ h. (
                  refl,
                  eq_no preference (bytes "transactional") f,
                  λ same. absurd (eq_no preference (bytes "important") g same),
                )),
                λ a. refl,
              )
      ]
    ]

by_preferences_iff :
    (preferences : Option (Bool × Text)) (priority : EmailPriority)
    → is_transactional priority ≡ false
    → (by_preferences preferences priority ≡ true) ↔ Permits preferences priority
by_preferences_iff none priority other = ((λ _. tt), λ _. refl)
by_preferences_iff (some (consent, preference)) priority other =
    should_send_iff consent preference priority other

gated_iff :
    (user_id : Text) (preferences : Option (Bool × Text)) (priority : EmailPriority)
    → is_transactional priority ≡ false
    → (is_allowed user_id preferences priority ≡ true) ↔ MayReach user_id preferences priority
unfolding is_allowed
gated_iff user_id preferences priority other = elim (Bool-cases (text_eq user_id [])) [
  | inl t ↦ rw (other, t) ((λ _. inr (inl ((text_eq_iff user_id []).0 t))), λ _. refl)
  | inr f ↦
      rw (other, f)
        (
          (λ h. inr (inr ((by_preferences_iff preferences priority other).0 h))),
          λ m. elim m [
            | inl same ↦ absurd (cc (other, ap is_transactional same))
            | inr n ↦ elim n [
              | inl empty ↦ absurd (eq_no user_id [] f empty)
              | inr permits ↦ (by_preferences_iff preferences priority other).1 permits
            ]
          ],
        )
]

is_allowed_iff :
    (user_id : Text) (preferences : Option (Bool × Text)) (priority : EmailPriority)
    → (is_allowed user_id preferences priority ≡ true) ↔ MayReach user_id preferences priority
unfolding is_allowed
is_allowed_iff user_id preferences transactional = ((λ _. inl refl), λ _. refl)
is_allowed_iff user_id preferences important = gated_iff user_id preferences important refl
is_allowed_iff user_id preferences lifecycle = gated_iff user_id preferences lifecycle refl

-- The message goes to the mailer once, and an event tells how it went; the result is whether there
-- was no error.
pub record IsHanded (delivers : EmailMessage → Bool) (user_id : Text) (m : EmailMessage)
    (out : Outbox) (r : Bool × Outbox) : Type 0 where
  pub result : r.0 ≡ delivers m
  pub handed : r.1.handed ≡ m ∷ out.handed
  pub told :
      r.1.events
      ≡ (if delivers m
          then email_sent user_id m.template m.to
          else email_failed user_id m.template m.to)
        ∷ out.events

hand_over-IsHanded :
    (delivers : EmailMessage → Bool) (user_id : Text) (m : EmailMessage) (out : Outbox)
    → IsHanded delivers user_id m out (hand_over delivers user_id m out)
hand_over-IsHanded delivers user_id m out = elim (Bool-cases (delivers m)) [
  | inl t ↦ record { result = rw t refl; handed = rw t refl; told = rw t refl }
  | inr f ↦ record { result = rw f refl; handed = rw f refl; told = rw f refl }
]

-- Send hands the message, with its sender, to the mailer exactly when it is transactional, it is for
-- no user in particular, the preferences cannot be read, or the user consents and the preference is
-- neither "transactional" nor, for lifecycle mail, "important"; every other preference, an empty or
-- unknown one too, lets it through. An event then tells whether the mailer failed. Otherwise nothing
-- is handed over, and there is no error.
pub send-IsHanded :
    (delivers : EmailMessage → Bool) (preferences : Option (Bool × Text)) (user_id : Text)
    (msg : EmailMessage) (out : Outbox)
    → ((MayReach user_id preferences (priority_of msg.template) → ⊥)
        × (send delivers preferences user_id msg out ≡ (true, out)))
      ⊎ (MayReach user_id preferences (priority_of msg.template)
          × IsHanded delivers user_id
              (addressed msg)
              out
              (send delivers preferences user_id msg out))
unfolding send
send-IsHanded delivers preferences user_id msg out =
    let iff = is_allowed_iff user_id preferences (priority_of msg.template) in
    elim (Bool-cases (is_allowed user_id preferences (priority_of msg.template))) [
      | inl t ↦ inr (iff.0 t, rw t (hand_over-IsHanded delivers user_id (addressed msg) out))
      | inr f ↦ inl ((λ may. cc (f, iff.1 may)), rw f refl)
    ]
