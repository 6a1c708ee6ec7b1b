-- ===== src/Validate/Laws.antt =====
-- What a validated entity satisfies.
use featuresignals_unified.Base.{
  ℕ, ◌≤◌, ◌≡◌, ◌≢◌, ◌↔◌, refl, ◌⊎◌, inl, inr, true, false, Option, none, some, [], ◌∷◌, arith,
  length, ltb, Bool-cases,
}
use featuresignals_unified.Base.Preds.{All}
use featuresignals_unified.Base.Text.{Text}
use featuresignals_unified.Domain.{
  Flag, FlagType, boolean, string, number, json, ab, FlagCategory, FlagStatus, Json, bool, str, num,
  arr, obj,
}
use featuresignals_unified.Eval.Std.{Std}
use featuresignals_unified.Eval.Engine.{is_nil}
use featuresignals_unified.Validate.{
  key_char, all_chars, bad_type, bad_category, bad_status, empty_type, match_flag_key, kind_error,
  parsed_error, validate_default_value_type, validate_default_value, validate_flag,
}

-- A character a-z or 0-9.
abbrev pub IsKeyStart : ℕ → Type 0
IsKeyStart c = ((b'a' ≤ c) × (c ≤ b'z')) ⊎ ((b'0' ≤ c) × (c ≤ b'9'))

-- The same, or an underscore or a hyphen.
abbrev pub IsKeyChar : ℕ → Type 0
IsKeyChar c = IsKeyStart c ⊎ ((c ≡ b'_') ⊎ (c ≡ b'-'))

-- A flag key: 1 to 128 characters, the first one a letter or a digit.
abbrev pub IsFlagKey : Text → Type 0
IsFlagKey [] = ⊥
IsFlagKey (c ∷ s) = IsKeyStart c × All IsKeyChar s × (length (c ∷ s) ≤ 128)

all_chars_iff : (s : Text) → (all_chars key_char s ≡ true) ↔ All IsKeyChar s
unfolding all_chars
all_chars_iff [] = ground arith
all_chars_iff (c ∷ s) = ground (arith, all_chars_iff s)

match_flag_key_iff : (s : Text) → (match_flag_key s ≡ true) ↔ IsFlagKey s
unfolding match_flag_key
match_flag_key_iff [] = ground arith
match_flag_key_iff (c ∷ s) = ground (arith, all_chars_iff s)

-- The JSON values that a flag type allows.
abbrev pub HasKind : {F : Type 0} → FlagType → Json F → Type 0
HasKind boolean (bool _) = Unit
HasKind boolean _ = ⊥
HasKind string (str _) = Unit
HasKind string _ = ⊥
HasKind number (num _) = Unit
HasKind number _ = ⊥
HasKind json (arr _) = Unit
HasKind json (obj _) = Unit
HasKind json _ = ⊥
HasKind ab _ = Unit
HasKind (FlagType.other _) _ = Unit

nil_of_is_nil : (t : Text) → (is_nil t ≡ true) ↔ (t ≡ [])
nil_of_is_nil t = ground arith

bad_type_iff :
    (ft : FlagType) → (bad_type ft ≡ false) ↔ ((t : Text) → ft ≡ FlagType.other t → t ≡ [])
bad_type_iff (FlagType.other u) = ((λ h t e. ground arith), (λ h. ground (arith, h u refl)))
bad_type_iff ft = ((λ h t e. ground arith), (λ h. refl))

bad_category_iff :
    (c : FlagCategory) → (bad_category c ≡ false) ↔ ((t : Text) → c ≡ FlagCategory.other t → t ≡ [])
bad_category_iff (FlagCategory.other u) = ((λ h t e. ground arith), (λ h. ground (arith, h u refl)))
bad_category_iff c = ((λ h t e. ground arith), (λ h. refl))

bad_status_iff :
    (c : FlagStatus) → (bad_status c ≡ false) ↔ ((t : Text) → c ≡ FlagStatus.other t → t ≡ [])
bad_status_iff (FlagStatus.other u) = ((λ h t e. ground arith), (λ h. ground (arith, h u refl)))
bad_status_iff c = ((λ h t e. ground arith), (λ h. refl))

module _ (std : Std) where
  -- The default value, when there is one, is valid JSON, and of the declared type's kind when a
  -- type is declared.
  abbrev pub DefaultOk : FlagType → Option Text → Type 0
  DefaultOk ft none = Unit
  DefaultOk ft (some raw) =
      (std.json_valid raw ≡ true)
      × ((empty_type ft ≡ true)
          ⊎ ((v : Json std.Float) × (std.unmarshal raw ≡ some v) × HasKind ft v))

  pub record FlagOk (f : Flag) : Type 0 where
    pub key : IsFlagKey f.key
    pub named : f.name ≢ []
    pub name_len : length f.name ≤ 255
    pub description_len : length f.description ≤ 2000
    pub known_type : (t : Text) → f.flag_type ≡ FlagType.other t → t ≡ []
    pub known_category : (t : Text) → f.category ≡ FlagCategory.other t → t ≡ []
    pub known_status : (t : Text) → f.status ≡ FlagStatus.other t → t ≡ []
    pub default_ok : DefaultOk f.flag_type f.default_value

  kind_error_iff :
      (ft : FlagType) (v : Json std.Float) → (kind_error std ft v ≡ none) ↔ HasKind ft v
  unfolding kind_error
  kind_error_iff boolean (bool b) = ground arith
  kind_error_iff ft v = ground arith

  parsed_error_iff :
      (ft : FlagType) (o : Option (Json std.Float))
      → (parsed_error std ft o ≡ none) ↔ ((v : Json std.Float) × (o ≡ some v) × HasKind ft v)
  unfolding parsed_error
  parsed_error_iff ft none = ((λ h. absurd (cc h)), (λ h. absurd (cc h.1)))
  parsed_error_iff ft (some v) = (
    (λ h. (v, refl, (kind_error_iff ft v).0 h)),
    (λ h. let same : v ≡ h.0 = cc h.1 in rw same ((kind_error_iff ft h.0).1 h.2)),
  )

  validate_default_value_iff :
      (ft : FlagType) (o : Option Text) → (validate_default_value std ft o ≡ none) ↔ DefaultOk ft o
  unfolding validate_default_value validate_default_value_type
  validate_default_value_iff ft none = ((λ h. tt), (λ h. refl))
  validate_default_value_iff ft (some raw) = elim (Bool-cases (std.json_valid raw)) [
    | inr bad ↦ rw bad ((λ h. absurd (cc h)), (λ h. absurd (cc h.0)))
    | inl good ↦ rw good (elim (Bool-cases (empty_type ft)) [
      | inl e ↦ rw e ((λ h. (refl, inl refl)), (λ h. refl))
      | inr e ↦ rw e (
        (λ h. (refl, inr ((parsed_error_iff ft (std.unmarshal raw)).0 h))),
        (λ h. elim h.1 [
          | inl bad ↦ absurd (cc bad)
          | inr k ↦ (parsed_error_iff ft (std.unmarshal raw)).1 k
        ]),
      )
    ])
  ]

  -- The checks of a flag, in the order of the code.
  record Checks (f : Flag) : Type 0 where
    key_given : is_nil f.key ≡ false
    key_form : match_flag_key f.key ≡ true
    name_given : is_nil f.name ≡ false
    name_short : ltb 255 (length f.name) ≡ false
    description_short : ltb 2000 (length f.description) ≡ false
    type_ok : bad_type f.flag_type ≡ false
    category_ok : bad_category f.category ≡ false
    status_ok : bad_status f.status ≡ false
    value_ok : validate_default_value std f.flag_type f.default_value ≡ none

  Checks-of_validate_flag : (f : Flag) → validate_flag std f ≡ none → Checks f
  unfolding validate_flag
  Checks-of_validate_flag f h = ground arith

  validate_flag_of_Checks : (f : Flag) → Checks f → validate_flag std f ≡ none
  unfolding validate_flag
  validate_flag_of_Checks f h = ground arith

  FlagOk-of_Checks : (f : Flag) → Checks f → FlagOk f
  FlagOk-of_Checks f c = record {
    key = (match_flag_key_iff f.key).0 c.key_form;
    named = λ e. cc ((nil_of_is_nil f.name).1 e, c.name_given);
    name_len = ground (arith, c.name_short);
    description_len = ground (arith, c.description_short);
    known_type = (bad_type_iff f.flag_type).0 c.type_ok;
    known_category = (bad_category_iff f.category).0 c.category_ok;
    known_status = (bad_status_iff f.status).0 c.status_ok;
    default_ok = (validate_default_value_iff f.flag_type f.default_value).0 c.value_ok;
  }

  is_nil_of_key : (s : Text) → IsFlagKey s → is_nil s ≡ false
  is_nil_of_key [] k = absurd k
  is_nil_of_key (c ∷ s) k = refl

  is_nil_of_ne : (s : Text) → s ≢ [] → is_nil s ≡ false
  is_nil_of_ne [] h = absurd (h refl)
  is_nil_of_ne (c ∷ s) h = refl

  Checks-of_FlagOk : (f : Flag) → FlagOk f → Checks f
  Checks-of_FlagOk f o = record {
    key_given = is_nil_of_key f.key o.key;
    key_form = (match_flag_key_iff f.key).1 o.key;
    name_given = is_nil_of_ne f.name o.named;
    name_short = ground (arith, o.name_len);
    description_short = ground (arith, o.description_len);
    type_ok = (bad_type_iff f.flag_type).1 o.known_type;
    category_ok = (bad_category_iff f.category).1 o.known_category;
    status_ok = (bad_status_iff f.status).1 o.known_status;
    value_ok = (validate_default_value_iff f.flag_type f.default_value).1 o.default_ok;
  }

  -- Validation accepts a flag exactly when its key is a letter or digit followed by at most 127
  -- letters, digits, underscores and hyphens, its name is not empty and has at most 255 bytes, its
  -- description has at most 2000 bytes, its type, category and status are empty or known, and its
  -- default value, if any, is valid JSON and of the kind of the declared type, if one is declared.
  pub validate_flag_iff : (f : Flag) → (validate_flag std f ≡ none) ↔ FlagOk f
  validate_flag_iff f = (
    (λ h. FlagOk-of_Checks f (Checks-of_validate_flag f h)),
    (λ o. validate_flag_of_Checks f (Checks-of_FlagOk f o)),
  )
