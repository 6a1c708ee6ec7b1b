-- ===== src/Validate/States.antt =====
-- What a validated flag state gives the engine, and the index in the error of a segment's rule.
use featuresignals_unified.Base.{
  ℕ, ◌+◌, ◌*◌, ◌-◌, ◌/◌, ◌%◌, ◌≤◌, ◌<◌, ◌≡◌, ◌≢◌, ◌↔◌, refl, sym, ◌∙◌, ◌⊎◌, inl, inr, Bool, true,
  false, ◌&&◌, ◌||◌, dec_lt, Option, none, some, List, [], ◌∷◌, arith, leb, if◌then◌else◌,
}
use mathlib.Core.Path.{subst}
use featuresignals_unified.Base.Int.{ℤ, pos, ◌≤ℤ◌, ◌+ℤ◌, ltb_ℤ, int_laws, eq_of_parts}
use featuresignals_unified.Base.Preds.{All}
use featuresignals_unified.Base.Text.{Text}
use featuresignals_unified.Domain.{FlagState, Variant}
use featuresignals_unified.Eval.Hash.{bucket_user}
use featuresignals_unified.Eval.Engine.{is_nil, choose_variant}
use featuresignals_unified.Eval.Engine.Variants.{total_weight, PickedAt, choose_variant-share}
use featuresignals_unified.Validate.{
  ValidationError, ◌>>◌, itoa, rune_text, validate_variant, validate_variants, validate_state,
}

abbrev pub VariantOk : Variant → Type 0
VariantOk v = (v.key ≢ []) × (pos 0 ≤ℤ v.weight)

is_nil-false : (t : Text) → (is_nil t ≡ false) ↔ (t ≢ [])
is_nil-false [] = ((λ h. absurd (cc h)), (λ h. absurd (h refl)))
is_nil-false (c ∷ t) = ((λ h e. cc e), (λ h. refl))

validate_variant_iff : (v : Variant) → (validate_variant v ≡ none) ↔ VariantOk v
unfolding validate_variant
validate_variant_iff v = (
  (λ h. ((is_nil-false v.key).0 (ground arith), ground arith)),
  (λ h. ground (arith, (is_nil-false v.key).1 h.0)),
)

sum_test : (t : ℤ) → (ltb_ℤ t (pos 10000) || ltb_ℤ (pos 10000) t ≡ false) ↔ (t ≡ pos 10000)
sum_test t = ((λ h. eq_of_parts t (pos 10000) (ground arith)), (λ h. ground arith))

>>-none_iff : (a b : Option ValidationError) → ((a >> b) ≡ none) ↔ ((a ≡ none) × (b ≡ none))
>>-none_iff none b = ((λ h. (refl, h)), (λ h. h.1))
>>-none_iff (some e) b = ((λ h. absurd (cc h)), (λ h. absurd (cc h.0)))

total_nil_add : (t : ℤ) → t +ℤ total_weight [] ≡ t
unfolding total_weight ◌+ℤ◌
total_nil_add t = ground arith

total_cons_add :
    (t : ℤ) (v : Variant) (vs : List Variant)
    → t +ℤ total_weight (v ∷ vs) ≡ t +ℤ v.weight +ℤ total_weight vs
unfolding total_weight
total_cons_add t v vs = omega int_laws

validate_variants_iff :
    (empty : Bool) (t : ℤ) (vs : List Variant)
    → (validate_variants empty t vs ≡ none)
      ↔ (All VariantOk vs × ((empty ≡ true) ⊎ (t +ℤ total_weight vs ≡ pos 10000)))
unfolding validate_variants
validate_variants_iff true t [] = ((λ h. (tt, inl refl)), (λ h. refl))
validate_variants_iff false t [] = rw (total_nil_add t) (
  (λ h. (tt, inr ((sum_test t).0 (ground arith)))),
  (λ h. elim h.1 [ inl e ↦ absurd (cc e) | inr e ↦ ground (arith, (sum_test t).1 e) ]),
)
validate_variants_iff empty t (v ∷ vs) =
    let head = validate_variant_iff v in
    let rest = validate_variants_iff empty (t +ℤ v.weight) vs in
    let both = >>-none_iff (validate_variant v) (validate_variants empty (t +ℤ v.weight) vs) in
    rw (total_cons_add t v vs) (
      (λ h. let (a, b) = both.0 h in ((head.0 a, (rest.0 b).0), (rest.0 b).1)),
      (λ h. both.1 (head.1 h.0.0, rest.1 (h.0.1, h.1))),
    )

-- What a validated state holds.
pub record StateOk (s : FlagState) : Type 0 where
  pub flag : s.flag_id ≢ []
  pub env : s.env_id ≢ []
  pub at_least : pos 0 ≤ℤ s.percentage_rollout
  pub at_most : s.percentage_rollout ≤ℤ pos 10000
  pub arms : All VariantOk s.variants
  pub full : (s.variants ≡ []) ⊎ (total_weight s.variants ≡ pos 10000)

record Checks (s : FlagState) : Type 0 where
  flag : is_nil s.flag_id ≡ false
  env : is_nil s.env_id ≡ false
  range : ltb_ℤ s.percentage_rollout (pos 0) || ltb_ℤ (pos 10000) s.percentage_rollout ≡ false
  arms : validate_variants (is_nil s.variants) (pos 0) s.variants ≡ none

Checks-iff : (s : FlagState) → (validate_state s ≡ none) ↔ Checks s
unfolding validate_state
Checks-iff s = ((λ h. ground arith), (λ h. ground arith))

nil_of_is_nil {ℓ} : {A : Type ℓ} (xs : List A) → is_nil xs ≡ true → xs ≡ []
nil_of_is_nil [] h = refl
nil_of_is_nil (x ∷ xs) h = absurd (cc h)

zero_add : (t : ℤ) → pos 0 +ℤ t ≡ t
unfolding ◌+ℤ◌
zero_add t = ground arith

-- Validation accepts a state exactly when it names a flag and an environment, its rollout lies
-- between 0 and 10000, every variant has a key and a weight that is not negative, and the weights
-- sum to 10000 unless there is no variant.
pub validate_state_iff : (s : FlagState) → (validate_state s ≡ none) ↔ StateOk s
validate_state_iff s = (to, from)
  where
    to : validate_state s ≡ none → StateOk s
    to h =
        let c = (Checks-iff s).0 h in
        let arms = (validate_variants_iff (is_nil s.variants) (pos 0) s.variants).0 c.arms in
        record {
          flag = (is_nil-false s.flag_id).0 c.flag;
          env = (is_nil-false s.env_id).0 c.env;
          at_least = ground (arith, c.range);
          at_most = ground (arith, c.range);
          arms = arms.0;
          full = elim arms.1 [
            | inl e ↦ inl (nil_of_is_nil s.variants e)
            | inr e ↦ inr (sym (zero_add (total_weight s.variants)) ∙ e)
          ];
        }

    from : StateOk s → validate_state s ≡ none
    from o = (Checks-iff s).1 (record {
      flag = (is_nil-false s.flag_id).1 o.flag;
      env = (is_nil-false s.env_id).1 o.env;
      range = ground (arith, o.at_least, o.at_most);
      arms = (validate_variants_iff (is_nil s.variants) (pos 0) s.variants).1 (
        o.arms,
        elim (o.full) [
          | inl e ↦ inl (rw e refl)
          | inr e ↦ inr (zero_add (total_weight s.variants) ∙ e)
        ],
      );
    })

-- In a validated state with variants every user gets the variant whose share of the 10000 buckets
-- holds the user's bucket.
pub validate_state-share :
    (s : FlagState) (v : Variant) (vs : List Variant) (key user : Text)
    → validate_state s ≡ none
    → s.variants ≡ v ∷ vs
    → PickedAt (bucket_user key user) (pos 0) (v ∷ vs) (choose_variant (bucket_user key user) v vs)
validate_state-share s v vs key user h e =
    choose_variant-share key user v vs (elim (((validate_state_iff s).0 h).full) [
      | inl none_left ↦ absurd (cc (sym e ∙ none_left))
      | inr sum ↦ subst (λ xs. total_weight xs ≡ pos 10000) e sum
    ])

-- The number that a text of decimal digits stands for.
pub read_decimal : ℕ → Text → Option ℕ
read_decimal acc [] = some acc
read_decimal acc (c ∷ s) =
    if leb b'0' c && leb c b'9' then read_decimal (acc * 10 + (c - b'0')) s else none

rune_text_ascii : (r : ℕ) → r < 128 → rune_text r ≡ r ∷ []
unfolding rune_text
rune_text_ascii r h = ground arith

itoa_short : (i : ℕ) → i < 10 → itoa i ≡ (b'0' + i) ∷ []
unfolding itoa
itoa_short i h = ground (arith, rune_text_ascii (b'0' + i))

itoa_long : (i : ℕ) → 10 ≤ i → i < 800 → itoa i ≡ (b'0' + i / 10) ∷ (b'0' + i % 10) ∷ []
unfolding itoa
itoa_long i h k =
    let tens = rune_text_ascii (b'0' + i / 10) (omega arith) in
    let ones = rune_text_ascii (b'0' + i % 10) (omega arith) in rw (tens, ones) (ground arith)

-- The index in the error of a segment's rule is the decimal numeral of the rule's position below
-- 100. From 100 to 799 it is not a numeral at all.
pub itoa_index :
    (i : ℕ)
    → (i < 100 → read_decimal 0 (itoa i) ≡ some i)
      × (100 ≤ i → i < 800 → read_decimal 0 (itoa i) ≡ none)
unfolding read_decimal
itoa_index i = (
  (λ h. elim (dec_lt i 10) [
    | yes short ↦ rw (itoa_short i short) (ground arith)
    | no long ↦ rw (itoa_long i (omega arith) (omega arith)) (ground arith)
  ]),
  (λ h k. rw (itoa_long i (omega arith) k) (ground arith)),
)
