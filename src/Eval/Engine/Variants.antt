-- ===== src/Eval/Engine/Variants.antt =====
-- The arms of an A/B experiment.
use featuresignals_unified.Base.{
  ℕ, suc, ap, ◌<◌, ◌≤◌, ◌≡◌, refl, inl, inr, Option, none, some, List, [], ◌∷◌, ◌++◌, arith,
  Bool-cases,
}
use featuresignals_unified.Base.Int.{ℤ, pos, ◌+ℤ◌, ◌≤ℤ◌, ltb_ℤ, int_laws, lt_of_ltb_ℤ, le_of_ltb_ℤ}
use featuresignals_unified.Base.Text.{Text}
use featuresignals_unified.Domain.{Variant}
use featuresignals_unified.Eval.Hash.{bucket_user, bucket_user-lt}
use featuresignals_unified.Eval.Engine.{pick_variant, choose_variant, last_variant, or_else}

unfoldable pub total_weight : List Variant → ℤ
total_weight [] = pos 0
total_weight (v ∷ vs) = v.weight +ℤ total_weight vs

-- The variant's share of the buckets, [low, low + weight), holds the bucket.
pub record PickedAt (bucket : ℕ) (low : ℤ) (vs : List Variant) (chosen : Variant) : Type 0 where
  pub before : List Variant
  pub after : List Variant
  pub split : vs ≡ before ++ (chosen ∷ after)
  pub from : low +ℤ total_weight before ≤ℤ pos bucket
  pub below : pos (suc bucket) ≤ℤ low +ℤ total_weight before +ℤ chosen.weight

total_nil : total_weight [] ≡ pos 0
unfolding total_weight
total_nil = refl

abbrev Picked : ℕ → ℤ → List Variant → Option Variant → Type 0
Picked bucket low vs none = low +ℤ total_weight vs ≤ℤ pos bucket
Picked bucket low vs (some v) = PickedAt bucket low vs v

Picked-cons :
    (bucket : ℕ) (low : ℤ) (v : Variant) (vs : List Variant) (o : Option Variant)
    → Picked bucket (low +ℤ v.weight) vs o
    → Picked bucket low (v ∷ vs) o
unfolding total_weight
Picked-cons bucket low v vs none h = omega int_laws
Picked-cons bucket low v vs (some w) h = record {
  before = v ∷ h.before;
  after = h.after;
  split = ap (λ xs. v ∷ xs) h.split;
  from = omega (int_laws, h.from);
  below = omega (int_laws, h.below);
}

pick_variant-Picked :
    (bucket : ℕ) (low : ℤ) (vs : List Variant)
    → low ≤ℤ pos bucket
    → Picked bucket low vs (pick_variant bucket low vs)
unfolding pick_variant
pick_variant-Picked bucket low [] h = rw total_nil (omega int_laws)
pick_variant-Picked bucket low (v ∷ vs) h =
    elim (Bool-cases (ltb_ℤ (pos bucket) (low +ℤ v.weight))) [
      | inl lt ↦ rw lt (record {
        before = [];
        after = vs;
        split = refl;
        from = rw total_nil (omega int_laws);
        below = rw total_nil (omega (int_laws, lt_of_ltb_ℤ (pos bucket) (low +ℤ v.weight) lt));
      })
      | inr ge ↦ rw ge (
          Picked-cons bucket low v vs (pick_variant bucket (low +ℤ v.weight) vs) (
            pick_variant-Picked bucket (low +ℤ v.weight) vs
              (le_of_ltb_ℤ (pos bucket) (low +ℤ v.weight) ge)))
    ]

le_10000 : (bucket : ℕ) (sum : ℤ) → sum ≡ pos 10000 → pos 0 +ℤ sum ≤ℤ pos bucket → 10000 ≤ bucket
unfolding ◌+ℤ◌
le_10000 bucket sum e h = ground arith

or_else-Picked :
    (bucket : ℕ) (vs : List Variant) (o : Option Variant) (d : Variant)
    → bucket < 10000
    → total_weight vs ≡ pos 10000
    → Picked bucket (pos 0) vs o
    → PickedAt bucket (pos 0) vs (or_else o d)
or_else-Picked bucket vs (some v) d lt sum h = h
or_else-Picked bucket vs none d lt sum h =
    absurd (omega (int_laws, le_10000 bucket (total_weight vs) sum h))

-- When the weights of a flag's variants sum to 10000, every user is given the variant whose share
-- of the 10000 buckets holds the user's bucket: the weights before it sum to at most the bucket,
-- and with its own weight to more. The fallback to the last variant is not taken.
pub choose_variant-share :
    (key user : Text) (v : Variant) (vs : List Variant)
    → total_weight (v ∷ vs) ≡ pos 10000
    → PickedAt (bucket_user key user) (pos 0) (v ∷ vs) (choose_variant (bucket_user key user) v vs)
unfolding choose_variant
choose_variant-share key user v vs sum =
    or_else-Picked (bucket_user key user) (v ∷ vs)
      (pick_variant (bucket_user key user) (pos 0) (v ∷ vs)) (last_variant v vs)
      (bucket_user-lt key user) sum
      (pick_variant-Picked (bucket_user key user) (pos 0) (v ∷ vs) (omega arith))
