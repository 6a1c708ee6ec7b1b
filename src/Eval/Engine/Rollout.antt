-- ===== src/Eval/Engine/Rollout.antt =====
-- Percentage rollouts in basis points.
use featuresignals_unified.Base.{suc, ◌≡◌, ◌↔◌, refl, ◌≢◌, Option, none, some, List, [], ◌∷◌, arith}
use featuresignals_unified.Base.Int.{ℤ, pos, ◌≤ℤ◌}
use featuresignals_unified.Base.Text.{Text}
use featuresignals_unified.Domain.{
  Flag, FlagState, Variant, Ruleset, EvalContext, EvalResult, rollout,
}
use featuresignals_unified.Eval.Hash.{bucket_user, bucket_user-lt}
use featuresignals_unified.Eval.Std.{Std}
use featuresignals_unified.Eval.Engine.{
  result, or_else, walk_rules, serve_default, serve_variants, evaluate_variant, serve, on_value,
}

-- The state with another default rollout.
abbrev pub with_rollout : ℤ → FlagState → FlagState
with_rollout q state = record state { percentage_rollout = q }

module _ (std : Std) (key : Text) (ctx : EvalContext std.Float) (rs : Ruleset) where
  serve_variants-ne-rollout :
      (flag : Flag) (state : FlagState) (vs : List Variant)
      → (serve_variants std key ctx flag state vs).reason ≢ rollout
  unfolding serve_variants evaluate_variant
  serve_variants-ne-rollout flag state [] = ground arith
  serve_variants-ne-rollout flag state (v ∷ vs) = ground arith

  serve_default_mono :
      (flag : Flag) (state : FlagState) (q : ℤ)
      → state.percentage_rollout ≤ℤ q
      → (serve_default std key ctx flag state).reason ≡ rollout
      → serve_default std key ctx flag (with_rollout q state) ≡ serve_default std key ctx flag state
  unfolding serve_default
  serve_default_mono flag state q le h =
      ground (arith, serve_variants-ne-rollout flag state state.variants)

  or_else_mono :
      (o : Option (EvalResult std.Float)) (d e : EvalResult std.Float)
      → (d.reason ≡ rollout → e ≡ d)
      → (or_else o d).reason ≡ rollout
      → or_else o e ≡ or_else o d
  or_else_mono none d e f h = f h
  or_else_mono (some r) d e f h = refl

  -- A user that a flag serves by a rollout keeps the same result when the default rollout of the
  -- flag is raised.
  pub serve-rollout_mono :
      (flag : Flag) (state : FlagState) (q : ℤ)
      → state.percentage_rollout ≤ℤ q
      → (serve std key ctx rs flag state).reason ≡ rollout
      → serve std key ctx rs flag (with_rollout q state) ≡ serve std key ctx rs flag state
  unfolding serve
  serve-rollout_mono flag state q le h =
      or_else_mono (walk_rules std key ctx rs (std.sort_rules state.rules))
        (serve_default std key ctx flag state)
        (serve_default std key ctx flag (with_rollout q state)) (serve_default_mono flag state q le)
        h

  -- The default rollout serves exactly the users whose bucket lies below its percentage: all of
  -- them from 10000 basis points on, and none at 0 or below.
  pub serve_default-rollout_iff :
      (flag : Flag) (state : FlagState)
      → (((serve_default std key ctx flag state).reason ≡ rollout)
          ↔ (pos (suc (bucket_user key ctx.key)) ≤ℤ state.percentage_rollout))
        × (pos 10000 ≤ℤ state.percentage_rollout
            → serve_default std key ctx flag state
              ≡ result std key (on_value std flag state) rollout)
        × (state.percentage_rollout ≤ℤ pos 0
            → (serve_default std key ctx flag state).reason ≢ rollout)
  unfolding serve_default
  serve_default-rollout_iff flag state = (
    (
      (λ h. ground (arith, serve_variants-ne-rollout flag state state.variants)),
      (λ h. ground arith),
    ),
    (λ h. ground (arith, bucket_user-lt key ctx.key)),
    (λ h. ground (arith, serve_variants-ne-rollout flag state state.variants)),
  )
