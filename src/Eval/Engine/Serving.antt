-- ===== src/Eval/Engine/Serving.antt =====
-- Which rule of an enabled flag is served, and the default rollout.
use featuresignals_unified.Base.{
  ◌≡◌, refl, ◌⊎◌, inl, inr, Option, none, some, List, [], ◌∷◌, arith, ap,
}
use mathlib.Core.Path.{subst}
use featuresignals_unified.Base.Int.{◌≤ℤ◌}
use featuresignals_unified.Base.Preds.{All, In, In-All, All-In}
use featuresignals_unified.Base.Text.{Text}
use featuresignals_unified.Domain.{
  Flag, FlagState, TargetingRule, Ruleset, EvalContext, EvalResult, Reason,
}
use featuresignals_unified.Eval.Std.{Std, IsSorted, SortLaws}
use featuresignals_unified.Eval.Engine.{
  result, or_else, serve_or, serve_rule, walk_rules, serve_default, serve,
}

module _ (std : Std) (key : Text) (ctx : EvalContext std.Float) (rs : Ruleset) where
  -- The rule is served: it matches, and its rollout takes the user in.
  abbrev pub Serves : TargetingRule → Reason → Type 0
  Serves r reason = serve_rule std key ctx rs r ≡ some reason

  abbrev pub IsPassed : TargetingRule → Type 0
  IsPassed r = serve_rule std key ctx rs r ≡ none

  -- The rule of `rules` that is served for `res`: no served rule has a smaller priority.
  pub record FirstServed (rules : List TargetingRule) (res : EvalResult std.Float) : Type 0 where
    pub rule : TargetingRule
    pub reason : Reason
    pub listed : In rule rules
    pub serves : Serves rule reason
    pub shown : res ≡ result std key rule.value reason
    pub lowest :
        (s : TargetingRule)
        → In s rules
        → (why : Reason) → Serves s why
        → rule.priority ≤ℤ s.priority

  abbrev Walked : List TargetingRule → Option (EvalResult std.Float) → Type 0
  Walked rules none = All IsPassed rules
  Walked rules (some res) = FirstServed rules res

  FirstServed-cons :
      (rule : TargetingRule) (rules : List TargetingRule) (res : EvalResult std.Float)
      → IsPassed rule
      → FirstServed rules res
      → FirstServed (rule ∷ rules) res
  FirstServed-cons rule rules res e f = record {
    rule = f.rule;
    reason = f.reason;
    listed = inr f.listed;
    serves = f.serves;
    shown = f.shown;
    lowest = λ s m why served. elim m [
      | inl same ↦ absurd (cc (ap (λ r. serve_rule std key ctx rs r) same, e, served))
      | inr later ↦ f.lowest s later why served
    ];
  }

  FirstServed-head :
      (rule : TargetingRule) (rules : List TargetingRule) (reason : Reason)
      → Serves rule reason
      → All (λ s. rule.priority ≤ℤ s.priority) rules
      → FirstServed (rule ∷ rules) (result std key rule.value reason)
  FirstServed-head rule rules reason e le = record {
    rule = rule;
    reason = reason;
    listed = inl refl;
    serves = e;
    shown = refl;
    lowest = λ s m why served. elim m [
      | inl same ↦ subst (λ (x : TargetingRule). rule.priority ≤ℤ x.priority) same (omega arith)
      | inr later ↦ In-All (λ s. rule.priority ≤ℤ s.priority) rules le later
    ];
  }

  Walked-pass :
      (rule : TargetingRule) (rules : List TargetingRule) (o : Option (EvalResult std.Float))
      → IsPassed rule
      → Walked rules o
      → Walked (rule ∷ rules) o
  Walked-pass rule rules none e w = (e, w)
  Walked-pass rule rules (some res) e w = FirstServed-cons rule rules res e w

  serve_or-Walked :
      (rule : TargetingRule) (rules : List TargetingRule) (rest : Option (EvalResult std.Float))
      (o : Option Reason)
      → serve_rule std key ctx rs rule ≡ o
      → All (λ s. rule.priority ≤ℤ s.priority) rules
      → Walked rules rest
      → Walked (rule ∷ rules) (serve_or std key rule rest o)
  unfolding serve_or
  serve_or-Walked rule rules rest none e le w = Walked-pass rule rules rest e w
  serve_or-Walked rule rules rest (some reason) e le w = FirstServed-head rule rules reason e le

  walk_rules-Walked :
      (rules : List TargetingRule) → IsSorted rules → Walked rules (walk_rules std key ctx rs rules)
  unfolding walk_rules
  walk_rules-Walked [] h = tt
  walk_rules-Walked (rule ∷ rules) h =
      serve_or-Walked rule rules (walk_rules std key ctx rs rules) (serve_rule std key ctx rs rule)
        refl h.0 (walk_rules-Walked rules h.1)

  -- What the rules of an enabled flag come to.
  abbrev pub ServedByRules : Flag → FlagState → Type 0
  ServedByRules flag state =
      FirstServed state.rules (serve std key ctx rs flag state)
      ⊎ (All IsPassed state.rules
          × (serve std key ctx rs flag state ≡ serve_default std key ctx flag state))

  module _ (laws : SortLaws std) (flag : Flag) (state : FlagState) where
    unsort :
        (res : EvalResult std.Float)
        → FirstServed (std.sort_rules state.rules) res
        → FirstServed state.rules res
    unsort res f = record {
      rule = f.rule;
      reason = f.reason;
      listed = laws.sound f.rule state.rules f.listed;
      serves = f.serves;
      shown = f.shown;
      lowest = λ s m why served. f.lowest s (laws.complete s state.rules m) why served;
    }

    of_walk :
        (o : Option (EvalResult std.Float))
        → Walked (std.sort_rules state.rules) o
        → FirstServed state.rules (or_else o (serve_default std key ctx flag state))
          ⊎ (All IsPassed state.rules
              × (or_else o (serve_default std key ctx flag state)
                  ≡ serve_default std key ctx flag state))
    of_walk (some res) w = inl (unsort res w)
    of_walk none w = inr (
      All-In IsPassed state.rules
          (λ s m. In-All IsPassed (std.sort_rules state.rules) w (laws.complete s state.rules m)),
      refl,
    )

    -- An enabled flag serves the value of a rule that matches and takes the user in, with no such
    -- rule of a smaller priority; or, when no rule matches and takes the user in, the default
    -- rollout decides.
    pub serve-by_priority : ServedByRules flag state
    unfolding serve
    serve-by_priority =
        of_walk (walk_rules std key ctx rs (std.sort_rules state.rules))
          (walk_rules-Walked (std.sort_rules state.rules) (laws.sorted state.rules))
