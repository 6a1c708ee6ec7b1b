-- ===== src/Eval/Engine/Gates.antt =====
-- When a flag is on for a user: the tests that come before its rules, prerequisites included.
use featuresignals_unified.Base.{
  ℕ, ◌≡◌, refl, ◌⊎◌, inl, inr, Bool, true, false, not, ◌&&◌, ◌||◌, Option, none, some, List, [],
  ◌∷◌, arith, length, Bool-cases,
}
use mathlib.Core.Path.{subst}
use featuresignals_unified.Base.Preds.{All}
use featuresignals_unified.Base.Text.{Text}
use featuresignals_unified.Base.Assoc.{lookup}
use featuresignals_unified.Domain.{
  Flag, FlagState, Ruleset, TargetingRule, EvalContext, EvalResult, Reason, targeted, rollout,
  fallthrough, variant, not_found, disabled, mutually_excluded, prerequisite_failed,
}
use featuresignals_unified.Eval.Std.{Std}
use featuresignals_unified.Eval.Engine.{
  Outcome, outcome_result, result, member, is_nil, or_else, is_expired, wins_mutex_group, blocks,
  serve, serve_rule, serve_or, walk_rules, serve_default, serve_variants, evaluate_variant,
  continue_check, check_prerequisites, after_check, evaluate_enabled, evaluate_found,
  evaluate_looked_up, eval_fuel, evaluate,
}

-- The reasons of a flag that is on.
abbrev pub is_on : Reason → Bool
is_on targeted = true
is_on rollout = true
is_on fallthrough = true
is_on variant = true
is_on _ = false

module _ (std : Std) (now : ℕ) (ctx : EvalContext std.Float) (rs : Ruleset) where
  abbrev Eval : Type 0
  Eval = Text → List Text → Outcome std

  -- The recursive call on `p` gave a result that does not block.
  pub record Passed (rec : Text → List Text → Outcome std) (p : Text) : Type 0 where
    pub before : List Text
    pub result : EvalResult std.Float
    pub after : List Text
    pub fresh : member p before ≡ false
    pub evaluated : rec p before ≡ some (result, after)
    pub passes : blocks std result.reason result.value ≡ false

  pub record IsOpen (rec : Text → List Text → Outcome std) (key : Text) (r : EvalResult std.Float)
      : Type 0 where
    pub flag : Flag
    pub state : FlagState
    pub found : lookup key rs.flags ≡ some flag
    pub configured : lookup key rs.states ≡ some state
    pub live : is_expired now flag.expires_at ≡ false
    pub enabled : state.enabled ≡ true
    pub grouped :
        (flag.mutual_exclusion_group ≡ [])
        ⊎ (wins_mutex_group key flag.mutual_exclusion_group ctx.key rs ≡ true)
    pub prerequisites : All (Passed rec) flag.prerequisites
    pub served : r ≡ serve std key ctx rs flag state

  abbrev pub IsShut : Text → EvalResult std.Float → Type 0
  IsShut key r =
      ((lookup key rs.flags ≡ none) × (r ≡ result std key none not_found))
      ⊎ ((flag : Flag) × (lookup key rs.flags ≡ some flag)
          × (r ≡ result std key flag.default_value r.reason))

  abbrev pub Verdict : (Text → List Text → Outcome std) → Text → EvalResult std.Float → Type 0
  Verdict rec key r =
      ((is_on r.reason ≡ true) × IsOpen rec key r) ⊎ ((is_on r.reason ≡ false) × IsShut key r)

  abbrev Judged : (Text → List Text → Outcome std) → Text → Outcome std → Type 0
  Judged rec key none = Unit
  Judged rec key (some (r, _)) = Verdict rec key r

  serve_variants-is_on :
      (key : Text) (flag : Flag) (state : FlagState)
      → is_on (serve_variants std key ctx flag state state.variants).reason ≡ true
  unfolding serve_variants evaluate_variant
  serve_variants-is_on key flag state = ground arith

  serve_default-is_on :
      (key : Text) (flag : Flag) (state : FlagState)
      → is_on (serve_default std key ctx flag state).reason ≡ true
  unfolding serve_default
  serve_default-is_on key flag state = ground (arith, serve_variants-is_on key flag state)

  walk_rules-is_on :
      (key : Text) (rules : List TargetingRule) (d : EvalResult std.Float)
      → is_on d.reason ≡ true
      → is_on (or_else (walk_rules std key ctx rs rules) d).reason ≡ true
  unfolding walk_rules serve_or serve_rule
  walk_rules-is_on key [] d h = h
  walk_rules-is_on key (rule ∷ rules) d h = ground (arith, walk_rules-is_on key rules d h)

  serve-is_on :
      (key : Text) (flag : Flag) (state : FlagState)
      → is_on (serve std key ctx rs flag state).reason ≡ true
  unfolding serve
  serve-is_on key flag state =
      walk_rules-is_on key (std.sort_rules state.rules) (serve_default std key ctx flag state)
        (serve_default-is_on key flag state)

  abbrev Checked : Eval → List Text → Option (Bool × List Text) → Type 0
  Checked rec ps none = Unit
  Checked rec ps (some (true, _)) = All (Passed rec) ps
  Checked rec ps (some (false, _)) = Unit

  Checked-cons :
      (rec : Eval) (p : Text) (ps : List Text) (o : Option (Bool × List Text))
      → Passed rec p
      → Checked rec ps o
      → Checked rec (p ∷ ps) o
  Checked-cons rec p ps none h k = tt
  Checked-cons rec p ps (some (true, v)) h k = (h, k)
  Checked-cons rec p ps (some (false, v)) h k = tt

  continue_check-Checked :
      (rec : Eval) (p : Text) (ps v : List Text) (next : List Text → Option (Bool × List Text))
      (o : Outcome std)
      → rec p v ≡ o
      → member p v ≡ false
      → ((w : List Text) → Checked rec ps (next w))
      → Checked rec (p ∷ ps) (continue_check std next o)
  unfolding continue_check
  continue_check-Checked rec p ps v next none e fresh h = tt
  continue_check-Checked rec p ps v next (some (r, w)) e fresh h =
      elim (Bool-cases (blocks std r.reason r.value)) [
        | inl stop ↦ rw stop tt
        | inr go ↦ rw go (
            Checked-cons rec p ps (next w)
              (record {
                before = v;
                result = r;
                after = w;
                fresh = fresh;
                evaluated = e;
                passes = go;
              })
              (h w))
      ]

  check_prerequisites-Checked :
      (rec : Eval) (ps v : List Text) → Checked rec ps (check_prerequisites std rec ps v)
  unfolding check_prerequisites
  check_prerequisites-Checked rec [] v = tt
  check_prerequisites-Checked rec (p ∷ ps) v = elim (Bool-cases (member p v)) [
    | inl old ↦ rw old tt
    | inr fresh ↦ rw fresh (
        continue_check-Checked rec p ps v (check_prerequisites std rec ps) (rec p v) refl fresh
          (check_prerequisites-Checked rec ps))
  ]

  abbrev lost_group : Text → Flag → Bool
  lost_group key flag =
      not (is_nil flag.mutual_exclusion_group)
      && not (wins_mutex_group key flag.mutual_exclusion_group ctx.key rs)

  grouped_of_not_lost :
      (key : Text) (flag : Flag)
      → lost_group key flag ≡ false
      → (flag.mutual_exclusion_group ≡ [])
        ⊎ (wins_mutex_group key flag.mutual_exclusion_group ctx.key rs ≡ true)
  grouped_of_not_lost key flag h = ground arith

  module _ (rec : Eval) (key : Text) (flag : Flag) (found : lookup key rs.flags ≡ some flag) where
    shut :
        (reason : Reason)
        → is_on reason ≡ false
        → Verdict rec key (result std key flag.default_value reason)
    shut reason h = inr (h, inr (flag, found, refl))

    module _ (state : FlagState) (configured : lookup key rs.states ≡ some state)
        (live : is_expired now flag.expires_at ≡ false) (enabled : state.enabled ≡ true)
        (grouped : (flag.mutual_exclusion_group ≡ [])
          ⊎ (wins_mutex_group key flag.mutual_exclusion_group ctx.key rs ≡ true)) where
      opened :
          All (Passed rec) flag.prerequisites → Verdict rec key (serve std key ctx rs flag state)
      opened h = inl (
        serve-is_on key flag state,
        record {
          flag = flag;
          state = state;
          found = found;
          configured = configured;
          live = live;
          enabled = enabled;
          grouped = grouped;
          prerequisites = h;
          served = refl;
        },
      )

      after_check-Judged :
          (o : Option (Bool × List Text))
          → Checked rec flag.prerequisites o
          → Judged rec key (after_check std now ctx rs key flag state o)
      unfolding after_check
      after_check-Judged none h = tt
      after_check-Judged (some (true, v)) h = opened h
      after_check-Judged (some (false, v)) h = shut prerequisite_failed refl

      no_prerequisites : is_nil flag.prerequisites ≡ true → All (Passed rec) flag.prerequisites
      no_prerequisites = go flag.prerequisites
        where
          go : (ps : List Text) → is_nil ps ≡ true → All (Passed rec) ps
          go [] h = tt
          go (p ∷ ps) h = absurd (cc h)

      evaluate_enabled-Judged :
          (v : List Text) → Judged rec key (evaluate_enabled std now ctx rs rec key v flag state)
      unfolding evaluate_enabled
      evaluate_enabled-Judged v = elim (Bool-cases (is_nil flag.prerequisites)) [
        | inl e ↦ rw e (opened (no_prerequisites e))
        | inr e ↦ rw e (
            after_check-Judged (check_prerequisites std rec flag.prerequisites (key ∷ v))
              (check_prerequisites-Checked rec flag.prerequisites (key ∷ v)))
      ]

    evaluate_found-Judged :
        (v : List Text) (o : Option FlagState)
        → lookup key rs.states ≡ o
        → Judged rec key (evaluate_found std now ctx rs rec key v flag o)
    unfolding evaluate_found
    evaluate_found-Judged v none e = shut disabled refl
    evaluate_found-Judged v (some state) e =
        elim (Bool-cases (is_expired now flag.expires_at || not state.enabled)) [
          | inl off ↦ rw off (shut disabled refl)
          | inr on ↦ rw on (elim (Bool-cases (lost_group key flag)) [
            | inl lost ↦ rw lost (shut mutually_excluded refl)
            | inr won ↦ rw won (
                evaluate_enabled-Judged state e (ground arith) (ground arith)
                  (grouped_of_not_lost key flag won) v)
          ])
        ]

  evaluate_looked_up-Judged :
      (rec : Eval) (key : Text) (v : List Text) (o : Option Flag)
      → lookup key rs.flags ≡ o
      → Judged rec key (evaluate_looked_up std now ctx rs rec key v o)
  unfolding evaluate_looked_up
  evaluate_looked_up-Judged rec key v none e = inr (refl, inl (e, refl))
  evaluate_looked_up-Judged rec key v (some flag) e =
      evaluate_found-Judged rec key flag e v (lookup key rs.states) refl

  Judged-result :
      (rec : Eval) (key : Text) (o : Outcome std) (r : EvalResult std.Float)
      → Judged rec key o
      → outcome_result std o ≡ some r
      → Verdict rec key r
  Judged-result rec key none r h e = absurd (cc e)
  Judged-result rec key (some (q, v)) r h e =
      let same : q ≡ r = cc e in subst (Verdict rec key) same h

  -- The recursive call that the evaluation of a flag makes on its prerequisites.
  abbrev pub recursive_call : Eval
  recursive_call = eval_fuel std now ctx rs (length rs.flags)

  -- A result of evaluating a flag is of one of two kinds. If its reason is TARGETED, ROLLOUT,
  -- FALLTHROUGH or VARIANT, the flag is in the ruleset, is not expired, has a state that is
  -- enabled, wins its exclusion group if it names one, and each of its prerequisites was evaluated
  -- to a result that does not block; the result is what the flag's rules and rollouts serve. With
  -- any other reason the flag is not in the ruleset and the result is NOT_FOUND with a null value,
  -- or the value is the flag's default value.
  pub evaluate_gates :
      (key : Text) (r : EvalResult std.Float)
      → evaluate std now ctx rs key ≡ some r
      → Verdict recursive_call key r
  unfolding evaluate eval_fuel
  evaluate_gates key r e =
      Judged-result recursive_call key
        (evaluate_looked_up std now ctx rs recursive_call key [] (lookup key rs.flags)) r
        (evaluate_looked_up-Judged recursive_call key [] (lookup key rs.flags) refl) e
