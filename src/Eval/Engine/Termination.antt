-- ===== src/Eval/Engine/Termination.antt =====
-- The evaluation of any flag ends, whatever cycles the prerequisites have.
use featuresignals_unified.Base.{
  ℕ, zero, suc, ◌≤◌, ◌<◌, ◌≡◌, refl, Bool, false, Option, none, some, List, [], ◌∷◌, arith, length,
  Bool-cases, inl, inr, if◌then◌else◌,
}
use featuresignals_unified.Base.Text.{Text, text_eq_iff}
use featuresignals_unified.Base.Assoc.{lookup}
use featuresignals_unified.Domain.{Flag, FlagState, Ruleset, EvalContext, EvalResult}
use featuresignals_unified.Eval.Std.{Std}
use featuresignals_unified.Eval.Engine.{
  Outcome, outcome_result, member, is_nil, continue_check, check_prerequisites, after_check,
  evaluate_enabled, evaluate_found, evaluate_looked_up, eval_fuel, evaluate, blocks,
}

-- How many flags of the list are not in `visited`.
unvisited : List (Text × Flag) → List Text → ℕ
unvisited [] visited = 0
unvisited ((k, _) ∷ fs) visited =
    if member k visited then unvisited fs visited else suc (unvisited fs visited)

unvisited_nil : (fs : List (Text × Flag)) → unvisited fs [] ≡ length fs
unfolding unvisited member
unvisited_nil [] = refl
unvisited_nil ((k, f) ∷ fs) = omega (arith, unvisited_nil fs)

unvisited_cons-le :
    (fs : List (Text × Flag)) (k : Text) (v : List Text) → unvisited fs (k ∷ v) ≤ unvisited fs v
unfolding unvisited member
unvisited_cons-le [] k v = omega arith
unvisited_cons-le ((j, f) ∷ fs) k v = ground (arith, unvisited_cons-le fs k v)

unvisited_cons-lt :
    (fs : List (Text × Flag)) (k : Text) (v : List Text) (f : Flag)
    → lookup k fs ≡ some f
    → member k v ≡ false
    → unvisited fs (k ∷ v) < unvisited fs v
unfolding unvisited member lookup
unvisited_cons-lt [] k v f h m = cc
unvisited_cons-lt ((j, g) ∷ fs) k v f h m =
    ground (
      arith,
      unvisited_cons-lt fs k v f,
      unvisited_cons-le fs k v,
      text_eq_iff j k,
      text_eq_iff k j,
    )

module _ (std : Std) (now : ℕ) (ctx : EvalContext std.Float) (rs : Ruleset) where
  -- There is a result, and the set of visited flags has not shrunk.
  abbrev Ends : List Text → Outcome std → Type 0
  Ends v none = ⊥
  Ends v (some (r, v')) = unvisited rs.flags v' ≤ unvisited rs.flags v

  abbrev EndsCheck : List Text → Option (Bool × List Text) → Type 0
  EndsCheck v none = ⊥
  EndsCheck v (some (b, v')) = unvisited rs.flags v' ≤ unvisited rs.flags v

  -- The recursive call ends on every flag not yet visited, below a bound on the unvisited ones.
  abbrev EndsBelow : ℕ → (Text → List Text → Outcome std) → Type 0
  EndsBelow n rec =
      (p : Text) (v : List Text) → member p v ≡ false → unvisited rs.flags v < n → Ends v (rec p v)

  EndsCheck-weaken :
      (v w : List Text) (o : Option (Bool × List Text))
      → unvisited rs.flags v ≤ unvisited rs.flags w
      → EndsCheck v o
      → EndsCheck w o
  EndsCheck-weaken v w none le h = h
  EndsCheck-weaken v w (some (b, v')) le h = omega arith

  continue_check-Ends :
      (n : ℕ) (v : List Text) (next : List Text → Option (Bool × List Text)) (o : Outcome std)
      → ((w : List Text) → unvisited rs.flags w < n → EndsCheck w (next w))
      → unvisited rs.flags v < n
      → Ends v o
      → EndsCheck v (continue_check std next o)
  unfolding continue_check
  continue_check-Ends n v next none h lt e = e
  continue_check-Ends n v next (some (r, w)) h lt e =
      elim (Bool-cases (blocks std r.reason r.value)) [
        | inl stop ↦ rw stop e
        | inr go ↦ rw go (EndsCheck-weaken w v (next w) e (h w (omega arith)))
      ]

  check_prerequisites-Ends :
      (n : ℕ) (rec : Text → List Text → Outcome std) (ps v : List Text)
      → EndsBelow n rec
      → unvisited rs.flags v < n
      → EndsCheck v (check_prerequisites std rec ps v)
  unfolding check_prerequisites
  check_prerequisites-Ends n rec [] v h lt = omega arith
  check_prerequisites-Ends n rec (p ∷ ps) v h lt = elim (Bool-cases (member p v)) [
    | inl old ↦ rw old (omega arith)
    | inr new ↦ rw new (
        continue_check-Ends n v (check_prerequisites std rec ps) (rec p v)
          (λ w. check_prerequisites-Ends n rec ps w h) lt (h p v new lt))
  ]

  after_check-Ends :
      (key : Text) (flag : Flag) (state : FlagState) (v w : List Text)
      (o : Option (Bool × List Text))
      → unvisited rs.flags w ≤ unvisited rs.flags v
      → EndsCheck w o
      → Ends v (after_check std now ctx rs key flag state o)
  unfolding after_check
  after_check-Ends key flag state v w none le h = h
  after_check-Ends key flag state v w (some (b, w')) le h = omega arith

  evaluate_enabled-Ends :
      (n : ℕ) (rec : Text → List Text → Outcome std) (key : Text) (v : List Text) (flag : Flag)
      (state : FlagState)
      → EndsBelow n rec
      → lookup key rs.flags ≡ some flag
      → member key v ≡ false
      → unvisited rs.flags v < suc n
      → Ends v (evaluate_enabled std now ctx rs rec key v flag state)
  unfolding evaluate_enabled
  evaluate_enabled-Ends n rec key v flag state h found new lt =
      elim (Bool-cases (is_nil flag.prerequisites)) [
        | inl e ↦ rw e (omega arith)
        | inr e ↦ rw e (
            after_check-Ends key flag state v (key ∷ v) _ (unvisited_cons-le rs.flags key v) (
              check_prerequisites-Ends n rec flag.prerequisites (key ∷ v) h
                (omega (arith, unvisited_cons-lt rs.flags key v flag found new))))
      ]

  evaluate_found-Ends :
      (n : ℕ) (rec : Text → List Text → Outcome std) (key : Text) (v : List Text) (flag : Flag)
      (state : Option FlagState)
      → EndsBelow n rec
      → lookup key rs.flags ≡ some flag
      → member key v ≡ false
      → unvisited rs.flags v < suc n
      → Ends v (evaluate_found std now ctx rs rec key v flag state)
  unfolding evaluate_found
  evaluate_found-Ends n rec key v flag none h found new lt = omega arith
  evaluate_found-Ends n rec key v flag (some state) h found new lt =
      ground (arith, evaluate_enabled-Ends n rec key v flag state h found new lt)

  evaluate_looked_up-Ends :
      (n : ℕ) (rec : Text → List Text → Outcome std) (key : Text) (v : List Text) (o : Option Flag)
      → EndsBelow n rec
      → lookup key rs.flags ≡ o
      → member key v ≡ false
      → unvisited rs.flags v < suc n
      → Ends v (evaluate_looked_up std now ctx rs rec key v o)
  unfolding evaluate_looked_up
  evaluate_looked_up-Ends n rec key v none h found new lt = omega arith
  evaluate_looked_up-Ends n rec key v (some flag) h found new lt =
      evaluate_found-Ends n rec key v flag (lookup key rs.states) h found new lt

  eval_fuel-Ends :
      (n : ℕ) (key : Text) (v : List Text)
      → member key v ≡ false
      → unvisited rs.flags v < n
      → Ends v (eval_fuel std now ctx rs n key v)
  unfolding eval_fuel
  eval_fuel-Ends zero key v new lt = absurd (omega arith)
  eval_fuel-Ends (suc n) key v new lt =
      evaluate_looked_up-Ends n (eval_fuel std now ctx rs n) key v (lookup key rs.flags)
        (λ p w. eval_fuel-Ends n p w) refl new lt

  result_of_Ends :
      (v : List Text) (o : Outcome std)
      → Ends v o
      → (r : EvalResult std.Float) × (outcome_result std o ≡ some r)
  result_of_Ends v none h = absurd h
  result_of_Ends v (some (r, w)) h = (r, refl)

  -- Evaluating a flag always ends with a result, whatever the flags, their prerequisites (cycles
  -- included), the rules and the user.
  pub evaluate_total :
      (key : Text) → (r : EvalResult std.Float) × (evaluate std now ctx rs key ≡ some r)
  unfolding evaluate
  evaluate_total key = result_of_Ends [] (eval_fuel std now ctx rs (suc (length rs.flags)) key []) (
      eval_fuel-Ends (suc (length rs.flags)) key [] (unfold member in refl)
        (omega (arith, unvisited_nil rs.flags)))
