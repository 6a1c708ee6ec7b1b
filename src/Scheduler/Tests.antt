-- ===== src/Scheduler/Tests.antt =====
-- Concrete runs of the scheduler of server/internal/scheduler/scheduler.go.
use featuresignals_unified.Base.{
  ℕ, ◌≡◌, refl, Bool, true, false, Option, none, some, List, [], ◌∷◌, arith, if◌then◌else◌, ◌&&◌,
  ◌*◌,
}
use featuresignals_unified.Base.Int.{pos}
use featuresignals_unified.Base.Preds.{In}
use featuresignals_unified.Base.Text.{Text, bytes, text_eq, text_eq_iff}
use featuresignals_unified.Domain.{FlagState}
use featuresignals_unified.Scheduler.{States, Tables, Faults, list_pending, tick}
use featuresignals_unified.Scheduler.Accounts.{
  Org, Orgs, Limits, Mishaps, day, hourly_jobs, ticks_per_hour, count_tick, Subscription,
  cancel_past_due,
}
use featuresignals_unified.Scheduler.Ticks.{IsKeyed, settled_row, Advanced, tick-Advanced}
use featuresignals_unified.Scheduler.Settling.{tick-settled}
use featuresignals_unified.Scheduler.Fates.{Fate, hourly_jobs-Fate}

abbrev state_of : Bool → Option ℕ → Option ℕ → FlagState
state_of on enable_at disable_at = record {
  id = bytes "s";
  flag_id = bytes "f";
  env_id = bytes "e";
  enabled = on;
  default_value = none;
  rules = [];
  percentage_rollout = pos 0;
  variants = [];
  scheduled_enable_at = enable_at;
  scheduled_disable_at = disable_at;
}

abbrev one_row : FlagState → States
one_row fs flag env = if text_eq fs.flag_id flag && text_eq fs.env_id env then some fs else none

one_row-IsKeyed : (fs : FlagState) → IsKeyed (one_row fs)
one_row-IsKeyed fs flag env x e =
    ground (arith, e, text_eq_iff fs.flag_id flag, text_eq_iff fs.env_id env)

abbrev tables : Tables
tables = record { states = one_row (state_of false (some 5) (some 9)); audited = [] }

abbrev keys : List (Text × Text)
keys = (bytes "f", bytes "e") ∷ []

-- The audit entry is lost.
abbrev lossy : Faults
lossy = record { upsert_fails = λ _. false; audit_fails = λ _. true }

tick_tests :
    ((tick lossy (some true) false 7 keys tables).states (bytes "f") (bytes "e")
      ≡ some (state_of true none (some 9)))
    × ((tick lossy (some true) false 9 keys tables).states (bytes "f") (bytes "e")
        ≡ some (state_of false none none))
    × ((tick lossy (some false) false 9 keys tables).states (bytes "f") (bytes "e")
        ≡ some (state_of false (some 5) (some 9)))
unfolding tick list_pending text_eq featuresignals_unified.Scheduler.upsert_flag_state
    featuresignals_unified.Scheduler.apply_disable featuresignals_unified.Scheduler.apply_enable
tick_tests = (refl, refl, refl)

tick-settled_example :
    ((flag env : Text)
      → In (flag, env) keys
      → (tick lossy (some true) false 7 keys tables).states flag env
        ≡ settled_row 7 (tables.states flag env))
    × (list_pending 7 keys (tick lossy (some true) false 7 keys tables).states ≡ [])
tick-settled_example =
    tick-settled lossy (λ _. refl) 7 keys tables
      (one_row-IsKeyed (state_of false (some 5) (some 9)))

tick-Advanced_example :
    Advanced lossy 7 tables.states
      (tick lossy (some true) false 7 keys tables)
      (bytes "f")
      (bytes "e")
tick-Advanced_example =
    tick-Advanced lossy (some true) false 7 keys tables
      (one_row-IsKeyed (state_of false (some 5) (some 9))) (bytes "f") (bytes "e")

abbrev free : Limits
free = record { seats = pos 3; projects = pos 1; environments = pos 3 }

abbrev calm : Mishaps
calm = record { list_fails = false; fails = λ _. false }

abbrev org_of : Text → Option ℕ → Option ℕ → Org
org_of plan trial deleted = record {
  plan = plan;
  trial_expires_at = trial;
  deleted_at = deleted;
  seats_limit = pos 3;
  projects_limit = pos 1;
  environments_limit = pos 3;
  logins = 0 ∷ [];
}

abbrev orgs : Orgs
orgs id = if text_eq id (bytes "a") then some (org_of (bytes "trial") (some day) none) else none

-- A trial that is over and unused is made free and marked as deleted in one round, and removed in a
-- later one.
hourly_tests :
    (hourly_jobs free calm calm calm calm (91 * day) (bytes "a" ∷ []) [] orgs (bytes "a")
      ≡ some (org_of (bytes "free") none (some (91 * day))))
    × (hourly_jobs free calm calm calm calm
          (182 * day)
          (bytes "a" ∷ [])
          []
          (hourly_jobs free calm calm calm calm (91 * day) (bytes "a" ∷ []) [] orgs)
          (bytes "a")
        ≡ none)
unfolding hourly_jobs featuresignals_unified.Scheduler.Accounts.hard_delete_expired_orgs
    featuresignals_unified.Scheduler.Accounts.for_orgs
    featuresignals_unified.Scheduler.Accounts.list_orgs
    featuresignals_unified.Scheduler.Accounts.soft_delete_inactive_orgs
    featuresignals_unified.Scheduler.Accounts.downgrade_past_due
    featuresignals_unified.Scheduler.Accounts.auto_downgrade_expired_trials text_eq
    featuresignals_unified.Scheduler.Accounts.is_inactive
    featuresignals_unified.Scheduler.Accounts.to_free
    featuresignals_unified.Scheduler.Accounts.to_deleted
    featuresignals_unified.Scheduler.Accounts.is_long_deleted
hourly_tests = (refl, refl)

hourly_jobs-Fate_example :
    Fate
      (91 * day)
      (orgs (bytes "a"))
      (hourly_jobs free calm calm calm calm (91 * day) (bytes "a" ∷ []) [] orgs (bytes "a"))
hourly_jobs-Fate_example =
    hourly_jobs-Fate free calm calm calm calm (91 * day) (bytes "a" ∷ []) [] orgs (bytes "a")

counter_tests :
    (ticks_per_hour (30 * 1000000000) ≡ 120) × (count_tick (30 * 1000000000) 119 ≡ (120, true))
unfolding ticks_per_hour count_tick
counter_tests = (refl, refl)
