-- ===== src/Scheduler.antt =====
-- The scheduler: server/internal/scheduler/scheduler.go, with the statements of
-- server/internal/store/postgres/store.go that it sends. Each statement may fail.
mod Ticks
mod Settling
pub mod Accounts
mod Rounds
mod Fates
mod Tests
use featuresignals_unified.Base.{
  ℕ, ◌+◌, ◌*◌, Bool, true, false, not, ◌&&◌, ◌||◌, Option, none, some, List, [], ◌∷◌, ltb, leb,
  if◌then◌else◌,
}
use featuresignals_unified.Base.Int.{ℤ}
use featuresignals_unified.Base.Text.{Text, text_eq}
use featuresignals_unified.Domain.{FlagState}

-- The table flag_states: a row for each flag and environment.
abbrev pub States : Type 0
States = Text → Text → Option FlagState

-- `t != nil && !t.After(now)`
abbrev pub is_due : ℕ → Option ℕ → Bool
is_due now none = false
is_due now (some t) = leb t now

-- The condition of ListPendingSchedules.
abbrev pub is_pending : ℕ → FlagState → Bool
is_pending now fs = is_due now fs.scheduled_enable_at || is_due now fs.scheduled_disable_at

abbrev keep_pending : ℕ → Option FlagState → List FlagState → List FlagState
keep_pending now none rest = rest
keep_pending now (some fs) rest = if is_pending now fs then fs ∷ rest else rest

-- ListPendingSchedules; `keys` are the keys of the table in the order in which it is read.
unfoldable pub list_pending : ℕ → List (Text × Text) → States → List FlagState
list_pending now [] states = []
list_pending now ((flag, env) ∷ keys) states =
    keep_pending now (states flag env) (list_pending now keys states)

-- UpsertFlagState, which a fault leaves undone.
unfoldable pub upsert_flag_state : FlagState → States → States
upsert_flag_state fs states flag env =
    if text_eq fs.flag_id flag && text_eq fs.env_id env then some fs else states flag env

unfoldable pub apply_enable : ℕ → FlagState → FlagState
apply_enable now fs =
    if is_due now fs.scheduled_enable_at
    then record fs { enabled = true; scheduled_enable_at = none }
    else fs

unfoldable pub apply_disable : ℕ → FlagState → FlagState
apply_disable now fs =
    if is_due now fs.scheduled_disable_at
    then record fs { enabled = false; scheduled_disable_at = none }
    else fs

-- The table and the flags of the audit entries.
pub record Tables : Type 0 where
  pub states : States
  pub audited : List Text

-- What fails: the statement for a row, or its audit entry, whose error is dropped.
pub record Faults : Type 0 where
  pub upsert_fails : FlagState → Bool
  pub audit_fails : FlagState → Bool

unfoldable pub audit : Faults → FlagState → List Text → List Text
audit faults fs audited = if faults.audit_fails fs then audited else fs.flag_id ∷ audited

-- One round of the loop of tick.
unfoldable pub apply_schedule : Faults → ℕ → FlagState → Tables → Tables
unfolding audit
apply_schedule faults now fs t =
    let changed = apply_disable now (apply_enable now fs) in
    if not (is_pending now fs)
    then t
    else (if faults.upsert_fails changed then t else record {
      states = upsert_flag_state changed t.states;
      audited = audit faults changed t.audited;
    })

unfoldable pub apply_schedules : Faults → ℕ → List FlagState → Tables → Tables
unfolding apply_schedule
apply_schedules faults now [] t = t
apply_schedules faults now (fs ∷ pending) t =
    apply_schedules faults now pending (apply_schedule faults now fs t)

abbrev on_listed : Faults → ℕ → Tables → Option (List FlagState) → Tables
on_listed faults now t none = t
on_listed faults now t (some pending) = apply_schedules faults now pending t

-- tick: the lock as the store answers, `none` being an error, and whether the list fails.
unfoldable pub tick : Faults → Option Bool → Bool → ℕ → List (Text × Text) → Tables → Tables
unfolding apply_schedules
tick faults none list_fails now keys t = t
tick faults (some false) list_fails now keys t = t
tick faults (some true) list_fails now keys t =
    on_listed faults now t (if list_fails then none else some (list_pending now keys t.states))
