-- ===== src/Scheduler/Accounts.antt =====
-- The hourly jobs on organizations: server/internal/scheduler/scheduler.go, with the statements of
-- server/internal/store/postgres/store.go. The time of a tick is one instant for all its jobs.
use featuresignals_unified.Base.{
  ℕ, suc, ◌+◌, ◌*◌, ◌%◌, ◌/◌, Bool, true, false, not, ◌&&◌, ◌||◌, Option, none, some, List, [], ◌∷◌,
  ltb, ◌==◌, if◌then◌else◌,
}
use featuresignals_unified.Base.Int.{ℤ}
use featuresignals_unified.Base.Text.{Text, bytes, text_eq}

-- A row of organizations, with the last logins of its members.
pub record Org : Type 0 where
  pub plan : Text
  pub trial_expires_at : Option ℕ
  pub deleted_at : Option ℕ
  pub seats_limit : ℤ
  pub projects_limit : ℤ
  pub environments_limit : ℤ
  pub logins : List ℕ

pub record Limits : Type 0 where
  pub seats : ℤ
  pub projects : ℤ
  pub environments : ℤ

abbrev pub Orgs : Type 0
Orgs = Text → Option Org

-- A day, in nanoseconds. `AddDate(0, 0, -n)` is `n` of these in the server's zone, UTC.
abbrev pub day : ℕ
day = 24 * 60 * 60 * 1000000000

abbrev pub trial_duration_days : ℕ
trial_duration_days = 14

abbrev pub soft_delete_inactive_days : ℕ
soft_delete_inactive_days = 90

abbrev pub hard_delete_grace_days : ℕ
hard_delete_grace_days = 90

-- `t < now - n days`
abbrev pub before_days : ℕ → ℕ → ℕ → Bool
before_days n now t = ltb (t + n * day) now

unfoldable pub any_login_since : ℕ → ℕ → List ℕ → Bool
any_login_since n now [] = false
any_login_since n now (t ∷ ts) = ltb now (t + n * day) || any_login_since n now ts

-- The condition of ListInactiveOrgs, for logins after `n` days before `now`.
unfoldable pub is_inactive : Text → ℕ → ℕ → Org → Bool
unfolding any_login_since
is_inactive plan n now o =
    text_eq o.plan plan
    && (elim (o.deleted_at) [ none ↦ true | some _ ↦ false ])
    && not (any_login_since n now o.logins)

-- The condition of ListSoftDeletedOrgs.
unfoldable pub is_long_deleted : ℕ → Org → Bool
is_long_deleted now o = elim (o.deleted_at) [
  | none ↦ false
  | some t ↦ before_days hard_delete_grace_days now t
]

abbrev pub keep_org : (Org → Bool) → Text → Option Org → List Text → List Text
keep_org test id none rest = rest
keep_org test id (some o) rest = if test o then id ∷ rest else rest

-- A list query: the organizations among `ids` that the condition takes.
unfoldable pub list_orgs : (Org → Bool) → List Text → Orgs → List Text
list_orgs test [] orgs = []
list_orgs test (id ∷ ids) orgs = keep_org test id (orgs id) (list_orgs test ids orgs)

abbrev pub update_org : Text → (Option Org → Option Org) → Orgs → Orgs
update_org id f orgs k = if text_eq id k then f (orgs k) else orgs k

abbrev pub on_row : (Org → Option Org) → Option Org → Option Org
on_row f none = none
on_row f (some o) = f o

-- DowngradeOrgToFree; `free` are the defaults of the free tier.
unfoldable pub to_free : Limits → Org → Option Org
to_free free o = some (record o {
  plan = bytes "free";
  trial_expires_at = none;
  seats_limit = free.seats;
  projects_limit = free.projects;
  environments_limit = free.environments;
})

-- SoftDeleteOrganization
unfoldable pub to_deleted : ℕ → Org → Option Org
to_deleted now o = elim (o.deleted_at) [
  | none ↦ some (record o { deleted_at = some now })
  | some _ ↦ some o
]

-- HardDeleteOrganization
abbrev pub to_nothing : Org → Option Org
to_nothing o = none

-- The loop of a job over the organizations that it lists. `fails` tells for which the statement
-- fails, and `test` which the job passes over.
unfoldable pub for_orgs : (Text → Bool) → (Org → Option Org) → List Text → Orgs → Orgs
for_orgs fails f [] orgs = orgs
for_orgs fails f (id ∷ ids) orgs =
    for_orgs fails f ids (if fails id then orgs else update_org id (on_row f) orgs)

-- `org.TrialExpiresAt != nil && now.After(*org.TrialExpiresAt)`
abbrev pub is_trial_over : ℕ → Org → Bool
is_trial_over now o = elim (o.trial_expires_at) [ none ↦ false | some t ↦ ltb t now ]

-- What a job meets: whether its list fails, and for which organizations its statement does.
pub record Mishaps : Type 0 where
  pub list_fails : Bool
  pub fails : Text → Bool

abbrev pub listed : Mishaps → List Text → List Text
listed m ids = if m.list_fails then [] else ids

-- autoDowngradeExpiredTrials
unfoldable pub auto_downgrade_expired_trials : Limits → Mishaps → ℕ → List Text → Orgs → Orgs
auto_downgrade_expired_trials free m now ids orgs =
    for_orgs m.fails (to_free free)
      (listed m (
        list_orgs
          (λ o. is_inactive (bytes "trial") trial_duration_days now o && is_trial_over now o) ids
          orgs))
      orgs

-- softDeleteInactiveOrgs
unfoldable pub soft_delete_inactive_orgs : Mishaps → ℕ → List Text → Orgs → Orgs
soft_delete_inactive_orgs m now ids orgs =
    for_orgs m.fails (to_deleted now)
      (listed m (list_orgs (is_inactive (bytes "free") soft_delete_inactive_days now) ids orgs))
      orgs

-- hardDeleteExpiredOrgs
unfoldable pub hard_delete_expired_orgs : Mishaps → ℕ → List Text → Orgs → Orgs
hard_delete_expired_orgs m now ids orgs =
    for_orgs m.fails to_nothing (listed m (list_orgs (is_long_deleted now) ids orgs)) orgs

pub record Subscription : Type 0 where
  pub org_id : Text
  pub status : Text
  pub cancel_at_period_end : Bool
  pub updated_at : ℕ

abbrev pub dunning_grace_days : ℕ
dunning_grace_days = 14

-- The condition of ListPastDueSubscriptions.
unfoldable pub is_past_due : ℕ → Subscription → Bool
is_past_due now s =
    text_eq s.status (bytes "past_due") && before_days dunning_grace_days now s.updated_at

-- The changes to a subscription that is past due, where the downgrade of its organization and its
-- own statement succeed.
unfoldable pub cancel_past_due : (Text → Bool) → (Text → Bool) → ℕ → Subscription → Subscription
cancel_past_due downgrade_fails upsert_fails now s =
    if is_past_due now s && not (downgrade_fails s.org_id) && not (upsert_fails s.org_id)
    then record s { status = bytes "canceled"; cancel_at_period_end = false; updated_at = now }
    else s

unfoldable pub past_due_orgs : ℕ → List Subscription → List Text
past_due_orgs now [] = []
past_due_orgs now (s ∷ ss) =
    let rest = past_due_orgs now ss in if is_past_due now s then s.org_id ∷ rest else rest

-- downgradePastDueSubscriptions, on the organizations. There is one subscription of each.
unfoldable pub downgrade_past_due : Limits → Mishaps → ℕ → List Subscription → Orgs → Orgs
unfolding past_due_orgs
downgrade_past_due free m now subs orgs =
    for_orgs m.fails (to_free free) (listed m (past_due_orgs now subs)) orgs

-- `int(time.Hour / s.interval)`, at least 1; the interval is positive.
unfoldable pub ticks_per_hour : ℕ → ℕ
ticks_per_hour interval =
    let ticks = 60 * 60 * 1000000000 / interval in if ltb ticks 1 then 1 else ticks

-- The counter of ticks, and whether the hourly jobs run.
unfoldable pub count_tick : ℕ → ℕ → ℕ × Bool
count_tick interval counter = (suc counter, suc counter % ticks_per_hour interval == 0)

-- The jobs on organizations in the order of Start.
unfoldable pub hourly_jobs :
    Limits → Mishaps → Mishaps → Mishaps → Mishaps → ℕ → List Text → List Subscription → Orgs → Orgs
hourly_jobs free trials dunning soft hard now ids subs orgs =
    hard_delete_expired_orgs hard now ids (
      soft_delete_inactive_orgs soft now ids (
        downgrade_past_due free dunning now subs
          (auto_downgrade_expired_trials free trials now ids orgs)))
