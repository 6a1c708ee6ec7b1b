-- ===== src/Scheduler/Fates.antt =====
-- What the hourly jobs may make of an organization: server/internal/scheduler/scheduler.go.
use mathlib.Core.Path.{subst}
use featuresignals_unified.Base.{
  ℕ, ◌+◌, ◌*◌, ◌<◌, ◌≡◌, refl, sym, ◌∙◌, ◌⊎◌, inl, inr, true, false, ◌&&◌, Option-cases, Option,
  none, some, List, arith,
}
use featuresignals_unified.Base.Text.{Text, bytes}
use featuresignals_unified.Scheduler.Rounds.{for_orgs-keeps, All-each, job-keeps}
use featuresignals_unified.Scheduler.Accounts.{
  Org, Orgs, Limits, Mishaps, Subscription, day, any_login_since, is_inactive, is_long_deleted,
  on_row, to_free, to_deleted, to_nothing, listed, is_trial_over, past_due_orgs,
  auto_downgrade_expired_trials, soft_delete_inactive_orgs, hard_delete_expired_orgs,
  downgrade_past_due, hourly_jobs,
}

-- Deletion and logins are as before.
abbrev SameLife : Option Org → Option Org → Type 0
SameLife none c = c ≡ none
SameLife (some a) none = ⊥
SameLife (some a) (some b) = (b.logins ≡ a.logins) × (b.deleted_at ≡ a.deleted_at)

SameLife-refl : (o : Option Org) → SameLife o o
SameLife-refl none = refl
SameLife-refl (some a) = (refl, refl)

to_free-SameLife :
    (free : Limits) (o c : Option Org) → SameLife o c → SameLife o (on_row (to_free free) c)
unfolding to_free
to_free-SameLife free none none h = refl
to_free-SameLife free none (some b) h = absurd (cc h)
to_free-SameLife free (some a) none h = h
to_free-SameLife free (some a) (some b) h = h

-- The row is as before, or it was free and unused for 90 days and is marked as deleted.
abbrev Marked : ℕ → Option Org → Option Org → Type 0
Marked now none c = c ≡ none
Marked now (some a) none = ⊥
Marked now (some a) (some b) =
    (b.logins ≡ a.logins)
    × ((b.deleted_at ≡ a.deleted_at)
        ⊎ ((a.deleted_at ≡ none)
            × (b.deleted_at ≡ some now)
            × (any_login_since 90 now a.logins ≡ false)))

Marked-refl : (now : ℕ) (o : Option Org) → Marked now o o
Marked-refl now none = refl
Marked-refl now (some a) = (refl, inl refl)

is_inactive-parts :
    (plan : Text) (n now : ℕ) (a : Org)
    → is_inactive plan n now a ≡ true
    → (a.deleted_at ≡ none) × (any_login_since n now a.logins ≡ false)
unfolding is_inactive
is_inactive-parts plan n now a h = ground (arith, h)

to_deleted-Marked :
    (now : ℕ) (a : Org) (c : Option Org)
    → is_inactive (bytes "free") 90 now a ≡ true
    → Marked now (some a) c
    → Marked now (some a) (on_row (to_deleted now) c)
unfolding to_deleted
to_deleted-Marked now a none t h = h
to_deleted-Marked now a (some b) t h =
    let (alive, unused) = is_inactive-parts (bytes "free") 90 now a t in
    elim (Option-cases b.deleted_at) [
      | inl e ↦ rw e (h.0, inr (alive, refl, unused))
      | inr (s, e) ↦ rw e (rw e at h)
    ]

-- The row is as it was, or gone after it was marked more than 90 days ago.
abbrev Removed : ℕ → Option Org → Option Org → Type 0
Removed now none c = c ≡ none
Removed now (some a) none = (t : ℕ) × (a.deleted_at ≡ some t) × (t + 90 * day < now)
Removed now (some a) (some b) = b ≡ a

Removed-refl : (now : ℕ) (o : Option Org) → Removed now o o
Removed-refl now none = refl
Removed-refl now (some a) = refl

is_long_deleted-time :
    (now : ℕ) (a : Org)
    → is_long_deleted now a ≡ true
    → (t : ℕ) × (a.deleted_at ≡ some t) × (t + 90 * day < now)
unfolding is_long_deleted
is_long_deleted-time now a h = elim (Option-cases a.deleted_at) [
  | inl e ↦ absurd (cc (rw e at h))
  | inr (t, e) ↦ (t, e, ground (arith, rw e at h))
]

to_nothing-Removed :
    (now : ℕ) (a : Org) (c : Option Org)
    → is_long_deleted now a ≡ true
    → Removed now (some a) (on_row to_nothing c)
to_nothing-Removed now a none t = is_long_deleted-time now a t
to_nothing-Removed now a (some b) t = is_long_deleted-time now a t

-- What a round may make of an organization.
abbrev pub Fate : ℕ → Option Org → Option Org → Type 0
Fate now none c = c ≡ none
Fate now (some a) none = (t : ℕ) × (a.deleted_at ≡ some t) × (t + 90 * day < now)
Fate now (some a) (some b) =
    (b.logins ≡ a.logins)
    × ((b.deleted_at ≡ a.deleted_at)
        ⊎ ((a.deleted_at ≡ none)
            × (b.deleted_at ≡ some now)
            × (any_login_since 90 now a.logins ≡ false)))

SameLife-trans : (o c d : Option Org) → SameLife o c → SameLife c d → SameLife o d
SameLife-trans none c d h k = subst (λ x. SameLife x d) h k
SameLife-trans (some a) none d h k = absurd h
SameLife-trans (some a) (some b) none h k = absurd k
SameLife-trans (some a) (some b) (some e) h k = (k.0 ∙ h.0, k.1 ∙ h.1)

Fate-join :
    (now : ℕ) (o c d e : Option Org)
    → SameLife o c
    → Marked now c d
    → Removed now d e
    → Fate now o e
Fate-join now none c d e h k r = subst (λ x. Removed now x e) (subst (λ x. Marked now x d) h k) r
Fate-join now (some a) (some b) (some g) none h k r = elim (k.1) [
  | inl e ↦ (r.0, sym (e ∙ h.1) ∙ r.1, r.2)
  | inr (alive, marked, unused) ↦
      let same : now ≡ r.0 = cc (marked, r.1) in absurd (omega (arith, same, r.2))
]
Fate-join now (some a) (some b) (some g) (some e) h k r =
    subst (λ x. Fate now (some a) (some x)) (sym r)
      (
        k.0 ∙ h.0,
        elim (k.1) [
          | inl e ↦ inl (e ∙ h.1)
          | inr (alive, marked, unused) ↦
              inr
                (sym h.1 ∙ alive, marked, subst (λ x. any_login_since 90 now x ≡ false) h.0 unused)
        ],
      )
Fate-join now (some a) (some b) none e h k r = absurd k
Fate-join now (some a) none d e h k r = absurd h

-- Whatever fails in the hourly jobs, an organization disappears only when it was marked as deleted
-- more than 90 days ago, is marked only when no member has logged in for 90 days, and is otherwise
-- neither marked nor unmarked; no job adds an organization or changes a login.
pub hourly_jobs-Fate :
    (free : Limits) (trials dunning soft hard : Mishaps) (now : ℕ) (ids : List Text)
    (subs : List Subscription) (orgs : Orgs) (id : Text)
    → Fate now (orgs id) (hourly_jobs free trials dunning soft hard now ids subs orgs id)
unfolding hourly_jobs auto_downgrade_expired_trials downgrade_past_due soft_delete_inactive_orgs
    hard_delete_expired_orgs
hourly_jobs-Fate free trials dunning soft hard now ids subs orgs id =
    let one = auto_downgrade_expired_trials free trials now ids orgs in
    let two = downgrade_past_due free dunning now subs one in
    let three = soft_delete_inactive_orgs soft now ids two in
    let four = hard_delete_expired_orgs hard now ids three in
    Fate-join now (orgs id) (two id) (three id) (four id)
      (SameLife-trans (orgs id) (one id) (two id)
        (job-keeps SameLife (λ o. is_inactive (bytes "trial") 14 now o && is_trial_over now o)
          (to_free free) SameLife-refl (λ a c t h. to_free-SameLife free (some a) c h) trials ids
          orgs id)
        (for_orgs-keeps SameLife one (to_free free) dunning.fails
          (listed dunning (past_due_orgs now subs)) one
          (All-each
            (λ k.
              (c : Option Org) → SameLife (one k) c → SameLife (one k) (on_row (to_free free) c))
            (listed dunning (past_due_orgs now subs)) (λ k c h. to_free-SameLife free (one k) c h))
          (λ k. SameLife-refl (one k)) id))
      (job-keeps (Marked now) (is_inactive (bytes "free") 90 now) (to_deleted now) (Marked-refl now)
        (to_deleted-Marked now) soft ids two id)
      (job-keeps (Removed now) (is_long_deleted now) to_nothing (Removed-refl now)
        (λ a c t h. to_nothing-Removed now a c t) hard ids three id)
