-- ===== src/Scheduler/Ticks.antt =====
-- What a tick does to the states: server/internal/scheduler/scheduler.go.
use mathlib.Core.Path.{subst}
use featuresignals_unified.Base.{
  ℕ, ◌≡◌, refl, sym, ap, ◌∙◌, ◌⊎◌, inl, inr, Bool, true, false, ◌&&◌, Bool-cases, Option, none,
  some, List, [], ◌∷◌, arith, if◌then◌else◌,
}
use featuresignals_unified.Base.Preds.{All, In}
use featuresignals_unified.Base.Text.{Text, text_eq, text_eq_iff}
use featuresignals_unified.Domain.{FlagState}
use featuresignals_unified.Scheduler.{
  States, Tables, Faults, is_due, is_pending, keep_pending, list_pending, upsert_flag_state,
  apply_enable, apply_disable, apply_schedule, apply_schedules, tick,
}

-- A row stands under its flag and its environment.
abbrev pub IsKeyed : States → Type 0
IsKeyed states =
    (flag env : Text) (fs : FlagState)
    → states flag env ≡ some fs
    → (fs.flag_id ≡ flag) × (fs.env_id ≡ env)

-- A state whose changes up to `now` have taken effect; of two, the disabling wins.
unfoldable pub settled : ℕ → FlagState → FlagState
settled now fs = record fs {
  enabled =
      if is_due now fs.scheduled_disable_at
      then false
      else (if is_due now fs.scheduled_enable_at then true else fs.enabled);
  scheduled_enable_at = if is_due now fs.scheduled_enable_at then none else fs.scheduled_enable_at;
  scheduled_disable_at =
      if is_due now fs.scheduled_disable_at then none else fs.scheduled_disable_at;
}

abbrev pub settled_row : ℕ → Option FlagState → Option FlagState
settled_row now none = none
settled_row now (some fs) = some (settled now fs)

pub apply-settled :
    (now : ℕ) (fs : FlagState) → apply_disable now (apply_enable now fs) ≡ settled now fs
unfolding apply_disable apply_enable settled
apply-settled now fs = ground arith

pub settled_none : (now : ℕ) (fs : FlagState) → is_pending now fs ≡ false → settled now fs ≡ fs
unfolding settled
settled_none now fs h = ground (arith, h)

pub settled_again : (now : ℕ) (fs : FlagState) → is_pending now (settled now fs) ≡ false
unfolding settled
settled_again now fs = ground arith

keep_pending-here :
    (now : ℕ) (o : Option FlagState) (fs : FlagState) (rest : List FlagState)
    → o ≡ some fs
    → is_pending now fs ≡ true
    → In fs (keep_pending now o rest)
keep_pending-here now none fs rest e h = absurd (cc e)
keep_pending-here now (some x) fs rest e h =
    let same : x ≡ fs = cc e in rw (subst (λ y. is_pending now y ≡ true) (sym same) h) (inl same)

keep_pending-there :
    (now : ℕ) (o : Option FlagState) (fs : FlagState) (rest : List FlagState)
    → In fs rest
    → In fs (keep_pending now o rest)
keep_pending-there now none fs rest m = m
keep_pending-there now (some x) fs rest m = elim (Bool-cases (is_pending now x)) [
  | inl t ↦ rw t (inr m)
  | inr f ↦ rw f m
]

keep_pending-In :
    (now : ℕ) (o : Option FlagState) (fs : FlagState) (rest : List FlagState)
    → In fs (keep_pending now o rest)
    → (o ≡ some fs) ⊎ In fs rest
keep_pending-In now none fs rest m = inr m
keep_pending-In now (some x) fs rest m = elim (Bool-cases (is_pending now x)) [
  | inl t ↦ elim (rw t at m) [ inl e ↦ inl (ap some e) | inr k ↦ inr k ]
  | inr f ↦ inr (rw f at m)
]

pub list_pending-In :
    (now : ℕ) (keys : List (Text × Text)) (states : States) (flag env : Text) (fs : FlagState)
    → In (flag, env) keys
    → states flag env ≡ some fs
    → is_pending now fs ≡ true
    → In fs (list_pending now keys states)
unfolding list_pending
list_pending-In now [] states flag env fs m e h = absurd m
list_pending-In now ((j, v) ∷ keys) states flag env fs (inl same) e h =
    keep_pending-here now (states j v) fs (list_pending now keys states)
      (ap (λ k. states k.0 k.1) same ∙ e) h
list_pending-In now ((j, v) ∷ keys) states flag env fs (inr m) e h =
    keep_pending-there now (states j v) fs (list_pending now keys states)
      (list_pending-In now keys states flag env fs m e h)

-- Each of the rows is the row of the table under its own key.
abbrev pub AreRows : States → List FlagState → Type 0
AreRows states pending = All (λ fs. states fs.flag_id fs.env_id ≡ some fs) pending

keep_pending-AreRows :
    (now : ℕ) (j v : Text) (states : States) (o : Option FlagState) (rest : List FlagState)
    → IsKeyed states
    → states j v ≡ o
    → AreRows states rest
    → AreRows states (keep_pending now o rest)
keep_pending-AreRows now j v states none rest keyed e h = h
keep_pending-AreRows now j v states (some x) rest keyed e h = elim (Bool-cases (is_pending now x)) [
  | inl t ↦
      let (flag, env) = keyed j v x e in
      rw t (ap (λ k. states k x.env_id) flag ∙ ap (states j) env ∙ e, h)
  | inr f ↦ rw f h
]

pub list_pending-AreRows :
    (now : ℕ) (keys : List (Text × Text)) (states : States)
    → IsKeyed states
    → AreRows states (list_pending now keys states)
unfolding list_pending
list_pending-AreRows now [] states keyed = tt
list_pending-AreRows now ((j, v) ∷ keys) states keyed =
    keep_pending-AreRows now j v states (states j v) (list_pending now keys states) keyed refl
      (list_pending-AreRows now keys states keyed)

module _ (faults : Faults) (now : ℕ) (before : States) where
  -- The row is the one before, or that with its changes in effect.
  abbrev pub Advanced : Tables → Text → Text → Type 0
  Advanced t flag env =
      (t.states flag env ≡ before flag env)
      ⊎ (t.states flag env ≡ settled_row now (before flag env))

  -- What the statement for a row of the table leaves under a key.
  pub upsert-row :
      (fs : FlagState) (t : Tables) (flag env : Text)
      → before fs.flag_id fs.env_id ≡ some fs
      → (upsert_flag_state (settled now fs) t.states flag env ≡ t.states flag env)
        ⊎ (upsert_flag_state (settled now fs) t.states flag env ≡ settled_row now (before flag env))
  unfolding upsert_flag_state settled
  upsert-row fs t flag env row =
      elim (Bool-cases (text_eq fs.flag_id flag && text_eq fs.env_id env)) [
        | inl same ↦ inr (
            rw same (
              ap (settled_row now) (sym row)
              ∙ ap (λ x. settled_row now (before x fs.env_id))
                  ((text_eq_iff fs.flag_id flag).0 (ground (arith, same)))
              ∙ ap (λ x. settled_row now (before flag x))
                  ((text_eq_iff fs.env_id env).0 (ground (arith, same)))))
        | inr other ↦ inl (rw other refl)
      ]

  apply_schedule-Advanced :
      (fs : FlagState) (t : Tables) (flag env : Text)
      → before fs.flag_id fs.env_id ≡ some fs
      → Advanced t flag env
      → Advanced (apply_schedule faults now fs t) flag env
  unfolding apply_schedule
  apply_schedule-Advanced fs t flag env row h = elim (Bool-cases (is_pending now fs)) [
    | inr idle ↦ rw idle h
    | inl due ↦ elim (Bool-cases (faults.upsert_fails (apply_disable now (apply_enable now fs)))) [
      | inl failed ↦ rw (due, failed) h
      | inr sent ↦
          rw (due, sent, apply-settled now fs)
            (elim (upsert-row fs t flag env row) [
              | inl kept ↦ elim h [ inl e ↦ inl (kept ∙ e) | inr e ↦ inr (kept ∙ e) ]
              | inr done ↦ inr done
            ])
    ]
  ]

  apply_schedules-Advanced :
      (pending : List FlagState) (t : Tables) (flag env : Text)
      → AreRows before pending
      → Advanced t flag env
      → Advanced (apply_schedules faults now pending t) flag env
  unfolding apply_schedules
  apply_schedules-Advanced [] t flag env rows h = h
  apply_schedules-Advanced (fs ∷ pending) t flag env rows h =
      apply_schedules-Advanced pending (apply_schedule faults now fs t) flag env rows.1
        (apply_schedule-Advanced fs t flag env rows.0 h)

-- Whatever fails, a tick leaves each row as it was, or with exactly its changes up to `now` in
-- effect, of two the disabling.
pub tick-Advanced :
    (faults : Faults) (lock : Option Bool) (list_fails : Bool) (now : ℕ) (keys : List (Text × Text))
    (t : Tables)
    → IsKeyed t.states
    → (flag env : Text)
    → Advanced faults now t.states (tick faults lock list_fails now keys t) flag env
unfolding tick
tick-Advanced faults none list_fails now keys t keyed flag env = inl refl
tick-Advanced faults (some false) list_fails now keys t keyed flag env = inl refl
tick-Advanced faults (some true) true now keys t keyed flag env = inl refl
tick-Advanced faults (some true) false now keys t keyed flag env =
    apply_schedules-Advanced faults now t.states (list_pending now keys t.states) t flag env
      (list_pending-AreRows now keys t.states keyed) (inl refl)
