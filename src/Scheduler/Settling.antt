-- ===== src/Scheduler/Settling.antt =====
-- A tick without faults: server/internal/scheduler/scheduler.go.
use mathlib.Core.Path.{subst}
use featuresignals_unified.Base.{
  ℕ, ◌≡◌, refl, sym, ap, ◌∙◌, inl, inr, true, false, Bool-cases, Option-cases, Option, none, some,
  List, [], ◌∷◌,
}
use featuresignals_unified.Base.Preds.{In}
use featuresignals_unified.Base.Text.{Text, text_eq_refl}
use featuresignals_unified.Domain.{FlagState}
use featuresignals_unified.Scheduler.{
  States, Tables, Faults, is_pending, keep_pending, list_pending, upsert_flag_state, apply_enable,
  apply_disable, apply_schedule, apply_schedules, tick,
}
use featuresignals_unified.Scheduler.Ticks.{
  IsKeyed, settled, settled_row, settled_none, settled_again, list_pending-In, AreRows,
  list_pending-AreRows, apply-settled, upsert-row, tick-Advanced,
}

module _ (faults : Faults) (sends : (fs : FlagState) → faults.upsert_fails fs ≡ false) (now : ℕ)
    (before : States) where
  -- The row has its changes in effect.
  abbrev IsSettled : Tables → Text → Text → Type 0
  IsSettled t flag env = t.states flag env ≡ settled_row now (before flag env)

  apply_schedule-IsSettled :
      (fs : FlagState) (t : Tables) (flag env : Text)
      → before fs.flag_id fs.env_id ≡ some fs
      → IsSettled t flag env
      → IsSettled (apply_schedule faults now fs t) flag env
  unfolding apply_schedule
  apply_schedule-IsSettled fs t flag env row h = elim (Bool-cases (is_pending now fs)) [
    | inr idle ↦ rw idle h
    | inl due ↦
        rw (due, sends (apply_disable now (apply_enable now fs)), apply-settled now fs)
          (elim (upsert-row faults now before fs t flag env row) [
            | inl kept ↦ kept ∙ h
            | inr done ↦ done
          ])
  ]

  apply_schedules-IsSettled :
      (pending : List FlagState) (t : Tables) (flag env : Text)
      → AreRows before pending
      → IsSettled t flag env
      → IsSettled (apply_schedules faults now pending t) flag env
  unfolding apply_schedules
  apply_schedules-IsSettled [] t flag env rows h = h
  apply_schedules-IsSettled (fs ∷ pending) t flag env rows h =
      apply_schedules-IsSettled pending (apply_schedule faults now fs t) flag env rows.1
        (apply_schedule-IsSettled fs t flag env rows.0 h)

  apply_schedule-own :
      (fs : FlagState) (t : Tables)
      → before fs.flag_id fs.env_id ≡ some fs
      → is_pending now fs ≡ true
      → IsSettled (apply_schedule faults now fs t) fs.flag_id fs.env_id
  unfolding apply_schedule upsert_flag_state settled
  apply_schedule-own fs t row due =
      rw
        (
          due,
          sends (apply_disable now (apply_enable now fs)),
          apply-settled now fs,
          text_eq_refl fs.flag_id,
          text_eq_refl fs.env_id,
        )
        (ap (settled_row now) (sym row))

  apply_schedules-own :
      (pending : List FlagState) (t : Tables) (fs : FlagState)
      → AreRows before pending
      → In fs pending
      → before fs.flag_id fs.env_id ≡ some fs
      → is_pending now fs ≡ true
      → IsSettled (apply_schedules faults now pending t) fs.flag_id fs.env_id
  unfolding apply_schedules
  apply_schedules-own [] t fs rows m row due = absurd m
  apply_schedules-own (x ∷ pending) t fs rows (inr m) row due =
      apply_schedules-own pending (apply_schedule faults now x t) fs rows.1 m row due
  apply_schedules-own (x ∷ pending) t fs rows (inl same) row due =
      apply_schedules-IsSettled pending (apply_schedule faults now x t) fs.flag_id fs.env_id rows.1
        (subst (λ y. IsSettled (apply_schedule faults now y t) fs.flag_id fs.env_id) (sym same)
          (apply_schedule-own fs t row due))

module _ (faults : Faults) (sends : (fs : FlagState) → faults.upsert_fails fs ≡ false) (now : ℕ)
    (keys : List (Text × Text)) (t : Tables) (keyed : IsKeyed t.states) where
  abbrev after : Tables
  after = tick faults (some true) false now keys t

  settled_idle :
      (flag env : Text)
      → (o : Option FlagState) → t.states flag env ≡ o
      → settled_row now o ≡ o
      → after.states flag env ≡ settled_row now (t.states flag env)
  settled_idle flag env o e idle =
      elim (tick-Advanced faults (some true) false now keys t keyed flag env) [
        | inl same ↦ same ∙ e ∙ sym idle ∙ ap (settled_row now) (sym e)
        | inr done ↦ done
      ]

  tick-row :
      (flag env : Text) (o : Option FlagState)
      → In (flag, env) keys
      → t.states flag env ≡ o
      → after.states flag env ≡ settled_row now (t.states flag env)
  unfolding tick
  tick-row flag env none m e = settled_idle flag env none e refl
  tick-row flag env (some fs) m e = elim (Bool-cases (is_pending now fs)) [
    | inr idle ↦ settled_idle flag env (some fs) e (ap some (settled_none now fs idle))
    | inl due ↦
        let (own_flag, own_env) = keyed flag env fs e in
        let row : t.states fs.flag_id fs.env_id ≡ some fs =
          ap (λ k. t.states k fs.env_id) own_flag ∙ ap (t.states flag) own_env ∙ e in
        subst (λ x. IsSettled faults sends now t.states after x env) own_flag
          (subst (λ x. IsSettled faults sends now t.states after fs.flag_id x) own_env
            (apply_schedules-own faults sends now t.states (list_pending now keys t.states) t fs
              (list_pending-AreRows now keys t.states keyed)
              (list_pending-In now keys t.states flag env fs m e due) row due))
  ]

list_pending-none :
    (now : ℕ) (keys : List (Text × Text)) (states : States)
    → ((flag env : Text) (fs : FlagState)
        → In (flag, env) keys
        → states flag env ≡ some fs
        → is_pending now fs ≡ false)
    → list_pending now keys states ≡ []
unfolding list_pending
list_pending-none now [] states idle = refl
list_pending-none now ((j, v) ∷ keys) states idle =
    ap (keep_pending now (states j v))
      (list_pending-none now keys states (λ flag env fs m. idle flag env fs (inr m)))
    ∙ elim (Option-cases (states j v)) [
      | inl e ↦ ap (λ o. keep_pending now o []) e
      | inr (fs, e) ↦ ap (λ o. keep_pending now o []) e ∙ rw (idle j v fs (inl refl) e) refl
    ]

settled_row-idle :
    (now : ℕ) (o : Option FlagState) (fs : FlagState)
    → settled_row now o ≡ some fs
    → is_pending now fs ≡ false
settled_row-idle now none fs e = absurd (cc e)
settled_row-idle now (some x) fs e =
    let same : settled now x ≡ fs = cc e in
    subst (λ y. is_pending now y ≡ false) same (settled_again now x)

-- A tick that has the lock, whose list and whose statements succeed, brings into effect the changes
-- up to `now` of every row that the table lists, whatever happens to the audit entries, and leaves
-- none pending.
pub tick-settled :
    (faults : Faults)
    → ((fs : FlagState) → faults.upsert_fails fs ≡ false)
    → (now : ℕ) (keys : List (Text × Text)) (t : Tables) → IsKeyed t.states
    → ((flag env : Text)
        → In (flag, env) keys
        → (tick faults (some true) false now keys t).states flag env
          ≡ settled_row now (t.states flag env))
      × (list_pending now keys (tick faults (some true) false now keys t).states ≡ [])
tick-settled faults sends now keys t keyed = (
  λ flag env m. tick-row faults sends now keys t keyed flag env (t.states flag env) m refl,
  list_pending-none now keys (after faults sends now keys t keyed).states (λ flag env fs m e.
      settled_row-idle now (t.states flag env) fs
        (sym (tick-row faults sends now keys t keyed flag env (t.states flag env) m refl) ∙ e)),
)
