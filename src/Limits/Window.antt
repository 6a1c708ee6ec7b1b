-- ===== src/Limits/Window.antt =====
-- How many requests a window lets through.
use featuresignals_unified.Base.{
  ℕ, suc, ◌+◌, ◌-◌, ◌≤◌, ◌≡◌, inl, inr, false, some, List, [], ◌∷◌, Bool-cases, Option-cases, ap,
  sym, ◌∙◌, arith, ltb, if◌then◌else◌,
}
use Prim.Native.Nat.{min}
use featuresignals_unified.Base.Preds.{All}
use featuresignals_unified.Base.Text.{Text, text_eq, text_eq_iff, text_eq_refl}
use featuresignals_unified.Limits.{Visitor, Visitors, Answer, allowed, limited, put, admit, sweep}

-- What can happen to the limiter, in the order in which its lock is taken: a request with its key,
-- its limit and its two readings of the clock, or a tick of the cleanup.
pub data Event : Type 0 where
  request : Text → ℕ → ℕ → ℕ → Event
  tick : ℕ → Event

abbrev pub is_allowed : Answer → ℕ
is_allowed (allowed _) = 1
is_allowed (limited _ _) = 0

-- The requests of a key that pass, in a sequence of events.
unfoldable pub passed_requests : Text → List Event → Visitors → ℕ
passed_requests key [] visitors = 0
passed_requests key (request k limit now later ∷ es) visitors =
    let step = admit false limit k now later visitors in
    (if text_eq k key then is_allowed step.0 else 0) + passed_requests key es step.1
passed_requests key (tick now ∷ es) visitors = passed_requests key es (sweep now visitors)

unfoldable pub all_requests : Text → List Event → ℕ
all_requests key [] = 0
all_requests key (request k limit now later ∷ es) =
    (if text_eq k key then 1 else 0) + all_requests key es
all_requests key (tick now ∷ es) = all_requests key es

-- The event is not after `last`, and a request of the key has the limit.
abbrev pub Within : Text → ℕ → ℕ → Event → Type 0
Within key limit last (request k l now later) = (now ≤ last) × (k ≡ key → l ≡ limit)
Within key limit last (tick now) = now ≤ last

pub put_self : (key : Text) (v : Visitor) (visitors : Visitors) → put key v visitors key ≡ some v
unfolding put
put_self key v visitors = rw (text_eq_refl key)

put_other :
    (key k : Text) (v : Visitor) (visitors : Visitors)
    → text_eq k key ≡ false
    → put k v visitors key ≡ visitors key
unfolding put
put_other key k v visitors e = rw e

-- A request in an open window counts, and passes when the limit is not used up.
pub admit-open :
    (limit : ℕ) (key : Text) (now later : ℕ) (v : Visitor) (visitors : Visitors)
    → visitors key ≡ some v
    → now ≤ v.reset_at
    → (is_allowed (admit false limit key now later visitors).0
        ≡ (if ltb limit (suc v.count) then 0 else 1))
      × ((admit false limit key now later visitors).1 key
          ≡ some (record { count = suc v.count; reset_at = v.reset_at }))
unfolding admit
admit-open limit key now later v visitors e le =
    ground (arith, e, put_self key (record { count = suc v.count; reset_at = v.reset_at }) visitors)

pub admit-other :
    (limit : ℕ) (k key : Text) (now later : ℕ) (visitors : Visitors)
    → text_eq k key ≡ false
    → (admit false limit k now later visitors).1 key ≡ visitors key
unfolding admit put
admit-other limit k key now later visitors ne = elim (Option-cases (visitors k)) [
  | inl e ↦ rw (e, ne)
  | inr (v, e) ↦ elim (Bool-cases (ltb v.reset_at now)) [
    | inl t ↦ rw (e, t, ne)
    | inr t ↦ rw (e, t, ne)
  ]
]

pub sweep-open :
    (key : Text) (now : ℕ) (v : Visitor) (visitors : Visitors)
    → visitors key ≡ some v
    → now ≤ v.reset_at
    → sweep now visitors key ≡ some v
unfolding sweep
sweep-open key now v visitors e le = ground (arith, e)

-- While a client's window is open, exactly as many of its requests pass as its limit leaves:
-- whatever other clients do meanwhile and whenever the cleanup runs.
pub passed_requests-window :
    (key : Text) (limit : ℕ) (es : List Event) (v : Visitor) (visitors : Visitors)
    → visitors key ≡ some v
    → All (Within key limit v.reset_at) es
    → passed_requests key es visitors ≡ min (all_requests key es) (limit - v.count)
unfolding passed_requests all_requests
passed_requests-window key limit [] v visitors e w = omega arith
passed_requests-window key limit (request k l now later ∷ es) v visitors e w =
    elim (Bool-cases (text_eq k key)) [
      | inl t ↦
          let same : k ≡ key = (text_eq_iff k key).0 t in
          let open_window = admit-open l k now later v visitors (ap visitors same ∙ e) w.0.0 in
          let next =
            passed_requests-window key limit es
              (record { count = suc v.count; reset_at = v.reset_at })
              (admit false l k now later visitors).1
              (ap (admit false l k now later visitors).1 (sym same) ∙ open_window.1) w.1 in
          ground (arith, t, open_window.0, next, w.0.1 same)
      | inr f ↦
          let next =
            passed_requests-window key limit es v (admit false l k now later visitors).1
              (admit-other l k key now later visitors f ∙ e) w.1 in
          ground (arith, f, next)
    ]
passed_requests-window key limit (tick now ∷ es) v visitors e w =
    passed_requests-window key limit es v (sweep now visitors) (sweep-open key now v visitors e w.0)
      w.1
