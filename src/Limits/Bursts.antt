-- ===== src/Limits/Bursts.antt =====
-- How many requests a client gets through in any minute.
use Prim.Native.Nat.{min}
use featuresignals_unified.Base.{
  ℕ, suc, ◌+◌, ◌-◌, ◌*◌, ◌≤◌, ◌<◌, ◌≡◌, ◌⊎◌, inl, inr, true, false, none, some, List, [], ◌∷◌,
  arith, ltb, Bool-cases, Option-cases, ap, sym, ◌∙◌,
}
use featuresignals_unified.Base.Preds.{All, All-map}
use featuresignals_unified.Base.Text.{Text, text_eq, text_eq_iff, text_eq_refl}
use featuresignals_unified.Limits.{Visitor, Visitors, window, admit, sweep}
use featuresignals_unified.Limits.Window.{
  Event, request, tick, is_allowed, passed_requests, all_requests, Within, passed_requests-window,
  admit-open, admit-other, sweep-open, put_self,
}

-- The event lies in the minute that begins at `start`, and a request of the key has the limit.
abbrev pub Inside : Text → ℕ → ℕ → Event → Type 0
Inside key limit start (request k l now later) =
    (start ≤ now) × (now ≤ start + window) × (k ≡ key → l ≡ limit)
Inside key limit start (tick now) = (start ≤ now) × (now ≤ start + window)

Inside-Within :
    (key : Text) (limit start last : ℕ) (e : Event)
    → start + window ≤ last
    → Inside key limit start e
    → Within key limit last e
Inside-Within key limit start last (request k l now later) le h = (omega (arith, le, h.1), h.2)
Inside-Within key limit start last (tick now) le h = omega (arith, le, h.1)

-- No window of the client is open at `now`.
abbrev Closed : Text → ℕ → Visitors → Type 0
Closed key now visitors =
    (visitors key ≡ none) ⊎ ((v : Visitor) × (visitors key ≡ some v) × (v.reset_at < now))

admit-Closed :
    (limit : ℕ) (key : Text) (now later : ℕ) (visitors : Visitors)
    → Closed key now visitors
    → (is_allowed (admit false limit key now later visitors).0 ≡ 1)
      × ((admit false limit key now later visitors).1 key
          ≡ some (record { count = 1; reset_at = now + window }))
unfolding admit
admit-Closed limit key now later visitors (inl e) =
    ground (arith, e, put_self key (record { count = 1; reset_at = now + window }) visitors)
admit-Closed limit key now later visitors (inr (v, e, lt)) =
    ground (arith, e, put_self key (record { count = 1; reset_at = now + window }) visitors)

-- A request that finds no open window is let through and opens one, in which the client gets as
-- many requests through in all as its limit says (one, when the limit is 0).
pub passed_requests-fresh :
    (key : Text) (limit now later : ℕ) (es : List Event) (visitors : Visitors)
    → (visitors key ≡ none) ⊎ ((v : Visitor) × (visitors key ≡ some v) × (v.reset_at < now))
    → All (Within key limit (now + window)) es
    → passed_requests key (request key limit now later ∷ es) visitors
      ≡ 1 + min (all_requests key es) (limit - 1)
unfolding passed_requests
passed_requests-fresh key limit now later es visitors closed w =
    let opened = admit-Closed limit key now later visitors closed in
    let next =
      passed_requests-window key limit es (record { count = 1; reset_at = now + window })
        (admit false limit key now later visitors).1 opened.1 w in
    ground (arith, text_eq_refl key, opened.0, next)

sweep-none :
    (key : Text) (now : ℕ) (visitors : Visitors)
    → visitors key ≡ none
    → sweep now visitors key ≡ none
unfolding sweep
sweep-none key now visitors e = ground (arith, e)

sweep-over :
    (key : Text) (now : ℕ) (v : Visitor) (visitors : Visitors)
    → visitors key ≡ some v
    → ltb v.reset_at now ≡ true
    → sweep now visitors key ≡ none
unfolding sweep
sweep-over key now v visitors e over = ground (arith, e, over)

module _ (key : Text) (limit start : ℕ) (positive : 1 ≤ limit) where
  Closed-bound :
      (es : List Event) (k : Text) (l now later : ℕ) (visitors : Visitors)
      → k ≡ key
      → Inside key limit start (request k l now later)
      → Closed k now visitors
      → All (Inside key limit start) es
      → is_allowed (admit false l k now later visitors).0
          + passed_requests key es (admit false l k now later visitors).1
        ≤ limit
  Closed-bound es k l now later visitors same h closed w =
      let opened = admit-Closed l k now later visitors closed in
      let all_within =
        All-map (Inside key limit start) (Within key limit (now + window))
          (λ a. Inside-Within key limit start (now + window) a (omega (arith, h.0))) es w in
      let next =
        passed_requests-window key limit es (record { count = 1; reset_at = now + window })
          (admit false l k now later visitors).1
          (ap (admit false l k now later visitors).1 (sym same) ∙ opened.1) all_within in
      omega (arith, opened.0, next, positive)

  none-bound :
      (es : List Event) (visitors : Visitors)
      → visitors key ≡ none
      → All (Inside key limit start) es
      → passed_requests key es visitors ≤ limit
  unfolding passed_requests
  none-bound [] visitors e w = omega arith
  none-bound (request k l now later ∷ es) visitors e w = elim (Bool-cases (text_eq k key)) [
    | inl t ↦
        let same : k ≡ key = (text_eq_iff k key).0 t in
        let bound =
          Closed-bound es k l now later visitors same w.0 (inl (ap visitors same ∙ e)) w.1 in
        ground (arith, t, bound)
    | inr f ↦
        let next =
          none-bound es (admit false l k now later visitors).1
            (admit-other l k key now later visitors f ∙ e) w.1 in
        ground (arith, f, next)
  ]
  none-bound (tick now ∷ es) visitors e w =
      none-bound es (sweep now visitors) (sweep-none key now visitors e) w.1

  some-bound :
      (es : List Event) (v : Visitor) (visitors : Visitors)
      → visitors key ≡ some v
      → All (Inside key limit start) es
      → passed_requests key es visitors ≤ (limit - v.count) + limit
  unfolding passed_requests
  some-bound [] v visitors e w = omega arith
  some-bound (request k l now later ∷ es) v visitors e w = elim (Bool-cases (text_eq k key)) [
    | inl t ↦
        let same : k ≡ key = (text_eq_iff k key).0 t in
        let ek : visitors k ≡ some v = ap visitors same ∙ e in
        elim (Bool-cases (ltb v.reset_at now)) [
          | inl over ↦
              let bound =
                Closed-bound es k l now later visitors same w.0 (inr (v, ek, ground arith)) w.1 in
              ground (arith, t, bound)
          | inr live ↦
              let opened = admit-open l k now later v visitors ek (ground arith) in
              let next =
                some-bound es (record { count = suc v.count; reset_at = v.reset_at })
                  (admit false l k now later visitors).1
                  (ap (admit false l k now later visitors).1 (sym same) ∙ opened.1) w.1 in
              ground (arith, t, opened.0, next, w.0.2 same)
        ]
    | inr f ↦
        let next =
          some-bound es v (admit false l k now later visitors).1
            (admit-other l k key now later visitors f ∙ e) w.1 in
        ground (arith, f, next)
  ]
  some-bound (tick now ∷ es) v visitors e w = elim (Bool-cases (ltb v.reset_at now)) [
    | inl over ↦
        let bound = none-bound es (sweep now visitors) (sweep-over key now v visitors e over) w.1 in
        omega (arith, bound)
    | inr live ↦
        some-bound es v (sweep now visitors) (sweep-open key now v visitors e (ground arith)) w.1
  ]

  -- In any minute, whatever the limiter has seen before and whatever other clients do, a client
  -- whose limit is at least 1 gets at most twice its limit of requests through.
  pub passed_requests-minute :
      (es : List Event) (visitors : Visitors)
      → All (Inside key limit start) es
      → passed_requests key es visitors ≤ 2 * limit
  passed_requests-minute es visitors w = elim (Option-cases (visitors key)) [
    | inl e ↦ omega (arith, none-bound es visitors e w)
    | inr (v, e) ↦ omega (arith, some-bound es v visitors e w)
  ]
