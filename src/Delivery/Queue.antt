-- ===== src/Delivery/Queue.antt =====
-- Which webhooks an event reaches.
use mathlib.Core.Path.{subst}
use featuresignals_unified.Base.{
  ◌≡◌, ◌↔◌, ◌⊎◌, inl, inr, Bool, true, false, not, some, List, [], ◌∷◌, if◌then◌else◌, arith, refl,
  sym,
}
use featuresignals_unified.Base.Preds.{In}
use featuresignals_unified.Base.Text.{Text, bytes, text_eq_iff}
use featuresignals_unified.Delivery.{Webhook, event_matches, dispatch_loop, dispatch}

event_matches_iff :
    (events : List Text) (t : Text)
    → (event_matches events t ≡ true) ↔ (In t events ⊎ In (bytes "*") events)
unfolding event_matches
event_matches_iff [] t = ground arith
event_matches_iff (s ∷ ss) t =
    ground (arith, text_eq_iff s t, text_eq_iff s (bytes "*"), event_matches_iff ss t)

-- The webhook is enabled and subscribes to the type, or to all types.
abbrev pub Subscribes : Text → Webhook → Type 0
Subscribes event_type wh =
    (wh.enabled ≡ true) × (In event_type wh.events ⊎ In (bytes "*") wh.events)

module _ (event_type : Text) (w wh : Webhook) (whs rest : List Webhook)
    (h : In wh rest ↔ (In wh whs × Subscribes event_type wh)) where
  dispatch-skip :
      (Subscribes event_type w → ⊥) → In wh rest ↔ (In wh (w ∷ whs) × Subscribes event_type wh)
  dispatch-skip absent = (
    (λ m. (inr (h.0 m).0, (h.0 m).1)),
    (λ m. elim (m.0) [
      | inl e ↦ absurd (absent (subst (Subscribes event_type) (sym e) m.1))
      | inr k ↦ h.1 (k, m.1)
    ]),
  )

  dispatch-cons :
      (enabled matches : Bool)
      → w.enabled ≡ enabled
      → event_matches w.events event_type ≡ matches
      → In wh (if not enabled then rest else (if not matches then rest else w ∷ rest))
        ↔ (In wh (w ∷ whs) × Subscribes event_type wh)
  dispatch-cons false matches e m = dispatch-skip (λ s. absurd (cc (e, s.0)))
  dispatch-cons true false e m =
      dispatch-skip (λ s. absurd (cc (m, (event_matches_iff w.events event_type).1 s.1)))
  dispatch-cons true true e m =
      let subscribed : Subscribes event_type w = (e, (event_matches_iff w.events event_type).0 m) in
      (
        (λ k. elim k [
          | inl same ↦ (inl same, subst (Subscribes event_type) same subscribed)
          | inr l ↦ (inr (h.0 l).0, (h.0 l).1)
        ]),
        (λ k. elim (k.0) [ inl same ↦ inl same | inr l ↦ inr (h.1 (l, k.1)) ]),
      )

-- While the context is not done, an event is queued for exactly the listed webhooks that are
-- enabled and subscribe to its type or to all types.
pub dispatch_iff :
    (event_type : Text) (whs : List Webhook) (wh : Webhook)
    → In wh (dispatch (λ w. false) event_type (some whs)) ↔ (In wh whs × Subscribes event_type wh)
unfolding dispatch dispatch_loop
dispatch_iff event_type [] wh = ground arith
dispatch_iff event_type (w ∷ whs) wh =
    dispatch-cons event_type w wh whs (dispatch_loop (λ w. false) event_type whs)
      (dispatch_iff event_type whs wh) w.enabled (event_matches w.events event_type) refl refl
