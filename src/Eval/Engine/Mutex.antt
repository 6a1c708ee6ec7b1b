-- ===== src/Eval/Engine/Mutex.antt =====
-- Mutual exclusion groups: which flag of a group is on for a user.
use featuresignals_unified.Base.{
  ℕ, ◌≡◌, refl, ◌↔◌, ◌⊎◌, inl, inr, Bool, true, false, List, [], ◌∷◌, arith, Bool-cases, ltb, ◌==◌,
  ◌||◌, ◌&&◌, ap, sym,
}
use mathlib.Core.Path.{subst}
use featuresignals_unified.Base.Preds.{All, In, In-All, All-map}
use featuresignals_unified.Base.Text.{
  Text, text_eq, text_eq_iff, text_eq_refl, text_lt, text_lt_irrefl, text_lt_trans, text_lt_total,
}
use featuresignals_unified.Base.Assoc.{lookup}
use featuresignals_unified.Domain.{Flag, FlagState, Ruleset}
use featuresignals_unified.Eval.Hash.{bucket_user}
use featuresignals_unified.Eval.Engine.{is_enabled, mutex_step, mutex_loop, wins_mutex_group}

-- `a` comes before `b` for the user: a lower bucket, or the same one and a smaller key.
unfoldable pub ahead : Text → Text → Text → Bool
ahead user a b =
    ltb (bucket_user a user) (bucket_user b user)
    || (bucket_user a user == bucket_user b user && text_lt a b)

ahead_irrefl : (user a : Text) → ahead user a a ≡ false
unfolding ahead
ahead_irrefl user a = ground (arith, text_lt_irrefl a)

ahead_trans :
    (user a b c : Text) → ahead user a b ≡ true → ahead user b c ≡ true → ahead user a c ≡ true
unfolding ahead
ahead_trans user a b c h k = ground (arith, text_lt_trans a b c)

ahead_total : (user a b : Text) → ahead user a b ≡ false → ahead user b a ≡ false → a ≡ b
unfolding ahead
ahead_total user a b h k = ground (arith, text_lt_total a b)

-- An enabled flag of the group.
pub record IsRival (group : Text) (states : List (Text × FlagState)) (e : Text × Flag)
    : Type 0 where
  pub grouped : e.1.mutual_exclusion_group ≡ group
  pub enabled : is_enabled (lookup e.0 states) ≡ true

module _ (flag_key group user : Text) (states : List (Text × FlagState)) where
  mutex_step-lost :
      (e : Text × Flag) (best : Text × ℕ)
      → text_eq best.0 flag_key ≡ false
      → text_eq (mutex_step flag_key group user states e best).0 flag_key ≡ false
  unfolding mutex_step
  mutex_step-lost (k, f) (w, l) h = ground arith

  mutex_loop-lost :
      (es : List (Text × Flag)) (best : Text × ℕ)
      → text_eq best.0 flag_key ≡ false
      → text_eq (mutex_loop flag_key group user states es best).0 flag_key ≡ false
  unfolding mutex_loop
  mutex_loop-lost [] best h = h
  mutex_loop-lost (e ∷ es) best h = mutex_loop-lost es _ (mutex_step-lost e best h)

  abbrev Unbeaten : Text × Flag → Type 0
  Unbeaten e = IsRival group states e → ahead user e.0 flag_key ≡ false

  abbrev own : Text × ℕ
  own = (flag_key, bucket_user flag_key user)

  record Beaten (e : Text × Flag) : Type 0 where
    lost : text_eq (mutex_step flag_key group user states e own).0 flag_key ≡ false
    rival : IsRival group states e
    behind : ahead user e.0 flag_key ≡ true

  mutex_step_cases :
      (e : Text × Flag)
      → ((mutex_step flag_key group user states e own ≡ own) × Unbeaten e) ⊎ Beaten e
  unfolding mutex_step ahead
  mutex_step_cases (k, f) =
      ground (
        arith,
        text_eq_iff k flag_key,
        text_eq_iff f.mutual_exclusion_group group,
        text_lt_irrefl k,
      )

  mutex_loop-keep :
      (e : Text × Flag) (es : List (Text × Flag))
      → mutex_step flag_key group user states e own ≡ own
      → mutex_loop flag_key group user states (e ∷ es) own
        ≡ mutex_loop flag_key group user states es own
  unfolding mutex_loop
  mutex_loop-keep e es h = ap (mutex_loop flag_key group user states es) h

  mutex_loop-lose :
      (e : Text × Flag) (es : List (Text × Flag))
      → text_eq (mutex_step flag_key group user states e own).0 flag_key ≡ false
      → text_eq (mutex_loop flag_key group user states (e ∷ es) own).0 flag_key ≡ false
  unfolding mutex_loop
  mutex_loop-lose e es h = mutex_loop-lost es _ h

  mutex_loop-Unbeaten :
      (es : List (Text × Flag))
      → (text_eq (mutex_loop flag_key group user states es own).0 flag_key ≡ true) ↔ All Unbeaten es
  mutex_loop-Unbeaten [] = ((λ h. tt), (λ h. unfold mutex_loop in text_eq_refl flag_key))
  mutex_loop-Unbeaten (e ∷ es) = elim (mutex_step_cases e) [
    | inl keep ↦
        rw (mutex_loop-keep e es keep.0)
          ((λ h. (keep.1, (mutex_loop-Unbeaten es).0 h)), (λ h. (mutex_loop-Unbeaten es).1 h.1))
    | inr b ↦ (
      (λ h. absurd (cc (h, mutex_loop-lose e es b.lost))),
      (λ h. absurd (cc (h.0 b.rival, b.behind))),
    )
  ]

-- A flag wins its group exactly when no enabled flag of the group comes before it. The order in
-- which the map's entries are visited does not matter.
pub wins_iff :
    (key group user : Text) (rs : Ruleset)
    → (wins_mutex_group key group user rs ≡ true)
      ↔ All (λ e. IsRival group rs.states e → ahead user e.0 key ≡ false) rs.flags
unfolding wins_mutex_group
wins_iff key group user rs = mutex_loop-Unbeaten key group user rs.states rs.flags

-- Of two enabled flags of a group that both win for a user, one is the other.
winner_unique :
    (a b group user : Text) (f g : Flag) (rs : Ruleset)
    → In (a, f) rs.flags
    → In (b, g) rs.flags
    → IsRival group rs.states (a, f)
    → IsRival group rs.states (b, g)
    → wins_mutex_group a group user rs ≡ true
    → wins_mutex_group b group user rs ≡ true
    → a ≡ b
winner_unique a b group user f g rs ma mb ra rb wa wb =
    ahead_total user a b
      (In-All (λ e. IsRival group rs.states e → ahead user e.0 b ≡ false) rs.flags
        ((wins_iff b group user rs).0 wb) ma ra)
      (In-All (λ e. IsRival group rs.states e → ahead user e.0 a ≡ false) rs.flags
        ((wins_iff a group user rs).0 wa) mb rb)

module _ (group user : Text) (states : List (Text × FlagState)) where
  -- An enabled flag of the group among `es` before which no other of `es` comes, or `a`.
  record Foremost (es : List (Text × Flag)) (a : Text × Flag) : Type 0 where
    entry : Text × Flag
    place : (entry ≡ a) ⊎ (In entry es × (ahead user entry.0 a.0 ≡ true))
    rival : IsRival group states entry
    unbeaten : All (λ e. IsRival group states e → ahead user e.0 entry.0 ≡ false) es

  IsRival-dec : (e : Text × Flag) → IsRival group states e ⊎ (¬ IsRival group states e)
  IsRival-dec (k, f) = elim (Bool-cases (text_eq f.mutual_exclusion_group group)) [
    | inl g ↦ elim (Bool-cases (is_enabled (lookup k states))) [
      | inl on ↦ inl (record { grouped = (text_eq_iff _ _).0 g; enabled = on })
      | inr off ↦ inr (λ r. cc (r.enabled, off))
    ]
    | inr g ↦ inr (λ r. cc ((text_eq_iff _ _).1 r.grouped, g))
  ]

  -- The entry found so far stays, since `e` is no rival or does not come before it.
  Foremost-keep :
      (e : Text × Flag) (es : List (Text × Flag)) (a : Text × Flag) (c : Foremost es a)
      → (IsRival group states e → ahead user e.0 c.entry.0 ≡ false)
      → Foremost (e ∷ es) a
  Foremost-keep e es a c h = record {
    entry = c.entry;
    place = elim (c.place) [ inl same ↦ inl same | inr (m, lt) ↦ inr (inr m, lt) ];
    rival = c.rival;
    unbeaten = (h, c.unbeaten);
  }

  not_ahead :
      (x e c : Text) → ahead user e c ≡ true → ahead user x c ≡ false → ahead user x e ≡ false
  not_ahead x e c h k = elim (Bool-cases (ahead user x e)) [
    | inl lt ↦ absurd (cc (ahead_trans user x e c lt h, k))
    | inr no_lt ↦ no_lt
  ]

  place_ahead :
      (es : List (Text × Flag)) (a : Text × Flag) (c : Foremost es a) (e : Text × Flag)
      → ahead user e.0 c.entry.0 ≡ true
      → ahead user e.0 a.0 ≡ true
  place_ahead es a c e h = elim (c.place) [
    | inl same ↦ rw same at h
    | inr (m, lt) ↦ ahead_trans user e.0 c.entry.0 a.0 h lt
  ]

  Foremost-take :
      (e : Text × Flag) (es : List (Text × Flag)) (a : Text × Flag) (c : Foremost es a)
      → IsRival group states e
      → ahead user e.0 c.entry.0 ≡ true
      → Foremost (e ∷ es) a
  Foremost-take e es a c r h = record {
    entry = e;
    place = inr (inl refl, place_ahead es a c e h);
    rival = r;
    unbeaten = (
      (λ _. ahead_irrefl user e.0),
      All-map (λ x. IsRival group states x → ahead user x.0 c.entry.0 ≡ false)
          (λ x. IsRival group states x → ahead user x.0 e.0 ≡ false)
          (λ x k rx. not_ahead x.0 e.0 c.entry.0 h (k rx)) es c.unbeaten,
    );
  }

  foremost : (es : List (Text × Flag)) (a : Text × Flag) → IsRival group states a → Foremost es a
  foremost [] a r = record { entry = a; place = inl refl; rival = r; unbeaten = tt }
  foremost (e ∷ es) a r =
      let c = foremost es a r in
      elim (IsRival-dec e) [
        | inr no_rival ↦ Foremost-keep e es a c (λ k. absurd (no_rival k))
        | inl rival ↦ elim (Bool-cases (ahead user e.0 c.entry.0)) [
          | inl h ↦ Foremost-take e es a c rival h
          | inr h ↦ Foremost-keep e es a c (λ _. h)
        ]
      ]

-- The flag of the group that is on for a user.
pub record Winner (group user : Text) (rs : Ruleset) : Type 0 where
  pub key : Text
  pub flag : Flag
  pub listed : In (key, flag) rs.flags
  pub rival : IsRival group rs.states (key, flag)
  pub wins : wins_mutex_group key group user rs ≡ true
  pub unique :
      (b : Text) (g : Flag)
      → In (b, g) rs.flags
      → IsRival group rs.states (b, g)
      → wins_mutex_group b group user rs ≡ true
      → key ≡ b

-- In a group with an enabled flag, exactly one of the enabled flags wins for each user: there is
-- a listed and enabled one that wins, and every other that wins has the same key.
pub wins_mutex_group_unique :
    (a group user : Text) (f : Flag) (rs : Ruleset)
    → In (a, f) rs.flags
    → IsRival group rs.states (a, f)
    → Winner group user rs
wins_mutex_group_unique a group user f rs m r =
    let c = foremost group user rs.states rs.flags (a, f) r in
    let listed : In c.entry rs.flags = elim (c.place) [
      | inl same ↦ subst (λ x. In x rs.flags) (sym same) m
      | inr (k, _) ↦ k
    ] in
    let wins = (wins_iff c.entry.0 group user rs).1 c.unbeaten in
    record {
      key = c.entry.0;
      flag = c.entry.1;
      listed = listed;
      rival = c.rival;
      wins = wins;
      unique = λ b g mb rb wb.
          winner_unique c.entry.0 b group user c.entry.1 g rs listed mb c.rival rb wins wb;
    }
