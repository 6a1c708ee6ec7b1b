-- ===== src/Cache/Rulesets.antt =====
-- The ruleset that LoadRuleset builds (server/internal/store/cache/inmemory.go) against the rows.
use featuresignals_unified.Base.{
  ◌≡◌, ◌↔◌, ap, ◌⊎◌, inl, inr, refl, Bool-cases, Option, none, some, List, [], ◌∷◌, arith,
  if◌then◌else◌,
}
use featuresignals_unified.Base.Preds.{In}
use featuresignals_unified.Base.Text.{Text, text_eq, text_eq_iff}
use featuresignals_unified.Base.Assoc.{lookup, insert, lookup-insert}
use featuresignals_unified.Domain.{Flag, FlagState}
use featuresignals_unified.Cache.{
  Rows, index_flags, flag_keys, index_states, put_state, build_ruleset,
}

-- The last state of a flag among the rows.
pub newest_state : Text → List FlagState → Option FlagState → Option FlagState
newest_state id [] found = found
newest_state id (s ∷ ss) found = newest_state id ss (if text_eq s.flag_id id then some s else found)

-- The last flag of a key among the rows.
pub newest_flag : Text → List Flag → Option Flag → Option Flag
newest_flag key [] found = found
newest_flag key (f ∷ fs) found = newest_flag key fs (if text_eq f.key key then some f else found)

pub index_flags-newest_flag :
    (key : Text) (fs : List Flag) (m : List (Text × Flag))
    → lookup key (index_flags fs m) ≡ newest_flag key fs (lookup key m)
unfolding index_flags newest_flag
index_flags-newest_flag key [] m = refl
index_flags-newest_flag key (f ∷ fs) m =
    rw (← lookup-insert f.key key f m) (index_flags-newest_flag key fs (insert f.key f m))

-- The entry of one flag in the map from ids to keys.
flag_keys-lookup :
    (f : Flag) (fs : List Flag) (m : List (Text × Text))
    → ((g : Flag) → In g fs → g.id ≡ f.id → g.key ≡ f.key)
    → In f fs ⊎ (lookup f.id m ≡ some f.key)
    → lookup f.id (flag_keys fs m) ≡ some f.key
unfolding flag_keys
flag_keys-lookup f [] m same (inl h) = absurd h
flag_keys-lookup f [] m same (inr h) = h
flag_keys-lookup f (g ∷ gs) m same h =
    flag_keys-lookup f gs (insert g.id g.key m) (λ e l. same e (inr l))
      (elim h [
        | inl (inl e) ↦ inr (ground (arith, lookup-insert g.id f.id g.key m, text_eq_iff g.id f.id))
        | inl (inr l) ↦ inl l
        | inr l ↦ inr (
            ground
              (arith, lookup-insert g.id f.id g.key m, text_eq_iff g.id f.id, same g (inl refl)))
      ])

-- Where an entry of the map from ids to keys comes from.
flag_keys-In :
    (i k : Text) (fs : List Flag) (m : List (Text × Text))
    → lookup i (flag_keys fs m) ≡ some k
    → (lookup i m ≡ some k) ⊎ ((f : Flag) × In f fs × (f.id ≡ i) × (f.key ≡ k))
unfolding flag_keys
flag_keys-In i k [] m h = inl h
flag_keys-In i k (g ∷ gs) m h = elim (flag_keys-In i k gs (insert g.id g.key m) h) [
  | inl l ↦ elim (Bool-cases (text_eq g.id i)) [
    | inl e ↦
        inr (
          g,
          inl refl,
          (text_eq_iff g.id i).0 e,
          ground (arith, lookup-insert g.id i g.key m, l, e),
        )
    | inr e ↦ inl (ground (arith, lookup-insert g.id i g.key m, l, e))
  ]
  | inr found ↦ inr (found.0, inr found.1, found.2, found.3)
]

put_found :
    {k : Text} (s : FlagState) (m : List (Text × FlagState)) (key : Option Text)
    → key ≡ some k
    → lookup k (put_state key s m) ≡ some s
put_found s m none e = absurd (cc e)
put_found {k = k} s m (some key) e = ground (arith, lookup-insert key k s m, text_eq_iff key k)

put_other :
    {k : Text} (s : FlagState) (m : List (Text × FlagState)) (key : Option Text)
    → (key ≡ some k → ⊥)
    → lookup k (put_state key s m) ≡ lookup k m
put_other s m none e = refl
put_other {k = k} s m (some key) e =
    ground (arith, lookup-insert key k s m, text_eq_iff key k, λ (h : key ≡ k). e (ap some h))

module _ (i k : Text) (keys : List (Text × Text)) (found : lookup i keys ≡ some k)
    (only : (j : Text) → lookup j keys ≡ some k → j ≡ i) where
  put_state-lookup :
      (s : FlagState) (m : List (Text × FlagState)) (key : Option Text)
      → lookup s.flag_id keys ≡ key
      → lookup k (put_state key s m) ≡ (if text_eq s.flag_id i then some s else lookup k m)
  put_state-lookup s m key e = elim (Bool-cases (text_eq s.flag_id i)) [
    | inl t ↦
        rw t (
          put_found s m key
            (cc (e, found, ap (λ x. lookup x keys) ((text_eq_iff s.flag_id i).0 t))))
    | inr f ↦ rw f (
        put_other s m key
          (λ same. cc (f, (text_eq_iff s.flag_id i).1 (only s.flag_id (cc (e, same))))))
  ]

  index_states-newest_state :
      (ss : List FlagState) (m : List (Text × FlagState))
      → lookup k (index_states keys ss m) ≡ newest_state i ss (lookup k m)
  unfolding index_states newest_state
  index_states-newest_state [] m = refl
  index_states-newest_state (s ∷ ss) m =
      rw (← put_state-lookup s m (lookup s.flag_id keys) refl)
        (index_states-newest_state ss (put_state (lookup s.flag_id keys) s m))

-- In rows whose flags have an id per key and a key per id, the ruleset holds under the key of a flag
-- the last row of that key, and as its state the last row that names the id of the flag.
pub build_ruleset_lem :
    (rows : Rows) (f : Flag)
    → In f rows.flags
    → ((g h : Flag) → In g rows.flags → In h rows.flags → (g.id ≡ h.id) ↔ (g.key ≡ h.key))
    → (lookup f.key (build_ruleset rows).flags ≡ newest_flag f.key rows.flags none)
      × (lookup f.key (build_ruleset rows).states ≡ newest_state f.id rows.states none)
unfolding build_ruleset lookup
build_ruleset_lem rows f member unique = (
  index_flags-newest_flag f.key rows.flags [],
  index_states-newest_state f.id f.key (flag_keys rows.flags [])
      (flag_keys-lookup f rows.flags [] (λ g m e. (unique g f m member).0 e) (inl member))
      (λ j h. elim (flag_keys-In j f.key rows.flags [] h) [
        | inl e ↦ absurd (cc e)
        | inr p ↦ cc (p.2, (unique p.0 f p.1 member).1 p.3)
      ])
      rows.states [],
)
