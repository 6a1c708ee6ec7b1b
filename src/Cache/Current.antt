-- ===== src/Cache/Current.antt =====
-- What a calm run keeps of the cache and the loads, for server/internal/store/cache/inmemory.go.
use mathlib.Core.Path.{subst}
use featuresignals_unified.Base.{
  ◌≡◌, refl, sym, ap, ◌∙◌, ◌⊎◌, inl, inr, Bool-cases, some, List, [], ◌∷◌, ◌++◌,
}
use featuresignals_unified.Base.Preds.{
  In, In-append_left, In-append_last, In-insert, In-middle, In-append_cons,
}
use featuresignals_unified.Base.Text.{Text, text_eq, text_eq_iff}
use featuresignals_unified.Base.Assoc.{lookup, lookup-insert, lookup-remove}
use featuresignals_unified.Domain.{Flag, FlagState, Segment, Ruleset}
use featuresignals_unified.Cache.{
  Rows, build_ruleset, store_ruleset, load_ruleset, invalidate, get_ruleset,
}
use featuresignals_unified.Cache.World.{
  World, Load, flags_read, states_read, loaded, Step, changes, edits, starts, reads_states,
  reads_segments, finishes, fails, delivers, loses, Reach, here, after, IsCalmStep, IsCalm, initial,
  change_states, edit, deliver,
}

-- States are those of the database, or a notification is on its way.
abbrev IsFresh : Text → World → List FlagState → Type 0
IsFresh e w states = (states ≡ (w.db e).states) ⊎ In e w.pending

abbrev pub IsFreshRows : Text → World → Rows → Type 0
IsFreshRows e w rows =
    (rows.flags ≡ (w.db e).flags) × (rows.segments ≡ (w.db e).segments) × IsFresh e w rows.states

abbrev IsFreshLoad : Text → World → Load → Type 0
IsFreshLoad e w (flags_read flags) = flags ≡ (w.db e).flags
IsFreshLoad e w (states_read flags states) = (flags ≡ (w.db e).flags) × IsFresh e w states
IsFreshLoad e w (loaded rows) = IsFreshRows e w rows

pub record IsCurrent (e : Text) (w : World) : Type 0 where
  pub cached :
      (rs : Ruleset)
      → get_ruleset e w.cache ≡ some rs
      → (rows : Rows) × (rs ≡ build_ruleset rows) × IsFreshRows e w rows
  pub loads : (l : Load) → In (e, l) w.reading → IsFreshLoad e w l

-- What is fresh in one world is fresh in the other.
record Keeps (e : Text) (w v : World) : Type 0 where
  flags : (w.db e).flags ≡ (v.db e).flags
  segments : (w.db e).segments ≡ (v.db e).segments
  states : (ss : List FlagState) → IsFresh e w ss → IsFresh e v ss

Keeps-IsFreshLoad :
    (e : Text) (w v : World) (l : Load) → Keeps e w v → IsFreshLoad e w l → IsFreshLoad e v l
Keeps-IsFreshLoad e w v (flags_read fs) k h = h ∙ k.flags
Keeps-IsFreshLoad e w v (states_read fs ss) k h = (h.0 ∙ k.flags, k.states ss h.1)
Keeps-IsFreshLoad e w v (loaded rows) k h =
    (h.0 ∙ k.flags, h.1 ∙ k.segments, k.states rows.states h.2)

-- With the cache and the loads as they were, currency is kept.
Keeps-IsCurrent :
    (e : Text) (w v : World)
    → Keeps e w v
    → v.cache ≡ w.cache
    → v.reading ≡ w.reading
    → IsCurrent e w
    → IsCurrent e v
Keeps-IsCurrent e w v k cache reading h = record {
  cached = λ rs l.
      let (rows, same, fresh) = h.cached rs (ap (get_ruleset e) (sym cache) ∙ l) in
      (rows, same, Keeps-IsFreshLoad e w v (loaded rows) k fresh);
  loads = λ l m. Keeps-IsFreshLoad e w v l k (h.loads l (subst (In (e, l)) reading m));
}

Keeps-change_states :
    (e env : Text) (states : List FlagState) (w : World) → Keeps e w (change_states env states w)
Keeps-change_states e env states w = elim (Bool-cases (text_eq env e)) [
  | inl t ↦
      let same : env ≡ e = (text_eq_iff env e).0 t in
      record {
        flags = rw t (ap (λ x. (w.db x).flags) (sym same));
        segments = rw t (ap (λ x. (w.db x).segments) (sym same));
        states = λ ss h.
            inr (subst (λ x. In x (w.pending ++ env ∷ [])) same (In-append_last env w.pending));
      }
  | inr f ↦ record {
    flags = rw f refl;
    segments = rw f refl;
    states = λ ss h. elim h [
      | inl same ↦ inl (rw f same)
      | inr m ↦ inr (In-append_left e w.pending (env ∷ []) m)
    ];
  }
]

Keeps-edit :
    (e env : Text) (flags : List Flag) (segments : List Segment) (w : World)
    → (env ≡ e → ⊥)
    → Keeps e w (edit env flags segments w)
Keeps-edit e env flags segments w other = elim (Bool-cases (text_eq env e)) [
  | inl t ↦ absurd (other ((text_eq_iff env e).0 t))
  | inr f ↦ record {
    flags = rw f refl;
    segments = rw f refl;
    states = λ ss h. elim h [ inl same ↦ inl (rw f same) | inr m ↦ inr m ];
  }
]

-- A notification of another environment leaves the way.
IsFresh-rest :
    (e env : Text) (rest : List Text) (w : World) (ss : List FlagState)
    → w.pending ≡ env ∷ rest
    → (env ≡ e → ⊥)
    → IsFresh e w ss
    → (ss ≡ (w.db e).states) ⊎ In e rest
IsFresh-rest e env rest w ss p other (inl same) = inl same
IsFresh-rest e env rest w ss p other (inr m) = elim (subst (In e) p m) [
  | inl same ↦ absurd (other same)
  | inr l ↦ inr l
]

-- A load that gets further is fresh when the step makes it so, and the other loads stay.
moved-IsFreshLoad :
    (e env : Text) (old new : Load) (xs ys : List (Text × Load)) (w : World)
    → w.reading ≡ xs ++ (env, old) ∷ ys
    → (env ≡ e → IsFreshLoad e w old → IsFreshLoad e w new)
    → IsCurrent e w
    → (l : Load) → In (e, l) (xs ++ (env, new) ∷ ys)
    → IsFreshLoad e w l
moved-IsFreshLoad e env old new xs ys w p further h l m =
    elim (In-append_cons (e, l) (env, new) xs ys m) [
      | inl same ↦
          let own : env ≡ e = ap (λ q. q.0) same in
          subst (IsFreshLoad e w) (ap (λ q. q.1) same) (
            further own (
              h.loads old
                (subst (λ x. In (x, old) w.reading) own (rw p (In-middle (env, old) xs ys)))))
      | inr other ↦ h.loads l (rw p (In-insert (e, l) (env, old) xs ys other))
    ]

Step-IsCurrent :
    (e : Text) {w v : World} (st : Step w v) → IsCalmStep e st → IsCurrent e w → IsCurrent e v
unfolding get_ruleset load_ruleset store_ruleset invalidate
Step-IsCurrent e (changes env states w) calm h =
    Keeps-IsCurrent e w (change_states env states w) (Keeps-change_states e env states w) refl refl
      h
Step-IsCurrent e (edits env flags segments w) calm h =
    Keeps-IsCurrent e w (edit env flags segments w) (Keeps-edit e env flags segments w calm) refl
      refl h
Step-IsCurrent e (starts env w) calm h = record {
  cached = h.cached;
  loads = λ l m. elim m [
    | inl same ↦ subst (IsFreshLoad e w) (ap (λ q. q.1) same) (ap (λ q. (w.db q.0).flags) same)
    | inr k ↦ h.loads l k
  ];
}
Step-IsCurrent e (reads_states env flags xs ys w p) calm h = record {
  cached = h.cached;
  loads =
      moved-IsFreshLoad e env (flags_read flags) (states_read flags (w.db env).states) xs ys w p
        (λ own old. (old, inl (ap (λ x. (w.db x).states) own))) h;
}
Step-IsCurrent e (reads_segments env flags states xs ys w p) calm h = record {
  cached = h.cached;
  loads =
      moved-IsFreshLoad e env (states_read flags states)
        (loaded (record { flags = flags; states = states; segments = (w.db env).segments })) xs ys w
        p (λ own old. (old.0, ap (λ x. (w.db x).segments) own, old.1)) h;
}
Step-IsCurrent e (finishes env rows xs ys w p) calm h = record {
  cached = λ rs l. elim (Bool-cases (text_eq env e)) [
    | inl t ↦
        let own : env ≡ e = (text_eq_iff env e).0 t in
        let same : build_ruleset rows ≡ rs =
          cc (rw t at (lookup-insert env e (build_ruleset rows) w.cache.rulesets), l) in
        (
          rows,
          sym same,
          h.loads (loaded rows) (
              subst (λ x. In (x, loaded rows) w.reading) own
                (rw p (In-middle (env, loaded rows) xs ys))),
        )
    | inr f ↦
        h.cached rs (rw f at (rw (lookup-insert env e (build_ruleset rows) w.cache.rulesets) at l))
  ];
  loads = λ l m. h.loads l (rw p (In-insert (e, l) (env, loaded rows) xs ys m));
}
Step-IsCurrent e (fails env failed xs ys w p) calm h = record {
  cached = h.cached;
  loads = λ l m. h.loads l (rw p (In-insert (e, l) (env, failed) xs ys m));
}
Step-IsCurrent e (delivers env rest w p) calm h = elim (Bool-cases (text_eq env e)) [
  | inl t ↦
      let own : env ≡ e = (text_eq_iff env e).0 t in
      record {
        cached = λ rs l. absurd (cc (rw (lookup-remove env e w.cache.rulesets, t) at l));
        loads = λ l m. absurd (calm own (l, subst (λ x. In (x, l) w.reading) (sym own) m));
      }
  | inr f ↦
      let other : env ≡ e → ⊥ = λ same. cc (f, (text_eq_iff env e).1 same) in
      let kept : Keeps e w (deliver env rest w) = record {
        flags = refl;
        segments = refl;
        states = λ ss. IsFresh-rest e env rest w ss p other;
      } in
      record {
        cached = λ rs l.
            let (rows, same, fresh) =
              h.cached rs (rw (lookup-remove env e w.cache.rulesets, f) at l) in
            (rows, same, Keeps-IsFreshLoad e w (deliver env rest w) (loaded rows) kept fresh);
        loads = λ l m. Keeps-IsFreshLoad e w (deliver env rest w) l kept (h.loads l m);
      }
]
Step-IsCurrent e (loses env rest w p) calm h =
    Keeps-IsCurrent e w (record w { pending = rest })
      (record { flags = refl; segments = refl; states = λ ss. IsFresh-rest e env rest w ss p calm })
      refl refl h

pub Reach-IsCurrent :
    (e : Text) {db : Text → Rows} {w : World} (r : Reach (initial db) w)
    → IsCalm e r
    → IsCurrent e w
unfolding get_ruleset lookup
Reach-IsCurrent e here calm = record { cached = λ rs l. absurd (cc l); loads = λ l m. absurd m }
Reach-IsCurrent e (after r st) calm = Step-IsCurrent e st calm.1 (Reach-IsCurrent e r calm.0)
