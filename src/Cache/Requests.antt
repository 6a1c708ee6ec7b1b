-- ===== src/Cache/Requests.antt =====
-- What a request finds in the cache, and when: server/internal/store/cache/inmemory.go with the
-- lookup in server/internal/api/handlers/eval.go.
use featuresignals_unified.Base.{
  ◌≡◌, ◌⊎◌, ap, ◌∙◌, inl, inr, Option-cases, Option, none, some, List,
}
use featuresignals_unified.Base.Preds.{In}
use featuresignals_unified.Base.Text.{Text}
use featuresignals_unified.Domain.{Ruleset}
use featuresignals_unified.Cache.{
  Rows, build_ruleset, get_ruleset, or_load, ruleset_for, load_ruleset,
}
use featuresignals_unified.Cache.World.{World, Reach, IsCalm, initial}
use featuresignals_unified.Cache.Current.{IsCurrent, Reach-IsCurrent}

-- What a request for the environment is given; a load that it needs is not interrupted here.
abbrev pub served : Text → World → Option Ruleset
served env w = (ruleset_for (some (w.db env)) env w.cache).0

pub served-get_ruleset :
    (env : Text) (w : World) (rs : Ruleset)
    → get_ruleset env w.cache ≡ some rs
    → served env w ≡ some rs
unfolding ruleset_for
served-get_ruleset env w rs found = ap (λ o. (or_load (some (w.db env)) env w.cache o).0) found

rows_eq : (a b : Rows) → a.flags ≡ b.flags → a.segments ≡ b.segments → a.states ≡ b.states → a ≡ b
rows_eq a b f g s = cc (f, g, s)

served_missed :
    (env : Text) (w : World)
    → get_ruleset env w.cache ≡ none
    → served env w ≡ some (build_ruleset (w.db env))
unfolding ruleset_for load_ruleset
served_missed env w missed = ap (λ found. (or_load (some (w.db env)) env w.cache found).0) missed

IsCurrent-served :
    (env : Text) (w : World)
    → IsCurrent env w
    → (In env w.pending → ⊥)
    → served env w ≡ some (build_ruleset (w.db env))
IsCurrent-served env w h quiet = elim (Option-cases (get_ruleset env w.cache)) [
  | inl missed ↦ served_missed env w missed
  | inr (rs, found) ↦
      let (rows, same, (flags, segments, states)) = h.cached rs found in
      elim states [
        | inl fresh ↦
            served-get_ruleset env w rs found
            ∙ ap some (same ∙ ap build_ruleset (rows_eq rows (w.db env) flags segments fresh))
        | inr m ↦ absurd (quiet m)
      ]
]

-- The cache refines the database where a run is calm for an environment: its flags and segments are
-- not changed, and none of its notifications is lost or handled while a load of it is in flight. A
-- request for the environment is then given the ruleset of the rows that the database has, its states
-- as changed in the run, unless a notification of it is still on its way. Steps for other environments
-- are of any kind.
pub Reach-refines :
    (db : Text → Rows) (w : World) (env : Text) (r : Reach (initial db) w)
    → IsCalm env r
    → (In env w.pending → ⊥)
    → served env w ≡ some (build_ruleset (w.db env))
Reach-refines db w env r calm quiet = IsCurrent-served env w (Reach-IsCurrent env r calm) quiet

-- A later world, with the same rows and notifications, that the steps reach.
abbrev Continues : World → World → (World → Type 0) → Type 0
Continues u w P = (v : World) × Reach u v × (v.db ≡ w.db) × (v.pending ≡ w.pending) × P v

-- The cache has no ruleset of the environment, or a notification of it is among these.
abbrev IsMissed : Text → List Text → World → Type 0
IsMissed env names w = (get_ruleset env w.cache ≡ none) ⊎ In env names
