-- ===== src/Cache/World.antt =====
-- The cache beside a database that changes, for server/internal/store/cache/inmemory.go: the changes
-- that the trigger of server/internal/migrate/migrations/000001_init_schema.up.sql announces and those
-- that it does not, loads in flight, and notifications on their way. A load runs the three queries of
-- LoadRuleset in server/internal/store/postgres/store.go, each a step of its own.
use featuresignals_unified.Base.{◌≡◌, List, [], ◌∷◌, ◌++◌, some, if◌then◌else◌}
use featuresignals_unified.Base.Preds.{In}
use featuresignals_unified.Base.Text.{Text, text_eq}
use featuresignals_unified.Domain.{Flag, FlagState, Segment}
use featuresignals_unified.Cache.{Rows, Cache, new_cache, load_ruleset, invalidate}

-- How far a load has got: after the first query, after the second, and after all three.
pub data Load : Type 0 where
  flags_read : List Flag → Load
  states_read : List Flag → List FlagState → Load
  loaded : Rows → Load

-- The rows of each environment, the cache, the loads in flight, and the environments that the
-- notifications on their way name.
pub record World : Type 0 where
  pub db : Text → Rows
  pub cache : Cache
  pub reading : List (Text × Load)
  pub pending : List Text

abbrev pub set_rows : Text → Rows → (Text → Rows) → Text → Rows
set_rows env rows db e = if text_eq env e then rows else db e

abbrev pub initial : (Text → Rows) → World
initial db = record { db = db; cache = new_cache; reading = []; pending = [] }

-- A change of the states of an environment, which the trigger announces.
abbrev pub change_states : Text → List FlagState → World → World
change_states env states w = record w {
  db = set_rows env (record (w.db env) { states = states }) w.db;
  pending = w.pending ++ env ∷ [];
}

-- A change of the flags and segments that an environment is served. No trigger announces it.
abbrev pub edit : Text → List Flag → List Segment → World → World
edit env flags segments w = record w {
  db = set_rows env (record (w.db env) { flags = flags; segments = segments }) w.db;
}

abbrev pub with_reading : List (Text × Load) → World → World
with_reading reading w = record w { reading = reading }

-- A load stores what it has read.
abbrev pub finish : Text → Rows → List (Text × Load) → World → World
finish env rows rest w = record w {
  cache = (load_ruleset (some rows) env w.cache).1;
  reading = rest;
}

abbrev pub with_pending : List Text → World → World
with_pending pending w = record w { pending = pending }

-- The callback handles a notification.
abbrev pub deliver : Text → List Text → World → World
deliver env rest w = record w { cache = invalidate env w.cache; pending = rest }

-- The steps, in any order. A load fails with any of its queries; a notification is lost with its
-- connection.
pub data Step : World → World → Type 0 where
  changes : (env : Text) (states : List FlagState) (w : World) → Step w (change_states env states w)
  edits :
      (env : Text) (flags : List Flag) (segments : List Segment) (w : World)
      → Step w (edit env flags segments w)
  starts :
      (env : Text) (w : World)
      → Step w (with_reading ((env, flags_read (w.db env).flags) ∷ w.reading) w)
  reads_states :
      (env : Text) (flags : List Flag) (xs ys : List (Text × Load)) (w : World)
      → w.reading ≡ xs ++ (env, flags_read flags) ∷ ys
      → Step w (with_reading (xs ++ (env, states_read flags (w.db env).states) ∷ ys) w)
  reads_segments :
      (env : Text) (flags : List Flag) (states : List FlagState) (xs ys : List (Text × Load))
      (w : World)
      → w.reading ≡ xs ++ (env, states_read flags states) ∷ ys
      → Step w (
          with_reading
            (xs
              ++ (
                env,
                loaded (record { flags = flags; states = states; segments = (w.db env).segments }),
              )
                ∷ ys)
            w)
  finishes :
      (env : Text) (rows : Rows) (xs ys : List (Text × Load)) (w : World)
      → w.reading ≡ xs ++ (env, loaded rows) ∷ ys
      → Step w (finish env rows (xs ++ ys) w)
  fails :
      (env : Text) (l : Load) (xs ys : List (Text × Load)) (w : World)
      → w.reading ≡ xs ++ (env, l) ∷ ys
      → Step w (with_reading (xs ++ ys) w)
  delivers :
      (env : Text) (rest : List Text) (w : World)
      → w.pending ≡ env ∷ rest
      → Step w (deliver env rest w)
  loses :
      (env : Text) (rest : List Text) (w : World)
      → w.pending ≡ env ∷ rest
      → Step w (with_pending rest w)

pub data Reach (w : World) : World → Type 0 where
  here : Reach w w
  after : {u v : World} → Reach w u → Step u v → Reach w v

abbrev pub IsReading : Text → World → Type 0
IsReading env w = (l : Load) × In (env, l) w.reading

-- What a step must not do for the environment `e`: change its flags or segments, lose a notification
-- of it, or handle one while a load of it is in flight.
abbrev pub IsCalmStep : Text → {w v : World} → Step w v → Type 0
IsCalmStep e (changes env states w) = Unit
IsCalmStep e (edits env flags segments w) = env ≡ e → ⊥
IsCalmStep e (starts env w) = Unit
IsCalmStep e (reads_states env flags xs ys w p) = Unit
IsCalmStep e (reads_segments env flags states xs ys w p) = Unit
IsCalmStep e (finishes env rows xs ys w p) = Unit
IsCalmStep e (fails env l xs ys w p) = Unit
IsCalmStep e (delivers env rest w p) = env ≡ e → IsReading env w → ⊥
IsCalmStep e (loses env rest w p) = env ≡ e → ⊥

-- All steps of a run are calm for the environment.
abbrev pub IsCalm : Text → {w v : World} → Reach w v → Type 0
IsCalm e here = Unit
IsCalm e (after r st) = IsCalm e r × IsCalmStep e st
