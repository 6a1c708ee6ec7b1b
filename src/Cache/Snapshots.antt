-- ===== src/Cache/Snapshots.antt =====
-- Where a served ruleset comes from, whatever the order of steps: server/internal/store/cache/inmemory.go
-- with LoadRuleset of server/internal/store/postgres/store.go.
use featuresignals_unified.Base.{◌≡◌, some, List}
use featuresignals_unified.Base.Preds.{In}
use featuresignals_unified.Base.Text.{Text}
use featuresignals_unified.Domain.{Flag, FlagState, Ruleset}
use featuresignals_unified.Cache.{Rows, build_ruleset, get_ruleset}
use featuresignals_unified.Cache.World.{
  World, Load, flags_read, states_read, loaded, Reach, initial,
}

module _ (db : Text → Rows) where
  pub data SeenFlags (e : Text) (w : World) (flags : List Flag) : Type 0 where
    seen_flags :
        (u : World)
        → Reach (initial db) u
        → Reach u w
        → flags ≡ (u.db e).flags
        → SeenFlags e w flags

  pub data SeenStates (e : Text) (w : World) (flags : List Flag) (states : List FlagState)
      : Type 0 where
    seen_states :
        (v : World)
        → SeenFlags e v flags
        → Reach v w
        → states ≡ (v.db e).states
        → SeenStates e w flags states

  -- The rows were read in a run from the first world to this one: the flags at a moment of it, the
  -- states then or later, and the segments then or later still.
  pub data SeenRows (e : Text) (w : World) (rows : Rows) : Type 0 where
    seen_rows :
        (x : World)
        → SeenStates e x rows.flags rows.states
        → Reach x w
        → rows.segments ≡ (x.db e).segments
        → SeenRows e w rows

  abbrev SeenLoad : Text → World → Load → Type 0
  SeenLoad e w (flags_read flags) = SeenFlags e w flags
  SeenLoad e w (states_read flags states) = SeenStates e w flags states
  SeenLoad e w (loaded rows) = SeenRows e w rows

  record IsSeen (w : World) : Type 0 where
    cached :
        (e : Text) (rs : Ruleset)
        → get_ruleset e w.cache ≡ some rs
        → (rows : Rows) × (rs ≡ build_ruleset rows) × SeenRows e w rows
    loads : (e : Text) (l : Load) → In (e, l) w.reading → SeenLoad e w l
