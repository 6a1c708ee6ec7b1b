-- ===== src/Cache.antt =====
-- The cache of rulesets (server/internal/store/cache/inmemory.go) and the streams that it notifies
-- (server/internal/sse/server.go), with the lookup of a ruleset for a request
-- (server/internal/api/handlers/eval.go). Locks are left out: each operation is one step, except that
-- reading the database and storing what was read are two.
mod Streams
mod Rulesets
pub mod World
pub mod Current
pub mod Requests
pub mod Snapshots
mod Broadcasts
mod Tests
pub use Streams.{
  Client, Server, Action, connects, disconnects, publishes, receives, or_empty, set_clients,
  map_set,
}
unfoldable pub use Streams.{
  new_server, add_client, remove_client, broadcast, receive, client_count, total_client_count,
  set_delete, set_add, take_from, offer, offer_all, receive_next, act, act_all,
}
use featuresignals_unified.Base.{
  ℕ, Bool, true, false, Option, none, some, List, [], ◌∷◌, ◌++◌, length, if◌then◌else◌,
}
use featuresignals_unified.Base.Text.{Text}
use featuresignals_unified.Base.Assoc.{lookup, insert, remove}
use featuresignals_unified.Domain.{Flag, FlagState, Segment, Ruleset}

-- What LoadRuleset of the store returns.
pub record Rows : Type 0 where
  pub flags : List Flag
  pub states : List FlagState
  pub segments : List Segment

-- The payload of a notification.
pub record Change : Type 0 where
  pub flag_id : Text
  pub env_id : Text
  pub action : Text

pub record Cache : Type 0 where
  pub rulesets : List (Text × Ruleset)
  pub listening : Bool

abbrev pub new_cache : Cache
new_cache = record { rulesets = []; listening = false }

unfoldable pub get_ruleset : Text → Cache → Option Ruleset
get_ruleset env c = lookup env c.rulesets

-- The three loops of LoadRuleset; each starts from the map that the rounds before it made.
unfoldable pub index_flags : List Flag → List (Text × Flag) → List (Text × Flag)
index_flags [] m = m
index_flags (f ∷ fs) m = index_flags fs (insert f.key f m)

unfoldable pub flag_keys : List Flag → List (Text × Text) → List (Text × Text)
flag_keys [] m = m
flag_keys (f ∷ fs) m = flag_keys fs (insert f.id f.key m)

abbrev pub put_state : Option Text → FlagState → List (Text × FlagState) → List (Text × FlagState)
put_state none s m = m
put_state (some key) s m = insert key s m

unfoldable pub index_states :
    List (Text × Text) → List FlagState → List (Text × FlagState) → List (Text × FlagState)
index_states flag_id_to_key [] m = m
index_states flag_id_to_key (s ∷ ss) m =
    index_states flag_id_to_key ss (put_state (lookup s.flag_id flag_id_to_key) s m)

unfoldable pub index_segments : List Segment → List (Text × Segment) → List (Text × Segment)
index_segments [] m = m
index_segments (s ∷ ss) m = index_segments ss (insert s.key s m)

-- The ruleset that LoadRuleset builds from the rows.
unfoldable pub build_ruleset : Rows → Ruleset
build_ruleset rows = record {
  flags = index_flags rows.flags [];
  states = index_states (flag_keys rows.flags []) rows.states [];
  segments = index_segments rows.segments [];
}

unfoldable pub store_ruleset : Text → Ruleset → Cache → Cache
store_ruleset env rs c = record c { rulesets = insert env rs c.rulesets }

-- LoadRuleset, once the store has answered; `none` is an error.
unfoldable pub load_ruleset : Option Rows → Text → Cache → Option Ruleset × Cache
load_ruleset none env c = (none, c)
load_ruleset (some rows) env c =
    (some (build_ruleset rows), store_ruleset env (build_ruleset rows) c)

unfoldable pub invalidate : Text → Cache → Cache
invalidate env c = record c { rulesets = remove env c.rulesets }

unfoldable pub ruleset_count : Cache → ℕ
ruleset_count c = length c.rulesets

-- StartListening, the store having subscribed (`true`) or failed.
unfoldable pub start_listening : Bool → Cache → Cache
start_listening subscribed c = if subscribed then record c { listening = true } else c

-- The cache with what it notifies: the streams and the calls of the webhook queue, where set.
pub record Hub : Type 0 where
  pub cache : Cache
  pub broadcaster : Option Server
  pub notifier : Option (List Change)

abbrev pub notify_streams : Option Text → Text → Option Server → Option Server
notify_streams payload env none = none
notify_streams none env (some s) = some s
notify_streams (some event) env (some s) = some (broadcast env event s)

abbrev pub notify_webhooks : Change → Option (List Change) → Option (List Change)
notify_webhooks change none = none
notify_webhooks change (some calls) = some (calls ++ change ∷ [])

-- The callback of StartListening, once the payload is parsed. `marshal` makes the streams' payload.
unfoldable pub on_change : (Change → Option Text) → Option Change → Hub → Hub
on_change marshal none hub = hub
on_change marshal (some change) hub = record {
  cache = invalidate change.env_id hub.cache;
  broadcaster = notify_streams (marshal change) change.env_id hub.broadcaster;
  notifier = notify_webhooks change hub.notifier;
}

-- The lookup in getRulesetFromAPIKey: the cached ruleset, or the one that is loaded. `rows` is what
-- the store would answer.
abbrev pub or_load : Option Rows → Text → Cache → Option Ruleset → Option Ruleset × Cache
or_load rows env c (some rs) = (some rs, c)
or_load rows env c none = load_ruleset rows env c

unfoldable pub ruleset_for : Option Rows → Text → Cache → Option Ruleset × Cache
ruleset_for rows env c = or_load rows env c (get_ruleset env c)
