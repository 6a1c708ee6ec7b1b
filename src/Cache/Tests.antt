-- ===== src/Cache/Tests.antt =====
-- Concrete runs of the cache and the streams of server/internal/store/cache and server/internal/sse.
use featuresignals_unified.Base.{
  ◌≡◌, ◌≢◌, ◌↔◌, refl, ◌⊎◌, inl, inr, Bool, true, false, Option, none, some, List, [], ◌∷◌, arith,
  ◌<◌, length, ◌++◌,
}
use featuresignals_unified.Base.Int.{pos}
use featuresignals_unified.Base.Preds.{In}
use featuresignals_unified.Base.Text.{Text, bytes}
use featuresignals_unified.Base.Assoc.{lookup}
use featuresignals_unified.Domain.{Flag, FlagState, boolean, release, active}
use featuresignals_unified.Cache.{
  Rows, Change, Cache, Hub, Client, Server, Action, connects, disconnects, publishes, receives,
  new_server, new_cache, build_ruleset, get_ruleset, on_change, act_all, total_client_count,
  client_count,
}
use featuresignals_unified.Cache.World.{
  World, flags_read, states_read, loaded, changes, starts, reads_states, reads_segments, finishes,
  delivers, Reach, here, after, initial, change_states, with_reading, finish, deliver,
}
use featuresignals_unified.Cache.Rulesets.{build_ruleset_lem, newest_flag, newest_state}
use featuresignals_unified.Cache.Requests.{served, Reach-refines}
use featuresignals_unified.Cache.Broadcasts.{
  IsBounded, act_all-IsBounded, on_change-Received, Received,
}

abbrev flag_a : Flag
flag_a = record {
  id = bytes "1";
  key = bytes "a";
  name = bytes "A";
  description = [];
  flag_type = boolean;
  category = release;
  status = active;
  default_value = none;
  expires_at = none;
  prerequisites = [];
  mutual_exclusion_group = [];
}

abbrev state_a : Bool → FlagState
state_a on = record {
  id = bytes "s";
  flag_id = bytes "1";
  env_id = bytes "e";
  enabled = on;
  default_value = none;
  rules = [];
  percentage_rollout = pos 0;
  variants = [];
  scheduled_enable_at = none;
  scheduled_disable_at = none;
}

abbrev rows_a : Bool → Rows
rows_a on = record { flags = flag_a ∷ []; states = state_a on ∷ []; segments = [] }

abbrev db_a : Text → Rows
db_a env = rows_a false

-- Rows for one key and one id.
unique_a : (g h : Flag) → In g (flag_a ∷ []) → In h (flag_a ∷ []) → (g.id ≡ h.id) ↔ (g.key ≡ h.key)
unique_a g h m n = elim m [
  | inl e ↦ elim n [ inl f ↦ ((λ _. cc (e, f)), (λ _. cc (e, f))) | inr k ↦ absurd k ]
  | inr k ↦ absurd k
]

build_ruleset_lem_example :
    (lookup (bytes "a") (build_ruleset (rows_a true)).flags
      ≡ newest_flag (bytes "a") (flag_a ∷ []) none)
    × (lookup (bytes "a") (build_ruleset (rows_a true)).states
        ≡ newest_state (bytes "1") (state_a true ∷ []) none)
build_ruleset_lem_example = build_ruleset_lem (rows_a true) flag_a (inl refl) unique_a

build_ruleset_test : (build_ruleset (rows_a true)).states ≡ (bytes "a", state_a true) ∷ []
unfolding build_ruleset featuresignals_unified.Cache.index_states lookup
    featuresignals_unified.Cache.flag_keys featuresignals_unified.Base.Assoc.insert
    featuresignals_unified.Base.Text.text_eq
build_ruleset_test = refl

-- A load in its steps, a change of the flag's state, and its notification.
abbrev begun : World
begun = with_reading ((bytes "e", flags_read (flag_a ∷ [])) ∷ []) (initial db_a)

abbrev states_done : World
states_done = with_reading ((bytes "e", states_read (flag_a ∷ []) (state_a false ∷ [])) ∷ []) begun

abbrev all_done : World
all_done = with_reading ((bytes "e", loaded (rows_a false)) ∷ []) states_done

abbrev all_done_run : Reach (initial db_a) all_done
all_done_run =
    after
      (after (after here (starts (bytes "e") (initial db_a)))
        (reads_states (bytes "e") (flag_a ∷ []) [] [] begun refl))
      (reads_segments (bytes "e") (flag_a ∷ []) (state_a false ∷ []) [] [] states_done refl)

abbrev seen : World
seen = finish (bytes "e") (rows_a false) [] all_done

abbrev seen_run : Reach (initial db_a) seen
seen_run = after all_done_run (finishes (bytes "e") (rows_a false) [] [] all_done refl)

abbrev changed : World
changed = change_states (bytes "e") (state_a true ∷ []) seen

abbrev changed_run : Reach (initial db_a) changed
changed_run = after seen_run (changes (bytes "e") (state_a true ∷ []) seen)

abbrev told : World
told = deliver (bytes "e") [] changed

abbrev told_run : Reach (initial db_a) told
told_run = after changed_run (delivers (bytes "e") [] changed refl)

Reach-refines_example : served (bytes "e") told ≡ some (build_ruleset (told.db (bytes "e")))
Reach-refines_example =
    Reach-refines db_a told (bytes "e") told_run ((((((tt, tt), tt), tt), tt), tt), λ _ b. b.1)
      (λ m. m)

-- The notification is handled while the load that read before the change is in flight: then the old
-- state is served, with no load in flight and no notification on its way.
abbrev changed_early : World
changed_early = change_states (bytes "e") (state_a true ∷ []) all_done

abbrev raced : World
raced = finish (bytes "e") (rows_a false) [] (deliver (bytes "e") [] changed_early)

abbrev raced_run : Reach (initial db_a) raced
raced_run =
    after
      (after (after all_done_run (changes (bytes "e") (state_a true ∷ []) all_done))
        (delivers (bytes "e") [] changed_early refl))
      (finishes (bytes "e") (rows_a false) [] [] (deliver (bytes "e") [] changed_early) refl)

raced_test :
    ((raced.db (bytes "e")).states ≡ state_a true ∷ [])
    × (served (bytes "e") raced ≡ some (build_ruleset (rows_a false)))
    × (raced.reading ≡ [])
    × (raced.pending ≡ [])
unfolding featuresignals_unified.Base.Text.text_eq featuresignals_unified.Cache.ruleset_for
    get_ruleset lookup featuresignals_unified.Cache.load_ruleset
    featuresignals_unified.Cache.store_ruleset featuresignals_unified.Base.Assoc.insert
    featuresignals_unified.Cache.invalidate featuresignals_unified.Base.Assoc.remove
raced_test = (refl, refl, refl, refl)

abbrev actions : List Action
actions =
    connects 1 (bytes "e")
    ∷ connects 2 (bytes "f")
    ∷ publishes (bytes "e") (bytes "x")
    ∷ connects 3 (bytes "e")
    ∷ receives 1 (bytes "e")
    ∷ publishes (bytes "e") (bytes "y")
    ∷ disconnects 3 (bytes "e")
    ∷ []

act_all_test :
    (lookup (bytes "e") (act_all actions new_server).clients
      ≡ some (record { id = 1; env_id = bytes "e"; events = bytes "y" ∷ [] } ∷ []))
    × (client_count (bytes "f") (act_all actions new_server) ≡ 1)
    × (total_client_count (act_all actions new_server) ≡ 2)
unfolding lookup act_all featuresignals_unified.Cache.remove_client
    featuresignals_unified.Cache.broadcast featuresignals_unified.Cache.receive_next
    featuresignals_unified.Cache.add_client featuresignals_unified.Base.Assoc.insert
    featuresignals_unified.Base.Text.text_eq featuresignals_unified.Cache.set_delete
    featuresignals_unified.Cache.offer_all client_count total_client_count
act_all_test = (refl, refl, refl)

new_server-IsBounded : IsBounded new_server
unfolding lookup
new_server-IsBounded env cs l = absurd (cc l)

act_all-IsBounded_example : IsBounded (act_all actions new_server)
act_all-IsBounded_example = act_all-IsBounded actions new_server new_server-IsBounded

abbrev change_e : Change
change_e = record { flag_id = bytes "1"; env_id = bytes "e"; action = bytes "UPDATE" }

abbrev hub_e : Hub
hub_e = record {
  cache = seen.cache;
  broadcaster = some (act_all actions new_server);
  notifier = none;
}

abbrev marshal_action : Change → Option Text
marshal_action change = some change.action

on_change-Received_example :
    (get_ruleset (bytes "e") (on_change marshal_action (some change_e) hub_e).cache ≡ none)
    × ((e : Text)
        → e ≢ bytes "e"
        → get_ruleset e (on_change marshal_action (some change_e) hub_e).cache
          ≡ get_ruleset e seen.cache)
    × ((t : Server) × ((on_change marshal_action (some change_e) hub_e).broadcaster ≡ some t)
        × Received (bytes "e") (bytes "UPDATE") (act_all actions new_server) t)
on_change-Received_example =
    on_change-Received marshal_action change_e (bytes "UPDATE") hub_e (act_all actions new_server)
      refl refl
