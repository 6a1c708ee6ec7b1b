-- ===== src/Cache/Streams.antt =====
-- The connected clients: server/internal/sse/server.go. A client is known by an identity, which
-- stands for its address; its channel is the list of the events that it has not read yet.
use featuresignals_unified.Base.{
  ℕ, ◌+◌, Option, none, some, List, [], ◌∷◌, ◌++◌, ltb, ◌==◌, length, if◌then◌else◌,
}
use featuresignals_unified.Base.Text.{Text}
use featuresignals_unified.Base.Assoc.{lookup, insert}

pub record Client : Type 0 where
  pub id : ℕ
  pub env_id : Text
  pub events : List Text

pub record Server : Type 0 where
  pub clients : List (Text × List Client)

abbrev pub new_server : Server
new_server = record { clients = [] }

-- `set[c] = true`
unfoldable pub set_add : Client → List Client → List Client
set_add c [] = c ∷ []
set_add c (d ∷ ds) = if d.id == c.id then d ∷ ds else d ∷ set_add c ds

-- `delete(set, c)`
unfoldable pub set_delete : ℕ → List Client → List Client
set_delete id [] = []
set_delete id (d ∷ ds) = if d.id == id then set_delete id ds else d ∷ set_delete id ds

abbrev pub or_empty : Option (List Client) → List Client
or_empty none = []
or_empty (some cs) = cs

unfoldable pub add_client : Client → Server → Server
unfolding set_add
add_client c s = record {
  clients = insert c.env_id (set_add c (or_empty (lookup c.env_id s.clients))) s.clients;
}

-- Deleting from a nil map does nothing.
abbrev pub set_clients : Text → Option (List Client) → Server → Server
set_clients env none s = s
set_clients env (some cs) s = record { clients = insert env cs s.clients }

abbrev pub map_set : (List Client → List Client) → Option (List Client) → Option (List Client)
map_set f none = none
map_set f (some cs) = some (f cs)

unfoldable pub remove_client : ℕ → Text → Server → Server
remove_client id env s = set_clients env (map_set (set_delete id) (lookup env s.clients)) s

-- The send that is dropped when the channel's 64 places are taken.
unfoldable pub offer : Text → Client → Client
offer payload c =
    if ltb (length c.events) 64 then record c { events = c.events ++ payload ∷ [] } else c

unfoldable pub offer_all : Text → List Client → List Client
unfolding offer
offer_all payload [] = []
offer_all payload (c ∷ cs) = offer payload c ∷ offer_all payload cs

-- BroadcastFlagUpdate, the payload being marshalled.
unfoldable pub broadcast : Text → Text → Server → Server
broadcast env payload s = set_clients env (map_set (offer_all payload) (lookup env s.clients)) s

-- The loop of HandleStream takes the first event from its channel.
unfoldable pub receive : Client → Option Text × Client
receive c = elim (c.events) [ [] ↦ (none, c) | e ∷ es ↦ (some e, record c { events = es }) ]

unfoldable pub take_from : ℕ → List Client → List Client
unfolding receive
take_from id [] = []
take_from id (c ∷ cs) = (if c.id == id then (receive c).1 else c) ∷ take_from id cs

-- One round of the loop of the client with the given identity.
unfoldable pub receive_next : ℕ → Text → Server → Server
unfolding take_from
receive_next id env s = set_clients env (map_set (take_from id) (lookup env s.clients)) s

-- What happens to the server. A client connects with an empty channel.
pub data Action : Type 0 where
  connects : ℕ → Text → Action
  disconnects : ℕ → Text → Action
  publishes : Text → Text → Action
  receives : ℕ → Text → Action

unfoldable pub act : Action → Server → Server
act (connects id env) s = add_client (record { id = id; env_id = env; events = [] }) s
act (disconnects id env) s = remove_client id env s
act (publishes env payload) s = broadcast env payload s
act (receives id env) s = receive_next id env s

unfoldable pub act_all : List Action → Server → Server
unfolding act
act_all [] s = s
act_all (a ∷ more) s = act_all more (act a s)

unfoldable pub client_count : Text → Server → ℕ
client_count env s = length (or_empty (lookup env s.clients))

total_loop : List (Text × List Client) → ℕ
total_loop [] = 0
total_loop ((_, cs) ∷ m) = length cs + total_loop m

unfoldable pub total_client_count : Server → ℕ
unfolding total_loop
total_client_count s = total_loop s.clients
