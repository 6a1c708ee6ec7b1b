-- ===== src/Cache/Broadcasts.antt =====
-- What a change does to the streams, and what holds of the channels: server/internal/sse/server.go.
use mathlib.Core.Path.{subst}
use featuresignals_unified.Base.{
  ℕ, ◌+◌, ◌≤◌, ◌<◌, ◌≡◌, ◌≢◌, sym, refl, inl, inr, Bool-cases, Option, none, some, List, [], ◌∷◌,
  ◌++◌, length, arith,
}
use featuresignals_unified.Base.Preds.{All, In}
use featuresignals_unified.Base.Text.{Text, text_eq, text_eq_iff, text_eq_refl}
use featuresignals_unified.Base.Assoc.{lookup, insert, lookup-insert, lookup-remove}
use featuresignals_unified.Cache.{
  Client, Server, Action, connects, disconnects, publishes, receives, or_empty, set_clients,
  map_set, add_client, remove_client, broadcast, receive, set_delete, set_add, take_from, offer,
  offer_all, receive_next, act, act_all, Hub, Change, on_change, invalidate, get_ruleset,
}

-- Each channel has at most 64 events, and each client stands under its own environment.
abbrev IsRegular : Text → Client → Type 0
IsRegular env c = (length c.events ≤ 64) × (c.env_id ≡ env)

abbrev pub IsBounded : Server → Type 0
IsBounded s =
    (env : Text) (cs : List Client) → lookup env s.clients ≡ some cs → All (IsRegular env) cs

length-append_one : {A : Type 0} (xs : List A) (x : A) → length (xs ++ x ∷ []) ≡ length xs + 1
length-append_one [] x = omega arith
length-append_one (y ∷ ys) x = omega (arith, length-append_one ys x)

offer_all-IsRegular :
    (env payload : Text) (cs : List Client)
    → All (IsRegular env) cs
    → All (IsRegular env) (offer_all payload cs)
unfolding offer_all offer
offer_all-IsRegular env payload [] h = tt
offer_all-IsRegular env payload (c ∷ cs) h = (
  ground (arith, length-append_one c.events payload, h.0),
  offer_all-IsRegular env payload cs h.1,
)

set_add-IsRegular :
    (env : Text) (c : Client) (cs : List Client)
    → IsRegular env c
    → All (IsRegular env) cs
    → All (IsRegular env) (set_add c cs)
unfolding set_add
set_add-IsRegular env c [] k h = (k, tt)
set_add-IsRegular env c (d ∷ ds) k h = ground (arith, k, h, set_add-IsRegular env c ds k h.1)

set_delete-IsRegular :
    (env : Text) (id : ℕ) (cs : List Client)
    → All (IsRegular env) cs
    → All (IsRegular env) (set_delete id cs)
unfolding set_delete
set_delete-IsRegular env id [] h = tt
set_delete-IsRegular env id (d ∷ ds) h = ground (arith, h, set_delete-IsRegular env id ds h.1)

receive-IsRegular : (env : Text) (c : Client) → IsRegular env c → IsRegular env (receive c).1
unfolding receive
receive-IsRegular env c h = ground (arith, h)

take_from-IsRegular :
    (env : Text) (id : ℕ) (cs : List Client)
    → All (IsRegular env) cs
    → All (IsRegular env) (take_from id cs)
unfolding take_from
take_from-IsRegular env id [] h = tt
take_from-IsRegular env id (d ∷ ds) h =
    (ground (arith, h.0, receive-IsRegular env d h.0), take_from-IsRegular env id ds h.1)

insert-IsBounded :
    (env : Text) (cs : List Client) (s : Server)
    → All (IsRegular env) cs
    → IsBounded s
    → IsBounded (record { clients = insert env cs s.clients })
insert-IsBounded env cs s k h e ds l = elim (Bool-cases (text_eq env e)) [
  | inl t ↦
      subst (All (IsRegular e)) (cc (rw t at (lookup-insert env e cs s.clients), l))
        (subst (λ x. All (IsRegular x) cs) ((text_eq_iff env e).0 t) k)
  | inr f ↦ h e ds (rw (lookup-insert env e cs s.clients, f) at l)
]

set_clients-IsBounded :
    (env : Text) (f : List Client → List Client) (s : Server) (found : Option (List Client))
    → lookup env s.clients ≡ found
    → ((cs : List Client) → All (IsRegular env) cs → All (IsRegular env) (f cs))
    → IsBounded s
    → IsBounded (set_clients env (map_set f found) s)
set_clients-IsBounded env f s none e k h = h
set_clients-IsBounded env f s (some cs) e k h = insert-IsBounded env (f cs) s (k cs (h env cs e)) h

or_empty-IsRegular :
    (env : Text) (s : Server) (found : Option (List Client))
    → lookup env s.clients ≡ found
    → IsBounded s
    → All (IsRegular env) (or_empty found)
or_empty-IsRegular env s none e h = tt
or_empty-IsRegular env s (some cs) e h = h env cs e

act-IsBounded : (a : Action) (s : Server) → IsBounded s → IsBounded (act a s)
unfolding act add_client remove_client broadcast receive_next
act-IsBounded (connects id env) s h =
    insert-IsBounded env _ s
      (set_add-IsRegular env (record { id = id; env_id = env; events = [] }) _ (omega arith, refl)
        (or_empty-IsRegular env s (lookup env s.clients) refl h))
      h
act-IsBounded (disconnects id env) s h =
    set_clients-IsBounded env (set_delete id) s (lookup env s.clients) refl
      (set_delete-IsRegular env id) h
act-IsBounded (publishes env payload) s h =
    set_clients-IsBounded env (offer_all payload) s (lookup env s.clients) refl
      (offer_all-IsRegular env payload) h
act-IsBounded (receives id env) s h =
    set_clients-IsBounded env (take_from id) s (lookup env s.clients) refl
      (take_from-IsRegular env id) h

-- Whatever connects, disconnects, publishes and receives, each client stands under the environment
-- that it connected to and has at most 64 unread events.
pub act_all-IsBounded :
    (actions : List Action) (s : Server) → IsBounded s → IsBounded (act_all actions s)
unfolding act_all
act_all-IsBounded [] s h = h
act_all-IsBounded (a ∷ more) s h = act_all-IsBounded more (act a s) (act-IsBounded a s h)

offer_all-In :
    (payload : Text) (c : Client) (cs : List Client)
    → In c cs
    → length c.events < 64
    → In (record c { events = c.events ++ payload ∷ [] }) (offer_all payload cs)
unfolding offer_all offer
offer_all-In payload c [] m room = absurd m
offer_all-In payload c (d ∷ ds) (inl e) room = inl (
    subst (λ x. offer payload x ≡ record c { events = c.events ++ payload ∷ [] }) (sym e)
      (ground (arith, room)))
offer_all-In payload c (d ∷ ds) (inr m) room = inr (offer_all-In payload c ds m room)

-- The streams of one environment after a broadcast.
abbrev pub Received : Text → Text → Server → Server → Type 0
Received env payload s t =
    ((cs : List Client) (c : Client)
      → lookup env s.clients ≡ some cs
      → In c cs
      → length c.events < 64
      → (ds : List Client) × (lookup env t.clients ≡ some ds)
        × In (record c { events = c.events ++ payload ∷ [] }) ds)
    × ((e : Text) → e ≢ env → lookup e t.clients ≡ lookup e s.clients)

set_clients-Received :
    (env payload : Text) (s : Server) (found : Option (List Client))
    → lookup env s.clients ≡ found
    → Received env payload s (set_clients env (map_set (offer_all payload) found) s)
set_clients-Received env payload s none h = (λ cs c l m room. absurd (cc (h, l)), λ e other. refl)
set_clients-Received env payload s (some bs) h = (
  λ cs c l m room. (
    offer_all payload bs,
    ground (arith, lookup-insert env env (offer_all payload bs) s.clients, text_eq_refl env),
    offer_all-In payload c bs (subst (In c) (cc (h, l)) m) room,
  ),
  λ e other.
      ground
        (arith, lookup-insert env e (offer_all payload bs) s.clients, text_eq_iff env e, other),
)

-- A change that is announced, with a payload that can be marshalled, leaves no ruleset cached for
-- its environment, appends the payload to each client of that environment with fewer than 64 unread
-- events, and leaves the cached rulesets and the streams of the other environments as they were.
pub on_change-Received :
    (marshal : Change → Option Text) (change : Change) (event : Text) (hub : Hub) (s : Server)
    → marshal change ≡ some event
    → hub.broadcaster ≡ some s
    → (get_ruleset change.env_id (on_change marshal (some change) hub).cache ≡ none)
      × ((e : Text)
          → e ≢ change.env_id
          → get_ruleset e (on_change marshal (some change) hub).cache ≡ get_ruleset e hub.cache)
      × ((t : Server) × ((on_change marshal (some change) hub).broadcaster ≡ some t)
          × Received change.env_id event s t)
unfolding on_change get_ruleset invalidate broadcast
on_change-Received marshal change event hub s marshalled streams = (
  ground (
    arith,
    lookup-remove change.env_id change.env_id hub.cache.rulesets,
    text_eq_refl change.env_id,
  ),
  λ e other.
      ground (
        arith,
        lookup-remove change.env_id e hub.cache.rulesets,
        text_eq_iff change.env_id e,
        other,
      ),
  (
    broadcast change.env_id event s,
    rw (marshalled, streams) refl,
    set_clients-Received change.env_id event s (lookup change.env_id s.clients) refl,
  ),
)
