-- ===== src/Gateway/Connections.antt =====
-- The limit on open connections: connLimiter of deploy/global-router/security.go.
use mathlib.Core.Path.{subst}
use featuresignals_unified.Base.{
  ℕ, ◌+◌, ◌-◌, ◌≤◌, ◌<◌, ap, ◌≡◌, refl, ◌∙◌, inl, inr, Bool, true, false, Bool-cases, Option-cases,
  Option, none, some, List, [], ◌∷◌, leb, arith, if◌then◌else◌,
}
use featuresignals_unified.Base.Text.{Text, text_eq, text_eq_iff}
use featuresignals_unified.Base.Assoc.{lookup, insert, remove, lookup-insert, lookup-remove}

pub record ConnLimiter : Type 0 where
  pub conns : List (Text × ℕ)
  pub max : ℕ

abbrev pub or_zero : Option ℕ → ℕ
or_zero none = 0
or_zero (some n) = n

-- `cl.conns[ip]`
unfoldable pub connections : Text → ConnLimiter → ℕ
connections ip cl = or_zero (lookup ip cl.conns)

unfoldable pub acquire : Text → ConnLimiter → Bool × ConnLimiter
unfolding connections
acquire ip cl =
    if leb cl.max (connections ip cl)
    then (false, cl)
    else (true, record cl { conns = insert ip (connections ip cl + 1) cl.conns })

-- The count falls by one, and an entry that is not above 0 is deleted. A count is an `int` that may
-- be below 0 in the source only between these two lines.
unfoldable pub release : Text → ConnLimiter → ConnLimiter
unfolding connections
release ip cl =
    if leb (connections ip cl) 1
    then record cl { conns = remove ip cl.conns }
    else record cl { conns = insert ip (connections ip cl - 1) cl.conns }

-- What connLimitMiddleware does: a request that is let in is open until it is served, and releases
-- its connection then. The list holds the clients of the open requests.
pub data Moment : Type 0 where
  arrives : Text → Moment
  leaves : Text → Moment

pub record Door : Type 0 where
  pub limiter : ConnLimiter
  pub inside : List Text

abbrev pub let_in : Text → List Text → Bool × ConnLimiter → Door
let_in ip inside (true, cl) = record { limiter = cl; inside = ip ∷ inside }
let_in ip inside (false, cl) = record { limiter = cl; inside = inside }

unfoldable pub take_out : Text → List Text → Option (List Text)
take_out ip [] = none
take_out ip (k ∷ ks) =
    let rest = take_out ip ks in
    if text_eq k ip then some ks else elim rest [ none ↦ none | some r ↦ some (k ∷ r) ]

-- Only an open request leaves.
abbrev pub let_out : Text → Door → Option (List Text) → Door
let_out ip d none = d
let_out ip d (some inside) = record { limiter = release ip d.limiter; inside = inside }

unfoldable pub pass : Moment → Door → Door
pass (arrives ip) d = let_in ip d.inside (acquire ip d.limiter)
pass (leaves ip) d = let_out ip d (take_out ip d.inside)

unfoldable pub pass_all : List Moment → Door → Door
unfolding pass
pass_all [] d = d
pass_all (m ∷ ms) d = pass_all ms (pass m d)

unfoldable pub times_in : Text → List Text → ℕ
times_in ip [] = 0
times_in ip (k ∷ ks) = (if text_eq k ip then 1 else 0) + times_in ip ks

-- The limiter counts the open requests of each client, and they are at most `max`.
pub record IsCounted (max : ℕ) (d : Door) : Type 0 where
  pub bound : d.limiter.max ≡ max
  pub counted : (ip : Text) → connections ip d.limiter ≡ times_in ip d.inside
  pub within : (ip : Text) → times_in ip d.inside ≤ max

times_in-take_out :
    (ip k : Text) (ks rest : List Text)
    → take_out ip ks ≡ some rest
    → times_in k ks ≡ (if text_eq ip k then 1 else 0) + times_in k rest
unfolding take_out times_in
times_in-take_out ip k [] rest h = absurd (cc h)
times_in-take_out ip k (j ∷ ks) rest h = elim (Bool-cases (text_eq j ip)) [
  | inl t ↦ ground (arith, text_eq_iff j ip, t, h)
  | inr f ↦ elim (Option-cases (take_out ip ks)) [
    | inl missing ↦ absurd (cc (rw (f, missing) at h))
    | inr (r, found) ↦ ground (arith, times_in-take_out ip k ks r found, f, found, h)
  ]
]

connections-acquire :
    (ip k : Text) (cl : ConnLimiter)
    → connections k (record cl { conns = insert ip (connections ip cl + 1) cl.conns })
      ≡ (if text_eq ip k then 1 else 0) + connections k cl
unfolding connections
connections-acquire ip k cl =
    ground (arith, lookup-insert ip k (or_zero (lookup ip cl.conns) + 1) cl.conns, text_eq_iff ip k)

connections-release :
    (ip k : Text) (cl : ConnLimiter) (n : ℕ)
    → connections k cl ≡ (if text_eq ip k then 1 else 0) + n
    → connections k (release ip cl) ≡ n
unfolding connections release
connections-release ip k cl n h = elim (Bool-cases (text_eq ip k)) [
  | inl t ↦ ground (
    arith,
    t,
    h,
    lookup-insert ip k (or_zero (lookup ip cl.conns) - 1) cl.conns,
    lookup-remove ip k cl.conns,
    (text_eq_iff ip k).0 t,
  )
  | inr f ↦ ground (
    arith,
    f,
    h,
    lookup-insert ip k (or_zero (lookup ip cl.conns) - 1) cl.conns,
    lookup-remove ip k cl.conns,
  )
]

let_in-within :
    (max : ℕ) (ip k : Text) (d : Door)
    → IsCounted max d
    → times_in ip d.inside < max
    → times_in k (ip ∷ d.inside) ≤ max
unfolding times_in
let_in-within max ip k d h room = elim (Bool-cases (text_eq ip k)) [
  | inl t ↦
      rw t (omega (arith, subst (λ x. times_in x d.inside < max) ((text_eq_iff ip k).0 t) room))
  | inr f ↦ rw f (omega (arith, h.within k))
]

let_in-IsCounted :
    (max : ℕ) (ip : Text) (d : Door) → IsCounted max d → IsCounted max (pass (arrives ip) d)
unfolding pass acquire times_in
let_in-IsCounted max ip d h = elim (Bool-cases (leb d.limiter.max (connections ip d.limiter))) [
  | inl full ↦ rw full h
  | inr free ↦ rw free (record {
    bound = h.bound;
    counted = λ k.
        connections-acquire ip k d.limiter
        ∙ ap (λ n. (if text_eq ip k then 1 else 0) + n) (h.counted k);
    within = λ k. let_in-within max ip k d h (ground (arith, free, h.bound, h.counted ip));
  })
]

release_max : (ip : Text) (cl : ConnLimiter) → (release ip cl).max ≡ cl.max
unfolding release
release_max ip cl = ground arith

let_out-IsCounted :
    (max : ℕ) (ip : Text) (d : Door) (left : Option (List Text))
    → take_out ip d.inside ≡ left
    → IsCounted max d
    → IsCounted max (let_out ip d left)
let_out-IsCounted max ip d none e h = h
let_out-IsCounted max ip d (some rest) e h = record {
  bound = release_max ip d.limiter ∙ h.bound;
  counted = λ k.
      connections-release ip k d.limiter (times_in k rest)
        (h.counted k ∙ times_in-take_out ip k d.inside rest e);
  within = λ k. omega (arith, h.within k, times_in-take_out ip k d.inside rest e);
}

abbrev pub open_door : ℕ → Door
open_door max = record { limiter = record { conns = []; max = max }; inside = [] }

open_door-IsCounted : (max : ℕ) → IsCounted max (open_door max)
unfolding connections lookup times_in
open_door-IsCounted max = record { bound = refl; counted = λ ip. refl; within = λ ip. omega arith }

IsCounted-pass_all :
    (max : ℕ) (ms : List Moment) (d : Door) → IsCounted max d → IsCounted max (pass_all ms d)
unfolding pass_all pass
IsCounted-pass_all max [] d h = h
IsCounted-pass_all max (arrives ip ∷ ms) d h =
    IsCounted-pass_all max ms (pass (arrives ip) d) (let_in-IsCounted max ip d h)
IsCounted-pass_all max (leaves ip ∷ ms) d h =
    IsCounted-pass_all max ms (pass (leaves ip) d)
      (let_out-IsCounted max ip d (take_out ip d.inside) refl h)

-- However the requests of all clients arrive and leave, the limiter counts for each client its open
-- requests, and they are never more than the limit.
pub pass_all-IsCounted : (max : ℕ) (ms : List Moment) → IsCounted max (pass_all ms (open_door max))
pass_all-IsCounted max ms = IsCounted-pass_all max ms (open_door max) (open_door-IsCounted max)
