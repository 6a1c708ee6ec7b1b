-- ===== src/Gateway/RateLimiter/Windows.antt =====
-- What a client gets through while others use the limiter: RateLimiter of
-- deploy/global-router/security.go.
use mathlib.Core.Path.{subst}
use featuresignals_unified.Base.{
  ℕ, ◌+◌, ◌*◌, ◌≤◌, ◌<◌, ◌≡◌, ◌⊎◌, refl, Option, none, List, [], ◌∷◌, ◌++◌, ltb, length, arith,
  Bool-cases, inl, inr, if◌then◌else◌,
}
use featuresignals_unified.Base.Text.{Text, text_eq, text_eq_iff}
use featuresignals_unified.Base.Assoc.{lookup, insert, lookup-insert}
use featuresignals_unified.Gateway.RateLimiter.{
  RateLimiter, Verdict, allowed, or_none_yet, evict, allow, sweep_entries, clean_up,
}

-- A request of a client, or a round of the cleanup, with its time.
pub data Event : Type 0 where
  request : Text → ℕ → Event
  clean : ℕ → Event

abbrev pub passed_times : ℕ → Verdict → List ℕ
passed_times now (allowed _) = now ∷ []
passed_times now _ = []

-- The times of the requests of a client that are let through.
unfoldable pub passed : Text → List Event → RateLimiter → List ℕ
passed ip [] rl = []
passed ip (request k now ∷ es) rl =
    let answer = allow k now rl in
    let rest = passed ip es answer.1 in
    if text_eq k ip then passed_times now answer.0 ++ rest else rest
passed ip (clean now ∷ es) rl = passed ip es (clean_up now rl)

-- The times do not fall, and the map never outgrows its bound.
abbrev pub Fits : ℕ → List Event → RateLimiter → Type 0
Fits last [] rl = Unit
Fits last (request k now ∷ es) rl =
    (last ≤ now) × (length (insert k [] rl.requests) ≤ rl.max_ips) × Fits now es (allow k now rl).1
Fits last (clean now ∷ es) rl = (last ≤ now) × Fits now es (clean_up now rl)

pub length-insert :
    {V : Type 0} (k : Text) (v w : V) (m : List (Text × V))
    → length (insert k v m) ≡ length (insert k w m)
unfolding insert
length-insert k v w [] = refl
length-insert k v w ((j, u) ∷ m) = ground (arith, length-insert k v w m)

pub evict_none : (max_ips : ℕ) (m : List (Text × List ℕ)) → length m ≤ max_ips → evict max_ips m ≡ m
unfolding evict
evict_none max_ips m h = elim (Bool-cases (ltb max_ips (length m))) [
  | inl over ↦ absurd (ground (arith, over, h))
  | inr fits ↦ ground (arith, fits)
]

-- No client has two entries.
abbrev pub IsDistinct : List (Text × List ℕ) → Type 0
IsDistinct [] = Unit
IsDistinct ((k, _) ∷ m) = (lookup k m ≡ none) × IsDistinct m

pub insert-IsDistinct :
    (k : Text) (v : List ℕ) (m : List (Text × List ℕ)) → IsDistinct m → IsDistinct (insert k v m)
unfolding insert lookup
insert-IsDistinct k v [] h = (refl, tt)
insert-IsDistinct k v ((j, w) ∷ m) h = elim (Bool-cases (text_eq j k)) [
  | inl t ↦ rw t (subst (λ x. lookup x m ≡ none) ((text_eq_iff j k).0 t) h.0, h.1)
  | inr f ↦ rw f (
    ground (arith, lookup-insert k j v m, text_eq_iff k j, text_eq_iff j k, h.0, f),
    insert-IsDistinct k v m h.1,
  )
]

sweep_entries-none :
    (ip : Text) (window now : ℕ) (m : List (Text × List ℕ))
    → lookup ip m ≡ none
    → lookup ip (sweep_entries window now m) ≡ none
unfolding sweep_entries lookup
sweep_entries-none ip window now [] h = refl
sweep_entries-none ip window now ((j, []) ∷ m) h =
    ground (arith, h, sweep_entries-none ip window now m)
sweep_entries-none ip window now ((j, t ∷ ts) ∷ m) h =
    ground (arith, h, sweep_entries-none ip window now m)

pub sweep_entries-IsDistinct :
    (window now : ℕ) (m : List (Text × List ℕ))
    → IsDistinct m
    → IsDistinct (sweep_entries window now m)
unfolding sweep_entries
sweep_entries-IsDistinct window now [] h = tt
sweep_entries-IsDistinct window now ((j, []) ∷ m) h = sweep_entries-IsDistinct window now m h.1
sweep_entries-IsDistinct window now ((j, t ∷ ts) ∷ m) h =
    elim (Bool-cases (ltb (t + 2 * window) now)) [
      | inl old ↦ rw old (sweep_entries-IsDistinct window now m h.1)
      | inr kept ↦
          rw kept (sweep_entries-none j window now m h.0, sweep_entries-IsDistinct window now m h.1)
    ]

-- Entries that the cleanup removes.
abbrev pub Stale : ℕ → ℕ → List ℕ → Type 0
Stale window now [] = Unit
Stale window now (t ∷ _) = t + 2 * window < now

abbrev pub Swept : ℕ → ℕ → Option (List ℕ) → Option (List ℕ) → Type 0
Swept window now before after =
    (after ≡ before) ⊎ ((after ≡ none) × Stale window now (or_none_yet before))

pub sweep_entries-Swept :
    (ip : Text) (window now : ℕ) (m : List (Text × List ℕ))
    → IsDistinct m
    → Swept window now (lookup ip m) (lookup ip (sweep_entries window now m))
unfolding sweep_entries lookup
sweep_entries-Swept ip window now [] h = inl refl
sweep_entries-Swept ip window now ((j, []) ∷ m) h = elim (Bool-cases (text_eq j ip)) [
  | inl t ↦ rw t (
      inr (
        sweep_entries-none ip window now m
            (subst (λ x. lookup x m ≡ none) ((text_eq_iff j ip).0 t) h.0),
        tt,
      ))
  | inr f ↦ rw f (sweep_entries-Swept ip window now m h.1)
]
sweep_entries-Swept ip window now ((j, t ∷ ts) ∷ m) h = elim (Bool-cases (text_eq j ip)) [
  | inl same ↦ elim (Bool-cases (ltb (t + 2 * window) now)) [
    | inl old ↦
        rw (old, same)
          (inr (
            sweep_entries-none ip window now m
                (subst (λ x. lookup x m ≡ none) ((text_eq_iff j ip).0 same) h.0),
            ground (arith, old),
          ))
    | inr kept ↦ rw (kept, same) (inl refl)
  ]
  | inr other ↦ elim (Bool-cases (ltb (t + 2 * window) now)) [
    | inl old ↦ rw (old, other) (sweep_entries-Swept ip window now m h.1)
    | inr kept ↦ rw (kept, other) (sweep_entries-Swept ip window now m h.1)
  ]
]
