-- ===== src/Scheduler/Rounds.antt =====
-- What a job on organizations keeps: server/internal/scheduler/scheduler.go.
use mathlib.Core.Path.{subst}
use featuresignals_unified.Base.{
  ◌≡◌, sym, inl, inr, Bool, true, Bool-cases, Option-cases, Option, some, List, [], ◌∷◌,
}
use featuresignals_unified.Base.Preds.{All, All-map}
use featuresignals_unified.Base.Text.{Text, text_eq, text_eq_iff}
use featuresignals_unified.Scheduler.Accounts.{
  Org, Orgs, Mishaps, list_orgs, update_org, on_row, for_orgs, listed,
}

abbrev AllRows : (Org → Bool) → Orgs → List Text → Type 0
AllRows test orgs ids = All (λ id. (a : Org) × (orgs id ≡ some a) × (test a ≡ true)) ids

list_orgs-AllRows :
    (test : Org → Bool) (ids : List Text) (orgs : Orgs)
    → AllRows test orgs (list_orgs test ids orgs)
unfolding list_orgs
list_orgs-AllRows test [] orgs = tt
list_orgs-AllRows test (id ∷ ids) orgs = elim (Option-cases (orgs id)) [
  | inl e ↦ rw e (list_orgs-AllRows test ids orgs)
  | inr (a, e) ↦ elim (Bool-cases (test a)) [
    | inl t ↦ rw (e, t) ((a, e, t), list_orgs-AllRows test ids orgs)
    | inr f ↦ rw (e, f) (list_orgs-AllRows test ids orgs)
  ]
]

-- What holds of the rows at the start and now is kept by a job that keeps it for the organizations
-- that it lists.
module _ (P : Option Org → Option Org → Type 0) (start : Orgs) (f : Org → Option Org)
    (fails : Text → Bool) where
  abbrev Keeps : Text → Type 0
  Keeps id = (c : Option Org) → P (start id) c → P (start id) (on_row f c)

  update_org-keeps :
      (id : Text) (orgs : Orgs)
      → Keeps id
      → ((k : Text) → P (start k) (orgs k))
      → (k : Text) → P (start k) (update_org id (on_row f) orgs k)
  update_org-keeps id orgs keeps h k = elim (Bool-cases (text_eq id k)) [
    | inl t ↦ rw t (
        subst (λ x. P (start x) (on_row f (orgs x))) ((text_eq_iff id k).0 t)
          (keeps (orgs id) (h id)))
    | inr e ↦ rw e (h k)
  ]

  pub for_orgs-keeps :
      (ids : List Text) (orgs : Orgs)
      → All Keeps ids
      → ((k : Text) → P (start k) (orgs k))
      → (k : Text) → P (start k) (for_orgs fails f ids orgs k)
  unfolding for_orgs
  for_orgs-keeps [] orgs keeps h k = h k
  for_orgs-keeps (id ∷ ids) orgs keeps h k = elim (Bool-cases (fails id)) [
    | inl t ↦ rw t (for_orgs-keeps ids orgs keeps.1 h k)
    | inr e ↦ rw e (
        for_orgs-keeps ids (update_org id (on_row f) orgs) keeps.1
          (update_org-keeps id orgs keeps.0 h) k)
  ]

pub All-each : (P : Text → Type 0) (ids : List Text) → ((id : Text) → P id) → All P ids
All-each P [] h = tt
All-each P (id ∷ ids) h = (h id, All-each P ids h)

pub All-listed :
    (P : Text → Type 0) (m : Mishaps) (ids : List Text) → All P ids → All P (listed m ids)
All-listed P m ids h = elim (Bool-cases m.list_fails) [ inl t ↦ rw t tt | inr f ↦ rw f h ]

-- A job on the listed rows that the condition takes.
pub job-keeps :
    (P : Option Org → Option Org → Type 0) (test : Org → Bool) (f : Org → Option Org)
    → ((o : Option Org) → P o o)
    → ((a : Org) (c : Option Org) → test a ≡ true → P (some a) c → P (some a) (on_row f c))
    → (m : Mishaps) (ids : List Text) (orgs : Orgs) (k : Text)
    → P (orgs k) (for_orgs m.fails f (listed m (list_orgs test ids orgs)) orgs k)
job-keeps P test f start step m ids orgs =
    for_orgs-keeps P orgs f m.fails (listed m (list_orgs test ids orgs)) orgs
      (All-listed (λ id. (c : Option Org) → P (orgs id) c → P (orgs id) (on_row f c)) m
        (list_orgs test ids orgs)
        (All-map (λ id. (a : Org) × (orgs id ≡ some a) × (test a ≡ true))
          (λ id. (c : Option Org) → P (orgs id) c → P (orgs id) (on_row f c))
          (λ id row c h.
            subst (λ o. P o (on_row f c)) (sym row.1)
              (step row.0 c row.2 (subst (λ o. P o c) row.1 h)))
          (list_orgs test ids orgs) (list_orgs-AllRows test ids orgs)))
      (λ k. start (orgs k))
