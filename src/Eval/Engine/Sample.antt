-- ===== src/Eval/Engine/Sample.antt =====
-- A concrete instance of what the engine takes from Go's libraries: an insertion sort of rules by
-- priority with the laws of `sort.Slice`, and a toy reading of JSON and of numbers.
use featuresignals_unified.Base.{
  ℕ, Option, none, some, ltb, leb, length, if◌then◌else◌, ◌≡◌, refl, inl, inr, Bool, true, false,
  List, [], ◌∷◌, arith,
}
use featuresignals_unified.Base.Int.{◌≤ℤ◌, leb_ℤ}
use featuresignals_unified.Base.Preds.{All, In, In-All, All-In, All-map}
use featuresignals_unified.Base.Text.{Text, bytes, text_eq}
use featuresignals_unified.Domain.{TargetingRule, Json, str, bool}
use featuresignals_unified.Eval.Std.{IsSorted, SortLaws, Std}

place :
    Bool
    → TargetingRule
    → TargetingRule
    → List TargetingRule
    → List TargetingRule
    → List TargetingRule
place true r s rs rest = r ∷ s ∷ rs
place false r s rs rest = s ∷ rest

insert_rule : TargetingRule → List TargetingRule → List TargetingRule
unfolding place
insert_rule r [] = r ∷ []
insert_rule r (s ∷ rs) = place (leb_ℤ r.priority s.priority) r s rs (insert_rule r rs)

unfoldable pub insertion_sort : List TargetingRule → List TargetingRule
unfolding insert_rule
insertion_sort [] = []
insertion_sort (r ∷ rs) = insert_rule r (insertion_sort rs)

insert_rule-sound :
    (a r : TargetingRule) (rs : List TargetingRule) → In a (insert_rule r rs) → In a (r ∷ rs)
unfolding insert_rule
insert_rule-sound a r [] m = m
insert_rule-sound a r (s ∷ rs) m = go (leb_ℤ r.priority s.priority) m (insert_rule-sound a r rs)
  where
    go :
        (b : Bool)
        → In a (place b r s rs (insert_rule r rs))
        → (In a (insert_rule r rs) → In a (r ∷ rs))
        → In a (r ∷ s ∷ rs)
    go true k ih = k
    go false (inl e) ih = inr (inl e)
    go false (inr k) ih = elim (ih k) [ inl e ↦ inl e | inr l ↦ inr (inr l) ]

insert_rule-complete :
    (a r : TargetingRule) (rs : List TargetingRule) → In a (r ∷ rs) → In a (insert_rule r rs)
unfolding insert_rule
insert_rule-complete a r [] m = m
insert_rule-complete a r (s ∷ rs) m =
    go (leb_ℤ r.priority s.priority) m (insert_rule-complete a r rs)
  where
    go :
        (b : Bool)
        → In a (r ∷ s ∷ rs)
        → (In a (r ∷ rs) → In a (insert_rule r rs))
        → In a (place b r s rs (insert_rule r rs))
    go true k ih = k
    go false (inl e) ih = inr (ih (inl e))
    go false (inr (inl e)) ih = inl e
    go false (inr (inr k)) ih = inr (ih (inr k))

insert_rule-IsSorted :
    (r : TargetingRule) (rs : List TargetingRule) → IsSorted rs → IsSorted (insert_rule r rs)
unfolding insert_rule
insert_rule-IsSorted r [] h = (tt, tt)
insert_rule-IsSorted r (s ∷ rs) h =
    go (leb_ℤ r.priority s.priority) refl (insert_rule-IsSorted r rs h.1)
  where
    above : (s.priority ≤ℤ r.priority) → All (λ x. s.priority ≤ℤ x.priority) (insert_rule r rs)
    above le =
        All-In (λ x. s.priority ≤ℤ x.priority) (insert_rule r rs)
          (λ x m.
            In-All (λ y. s.priority ≤ℤ y.priority) (r ∷ rs) (le, h.0) (insert_rule-sound x r rs m))

    go :
        (b : Bool)
        → leb_ℤ r.priority s.priority ≡ b
        → IsSorted (insert_rule r rs)
        → IsSorted (place b r s rs (insert_rule r rs))
    go true e ih = (
      (
        ground arith,
        All-map (λ x. s.priority ≤ℤ x.priority) (λ x. r.priority ≤ℤ x.priority)
            (λ x le. ground arith) rs h.0,
      ),
      h,
    )
    go false e ih = (above (ground arith), ih)

pub insertion_sort-IsSorted : (rs : List TargetingRule) → IsSorted (insertion_sort rs)
unfolding insertion_sort
insertion_sort-IsSorted [] = tt
insertion_sort-IsSorted (r ∷ rs) =
    insert_rule-IsSorted r (insertion_sort rs) (insertion_sort-IsSorted rs)

pub insertion_sort-sound :
    (a : TargetingRule) (rs : List TargetingRule) → In a (insertion_sort rs) → In a rs
unfolding insertion_sort
insertion_sort-sound a [] m = m
insertion_sort-sound a (r ∷ rs) m = elim (insert_rule-sound a r (insertion_sort rs) m) [
  | inl e ↦ inl e
  | inr k ↦ inr (insertion_sort-sound a rs k)
]

pub insertion_sort-complete :
    (a : TargetingRule) (rs : List TargetingRule) → In a rs → In a (insertion_sort rs)
unfolding insertion_sort
insertion_sort-complete a [] m = m
insertion_sort-complete a (r ∷ rs) (inl e) = insert_rule-complete a r (insertion_sort rs) (inl e)
insertion_sort-complete a (r ∷ rs) (inr m) =
    insert_rule-complete a r (insertion_sort rs) (inr (insertion_sort-complete a rs m))

unfoldable pub toy_sprint : Json ℕ → Text
toy_sprint (str s) = s
toy_sprint (bool true) = bytes "true"
toy_sprint (bool false) = bytes "false"
toy_sprint _ = bytes "<other>"

unfoldable pub toy_unmarshal : Text → Option (Json ℕ)
toy_unmarshal s =
    if text_eq s (bytes "true")
    then some (bool true)
    else (if text_eq s (bytes "false") then some (bool false) else some (str s))

abbrev pub toy_std : Std
toy_std = record {
  Float = ℕ;
  float_lt = ltb;
  float_le = leb;
  parse_float = λ s. some (length s);
  compile = λ p. none;
  sprint = toy_sprint;
  unmarshal = toy_unmarshal;
  json_valid = λ s. true;
  sort_rules = insertion_sort;
}

pub toy_laws : SortLaws toy_std
toy_laws = record {
  sorted = insertion_sort-IsSorted;
  sound = insertion_sort-sound;
  complete = insertion_sort-complete;
}
