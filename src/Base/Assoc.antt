-- ===== src/Base/Assoc.antt =====
-- Go's maps with string keys, as association lists. The order of the list is the order in which
-- `range` happens to visit the entries; a statement that quantifies over the list covers each.
use featuresignals_unified.Base.{◌≡◌, refl, Option, none, some, List, [], ◌∷◌, arith, if◌then◌else◌}
use featuresignals_unified.Base.Text.{Text, text_eq, text_eq_iff}

module _ {ℓ} {V : Type ℓ} where
  -- `v, ok := m[k]`
  unfoldable pub lookup : Text → List (Text × V) → Option V
  lookup k [] = none
  lookup k ((j, v) ∷ m) = if text_eq j k then some v else lookup k m

  -- `m[k] = v`
  unfoldable pub insert : Text → V → List (Text × V) → List (Text × V)
  insert k v [] = (k, v) ∷ []
  insert k v ((j, w) ∷ m) = if text_eq j k then (k, v) ∷ m else (j, w) ∷ insert k v m

  -- `delete(m, k)`
  unfoldable pub remove : Text → List (Text × V) → List (Text × V)
  remove k [] = []
  remove k ((j, w) ∷ m) = if text_eq j k then remove k m else (j, w) ∷ remove k m

  unfoldable pub keys : List (Text × V) → List Text
  keys [] = []
  keys ((j, _) ∷ m) = j ∷ keys m

module _ {ℓ} {V : Type ℓ} where
  pub lookup-insert :
      (k j : Text) (v : V) (m : List (Text × V))
      → lookup j (insert k v m) ≡ (if text_eq k j then some v else lookup j m)
  unfolding lookup insert
  lookup-insert k j v [] = refl
  lookup-insert k j v ((i, w) ∷ m) =
      ground (arith, text_eq_iff k j, text_eq_iff i k, text_eq_iff i j, lookup-insert k j v m)

  pub lookup-remove :
      (k j : Text) (m : List (Text × V))
      → lookup j (remove k m) ≡ (if text_eq k j then none else lookup j m)
  unfolding lookup remove
  lookup-remove k j [] = ground arith
  lookup-remove k j ((i, w) ∷ m) =
      ground (arith, text_eq_iff k j, text_eq_iff i k, text_eq_iff i j, lookup-remove k j m)
