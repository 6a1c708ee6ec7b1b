-- ===== src/Base/Preds.antt =====
-- Predicates on lists by recursion, which the tactics read and build.
use mathlib.Core.Path.{subst}
use featuresignals_unified.Base.{◌≡◌, ◌⊎◌, inl, inr, List, [], ◌∷◌, ◌++◌, refl}

abbrev pub All {ℓ κ} : {A : Type ℓ} → (A → Type κ) → List A → Type κ
All P [] = Unit
All P (x ∷ xs) = P x × All P xs

abbrev pub In : {A : Type 0} → A → List A → Type 0
In a [] = ⊥
In a (x ∷ xs) = (x ≡ a) ⊎ In a xs

pub All-In : {A : Type 0} (P : A → Type 0) (xs : List A) → ((a : A) → In a xs → P a) → All P xs
All-In P [] h = tt
All-In P (x ∷ xs) h = (h x (inl refl), All-In P xs (λ a m. h a (inr m)))

pub In-All : {A : Type 0} (P : A → Type 0) {a : A} (xs : List A) → All P xs → In a xs → P a
In-All P [] h m = absurd m
In-All P (x ∷ xs) h (inl e) = subst P e h.0
In-All P (x ∷ xs) h (inr m) = In-All P xs h.1 m

pub All-map :
    {A : Type 0} (P Q : A → Type 0) → ((a : A) → P a → Q a) → (xs : List A) → All P xs → All Q xs
All-map P Q f [] h = tt
All-map P Q f (x ∷ xs) h = (f x h.0, All-map P Q f xs h.1)

pub In-append_left : {A : Type 0} (a : A) (xs ys : List A) → In a xs → In a (xs ++ ys)
In-append_left a (x ∷ xs) ys (inl e) = inl e
In-append_left a (x ∷ xs) ys (inr m) = inr (In-append_left a xs ys m)
In-append_left a [] ys m = absurd m

pub In-append_last : {A : Type 0} (a : A) (xs : List A) → In a (xs ++ a ∷ [])
In-append_last a [] = inl refl
In-append_last a (x ∷ xs) = inr (In-append_last a xs)

pub In-insert : {A : Type 0} (a b : A) (xs ys : List A) → In a (xs ++ ys) → In a (xs ++ b ∷ ys)
In-insert a b [] ys m = inr m
In-insert a b (x ∷ xs) ys (inl e) = inl e
In-insert a b (x ∷ xs) ys (inr m) = inr (In-insert a b xs ys m)

pub In-middle : {A : Type 0} (b : A) (xs ys : List A) → In b (xs ++ b ∷ ys)
In-middle b [] ys = inl refl
In-middle b (x ∷ xs) ys = inr (In-middle b xs ys)

pub All-append :
    {A : Type 0} (P : A → Type 0) (xs ys : List A) → All P xs → All P ys → All P (xs ++ ys)
All-append P [] ys h k = k
All-append P (x ∷ xs) ys h k = (h.0, All-append P xs ys h.1 k)

pub In-append_cons :
    {A : Type 0} (a b : A) (xs ys : List A) → In a (xs ++ b ∷ ys) → (b ≡ a) ⊎ In a (xs ++ ys)
In-append_cons a b [] ys (inl same) = inl same
In-append_cons a b [] ys (inr m) = inr m
In-append_cons a b (x ∷ xs) ys (inl same) = inr (inl same)
In-append_cons a b (x ∷ xs) ys (inr m) = elim (In-append_cons a b xs ys m) [
  | inl same ↦ inl same
  | inr k ↦ inr (inr k)
]
