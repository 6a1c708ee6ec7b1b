-- ===== src/Base/Text.antt =====
-- Go's strings: sequences of bytes, compared byte by byte.
use Prim.Native.Char.{code}
use Prim.Native.String.{String}
use featuresignals_unified.Base.{
  ℕ, ◌≡◌, refl, ◌↔◌, ◌⊎◌, inl, inr, Bool, true, false, ◌&&◌, ◌||◌, List, [], ◌∷◌, arith, ltb, ◌==◌,
}

abbrev pub Text : Type 0
Text = List ℕ

-- The bytes of a literal (every literal of the program that is modelled is ASCII).
abbrev pub bytes : String → Text
bytes String.[] = []
bytes (String.◌∷◌ c s) = code c ∷ bytes s

-- `a == b`
unfoldable pub text_eq : Text → Text → Bool
text_eq [] [] = true
text_eq [] (_ ∷ _) = false
text_eq (_ ∷ _) [] = false
text_eq (x ∷ xs) (y ∷ ys) = x == y && text_eq xs ys

-- `a < b`
unfoldable pub text_lt : Text → Text → Bool
text_lt _ [] = false
text_lt [] (_ ∷ _) = true
text_lt (x ∷ xs) (y ∷ ys) = ltb x y || (x == y && text_lt xs ys)

-- `strings.HasPrefix(s, prefix)`
unfoldable pub has_prefix : Text → Text → Bool
has_prefix _ [] = true
has_prefix [] (_ ∷ _) = false
has_prefix (x ∷ xs) (y ∷ ys) = x == y && has_prefix xs ys

-- `strings.Contains(s, part)`
unfoldable pub contains : Text → Text → Bool
contains [] p = has_prefix [] p
contains (x ∷ xs) p = has_prefix (x ∷ xs) p || contains xs p

-- `strings.HasSuffix(s, suffix)`
unfoldable pub has_suffix : Text → Text → Bool
has_suffix [] p = text_eq [] p
has_suffix (x ∷ xs) p = text_eq (x ∷ xs) p || has_suffix xs p

pub text_eq_iff : (s t : Text) → (text_eq s t ≡ true) ↔ (s ≡ t)
unfolding text_eq
text_eq_iff [] [] = ground arith
text_eq_iff [] (y ∷ ys) = ground arith
text_eq_iff (x ∷ xs) [] = ground arith
text_eq_iff (x ∷ xs) (y ∷ ys) = ground (arith, text_eq_iff xs ys)

pub text_eq_refl : (s : Text) → text_eq s s ≡ true
text_eq_refl s = (text_eq_iff s s).1 refl

pub text_lt_irrefl : (s : Text) → text_lt s s ≡ false
unfolding text_lt
text_lt_irrefl [] = refl
text_lt_irrefl (x ∷ xs) = ground (arith, text_lt_irrefl xs)

pub text_lt_trans : (s t u : Text) → text_lt s t ≡ true → text_lt t u ≡ true → text_lt s u ≡ true
unfolding text_lt
text_lt_trans [] [] u h k = ground arith
text_lt_trans [] (y ∷ ys) [] h k = ground arith
text_lt_trans [] (y ∷ ys) (z ∷ zs) h k = ground arith
text_lt_trans (x ∷ xs) [] u h k = ground arith
text_lt_trans (x ∷ xs) (y ∷ ys) [] h k = ground arith
text_lt_trans (x ∷ xs) (y ∷ ys) (z ∷ zs) h k = ground (arith, text_lt_trans xs ys zs)

pub text_lt_total : (s t : Text) → (text_lt s t ≡ true) ⊎ ((s ≡ t) ⊎ (text_lt t s ≡ true))
unfolding text_lt
text_lt_total [] [] = inr (inl refl)
text_lt_total [] (y ∷ ys) = inl refl
text_lt_total (x ∷ xs) [] = inr (inr refl)
text_lt_total (x ∷ xs) (y ∷ ys) = ground (arith, text_lt_total xs ys)

pub text_lt_asymm : (s t : Text) → text_lt s t ≡ true → text_lt t s ≡ false
unfolding text_lt
text_lt_asymm [] [] h = refl
text_lt_asymm [] (y ∷ ys) h = refl
text_lt_asymm (x ∷ xs) [] h = ground arith
text_lt_asymm (x ∷ xs) (y ∷ ys) h = ground (arith, text_lt_asymm xs ys)
