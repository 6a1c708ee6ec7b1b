-- ===== src/Base/Strings.antt =====
-- Functions of Go's package strings on ASCII text.
use featuresignals_unified.Base.{
  ℕ, ◌+◌, ◌≡◌, Bool, false, Bool-cases, inl, inr, ◌&&◌, ◌||◌, Option, none, some, Option-cases,
  List, [], ◌∷◌, ◌++◌, leb, ◌==◌, arith, if◌then◌else◌,
}
use featuresignals_unified.Base.Text.{Text, text_eq}

-- `strings.ToLower(s)`
abbrev pub lower : ℕ → ℕ
lower c = if leb 65 c && leb c 90 then c + 32 else c

unfoldable pub to_lower : Text → Text
to_lower [] = []
to_lower (c ∷ s) = lower c ∷ to_lower s

-- `strings.EqualFold(s, t)`
unfoldable pub equal_fold : Text → Text → Bool
unfolding to_lower
equal_fold s t = text_eq (to_lower s) (to_lower t)

abbrev push_first : ℕ → List Text → List Text
push_first c [] = (c ∷ []) ∷ []
push_first c (p ∷ ps) = (c ∷ p) ∷ ps

-- `strings.Split(s, sep)` for a separator of one byte
unfoldable pub split_on : ℕ → Text → List Text
split_on sep [] = [] ∷ []
split_on sep (c ∷ s) =
    let rest = split_on sep s in if c == sep then [] ∷ rest else push_first c rest

-- `s[:strings.Index(s, sep)]`, or `s` where the byte is missing
unfoldable pub before_byte : ℕ → Text → Text
before_byte sep [] = []
before_byte sep (c ∷ s) = let rest = before_byte sep s in if c == sep then [] else c ∷ rest

-- `strings.TrimLeft(s, c)` for the bytes that `is_cut` takes
unfoldable pub trim_left : (ℕ → Bool) → Text → Text
trim_left is_cut [] = []
trim_left is_cut (c ∷ s) = let rest = trim_left is_cut s in if is_cut c then rest else c ∷ s

abbrev keep_end : (ℕ → Bool) → ℕ → Text → Text
keep_end is_cut c [] = if is_cut c then [] else c ∷ []
keep_end is_cut c (d ∷ s) = c ∷ d ∷ s

-- `strings.TrimRight(s, c)`
unfoldable pub trim_right : (ℕ → Bool) → Text → Text
trim_right is_cut [] = []
trim_right is_cut (c ∷ s) = keep_end is_cut c (trim_right is_cut s)

-- `strings.Trim(s, c)`
unfoldable pub trim : (ℕ → Bool) → Text → Text
unfolding trim_left trim_right
trim is_cut s = trim_right is_cut (trim_left is_cut s)

-- `strings.TrimSpace(s)`
abbrev pub is_space : ℕ → Bool
is_space c = c == 32 || (leb 9 c && leb c 13)

unfoldable pub trim_space : Text → Text
unfolding trim
trim_space s = trim is_space s

-- `slices.Contains`, or a test against constants one by one
unfoldable pub one_of : List Text → Text → Bool
one_of [] s = false
one_of (t ∷ ts) s = text_eq s t || one_of ts s

abbrev push_part : ℕ → Option (Text × Text) → Option (Text × Text)
push_part c none = none
push_part c (some (a, b)) = some (c ∷ a, b)

-- `strings.SplitN(s, sep, 2)` for a separator of one byte, `none` where it is missing
unfoldable pub split_once : ℕ → Text → Option (Text × Text)
split_once sep [] = none
split_once sep (c ∷ s) =
    let rest = split_once sep s in if c == sep then some ([], s) else push_part c rest

pub split_once-append : (sep : ℕ) (s a b : Text) → split_once sep s ≡ some (a, b) → s ≡ a ++ sep ∷ b
unfolding split_once
split_once-append sep [] a b h = absurd (cc h)
split_once-append sep (c ∷ s) a b h = elim (Bool-cases (c == sep)) [
  | inl t ↦ ground (arith, rw t at h, t)
  | inr f ↦ elim (Option-cases (split_once sep s)) [
    | inl e ↦ absurd (cc (rw (f, e) at h))
    | inr ((x, y), e) ↦ ground (arith, rw (f, e) at h, split_once-append sep s x y e)
  ]
]
