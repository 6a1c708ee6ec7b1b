-- ===== src/Pages/Laws.antt =====
-- What the pages of a list are.
use Prim.Native.Nat.{min}
use featuresignals_unified.Base.{
  ℕ, zero, suc, ◌+◌, ◌-◌, ◌*◌, ◌≤◌, ◌<◌, ◌≡◌, ◌↔◌, ◌⊎◌, inl, inr, refl, true, ◌&&◌, Option, none,
  some, List, [], ◌∷◌, ◌++◌, ltb, leb, length, take, drop, length-take, length-drop, if◌then◌else◌,
  arith, Bool-cases, ap, sym, ◌∙◌,
}
use featuresignals_unified.Base.Int.{ℤ, pos}
use featuresignals_unified.Base.Preds.{In}
use featuresignals_unified.Base.Text.{Text, bytes, text_eq_iff}
use featuresignals_unified.Pages.{
  PaginationParams, parse_pagination, allowed_sort_fields, split_sort, direction, default_sort,
  find_field, sort_parts, parse_sort, new_response, paginate, ceil_div,
}

-- Whatever the query says, the limit of a page lies between 1 and 100. A limit of the query that
-- does so is kept, and so is an offset that is not negative.
pub parse_pagination_bounds :
    (atoi : Text → ℤ) (limit_text offset_text : Text)
    → (1 ≤ (parse_pagination atoi limit_text offset_text).limit)
      × ((parse_pagination atoi limit_text offset_text).limit ≤ 100)
      × ((n : ℕ)
          → atoi limit_text ≡ pos n
          → 1 ≤ n
          → n ≤ 100
          → (parse_pagination atoi limit_text offset_text).limit ≡ n)
      × ((n : ℕ)
          → atoi offset_text ≡ pos n
          → (parse_pagination atoi limit_text offset_text).offset ≡ n)
unfolding parse_pagination
parse_pagination_bounds atoi limit_text offset_text =
    (ground arith, ground arith, (λ n e p le. ground (arith, e, p, le)), (λ n e. ground (arith, e)))

find_field-In :
    (field dir : Text) (allowed : List Text)
    → (find_field field dir allowed ≡ default_sort)
      ⊎ ((find_field field dir allowed ≡ (field, dir)) × In field allowed)
unfolding find_field
find_field-In field dir [] = inl refl
find_field-In field dir (a ∷ rest) =
    ground (arith, text_eq_iff a field, find_field-In field dir rest)

-- A column that may stand in a query, with a direction.
abbrev pub IsSafe : List Text → Text × Text → Type 0
IsSafe allowed r = In (r.0) allowed × ((r.1 ≡ bytes "ASC") ⊎ (r.1 ≡ bytes "DESC"))

abbrev pub SafeSort : Text → Text × Text → Type 0
SafeSort resource_type r =
    (r ≡ default_sort)
    ⊎ ((allowed : List Text) × (allowed_sort_fields resource_type ≡ some allowed)
        × IsSafe allowed r)

direction_cases : (d : Option Text) → (direction d ≡ bytes "ASC") ⊎ (direction d ≡ bytes "DESC")
direction_cases none = inl refl
direction_cases (some d) = ground arith

sort_parts-SafeSort :
    (resource_type : Text) (parts : Text × Option Text) (o : Option (List Text))
    → allowed_sort_fields resource_type ≡ o
    → SafeSort resource_type (sort_parts parts o)
sort_parts-SafeSort resource_type parts none e = inl refl
sort_parts-SafeSort resource_type (field, dir) (some allowed) e =
    elim (find_field-In field (direction dir) allowed) [
      | inl same ↦ inl same
      | inr (same, m) ↦ inr (allowed, e, rw same (m, direction_cases dir))
    ]

-- Whatever the query says, the column to sort by is in the allow-list of the resource type, and
-- the direction is ASC or DESC; or both are the default.
pub parse_sort-SafeSort :
    (raw resource_type : Text) → SafeSort resource_type (parse_sort raw resource_type)
unfolding parse_sort
parse_sort-SafeSort [] resource_type = inl refl
parse_sort-SafeSort (c ∷ s) resource_type =
    sort_parts-SafeSort resource_type (split_sort (c ∷ s)) (allowed_sort_fields resource_type) refl

suc_add : (a b : ℕ) → suc a + b ≡ suc (a + b)
suc_add a b = omega arith

ceil_div_enough : (total limit : ℕ) → 1 ≤ limit → total ≤ ceil_div total limit * limit
ceil_div_enough total limit positive = omega (arith, positive)

has_more_iff :
    (size limit offset total : ℕ)
    → size ≡ min limit (total - offset)
    → (ltb (offset + size) total ≡ true) ↔ (offset + limit < total)
has_more_iff size limit offset total e = ground (arith, e)

last_page_enough :
    (total limit : ℕ)
    → 1 ≤ limit
    → total ≤ (if ltb 0 limit && ltb 0 total then ceil_div total limit else 0) * limit
last_page_enough total limit positive = elim (Bool-cases (ltb 0 limit && ltb 0 total)) [
  | inl t ↦ rw t (ceil_div_enough total limit positive)
  | inr f ↦ rw f (ground (arith, positive, f))
]

module _ {A : Type 0} where
  take_all : (n : ℕ) (xs : List A) → length xs ≤ n → take n xs ≡ xs
  take_all zero [] le = refl
  take_all zero (x ∷ xs) le = absurd (omega arith)
  take_all (suc n) [] le = refl
  take_all (suc n) (x ∷ xs) le = ap (λ ys. x ∷ ys) (take_all n xs (omega arith))

  drop_all : (n : ℕ) (xs : List A) → length xs ≤ n → drop n xs ≡ []
  drop_all zero [] le = refl
  drop_all zero (x ∷ xs) le = absurd (omega arith)
  drop_all (suc n) [] le = refl
  drop_all (suc n) (x ∷ xs) le = drop_all n xs (omega arith)

  take_nil : (n : ℕ) → take {A = A} n [] ≡ []
  take_nil zero = refl
  take_nil (suc n) = refl

  drop_nil : (n : ℕ) → drop {A = A} n [] ≡ []
  drop_nil zero = refl
  drop_nil (suc n) = refl

  -- A page is the next `limit` items after `offset`, or those that are left.
  paginate-take :
      (items : List A) (p : PaginationParams)
      → (paginate items p).0 ≡ take p.limit (drop p.offset items)
  unfolding paginate
  paginate-take items p = elim (Bool-cases (leb (length items) p.offset)) [
    | inl t ↦ rw (t, drop_all p.offset items (ground arith)) (sym (take_nil p.limit))
    | inr f ↦ elim (Bool-cases (ltb (length items) (p.offset + p.limit))) [
      | inl t ↦
          let left = length-drop p.offset items in
          rw (f, t)
            (take_all (length items - p.offset) (drop p.offset items) (omega (arith, left))
              ∙ sym (take_all p.limit (drop p.offset items) (ground (arith, left, t))))
      | inr g ↦
          let same : p.offset + p.limit - p.offset ≡ p.limit = omega arith in
          rw (f, g) (ap (λ n. take n (drop p.offset items)) same)
    ]
  ]

  take_add : (a b : ℕ) (xs : List A) → take (a + b) xs ≡ take a xs ++ take b (drop a xs)
  take_add zero b xs = ap (λ n. take n xs) (omega arith)
  take_add (suc a) b [] = take_nil (suc a + b) ∙ sym (take_nil b)
  take_add (suc a) b (x ∷ xs) =
      ap (λ n. take n (x ∷ xs)) (suc_add a b) ∙ ap (λ ys. x ∷ ys) (take_add a b xs)

  drop_add : (a b : ℕ) (xs : List A) → drop (a + b) xs ≡ drop b (drop a xs)
  drop_add zero b xs = ap (λ n. drop n xs) (omega arith)
  drop_add (suc a) b [] = drop_nil (suc a + b) ∙ sym (drop_nil b)
  drop_add (suc a) b (x ∷ xs) = ap (λ n. drop n (x ∷ xs)) (suc_add a b) ∙ drop_add a b xs

  -- The items of `n` pages in a row, from an offset on.
  abbrev pub walk : ℕ → ℕ → ℕ → List A → List A
  walk limit offset zero items = []
  walk limit offset (suc n) items =
      (paginate items (record { limit = limit; offset = offset })).0
      ++ walk limit (offset + limit) n items

  walk-take :
      (limit offset n : ℕ) (items : List A)
      → walk limit offset n items ≡ take (n * limit) (drop offset items)
  walk-take limit offset zero items = ap (λ n. take n (drop offset items)) {x = 0} (omega arith)
  walk-take limit offset (suc n) items =
      let page = paginate-take items (record { limit = limit; offset = offset }) in
      let rest = walk-take limit (offset + limit) n items in
      let split = take_add limit (n * limit) (drop offset items) in
      let moved = drop_add offset limit items in
      let count : suc n * limit ≡ limit + n * limit = omega arith in
      rw (page, rest, moved, count, split) refl

  -- Walking through as many pages as the response says there are, with a limit of at least 1,
  -- shows all items in their order and each of them once, whatever page the response is for.
  pub walk-last_page :
      (items page : List A) (limit offset : ℕ)
      → 1 ≤ limit
      → walk limit 0 (new_response page (length items) limit offset).last_page items ≡ items
  unfolding new_response
  walk-last_page items page limit offset positive =
      let last =
        (if ltb 0 limit && ltb 0 (length items) then ceil_div (length items) limit else 0) in
      walk-take limit 0 last items
      ∙ take_all (last * limit) items (last_page_enough (length items) limit positive)

  -- The response of a page says that there are more items exactly when the offset and the limit
  -- leave some.
  pub new_response-has_more :
      (items : List A) (p : PaginationParams)
      → ((new_response (paginate items p).0 (paginate items p).1 p.limit p.offset).has_more ≡ true)
        ↔ (p.offset + p.limit < length items)
  unfolding new_response paginate
  new_response-has_more items p =
      let size : length (paginate items p).0 ≡ min p.limit (length items - p.offset) =
        ap length (paginate-take items p)
        ∙ length-take p.limit (drop p.offset items)
        ∙ ap (λ n. min p.limit n) (length-drop p.offset items) in
      has_more_iff (length (paginate items p).0) p.limit p.offset (length items) size
