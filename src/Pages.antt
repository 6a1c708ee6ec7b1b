-- ===== src/Pages.antt =====
-- Pages of lists: server/internal/api/dto/pagination.go. A query parameter is the text of the URL.
pub mod Laws
mod Tests
use featuresignals_unified.Base.{
  ℕ, zero, suc, ◌+◌, ◌-◌, ◌*◌, ◌/◌, ◌≤◌, Bool, true, false, not, ◌&&◌, ◌||◌, Option, none, some,
  List, [], ◌∷◌, ltb, leb, ◌==◌, length, take, drop, if◌then◌else◌,
}
use featuresignals_unified.Base.Int.{ℤ, pos, negsuc, ltb_ℤ, leb_ℤ, ◌≤ℤ◌}
use featuresignals_unified.Base.Text.{Text, bytes, text_eq}

-- `limit` and `offset` of PaginationParams; ParsePagination makes them positive and not negative.
pub record PaginationParams : Type 0 where
  pub limit : ℕ
  pub offset : ℕ

abbrev default_limit : ℤ
default_limit = pos 50

abbrev max_limit : ℤ
max_limit = pos 100

-- An int that is not negative, as a number.
abbrev pub to_ℕ : ℤ → ℕ
to_ℕ (pos n) = n
to_ℕ (negsuc n) = 0

-- `atoi` is the value that strconv.Atoi returns, 0 for a text that is no number and the greatest
-- or least int for one that is out of range.
unfoldable pub parse_pagination : (Text → ℤ) → Text → Text → PaginationParams
parse_pagination atoi limit_text offset_text =
    let limit = atoi limit_text in
    let offset = atoi offset_text in
    let at_least = if leb_ℤ limit (pos 0) then default_limit else limit in
    let at_most = if ltb_ℤ max_limit at_least then max_limit else at_least in
    let from = if ltb_ℤ offset (pos 0) then pos 0 else offset in
    record { limit = to_ℕ at_most; offset = to_ℕ from }

-- The allow-list of a resource type, `none` for a type that has none.
pub allowed_sort_fields : Text → Option (List Text)
allowed_sort_fields t =
    if text_eq t (bytes "flags")
    then some
        (bytes "key" ∷ bytes "name" ∷ bytes "created_at" ∷ bytes "updated_at" ∷ bytes "status" ∷ [])
    else (if text_eq t (bytes "segments")
        then some (bytes "key" ∷ bytes "name" ∷ bytes "created_at" ∷ bytes "updated_at" ∷ [])
        else (if text_eq t (bytes "environments")
            then some (bytes "name" ∷ bytes "created_at" ∷ bytes "updated_at" ∷ [])
            else (if text_eq t (bytes "projects")
                then some (bytes "name" ∷ bytes "created_at" ∷ bytes "updated_at" ∷ [])
                else (if text_eq t (bytes "api_keys")
                    then some (bytes "name" ∷ bytes "created_at" ∷ bytes "last_used_at" ∷ [])
                    else (if text_eq t (bytes "webhooks")
                        then some (bytes "name" ∷ bytes "created_at" ∷ bytes "updated_at" ∷ [])
                        else (if text_eq t (bytes "approvals")
                            then some
                                (bytes "created_at" ∷ bytes "updated_at" ∷ bytes "status" ∷ [])
                            else (if text_eq t (bytes "audit")
                                then some (
                                    bytes "created_at"
                                    ∷ bytes "action"
                                    ∷ bytes "resource_type"
                                    ∷ [])
                                else (if text_eq t (bytes "members")
                                    then some (
                                        bytes "created_at"
                                        ∷ bytes "name"
                                        ∷ bytes "email"
                                        ∷ bytes "role"
                                        ∷ [])
                                    else none))))))))

-- splitSort: the text before the first colon, and the text after it if there is one.
pub split_sort : Text → Text × Option Text
split_sort [] = ([], none)
split_sort (c ∷ s) =
    let rest = split_sort s in if c == b':' then ([], some s) else (c ∷ rest.0, rest.1)

abbrev pub direction : Option Text → Text
direction none = bytes "ASC"
direction (some d) =
    if text_eq d (bytes "desc") || text_eq d (bytes "DESC") then bytes "DESC" else bytes "ASC"

abbrev pub default_sort : Text × Text
default_sort = (bytes "created_at", bytes "DESC")

-- The loop over the allow-list.
pub find_field : Text → Text → List Text → Text × Text
find_field field dir [] = default_sort
find_field field dir (a ∷ rest) =
    if text_eq a field then (field, dir) else find_field field dir rest

abbrev pub sort_parts : Text × Option Text → Option (List Text) → Text × Text
sort_parts parts none = default_sort
sort_parts (field, dir) (some allowed) = find_field field (direction dir) allowed

unfoldable pub parse_sort : Text → Text → Text × Text
unfolding split_sort allowed_sort_fields find_field
parse_sort [] resource_type = default_sort
parse_sort (c ∷ s) resource_type =
    sort_parts (split_sort (c ∷ s)) (allowed_sort_fields resource_type)

-- PaginatedResponse with its PaginationInfo.
pub record PaginatedResponse (A : Type 0) : Type 0 where
  pub data_items : List A
  pub page : ℕ
  pub per_page : ℕ
  pub total_entries : ℕ
  pub last_page : ℕ
  pub has_more : Bool

-- `int(math.Ceil(float64(total) / float64(limit)))`: the quotient of two ints that are exact as
-- floats (below 2 ^ 53), rounded up.
abbrev pub ceil_div : ℕ → ℕ → ℕ
ceil_div total limit = (total + limit - 1) / limit

module _ {A : Type 0} where
  unfoldable pub new_response : List A → ℕ → ℕ → ℕ → PaginatedResponse A
  new_response items total limit offset = record {
    data_items = items;
    page = if ltb 0 limit then offset / limit + 1 else 0;
    per_page = limit;
    total_entries = total;
    last_page = if ltb 0 limit && ltb 0 total then ceil_div total limit else 0;
    has_more = ltb (offset + length items) total;
  }

  unfoldable pub paginate : List A → PaginationParams → List A × ℕ
  paginate items p =
      let total = length items in
      let end = p.offset + p.limit in
      (
        (if leb total p.offset
            then []
            else take ((if ltb total end then total else end) - p.offset) (drop p.offset items)),
        total,
      )
