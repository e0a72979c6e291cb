-- ===== src/Listings/Query.antt =====
-- src/modules/listings/listings.service.ts: the filter and the order of a list of listings. The
-- test of PostgreSQL that a text contains another one in any case is a parameter.
use nestjs_learn.Prelude.{
  ℕ, Bool, true, false, not, ◌&&◌, ◌||◌, Option, none, some, List, [], ◌∷◌, ◌++◌, map, String,
  length, any, keep, leb, nat_eq, ◌==◌, if◌then◌else◌,
}
use nestjs_learn.Prisma.{Prisma, Order, asc, desc}
use nestjs_learn.Schema.{
  Listing, Category, Condition, ListingStatus, Department, ApprovalStatus, same_condition,
  same_status, same_department, same_approval,
}
use nestjs_learn.Text.{Unicode, trim, truthy}
use nestjs_learn.World.{
  M, Result, ok, bad_request, forbidden, ◌>>=◌, ◌>>◌, pure, lift, gets, throw_if,
}
use nestjs_learn.Listings.Types.{
  AuthUser, ListingQueryDto, SortBy, newest, oldest, price_asc, price_desc, popular,
}
use nestjs_learn.Listings.Input.{
  is_admin, map_result, then_result, parse_condition, parse_status, parse_department,
  parse_approval_status,
}

-- A `ListingWhereInput`: `none` and the empty list filter nothing.
pub record ListingWhere : Type 0 where
  pub approval_status : Option ApprovalStatus
  pub search : Option String
  pub category_ids : List String
  pub conditions : List Condition
  pub status : Option ListingStatus
  pub departments : List Department
  pub min_price : Option ℕ
  pub max_price : Option ℕ
  pub seller_id : Option String

abbrev pub passes : {A : Type 0} → (A → Bool) → Option A → Bool
passes test none = true
passes test (some a) = test a

-- `{ in: [...] }` where the list is not empty.
abbrev pub among : {A : Type 0} → (A → Bool) → List A → Bool
among test [] = true
among test (a ∷ rest) = any test (a ∷ rest)

abbrev pub has_department : Option Department → Department → Bool
has_department none d = false
has_department (some e) d = same_department e d

-- Whether a row passes the clause.
unfoldable pub matches : (String → String → Bool) → ListingWhere → Listing → Bool
matches contains w l =
    passes (λ a. same_approval l.approval_status a) w.approval_status
    && passes (λ s. contains l.title s || contains l.description s) w.search
    && among (λ id. l.category_id == id) w.category_ids
    && among (λ c. same_condition l.condition c) w.conditions
    && passes (λ s. same_status l.status s) w.status
    && among (λ d. has_department l.department d) w.departments
    && passes (λ n. leb n l.price) w.min_price
    && passes (λ n. leb l.price n) w.max_price
    && passes (λ id. l.seller_id == id) w.seller_id

-- `s && …` and `s?.trim() && …` of a text that may be undefined.
abbrev pub present : Option String → Option String
present none = none
present (some s) = if truthy s then some s else none

abbrev pub present_trimmed : Option String → Option String
present_trimmed none = none
present_trimmed (some s) = if truthy (trim s) then some (trim s) else none

abbrev pub as_list : {A : Type 0} → Option A → List A
as_list none = []
as_list (some a) = a ∷ []

abbrev pub list_or_empty : {A : Type 0} → Option (List A) → List A
list_or_empty none = []
list_or_empty (some xs) = xs

-- `Array.from(new Set(…))`: the first occurrence of each text stays.
abbrev pub distinct : List String → List String
distinct [] = []
distinct (s ∷ rest) = s ∷ keep (λ t. not (t == s)) (distinct rest)

-- `parse` of the items that are not empty, each once.
abbrev pub parse_all :
    {A : Type 0} → (String → Result A) → Option String → Option (List String) → Result (List A)
parse_all parse one many =
    map_result parse (keep truthy (distinct (as_list (present_trimmed one) ++ list_or_empty many)))

abbrev pub parse_present : {A : Type 0} → (String → Result A) → Option String → Result (Option A)
parse_present parse none = ok none
parse_present parse (some s) = then_result (parse s) (λ a. ok (some a))

abbrev pub is_admin_viewer : Option AuthUser → Bool
is_admin_viewer none = false
is_admin_viewer (some user) = is_admin user

abbrev pub refuses_approval_filter : ListingQueryDto → Option AuthUser → Bool
refuses_approval_filter query viewer = elim (present query.approval_status) [
  | none ↦ false
  | some s ↦ not (is_admin_viewer viewer)
]

-- `query.status?.trim()` is a test only: the text is parsed untrimmed.
abbrev pub status_text : Option String → Option String
status_text none = none
status_text (some s) = if truthy (trim s) then some s else none

module _ (db : Prisma) (u : Unicode) where
  abbrev pub category_slugs : ListingQueryDto → List String
  category_slugs query = distinct (
      keep truthy (
        map (λ s. u.to_lower (trim s))
          (as_list (present_trimmed query.category) ++ list_or_empty query.categories)))

  unfoldable pub find_category_ids : List String → M (List String)
  find_category_ids [] = pure List.[]
  find_category_ids (s ∷ rest) = do
    let slugs : List String = s ∷ rest
    categories ← gets (λ w.
        db.find_many (λ (c : Category). any (λ slug. c.slug == slug) slugs) List.[] w.categories)
    throw_if (not (nat_eq (length categories) (length slugs)))
        (bad_request "Invalid category filter")
    pure (map (λ (c : Category). c.id) categories)

  -- `query.approvalStatus ? this.parseApprovalStatus(query.approvalStatus) : APPROVED`.
  unfoldable pub approval_filter : Option String → Result ApprovalStatus
  unfolding parse_approval_status
  approval_filter none = ok ApprovalStatus.approved
  approval_filter (some s) = parse_approval_status u s

  unfoldable pub build_list_where : ListingQueryDto → Option AuthUser → M ListingWhere
  unfolding approval_filter find_category_ids parse_condition parse_status parse_department
  build_list_where query viewer = do
    throw_if (refuses_approval_filter query viewer)
        (forbidden "approvalStatus filter is only available for admin")
    approval ← lift (approval_filter (present query.approval_status))
    category_ids ← find_category_ids (category_slugs query)
    conditions ← lift (parse_all (parse_condition u) query.condition query.conditions)
    status ← lift (parse_present (parse_status u) (status_text query.status))
    departments ← lift (parse_all (parse_department u) query.department query.departments)
    pure (record {
      approval_status = some approval;
      search = present_trimmed query.search;
      category_ids = category_ids;
      conditions = conditions;
      status = status;
      departments = departments;
      min_price = query.min_price;
      max_price = query.max_price;
      seller_id = none;
    })

unfoldable pub build_sort : SortBy → List (Order Listing)
build_sort oldest = asc (λ l. l.created_at) ∷ []
build_sort price_asc = asc (λ l. l.price) ∷ []
build_sort price_desc = desc (λ l. l.price) ∷ []
build_sort popular = desc (λ l. l.view_count) ∷ []
build_sort newest = desc (λ l. l.created_at) ∷ []
