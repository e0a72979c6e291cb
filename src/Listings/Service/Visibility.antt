-- ===== src/Listings/Service/Visibility.antt =====
-- Who sees which listings: `findOne` and `findAll`.
use nestjs_learn.Prelude.{
  ℕ, ◌+◌, ◌-◌, ◌*◌, ◌≡◌, sym, true, false, Option, some, List, [], ◌∷◌, map, Memᴰ, String, arith,
  Option-cases, inl, inr, All, All-map, All-mono, map_where, eq_iff,
}
use nestjs_learn.Prisma.{Prisma}
use nestjs_learn.Prisma.Laws.{find_page-All}
use nestjs_learn.Schema.{Listing, ApprovalStatus}
use nestjs_learn.World.{World, ok}
use nestjs_learn.World.Laws.{Result-cases}
use nestjs_learn.Pagination.{Paged}
use nestjs_learn.Listings.Types.{AuthUser, ListingQueryDto, FrontendListing, ListingWithRelations}
use nestjs_learn.Listings.Mapper.{map_listing_to_frontend, approval_to_frontend}
use nestjs_learn.Listings.Query.{
  ListingWhere, matches, is_admin_viewer, build_list_where, build_sort, approval_filter,
}
use nestjs_learn.Listings.Store.{Env, by_id, listing_include, include_all}
use nestjs_learn.Listings.Service.{is_visible, with_view, find_one, find_all, list_page, viewer_id}

module _ (db : Prisma) where
  -- Loading what belongs to a listing changes nothing, and keeps the row.
  pub listing_include_ok :
      {l : Listing} {w w' : World} {r : ListingWithRelations}
      → listing_include db l w ≡ (ok r, w')
      → (r.listing ≡ l) × (w' ≡ w)
  unfolding listing_include
  listing_include_ok e = (ground arith, ground arith)

  include_all-All :
      (P : Listing → Type 0) (rows : List Listing) (w w' : World) (rs : List ListingWithRelations)
      → All P rows
      → include_all db rows w ≡ (ok rs, w')
      → All (λ r. P r.listing) rs
  unfolding include_all
  include_all-All P [] w w' rs h e = let same : [] ≡ rs = ground arith in rw (sym same) tt
  include_all-All P (l ∷ rest) w w' rs (p, h) e = elim (Result-cases (listing_include db l w)) [
    | inl (first, w1, ef) ↦ elim (Result-cases (include_all db rest w1)) [
      | inl (others, w2, eo) ↦
          let same : first ∷ others ≡ rs = ground arith in
          let keeps = (listing_include_ok ef).0 in
          rw (sym same) (rw keeps p, include_all-All P rest w1 w2 others h eo)
      | inr (x, w2, eo) ↦ absurd (ground arith)
    ]
    | inr (x, w1, ef) ↦ absurd (ground arith)
  ]

  module _ (env : Env) (now : ℕ) (w w' : World) (viewer : Option AuthUser) where
    -- Where `findOne` answers with a listing, that listing is in the table and is approved, or the
    -- viewer is its seller or an administrator; the answer shows one view more than the row had, and
    -- all that changed is the number of views of that identifier (and the time of the change).
    pub find_one-visible :
        (id : String) (view : FrontendListing)
        → find_one db env now id viewer w ≡ (ok view, w')
        → (l : Listing) × Memᴰ l w.listings
          × (l.id ≡ id)
          × (is_visible l viewer ≡ true)
          × (view.views ≡ l.view_count + 1)
          × (w' ≡ record w { listings = map_where (by_id id) (with_view now) w.listings })
    unfolding find_one map_listing_to_frontend
    find_one-visible id view e = elim (Option-cases (db.find_first (by_id id) [] w.listings)) [
      | inl missing ↦ absurd (ground arith)
      | inr (l, found) ↦ elim (Result-cases (listing_include db l w)) [
        | inl (r, w1, er) ↦
            let (keeps, still) = listing_include_ok er in
            let (m, passed) = db.find_first_sound (by_id id) [] w.listings l found in
            (
              l,
              m,
              (eq_iff l.id id).0 passed,
              ground arith,
              ground arith,
              ground (arith, db.update_many_rows (by_id id) (with_view now) w.listings),
            )
        | inr (x, w1, er) ↦ absurd (ground arith)
      ]
    ]

    build_list_where-approved :
        (query : ListingQueryDto) (filter : ListingWhere) (w' : World)
        → is_admin_viewer viewer ≡ false
        → build_list_where db env.unicode query viewer w ≡ (ok filter, w')
        → filter.approval_status ≡ some ApprovalStatus.approved
    unfolding build_list_where approval_filter
    build_list_where-approved query filter w' plain e = ground arith

    list_page-approved :
        (query : ListingQueryDto) (filter : ListingWhere) (v v' : World)
        (page : Paged FrontendListing)
        → filter.approval_status ≡ some ApprovalStatus.approved
        → list_page db env now filter query viewer v ≡ (ok page, v')
        → All (λ v. v.approval_status ≡ "approved") page.data_rows
    unfolding list_page matches map_listing_to_frontend
    list_page-approved query filter v v' page only e =
        let rows : List Listing =
          db.find_page (matches env.contains filter) (build_sort query.sort_by)
            ((query.page - 1) * query.limit) query.limit v.listings in
        let approved : All (λ l. approval_to_frontend l.approval_status ≡ "approved") rows =
          All-mono _ rows shown (find_page-All db _ _ _ _ v.listings) in
        elim (Result-cases (include_all db rows v)) [
          | inl (rs, w1, er) ↦
              let same : map (λ l. map_listing_to_frontend l (viewer_id viewer)) rs
                  ≡ page.data_rows =
                ground arith in
              rw (sym same) (
                All-map _ _ rs (
                  include_all-All (λ l. approval_to_frontend l.approval_status ≡ "approved") rows v
                    w1 rs approved er))
          | inr (x, w1, er) ↦ absurd (ground arith)
        ]
      where
        shown :
            (l : Listing)
            → matches env.contains filter l ≡ true
            → approval_to_frontend l.approval_status ≡ "approved"
        shown l h = ground arith

    -- Where a viewer who is not an administrator gets a page of listings from `findAll`, whatever
    -- the filters, every listing on it is approved.
    pub find_all-approved :
        (query : ListingQueryDto) (page : Paged FrontendListing)
        → is_admin_viewer viewer ≡ false
        → find_all db env now query viewer w ≡ (ok page, w')
        → All (λ v. v.approval_status ≡ "approved") page.data_rows
    unfolding find_all
    find_all-approved query page plain e =
        elim (Result-cases (build_list_where db env.unicode query viewer w)) [
          | inl (filter, w1, ef) ↦
              list_page-approved query filter w1 w' page
                (build_list_where-approved query filter w1 plain ef) (ground arith)
          | inr (x, w1, ef) ↦ absurd (ground arith)
        ]
