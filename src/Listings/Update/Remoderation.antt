-- ===== src/Listings/Update/Remoderation.antt =====
-- A listing whose text changes waits for approval again.
use nestjs_learn.Prelude.{
  ℕ, ◌+◌, ◌≡◌, refl, ap, sym, ◌∙◌, subst, Bool, true, false, ◌||◌, Option, none, some, List, [],
  ◌∷◌, String, arith, inl, inr, All, All-of_mem, Memᴰ, mem-map_where, map_where, eq_iff,
}
use nestjs_learn.Prisma.{Prisma}
use nestjs_learn.Schema.{Listing, ListingImage, Category, ApprovalStatus}
use nestjs_learn.World.{World, Result, ok, lift, throw_if, bad_request, Exception}
use nestjs_learn.World.Laws.{Result-cases, step_ok}
use nestjs_learn.Listings.Types.{
  AuthUser, UpdateListingDto, FrontendListing, ListingWithRelations, NormalizedImage,
}
use nestjs_learn.Listings.Input.{assert_can_mutate}
use nestjs_learn.Listings.Store.{
  Env, by_id, image_of, reload, create_images, listing_include, enqueue_moderation,
  enqueue_moderation_and_reload, destroy_images,
}
use nestjs_learn.Listings.Update.{
  ListingUpdate, differs, should_remoderate, apply_update, update_data, write_update,
  normalized_images, commit_update, publish_update, find_category, category_slug, is_unknown,
  update, removed_public_ids,
}
use nestjs_learn.Moderation.Jobs
use nestjs_learn.Moderation.Jobs.{get_status_for_listing}
use nestjs_learn.Moderation.Jobs.Queued.{enqueue-get_status}
use nestjs_learn.Moderation.Types.{ModerationJobStatusView}

-- Every row of the identifier waits for approval.
abbrev pub Waits : String → List Listing → Type 0
Waits id = All (λ l. l.id ≡ id → l.approval_status ≡ ApprovalStatus.pending)

module _ (db : Prisma) (env : Env) (now : ℕ) (id : String) where
  reload_ok : {w w' : World} {r : ListingWithRelations} → reload db id w ≡ (ok r, w') → w' ≡ w
  unfolding reload listing_include
  reload_ok e = ground arith

  create_images-listings :
      (order : ℕ) (next : List NormalizedImage) (w : World)
      → (create_images db id order next w).1.listings ≡ w.listings
  unfolding create_images
  create_images-listings order [] w = refl
  create_images-listings order (image ∷ rest) w = create_images-listings (order + 1) rest _

  apply_update-Waits :
      (d : ListingUpdate) (rows : List Listing)
      → d.approval_status ≡ some ApprovalStatus.pending
      → Waits id (db.update_many (by_id id) (apply_update d now) rows).0
  unfolding apply_update
  apply_update-Waits d rows h =
      rw (db.update_many_rows (by_id id) (apply_update d now) rows) (All-of_mem _ _ waits)
    where
      waits :
          (l : Listing)
          → Memᴰ l (map_where (by_id id) (apply_update d now) rows)
          → l.id ≡ id
          → l.approval_status ≡ ApprovalStatus.pending
      waits l m same =
          let (x, mx, e) = mem-map_where (by_id id) (apply_update d now) rows m in
          ground (arith, eq_iff x.id id)

  update_data_remoderates :
      (existing : Listing) (payload : UpdateListingDto) (category : Option Category) (w w' : World)
      (d : ListingUpdate) (r : Bool)
      → env.moderation_enabled ≡ true
      → (differs payload.title existing.title || differs payload.description existing.description)
        ≡ true
      → update_data db env now existing payload category w ≡ (ok (d, r), w')
      → (r ≡ true) × (d.approval_status ≡ some ApprovalStatus.pending) × (w' ≡ w)
  unfolding update_data should_remoderate
  update_data_remoderates existing payload category w w' d r enabled changed e =
      (ground arith, ground arith, ground arith)

  write_update-Waits :
      (d : ListingUpdate) (next : Option (List NormalizedImage)) (w w' : World)
      (r : ListingWithRelations)
      → d.approval_status ≡ some ApprovalStatus.pending
      → write_update db env now id d next w ≡ (ok r, w')
      → Waits id w'.listings
  unfolding write_update
  write_update-Waits d none w w' r h e =
      let written : World = record w {
        listings = (db.update_many (by_id id) (apply_update d now) w.listings).0;
      } in
      elim (Result-cases (reload db id written)) [
        | inl (x, w1, er) ↦
            let still = reload_ok er in
            let same : w'.listings ≡ written.listings = ground arith in
            rw same (apply_update-Waits d w.listings h)
        | inr (x, w1, er) ↦ absurd (ground arith)
      ]
  write_update-Waits d (some next) w w' r h e =
      let emptied : World = record w {
        listings = (db.update_many (by_id id) (apply_update d now) w.listings).0;
        images = db.delete_many (image_of id) w.images;
      } in
      elim (Result-cases (create_images db id 0 next emptied)) [
        | inl (t, w1, ec) ↦ elim (Result-cases (reload db id w1)) [
          | inl (x, w2, er) ↦
              let still = reload_ok er in
              let kept = create_images-listings 0 next emptied in
              let same : w'.listings ≡ emptied.listings = ground arith in
              rw same (apply_update-Waits d w.listings h)
          | inr (x, w2, er) ↦ absurd (ground arith)
        ]
        | inr (x, w1, ec) ↦ absurd (ground arith)
      ]

  enqueue_and_reload_waits :
      (w w' : World) (r : ListingWithRelations)
      → enqueue_moderation_and_reload db now id w ≡ (ok r, w')
      → (w'.listings ≡ w.listings)
        × (get_status_for_listing db id w'.jobs ≡ some ModerationJobStatusView.pending)
  unfolding enqueue_moderation_and_reload enqueue_moderation
  enqueue_and_reload_waits w w' r e =
      let queued : World = record w {
        issued = w.issued + 1;
        jobs = (Jobs.enqueue db id false now (db.cuid w.issued) w.jobs).0;
      } in
      elim (Result-cases (reload db id queued)) [
        | inl (x, w1, er) ↦
            let still = reload_ok er in
            let same : w'.jobs ≡ queued.jobs = ground arith in
            (ground arith, rw same (enqueue-get_status db id now (db.cuid w.issued) w.jobs))
        | inr (x, w1, er) ↦ absurd (ground arith)
      ]

  destroy_images-listings :
      (failure : String → Option Exception) (ids : List String) (w w' : World) (t : Unit {0})
      → destroy_images failure ids w ≡ (ok t, w')
      → w'.listings ≡ w.listings
  destroy_images-listings failure ids w w' t e = ground arith

  publish-Waits :
      (images : List ListingImage) (user : AuthUser) (d : ListingUpdate) (r : Bool)
      (next : Option (List NormalizedImage)) (w w' : World) (view : FrontendListing)
      → r ≡ true
      → env.moderation_enabled ≡ true
      → d.approval_status ≡ some ApprovalStatus.pending
      → publish_update db env now id images user d r next w ≡ (ok view, w')
      → Waits id w'.listings
        × (get_status_for_listing db id w'.jobs ≡ some ModerationJobStatusView.pending)
  unfolding publish_update
  publish-Waits images user d r next w w' view again enabled waiting e =
      let e0 = rw (again, enabled) at e in
      let (x, w1, ew, e1) = step_ok (write_update db env now id d next w) _ w' view e0 in
      let (t, w2, et, e2) =
        step_ok (destroy_images env.destroy_failure (removed_public_ids next images) w1) _ w' view
          e1 in
      let (y, w3, eq, e3) = step_ok (enqueue_moderation_and_reload db now id w2) _ w' view e2 in
      let (kept, queued) = enqueue_and_reload_waits w2 w3 y eq in
      let last : w3 ≡ w' = ap (λ (p : Result FrontendListing × World). p.1) e3 in
      let same : w3.listings ≡ w1.listings =
        kept
        ∙ destroy_images-listings env.destroy_failure (removed_public_ids next images) w1 w2 t et in
      subst
        (λ (v : World).
          Waits id v.listings
          × (get_status_for_listing db id v.jobs ≡ some ModerationJobStatusView.pending))
        last (subst (Waits id) (sym same) (write_update-Waits d next w w1 x waiting ew), queued)

  module _ (payload : UpdateListingDto) (user : AuthUser) (l : Listing)
      (enabled : env.moderation_enabled ≡ true)
      (changed : (differs payload.title l.title || differs payload.description l.description)
        ≡ true) where
    commit-Waits :
        (images : List ListingImage) (category : Option Category) (w w' : World)
        (view : FrontendListing)
        → commit_update db env now id l images payload category user w ≡ (ok view, w')
        → Waits id w'.listings
          × (get_status_for_listing db id w'.jobs ≡ some ModerationJobStatusView.pending)
    unfolding commit_update
    commit-Waits images category w w' view e =
        let ((d, r), w1, ed, e1) =
          step_ok (update_data db env now l payload category w) _ w' view e in
        let (again, waiting, still) =
          update_data_remoderates l payload category w w1 d r enabled changed ed in
        let (next, w2, en, e2) =
          step_ok (lift (normalized_images db env now payload) w1) _ w' view e1 in
        publish-Waits images user d r next w2 w' view again enabled waiting e2

  -- With moderation enabled, an `update` that returns and that brought a title or a description
  -- other than the one of the row leaves every row of the identifier waiting for approval, and the
  -- queue answers `pending` for the listing, whatever its approval and its job were before.
  pub update-Waits_again :
      (payload : UpdateListingDto) (user : AuthUser) (w w' : World) (l : Listing)
      (view : FrontendListing)
      → env.moderation_enabled ≡ true
      → db.find_first (by_id id) [] w.listings ≡ some l
      → (differs payload.title l.title || differs payload.description l.description) ≡ true
      → update db env now id payload user w ≡ (ok view, w')
      → Waits id w'.listings
        × (get_status_for_listing db id w'.jobs ≡ some ModerationJobStatusView.pending)
  unfolding update
  update-Waits_again payload user w w' l view enabled found changed e =
      let slug = category_slug db env now payload.category in
      let images = db.find_many (image_of id) [] w.images in
      let e0 = rw found at e in
      let (t, w1, et, e1) = step_ok (lift (assert_can_mutate l.seller_id user) w) _ w' view e0 in
      let (category, w2, ec, e2) = step_ok (find_category db env now slug w1) _ w' view e1 in
      let (t', w3, et', e3) =
        step_ok (throw_if (is_unknown db env now slug category) (bad_request "Invalid category") w2)
          _ w' view e2 in
      commit-Waits payload user l enabled changed images category w3 w' view e3
