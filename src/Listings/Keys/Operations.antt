-- ===== src/Listings/Keys/Operations.antt =====
-- Each method that writes to the table of listings keeps its keys, whether it returns or throws.
use nestjs_learn.Prelude.{
  ℕ, ◌+◌, ◌≡◌, refl, sym, subst, Option, List, [], ◌∷◌, String, arith, Option-cases, inl, inr,
  Bool-cases, not,
}
use nestjs_learn.Prisma.{Prisma}
use nestjs_learn.Schema.{Listing, ApprovalStatus, is_approved, is_rejected}
use nestjs_learn.World.{World, M, Result, Exception, require, lift, throw_if, run_next}
use nestjs_learn.World.Rules.{
  Keeps, next-Keeps, require-Keeps, lift-Keeps, Keeps-of_world, throw_if-Keeps,
}
use nestjs_learn.Notifications
use nestjs_learn.Moderation.Workflow
use nestjs_learn.Listings.Types.{AuthUser, NormalizedImage}
use nestjs_learn.Listings.Store.{
  Env, by_id, listing_include, reload, create_images, enqueue_moderation,
  enqueue_moderation_and_reload, destroy_images, image_of, public_ids, first_failure,
}
use nestjs_learn.Listings.Input.{assert_can_mutate, parse_status}
use nestjs_learn.Listings.Service.{
  update_status, remove, find_one, is_visible, with_status, with_view,
}
use nestjs_learn.Admin.{resolve_report, has_report_id, turned_down}
use nestjs_learn.Listings.Keys.{IsKeyed, Keyed, IsKeyed-fresh, IsKeyed-map_where, IsKeyed-keep}

module _ (db : Prisma) where
  reload_world : (id : String) (w : World) → (reload db id w).1 ≡ w
  unfolding reload listing_include
  reload_world id w = ground arith

  listing_include_world : (l : Listing) (w : World) → (listing_include db l w).1 ≡ w
  unfolding listing_include
  listing_include_world l w = ground arith

  pub reload-Keeps : (id : String) (w : World) → Keyed db w → Keeps (Keyed db) (reload db id w)
  reload-Keeps id w k =
      Keeps-of_world (Keyed db) (reload db id w) (subst (Keyed db) (sym (reload_world id w)) k)

  pub create_images-Keeps :
      (id : String) (order : ℕ) (images : List NormalizedImage) (w : World)
      → Keyed db w
      → Keeps (Keyed db) (create_images db id order images w)
  unfolding create_images
  create_images-Keeps id order [] w k = k
  create_images-Keeps id order (image ∷ rest) w k =
      create_images-Keeps id (order + 1) rest _ (IsKeyed-fresh db w.listings w.issued k)

  pub enqueue_moderation_and_reload-Keeps :
      (now : ℕ) (id : String) (w : World)
      → Keyed db w
      → Keeps (Keyed db) (enqueue_moderation_and_reload db now id w)
  unfolding enqueue_moderation_and_reload enqueue_moderation
  enqueue_moderation_and_reload-Keeps now id w k =
      reload-Keeps id _ (IsKeyed-fresh db w.listings w.issued k)

  pub destroy_images-Keeps :
      (failure : String → Option Exception) (ids : List String) (w : World)
      → Keyed db w
      → Keeps (Keyed db) (destroy_images failure ids w)
  destroy_images-Keeps failure ids w k = elim (Option-cases (first_failure failure ids)) [
    | inl fine ↦ rw (fine, destroy_images) k
    | inr (e, failed) ↦ rw (failed, destroy_images) k
  ]

  pub written :
      (id : String) (f : Listing → Listing) (w : World)
      → ((l : Listing) → (f l).id ≡ l.id)
      → ((l : Listing) → (f l).slug ≡ l.slug)
      → Keyed db w
      → IsKeyed db (db.update_many (by_id id) f w.listings).0 w.issued
  written id f w same_id same_slug k =
      subst (λ (rows : List Listing). IsKeyed db rows w.issued)
        (sym (db.update_many_rows (by_id id) f w.listings))
        (IsKeyed-map_where db (by_id id) f w.listings w.issued same_id same_slug k)

  removed :
      (id : String) (w : World)
      → Keyed db w
      → IsKeyed db (db.delete_many (by_id id) w.listings) w.issued
  removed id w k =
      subst (λ (rows : List Listing). IsKeyed db rows w.issued)
        (sym (db.delete_many_lem (by_id id) w.listings))
        (IsKeyed-keep db (λ l. not (by_id id l)) w.listings w.issued k)

  pub required :
      {A : Type 0} (o : Option A) (e : Exception) (w : World)
      → Keyed db w
      → Keeps (Keyed db) (require o e w)
  required = require-Keeps (Keyed db) (Keyed db) (λ w k. k)

  pub lifted : {A : Type 0} (r : Result A) (w : World) → Keyed db w → Keeps (Keyed db) (lift r w)
  lifted = lift-Keeps (Keyed db) (Keyed db) (λ w k. k)

  -- The listing of an identifier, or the error that there is none.
  found-Keeps :
      {B : Type 0} (id : String) (e : Exception) (w : World) (f : Listing → M B)
      → Keyed db w
      → ((l : Listing) (v : World) → Keyed db v → Keeps (Keyed db) (f l v))
      → Keeps (Keyed db) (
          run_next
            (require (db.find_first (by_id id) [] w.listings) e w).0
            f
            (require (db.find_first (by_id id) [] w.listings) e w).1)
  found-Keeps id e w f k rest =
      next-Keeps (Keyed db) (require (db.find_first (by_id id) [] w.listings) e w) f
        (required (db.find_first (by_id id) [] w.listings) e w k) rest

  module _ (env : Env) (now : ℕ) where
    pub update_status-Keeps :
        (id status : String) (auth_user : AuthUser) (w : World)
        → Keyed db w
        → Keeps (Keyed db) (update_status db env now id status auth_user w)
    unfolding update_status
    update_status-Keeps id status auth_user w k = found-Keeps id _ w _ k λ existing w1 k1.
        next-Keeps (Keyed db) (lift (assert_can_mutate existing.seller_id auth_user) w1) _
          (lifted _ w1 k1)
          λ _ w2 k2.
            next-Keeps (Keyed db) (lift (parse_status env.unicode status) w2) _ (lifted _ w2 k2)
              λ chosen w3 k3.
                next-Keeps (Keyed db) (reload db id _) _
                  (reload-Keeps id _
                    (written id (with_status chosen now) w3 (λ l. refl) (λ l. refl) k3))
                  λ _ w4 k4. k4

    pub remove-Keeps :
        (id : String) (auth_user : AuthUser) (w : World)
        → Keyed db w
        → Keeps (Keyed db) (remove db env now id auth_user w)
    unfolding remove
    remove-Keeps id auth_user w k = found-Keeps id _ w _ k λ existing w1 k1.
        next-Keeps (Keyed db) (lift (assert_can_mutate existing.seller_id auth_user) w1) _
          (lifted _ w1 k1)
          λ _ w2 k2.
            next-Keeps (Keyed db)
              (destroy_images env.destroy_failure
                (public_ids (db.find_many (image_of id) [] w1.images)) w2)
              _ (destroy_images-Keeps env.destroy_failure _ w2 k2) λ _ w3 k3. removed id w3 k3

    include-Keeps :
        (l : Listing) (w : World) → Keyed db w → Keeps (Keyed db) (listing_include db l w)
    unfolding listing_include
    include-Keeps l w k =
        Keeps-of_world (Keyed db) (listing_include db l w)
          (subst (Keyed db) (sym (listing_include_world l w)) k)

    pub find_one-Keeps :
        (id : String) (viewer : Option AuthUser) (w : World)
        → Keyed db w
        → Keeps (Keyed db) (find_one db env now id viewer w)
    unfolding find_one
    find_one-Keeps id viewer w k = found-Keeps id _ w _ k λ l w1 k1.
        next-Keeps (Keyed db) (listing_include db l w1) _ (include-Keeps l w1 k1) λ listing w2 k2.
          next-Keeps (Keyed db) (throw_if (not (is_visible l viewer)) _ w2) _
            (throw_if-Keeps (Keyed db) _ _ w2 k2)
            λ _ w3 k3. written id (with_view now) w3 (λ l. refl) (λ l. refl) k3

  set_approval-Keeps :
      (status : ApprovalStatus) (now : ℕ) (l : Listing) (w : World)
      → Keyed db w
      → IsKeyed db
          (db.update_many (by_id l.id) (Workflow.with_approval status now) w.listings).0
          w.issued
  set_approval-Keeps status now l w k =
      written l.id (Workflow.with_approval status now) w (λ l. refl) (λ l. refl) k

  pub approve_listing-Keeps :
      (now : ℕ) (id : String) (w : World)
      → Keyed db w
      → Keeps (Keyed db) (Workflow.approve_listing db now id w)
  unfolding Workflow.approve_listing Notifications.create
  approve_listing-Keeps now id w k = found-Keeps id _ w _ k λ l w1 k1.
      elim (Bool-cases (is_approved l.approval_status)) [
        | inl already ↦ rw already k1
        | inr other ↦
            rw other (
              IsKeyed-fresh db _ w1.issued (set_approval-Keeps ApprovalStatus.approved now l w1 k1))
      ]

  pub reject_listing-Keeps :
      (now : ℕ) (id : String) (w : World)
      → Keyed db w
      → Keeps (Keyed db) (Workflow.reject_listing db now id w)
  unfolding Workflow.reject_listing Notifications.create
  reject_listing-Keeps now id w k = found-Keeps id _ w _ k λ l w1 k1.
      elim (Bool-cases (is_rejected l.approval_status)) [
        | inl already ↦ rw already k1
        | inr other ↦
            rw other (
              IsKeyed-fresh db _ w1.issued (set_approval-Keeps ApprovalStatus.rejected now l w1 k1))
      ]

  pub resolve_report-Keeps :
      (now : ℕ) (id : String) (w : World)
      → Keyed db w
      → Keeps (Keyed db) (resolve_report db now id w)
  unfolding resolve_report
  resolve_report-Keeps now id w k =
      next-Keeps (Keyed db) (require (db.find_first (has_report_id id) [] w.reports) _ w) _
        (required _ _ w k)
        λ report w1 k1. written report.listing_id (turned_down now) w1 (λ l. refl) (λ l. refl) k1
