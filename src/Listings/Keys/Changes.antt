-- ===== src/Listings/Keys/Changes.antt =====
-- The update of a listing keeps the keys of the table: a new title gets a slug that no other listing
-- has.
use nestjs_learn.Prelude.{
  ℕ, ◌≡◌, refl, sym, subst, Bool, true, false, Option, none, some, List, [], String, Option-cases,
  inl, inr, eq_iff, ◌&&◌, if◌then◌else◌,
}
use nestjs_learn.Prisma.{Prisma}
use nestjs_learn.Schema.{Listing, Category, ListingImage}
use nestjs_learn.World.{World, Exception, require, lift, throw_if, pure}
use nestjs_learn.World.Rules.{
  Ends, Keeps, next, next-Keeps, lift-Keeps, roll_back-Keeps, throw_if-Keeps,
}
use nestjs_learn.Listings.Types.{AuthUser, UpdateListingDto, NormalizedImage, ListingWithRelations}
use nestjs_learn.Listings.Input.{assert_can_mutate, parse_condition, parse_department, parse_status}
use nestjs_learn.Listings.Query.{present, parse_present}
use nestjs_learn.Listings.Store.{
  Env, by_id, image_of, enqueue_moderation_and_reload, destroy_images,
}
use nestjs_learn.Listings.Service.{slug_for}
use nestjs_learn.Listings.Update.{
  ListingUpdate, apply_update, should_remoderate, update_data, new_slug, titled, normalized_images,
  replace_images, write_update, publish_update, commit_update, update, find_category, category_slug,
  is_unknown, removed_public_ids,
}
use nestjs_learn.Listings.Keys.{IsKeyed, Keyed, IsKeyed-slug, IsKeyed-map_where}
use nestjs_learn.Listings.Keys.Operations.{
  reload-Keeps, create_images-Keeps, enqueue_moderation_and_reload-Keeps, destroy_images-Keeps,
  lifted,
}
use nestjs_learn.Listings.Keys.Creation.{IsFree, slug_for_ends}

module _ (db : Prisma) where
  module _ (env : Env) (now : ℕ) where
    -- Whether the row of the identifier may get the slug.
    abbrev MayGet : String → Option String → World → Type 0
    MayGet id none w = Keyed db w
    MayGet id (some slug) w = IsFree db (some id) slug w

    may_get_keyed : (id : String) (slug : Option String) (w : World) → MayGet id slug w → Keyed db w
    may_get_keyed id none w k = k
    may_get_keyed id (some slug) w k = k.0

    new_slug_ends :
        (title : Option String) (id : String) (w : World)
        → Keyed db w
        → Ends (Keyed db) (MayGet id) (new_slug db env now title id w)
    new_slug_ends none id w k = k
    new_slug_ends (some title) id w k =
        next (Keyed db) (IsFree db (some id)) (MayGet id) (slug_for db env now (some id) title w) _
          (slug_for_ends db env now (some id) title w k) λ slug v f. f

    update_data_ends :
        (existing : Listing) (payload : UpdateListingDto) (category : Option Category) (w : World)
        → Keyed db w
        → Ends
            (Keyed db)
            (λ d. MayGet existing.id d.0.slug)
            (update_data db env now existing payload category w)
    unfolding update_data
    update_data_ends existing payload category w k =
        let ends : ListingUpdate × Bool → World → Type 0 = λ d. MayGet existing.id d.0.slug in
        next (Keyed db) (λ _. Keyed db) ends
          (lift (parse_present (parse_condition env.unicode) (present payload.condition)) w) _
          (lifted db _ w k)
          λ condition w1 k1.
            next (Keyed db) (λ _. Keyed db) ends
              (lift (parse_present (parse_status env.unicode) (present payload.status)) w1) _
              (lifted db _ w1 k1)
              λ status w2 k2.
                next (Keyed db) (λ _. Keyed db) ends
                  (lift (parse_present (parse_department env.unicode) (present payload.department))
                    w2)
                  _ (lifted db _ w2 k2)
                  λ department w3 k3.
                    next (Keyed db) (λ _. Keyed db) ends
                      (lift
                        (should_remoderate env.unicode env.moderation_enabled existing payload
                          category)
                        w3)
                      _ (lifted db _ w3 k3)
                      λ remoderates w4 k4.
                        next (Keyed db) (MayGet existing.id) ends
                          (new_slug db env now (titled db env now payload.title) existing.id w4) _
                          (new_slug_ends (titled db env now payload.title) existing.id w4 k4)
                          λ slug w5 may. may

    update_row :
        (id : String) (d : ListingUpdate) (w : World)
        → MayGet id d.slug w
        → IsKeyed db (db.update_many (by_id id) (apply_update d now) w.listings).0 w.issued
    unfolding apply_update
    update_row id d w may =
        subst (λ (rows : List Listing). IsKeyed db rows w.issued)
          (sym (db.update_many_rows (by_id id) (apply_update d now) w.listings))
          (elim (Option-cases d.slug) [
            | inl keeps ↦
                IsKeyed-map_where db (by_id id) (apply_update d now) w.listings w.issued (λ l. refl)
                  (λ l. rw keeps refl) (may_get_keyed id d.slug w may)
            | inr (slug, has) ↦
                let (k, free) = subst (λ (o : Option String). MayGet id o w) has may in
                IsKeyed-slug db id slug (apply_update d now) w.listings w.issued (λ l. refl)
                  (λ l. rw has refl) free k
          ])

    write_update-Keeps :
        (id : String) (d : ListingUpdate) (images : Option (List NormalizedImage)) (w : World)
        → MayGet id d.slug w
        → Keeps (Keyed db) (write_update db env now id d images w)
    unfolding write_update
    write_update-Keeps id d none w may = reload-Keeps db id _ (update_row id d w may)
    write_update-Keeps id d (some images) w may =
        roll_back-Keeps (Keyed db) w _ (may_get_keyed id d.slug w may) (
          next-Keeps (Keyed db) (replace_images db env now id images _) _
            (create_images-Keeps db id 0 images _ (update_row id d w may))
            λ _ w1 k1. reload-Keeps db id w1 k1)

    republish-Keeps :
        (b : Bool) (id : String) (listing : ListingWithRelations) (w : World)
        → Keyed db w
        → Keeps (Keyed db) ((if b then enqueue_moderation_and_reload db now id else pure listing) w)
    republish-Keeps true id listing w k = enqueue_moderation_and_reload-Keeps db now id w k
    republish-Keeps false id listing w k = k

    publish_update-Keeps :
        (id : String) (images : List ListingImage) (auth_user : AuthUser) (d : ListingUpdate)
        (remoderates : Bool) (next_images : Option (List NormalizedImage)) (w : World)
        → MayGet id d.slug w
        → Keeps
            (Keyed db)
            (publish_update db env now id images auth_user d remoderates next_images w)
    unfolding publish_update
    publish_update-Keeps id images auth_user d remoderates next_images w may =
        next-Keeps (Keyed db) (write_update db env now id d next_images w) _
          (write_update-Keeps id d next_images w may)
          λ listing w1 k1.
            next-Keeps (Keyed db)
              (destroy_images env.destroy_failure (removed_public_ids next_images images) w1) _
              (destroy_images-Keeps db env.destroy_failure _ w1 k1)
              λ _ w2 k2.
                next-Keeps (Keyed db)
                  ((if remoderates && env.moderation_enabled
                      then enqueue_moderation_and_reload db now id
                      else pure listing)
                    w2)
                  _ (republish-Keeps (remoderates && env.moderation_enabled) id listing w2 k2)
                  λ _ w3 k3. k3

    find_category-Keeps :
        (slug : Option String) (w : World)
        → Keyed db w
        → Keeps (Keyed db) (find_category db env now slug w)
    find_category-Keeps none w k = k
    find_category-Keeps (some slug) w k = k

    found_ends :
        (id : String) (e : Exception) (w : World)
        → Keyed db w
        → Ends
            (Keyed db)
            (λ l v. Keyed db v × (l.id ≡ id))
            (require (db.find_first (by_id id) [] w.listings) e w)
    found_ends id e w k = elim (Option-cases (db.find_first (by_id id) [] w.listings)) [
      | inl missing ↦ rw missing k
      | inr (l, found) ↦
          let (m, passed) = db.find_first_sound (by_id id) [] w.listings l found in
          rw found (k, (eq_iff l.id id).0 passed)
    ]

    commit_update-Keeps :
        (id : String) (existing : Listing) (images : List ListingImage) (payload : UpdateListingDto)
        (category : Option Category) (auth_user : AuthUser) (w : World)
        → existing.id ≡ id
        → Keyed db w
        → Keeps
            (Keyed db)
            (commit_update db env now id existing images payload category auth_user w)
    unfolding commit_update
    commit_update-Keeps id existing images payload category auth_user w same k =
        next (Keyed db) (λ d. MayGet existing.id d.0.slug) (λ _. Keyed db)
          (update_data db env now existing payload category w) _
          (update_data_ends existing payload category w k)
          λ d w1 may1.
            next (Keyed db) (λ _. MayGet existing.id d.0.slug) (λ _. Keyed db)
              (lift (normalized_images db env now payload) w1) _
              (lift-Keeps (Keyed db) (MayGet existing.id d.0.slug)
                (may_get_keyed existing.id d.0.slug) _ w1 may1)
              λ next_images w2 may2.
                publish_update-Keeps id images auth_user d.0 d.1 next_images w2
                  (subst (λ (i : String). MayGet i d.0.slug w2) same may2)

    pub update-Keeps :
        (id : String) (payload : UpdateListingDto) (auth_user : AuthUser) (w : World)
        → Keyed db w
        → Keeps (Keyed db) (update db env now id payload auth_user w)
    unfolding update
    update-Keeps id payload auth_user w k =
        next (Keyed db) (λ l v. Keyed db v × (l.id ≡ id)) (λ _. Keyed db)
          (require (db.find_first (by_id id) [] w.listings) _ w) _ (found_ends id _ w k)
          λ existing w1 (k1, same).
            next-Keeps (Keyed db) (lift (assert_can_mutate existing.seller_id auth_user) w1) _
              (lifted db _ w1 k1)
              λ _ w2 k2.
                let slug = category_slug db env now payload.category in
                next-Keeps (Keyed db) (find_category db env now slug w2) _
                  (find_category-Keeps slug w2 k2)
                  λ category w3 k3.
                    next-Keeps (Keyed db) (throw_if (is_unknown db env now slug category) _ w3) _
                      (throw_if-Keeps (Keyed db) _ _ w3 k3)
                      λ _ w4 k4.
                        commit_update-Keeps id existing (db.find_many (image_of id) [] w1.images)
                          payload category auth_user w4 same k4
