-- ===== src/Listings/Keys/Creation.antt =====
-- The creation of a listing keeps the keys of the table: the slug that it searches is free, and the
-- identifier is new.
use nestjs_learn.Prelude.{
  ℕ, ◌+◌, ◌≤◌, ◌≡◌, refl, sym, ◌∙◌, subst, Bool, true, false, Option, none, List, [], ◌∷◌, String,
  arith, Bool-cases, inl, inr, count, length, Memᴰ, All, All-mono, count-none, count-pos_of_mem,
  ◌==◌, eq_iff, if◌then◌else◌,
}
use nestjs_learn.Prisma.{Prisma}
use nestjs_learn.Schema.{Listing}
use nestjs_learn.World.{World, require, lift}
use nestjs_learn.World.Rules.{Ends, Keeps, next, next-Keeps, lift-Keeps}
use nestjs_learn.Listings.Types.{AuthUser, CreateListingDto}
use nestjs_learn.Listings.Input.{parse_condition, normalize_image_inputs}
use nestjs_learn.Listings.Store.{Env, create_images, reload, enqueue_moderation_and_reload}
use nestjs_learn.Listings.Slug.{has_slug, is_excluded}
use nestjs_learn.Listings.Slug.Search.{HasSlugs, generate_slug_total}
use nestjs_learn.Listings.Service.{create, slug_for, parse_optional_department}
use nestjs_learn.Listings.Keys.{IsKeyed, Keyed, IsKeyed-append}
use nestjs_learn.Listings.Keys.Operations.{
  reload-Keeps, create_images-Keeps, enqueue_moderation_and_reload-Keeps, required,
}

-- At most one row passes a test that counts at most one.
one_of_count :
    (test : Listing → Bool) (rows : List Listing) {a b : Listing}
    → count test rows ≤ 1
    → Memᴰ a rows
    → Memᴰ b rows
    → test a ≡ true
    → test b ≡ true
    → a ≡ b
one_of_count test [] h m n ta tb = elim m [ ]
one_of_count test (x ∷ rows) h (Memᴰ.head e) (Memᴰ.head f) ta tb = e ∙ sym f
one_of_count test (x ∷ rows) h (Memᴰ.head e) (Memᴰ.tail n) ta tb =
    let here : test x ≡ true = subst (λ y. test y ≡ true) e ta in
    absurd (ground (arith, count-pos_of_mem test rows n tb))
one_of_count test (x ∷ rows) h (Memᴰ.tail m) (Memᴰ.head f) ta tb =
    let here : test x ≡ true = subst (λ y. test y ≡ true) f tb in
    absurd (ground (arith, count-pos_of_mem test rows m ta))
one_of_count test (x ∷ rows) h (Memᴰ.tail m) (Memᴰ.tail n) ta tb =
    one_of_count test rows (ground arith) m n ta tb

module _ (db : Prisma) where
  pub IsKeyed-HasSlugs : (rows : List Listing) (n : ℕ) → IsKeyed db rows n → HasSlugs rows
  IsKeyed-HasSlugs rows n k a b ma mb same =
      one_of_count (has_slug b.slug) rows (k.slugs b.slug) ma mb ((eq_iff a.slug b.slug).1 same)
        ((eq_iff b.slug b.slug).1 refl)

  -- Only the excluded rows have the slug.
  abbrev pub IsFree : Option String → String → World → Type 0
  IsFree exclude slug w =
      Keyed db w × All (λ r. r.slug ≡ slug → is_excluded exclude r.id ≡ true) w.listings

  abbrev keyed_of :
      (exclude : Option String) (slug : String) (w : World) → IsFree exclude slug w → Keyed db w
  keyed_of exclude slug w f = f.0

  module _ (env : Env) (now : ℕ) where
    pub slug_for_ends :
        (exclude : Option String) (title : String) (w : World)
        → Keyed db w
        → Ends (Keyed db) (IsFree exclude) (slug_for db env now exclude title w)
    slug_for_ends exclude title w k =
        let (slug, found, free) =
          generate_slug_total db exclude w.listings env.unicode (length w.listings + 2) title
            (IsKeyed-HasSlugs w.listings w.issued k) (omega arith) in
        rw found (k, free)

    create_row :
        (l : Listing) (w : World)
        → l.id ≡ db.cuid w.issued
        → IsFree none l.slug w
        → IsKeyed db (db.create l w.listings) (w.issued + 1)
    create_row l w id (k, free) =
        subst (λ (rows : List Listing). IsKeyed db rows (w.issued + 1))
          (sym (db.create_lem l w.listings))
          (IsKeyed-append db w.listings w.issued l id
            (count-none (has_slug l.slug) w.listings (
              All-mono _ w.listings
                (λ r h. elim (Bool-cases (r.slug == l.slug)) [
                  | inl same ↦
                      let excluded : false ≡ true = h ((eq_iff r.slug l.slug).0 same) in
                      absurd (ground arith)
                  | inr other ↦ other
                ])
                free))
            k)

    announce-Keeps :
        (b : Bool) (id : String) (w : World)
        → Keyed db w
        → Keeps (Keyed db) ((if b then enqueue_moderation_and_reload db now id else reload db id) w)
    announce-Keeps true id w k = enqueue_moderation_and_reload-Keeps db now id w k
    announce-Keeps false id w k = reload-Keeps db id w k

    pub create-Keeps :
        (payload : CreateListingDto) (auth_user : AuthUser) (w : World)
        → Keyed db w
        → Keeps (Keyed db) (create db env now payload auth_user w)
    unfolding create
    create-Keeps payload auth_user w k =
        next-Keeps (Keyed db) (require (db.find_first _ [] w.categories) _ w) _
          (required db _ _ w k)
          λ category w1 k1.
            next (Keyed db) (IsFree none) (λ _. Keyed db)
              (slug_for db env now none payload.title w1) _ (slug_for_ends none payload.title w1 k1)
              λ slug w2 k2.
                next (Keyed db) (λ _. IsFree none slug) (λ _. Keyed db)
                  (lift (normalize_image_inputs env.parse_url payload.images) w2) _
                  (lift-Keeps (Keyed db) (IsFree none slug) (keyed_of none slug) _ w2 k2)
                  λ images w3 k3.
                    next (Keyed db) (λ _. IsFree none slug) (λ _. Keyed db)
                      (lift (parse_condition env.unicode payload.condition) w3) _
                      (lift-Keeps (Keyed db) (IsFree none slug) (keyed_of none slug) _ w3 k3)
                      λ condition w4 k4.
                        next (Keyed db) (λ _. IsFree none slug) (λ _. Keyed db)
                          (lift (parse_optional_department env.unicode payload.department) w4) _
                          (lift-Keeps (Keyed db) (IsFree none slug) (keyed_of none slug) _ w4 k4)
                          λ department w5 k5.
                            next-Keeps (Keyed db) (create_images db (db.cuid w5.issued) 0 images _)
                              _
                              (create_images-Keeps db (db.cuid w5.issued) 0 images _
                                (create_row _ w5 refl k5))
                              λ _ w6 k6.
                                next-Keeps (Keyed db)
                                  ((if env.moderation_enabled
                                      then enqueue_moderation_and_reload db now (db.cuid w5.issued)
                                      else reload db (db.cuid w5.issued))
                                    w6)
                                  _
                                  (announce-Keeps env.moderation_enabled (db.cuid w5.issued) w6 k6)
                                  λ _ w7 k7. k7
