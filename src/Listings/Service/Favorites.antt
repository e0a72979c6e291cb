-- ===== src/Listings/Service/Favorites.antt =====
-- Saving a listing: `saveListing` and `unsaveListing`.
use nestjs_learn.Prelude.{
  ℕ, ◌≡◌, ◌≢◌, refl, ap, ◌∙◌, Bool, true, false, not, ◌&&◌, none, some, List, [], ◌∷◌, Memᴰ, String,
  ◌+◌, arith, Option-cases, inl, inr, mem-append_last, count, count-append, keep, eq_iff, eq_refl,
}
use nestjs_learn.Prisma.{Prisma}
use nestjs_learn.Prisma.Laws.{find_first_of_mem}
use nestjs_learn.Schema.{Favorite, Listing}
use nestjs_learn.World.{World, Result, ok}
use nestjs_learn.Listings.Types.{AuthUser}
use nestjs_learn.Listings.Store.{Env, by_id, favorite_of}
use nestjs_learn.Listings.Service.{save_listing, unsave_listing}

module _ (p q : Favorite → Bool) where
  count-keep_none :
      (rows : List Favorite)
      → ((f : Favorite) → (q f && not (p f)) ≡ q f)
      → count q (keep (λ f. not (p f)) rows) ≡ count q rows
  count-keep_none [] h = refl
  count-keep_none (f ∷ rows) h = let rest = count-keep_none rows h in let here = h f in ground arith

count-keep_self :
    (p : Favorite → Bool) (rows : List Favorite) → count p (keep (λ f. not (p f)) rows) ≡ 0
count-keep_self p [] = refl
count-keep_self p (f ∷ rows) = let rest = count-keep_self p rows in ground arith

module _ (db : Prisma) (env : Env) (id : String) (user : AuthUser) where
  abbrev pub mine : Favorite → Bool
  mine = favorite_of user.user_id id

  abbrev pub added : ℕ → World → Favorite
  added now w = record {
    id = db.cuid w.issued;
    user_id = user.user_id;
    listing_id = id;
    created_at = now;
  }

  abbrev pub with_added : ℕ → World → World
  with_added now w = record w {
    favorites = db.create (added now w) w.favorites;
    issued = w.issued + 1;
  }

  module _ (now : ℕ) (w : World) (l : Listing)
      (found : db.find_first (by_id id) [] w.listings ≡ some l) where
    save_new :
        db.find_first mine [] w.favorites ≡ none
        → save_listing db env now id user w ≡ (ok true, with_added now w)
    unfolding save_listing
    save_new h = rw (found, h) refl

    save_old :
        (f : Favorite)
        → db.find_first mine [] w.favorites ≡ some f
        → save_listing db env now id user w ≡ (ok true, w)
    unfolding save_listing
    save_old f h = rw (found, h) refl

  added_found :
      (now : ℕ) (w : World)
      → (f : Favorite) × (db.find_first mine [] (with_added now w).favorites ≡ some f)
  added_found now w =
      let here : Memᴰ (added now w) (with_added now w).favorites =
        rw (db.create_lem (added now w) w.favorites) (mem-append_last w.favorites (added now w)) in
      let (f, first, m, passed) =
        find_first_of_mem db mine [] (with_added now w).favorites (added now w) here
          (ground (arith, eq_refl user.user_id, eq_refl id)) in
      (f, first)

  module _ (later : ℕ) (w : World) where
    none_of_mine : count mine (unsave_listing db env later id user w).1.favorites ≡ 0
    unfolding unsave_listing
    none_of_mine = rw (db.delete_many_lem mine w.favorites) (count-keep_self mine w.favorites)

    theirs_stay :
        (other : String)
        → user.user_id ≢ other
        → count (favorite_of other id) (unsave_listing db env later id user w).1.favorites
          ≡ count (favorite_of other id) w.favorites
    unfolding unsave_listing
    theirs_stay other apart = rw (db.delete_many_lem mine w.favorites) (
        count-keep_none mine (favorite_of other id) w.favorites
          (λ f. ground (arith, eq_iff f.user_id user.user_id, eq_iff f.user_id other)))

    theirs_added :
        (other : String)
        → user.user_id ≢ other
        → count (favorite_of other id) (with_added later w).favorites
          ≡ count (favorite_of other id) w.favorites
    theirs_added other apart =
        let skipped : favorite_of other id (added later w) ≡ false =
          ground (arith, eq_iff user.user_id other) in
        rw (db.create_lem (added later w) w.favorites)
          (count-append (favorite_of other id) w.favorites _ ∙ rw skipped (omega arith))

  -- For a listing that is there: saving it answers that it is saved, and saving it once more, at any
  -- time, changes nothing; after `unsaveListing` the user has no row for it; and saving and taking
  -- it back leave the number of rows that any other user has for it.
  pub save_listing_once :
      (now later : ℕ) (other : AuthUser) (w : World) (l : Listing)
      → db.find_first (by_id id) [] w.listings ≡ some l
      → user.user_id ≢ other.user_id
      → ((save_listing db env now id user w).0 ≡ ok true)
        × ((save_listing db env later id user (save_listing db env now id user w).1).1
            ≡ (save_listing db env now id user w).1)
        × (count mine
              (unsave_listing db env later id user
                (save_listing db env now id user w).1).1.favorites
            ≡ 0)
        × (count
              (favorite_of other.user_id id)
              (unsave_listing db env later id user
                (save_listing db env now id user w).1).1.favorites
            ≡ count (favorite_of other.user_id id) w.favorites)
  save_listing_once now later other w l found apart =
      elim (Option-cases (db.find_first mine [] w.favorites)) [
        | inl absent ↦
            let (f, first) = added_found now w in
            let again = save_old later (with_added now w) l found f first in
            rw (save_new now w l found absent) (
              refl,
              ap (λ (p : Result Bool × World). p.1) again,
              none_of_mine later (with_added now w),
              theirs_stay later (with_added now w) other.user_id apart
                  ∙ theirs_added now w other.user_id apart,
            )
        | inr (f, first) ↦
            let again = save_old later w l found f first in
            rw (save_old now w l found f first) (
              refl,
              ap (λ (p : Result Bool × World). p.1) again,
              none_of_mine later w,
              theirs_stay later w other.user_id apart,
            )
      ]
