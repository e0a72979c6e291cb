-- ===== src/Listings/Service/SavedSet.antt =====
-- What `saveListing` and `unsaveListing` promise: a set of saved listings for each user.
use nestjs_learn.Prelude.{
  ℕ, ◌≡◌, refl, sym, ◌∙◌, ap, fun_ext, subst, Bool, true, false, not, ◌&&◌, none, some, List, [],
  ◌∷◌, ◌++◌, String, arith, Bool-cases, Option-cases, inl, inr, any, keep, any-append, any-none,
  any_of_mem, ◌==◌, eq_iff, if◌then◌else◌,
}
use nestjs_learn.Prisma.{Prisma}
use nestjs_learn.Schema.{Favorite, Listing}
use nestjs_learn.World.{World}
use nestjs_learn.Listings.Types.{AuthUser}
use nestjs_learn.Listings.Store.{Env, by_id, favorite_of}
use nestjs_learn.Listings.Service.{save_listing, unsave_listing}

-- A call of one of the two methods.
pub data Command : Type 0 where
  saves unsaves : AuthUser → String → Command

-- The specification: whether a user has saved a listing.
abbrev pub Saved : Type 0
Saved = String → String → Bool

abbrev pub put : Bool → String → String → Saved → Saved
put value user id s u i = if user == u && id == i then value else s u i

-- A listing can be saved if it is there; to take it off is always possible.
abbrev pub specified : (String → Bool) → Command → Saved → Saved
specified listed (saves user id) s = if listed id then put true user.user_id id s else s
specified listed (unsaves user id) s = put false user.user_id id s

abbrev pub specified_all : (String → Bool) → List Command → Saved → Saved
specified_all listed [] s = s
specified_all listed (c ∷ cs) s = specified_all listed cs (specified listed c s)

-- What the tables tell.
abbrev pub saved : World → Saved
saved w user id = any (favorite_of user id) w.favorites

abbrev pub listed : World → String → Bool
listed w id = any (by_id id) w.listings

module _ (db : Prisma) (env : Env) (now : ℕ) where
  abbrev pub executed : Command → World → World
  executed (saves user id) w = (save_listing db env now id user w).1
  executed (unsaves user id) w = (unsave_listing db env now id user w).1

  abbrev pub executed_all : List Command → World → World
  executed_all [] w = w
  executed_all (c ∷ cs) w = executed_all cs (executed c w)

  any-keep :
      (user id u i : String) (rows : List Favorite)
      → any (favorite_of u i) (keep (λ f. not (favorite_of user id f)) rows)
        ≡ (if user == u && id == i then false else any (favorite_of u i) rows)
  any-keep user id u i [] = ground arith
  any-keep user id u i (f ∷ rows) = ground (
    arith,
    any-keep user id u i rows,
    eq_iff f.user_id user,
    eq_iff f.user_id u,
    eq_iff f.listing_id id,
    eq_iff f.listing_id i,
    eq_iff user u,
    eq_iff id i,
  )

  unsave_lem :
      (user : AuthUser) (id : String) (w : World)
      → saved (executed (unsaves user id) w) ≡ put false user.user_id id (saved w)
  unfolding unsave_listing
  unsave_lem user id w = fun_ext λ u. fun_ext λ i.
      rw (db.delete_many_lem (favorite_of user.user_id id) w.favorites)
        (any-keep user.user_id id u i w.favorites)

  already :
      (user id u i : String) (rows : List Favorite)
      → any (favorite_of user id) rows ≡ true
      → any (favorite_of u i) rows
        ≡ (if user == u && id == i then true else any (favorite_of u i) rows)
  already user id u i rows h = elim (Bool-cases (user == u && id == i)) [
    | inl same ↦
        let to_user : user ≡ u = (eq_iff user u).0 (ground arith) in
        let to_id : id ≡ i = (eq_iff id i).0 (ground arith) in
        rw same (
          subst (λ (x : String). any (favorite_of u x) rows ≡ true) to_id
            (subst (λ (x : String). any (favorite_of x id) rows ≡ true) to_user h))
    | inr other ↦ rw other refl
  ]

  one_more :
      (user : AuthUser) (id : String) (w : World) (u i : String)
      → any (favorite_of u i) (
          w.favorites
          ++ record {
            id = db.cuid w.issued;
            user_id = user.user_id;
            listing_id = id;
            created_at = now;
          }
            ∷ [])
        ≡ put true user.user_id id (saved w) u i
  one_more user id w u i = ground (
    arith,
    any-append (favorite_of u i) w.favorites (
        record { id = db.cuid w.issued; user_id = user.user_id; listing_id = id; created_at = now }
        ∷ []),
  )

  unlisted_lem :
      (user : AuthUser) (id : String) (w : World)
      → db.find_first (by_id id) [] w.listings ≡ none
      → (save_listing db env now id user w).1 ≡ w
  unfolding save_listing
  unlisted_lem user id w missing = rw missing refl

  kept_lem :
      (user : AuthUser) (id : String) (w : World) (l : Listing) (f : Favorite)
      → db.find_first (by_id id) [] w.listings ≡ some l
      → db.find_first (favorite_of user.user_id id) [] w.favorites ≡ some f
      → (save_listing db env now id user w).1 ≡ w
  unfolding save_listing
  kept_lem user id w l f found kept = rw (found, kept) refl

  added_lem :
      (user : AuthUser) (id : String) (w : World) (l : Listing)
      → db.find_first (by_id id) [] w.listings ≡ some l
      → db.find_first (favorite_of user.user_id id) [] w.favorites ≡ none
      → ((save_listing db env now id user w).1.favorites
          ≡ w.favorites
            ++ record {
              id = db.cuid w.issued;
              user_id = user.user_id;
              listing_id = id;
              created_at = now;
            }
              ∷ [])
        × ((save_listing db env now id user w).1.listings ≡ w.listings)
  unfolding save_listing
  added_lem user id w l found absent = rw (found, absent) (db.create_lem _ w.favorites, refl)

  save_lem :
      (user : AuthUser) (id : String) (w : World)
      → (saved (executed (saves user id) w) ≡ specified (listed w) (saves user id) (saved w))
        × (listed (executed (saves user id) w) ≡ listed w)
  unfolding save_listing
  save_lem user id w = elim (Option-cases (db.find_first (by_id id) [] w.listings)) [
    | inl missing ↦
        let unlisted : listed w id ≡ false =
          any-none (by_id id) w.listings
            (db.find_first_complete (by_id id) [] w.listings missing) in
        let same = unlisted_lem user id w missing in
        (ap saved same ∙ sym (chosen unlisted), ap listed same)
    | inr (l, found) ↦
        let (m, passed) = db.find_first_sound (by_id id) [] w.listings l found in
        let there : listed w id ≡ true = any_of_mem (by_id id) w.listings m passed in
        elim (Option-cases (db.find_first (favorite_of user.user_id id) [] w.favorites)) [
          | inl absent ↦
              let (more, same) = added_lem user id w l found absent in
              (
                (fun_ext λ u. fun_ext λ i. ap (any (favorite_of u i)) more ∙ one_more user id w u i)
                    ∙ sym (chosen there),
                fun_ext λ i. ap (any (by_id i)) same,
              )
          | inr (f, kept) ↦
              let (n, passes) =
                db.find_first_sound (favorite_of user.user_id id) [] w.favorites f kept in
              let same = kept_lem user id w l f found kept in
              (
                ap saved same
                    ∙ (fun_ext λ u. fun_ext λ i.
                        already user.user_id id u i w.favorites
                          (any_of_mem (favorite_of user.user_id id) w.favorites n passes))
                    ∙ sym (chosen there),
                ap listed same,
              )
        ]
  ]
    where
      chosen :
          {b : Bool}
          → listed w id ≡ b
          → specified (listed w) (saves user id) (saved w)
            ≡ (if b then put true user.user_id id (saved w) else saved w)
      chosen h = ap (λ b. if b then put true user.user_id id (saved w) else saved w) h

  -- After any sequence of calls that save listings and take them off, whoever makes them and whether
  -- the listings are there or not, the table of favorites holds exactly the pairs of a user and a
  -- listing that the specification, a set for each user, has.
  pub saved_set-refines :
      (cs : List Command) (w : World)
      → saved (executed_all cs w) ≡ specified_all (listed w) cs (saved w)
  unfolding unsave_listing
  saved_set-refines [] w = refl
  saved_set-refines (saves user id ∷ cs) w =
      let (view, same) = save_lem user id w in
      saved_set-refines cs (executed (saves user id) w)
      ∙ ap (λ l. specified_all l cs (saved (executed (saves user id) w))) same
      ∙ ap (specified_all (listed w) cs) view
  saved_set-refines (unsaves user id ∷ cs) w =
      saved_set-refines cs (executed (unsaves user id) w)
      ∙ ap (specified_all (listed w) cs) (unsave_lem user id w)
