-- ===== src/Listings/Ownership.antt =====
-- Who may change a listing: `assertCanMutate` before every write.
use nestjs_learn.Prelude.{ℕ, ◌≡◌, ◌≢◌, refl, false, some, [], String, arith, eq_iff}
use nestjs_learn.Prisma.{Prisma}
use nestjs_learn.Schema.{Listing}
use nestjs_learn.World.{World, err, forbidden}
use nestjs_learn.Listings.Types.{AuthUser, UpdateListingDto}
use nestjs_learn.Listings.Input.{is_admin, assert_can_mutate}
use nestjs_learn.Listings.Store.{Env, by_id}
use nestjs_learn.Listings.Service.{update_status, remove}
use nestjs_learn.Listings.Update.{update}

foreign_refused :
    (seller : String) (user : AuthUser)
    → is_admin user ≡ false
    → seller ≢ user.user_id
    → assert_can_mutate seller user ≡ err (forbidden "You do not have permission for this listing")
unfolding assert_can_mutate
foreign_refused seller user plain apart = ground (arith, eq_iff seller user.user_id)

-- For a listing that is there: a user who is neither its seller nor an administrator is refused by
-- `update`, `updateStatus` and `remove`, whatever else the request holds, and nothing changes, in the
-- tables or in the media store.
pub foreign_user_changes_nothing :
    (db : Prisma) (env : Env) (now : ℕ) (id status : String) (payload : UpdateListingDto)
    (user : AuthUser) (w : World) (l : Listing)
    → db.find_first (by_id id) [] w.listings ≡ some l
    → is_admin user ≡ false
    → l.seller_id ≢ user.user_id
    → (update db env now id payload user w
        ≡ (err (forbidden "You do not have permission for this listing"), w))
      × (update_status db env now id status user w
          ≡ (err (forbidden "You do not have permission for this listing"), w))
      × (remove db env now id user w
          ≡ (err (forbidden "You do not have permission for this listing"), w))
unfolding update update_status remove
foreign_user_changes_nothing db env now id status payload user w l found plain apart =
    let refused = foreign_refused l.seller_id user plain apart in
    (rw (found, refused) refl, rw (found, refused) refl, rw (found, refused) refl)
