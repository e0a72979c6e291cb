-- ===== src/Listings/Keys/History.antt =====
-- The worlds that the methods which write listings can reach, whatever they are called with and
-- however they end.
use nestjs_learn.Prelude.{
  ℕ, ◌+◌, ◌≡◌, Option, some, [], String, length, arith, Option-cases, inl, inr,
}
use nestjs_learn.Prisma.{Prisma}
use nestjs_learn.Text.{Unicode}
use nestjs_learn.World.{World, require}
use nestjs_learn.World.Rules.{Keeps, next-Keeps, world_after}
use nestjs_learn.Moderation.Workflow
use nestjs_learn.Admin.{resolve_report}
use nestjs_learn.Listings.Types.{AuthUser, CreateListingDto, UpdateListingDto}
use nestjs_learn.Listings.Store.{Env, by_id, favorite_of}
use nestjs_learn.Listings.Slug.{generate_slug}
use nestjs_learn.Listings.Slug.Search.{generate_slug_total}
use nestjs_learn.Listings.Service.{
  create, update_status, remove, find_one, save_listing, unsave_listing,
}
use nestjs_learn.Listings.Update.{update}
use nestjs_learn.Listings.Keys.{IsKeyed, Keyed, IsKeyed-fresh}
use nestjs_learn.Listings.Keys.Operations.{
  update_status-Keeps, remove-Keeps, find_one-Keeps, approve_listing-Keeps, reject_listing-Keeps,
  resolve_report-Keeps, required,
}
use nestjs_learn.Listings.Keys.Creation.{create-Keeps, IsKeyed-HasSlugs}
use nestjs_learn.Listings.Keys.Changes.{update-Keeps}

-- One call of a method: the world before it, and the one after it.
pub data Call (db : Prisma) : World → World → Type 0 where
  creates :
      (env : Env) (now : ℕ) (payload : CreateListingDto) (user : AuthUser) (w : World)
      → Call db w (create db env now payload user w).1
  updates :
      (env : Env) (now : ℕ) (id : String) (payload : UpdateListingDto) (user : AuthUser) (w : World)
      → Call db w (update db env now id payload user w).1
  updates_status :
      (env : Env) (now : ℕ) (id status : String) (user : AuthUser) (w : World)
      → Call db w (update_status db env now id status user w).1
  removes :
      (env : Env) (now : ℕ) (id : String) (user : AuthUser) (w : World)
      → Call db w (remove db env now id user w).1
  shows :
      (env : Env) (now : ℕ) (id : String) (viewer : Option AuthUser) (w : World)
      → Call db w (find_one db env now id viewer w).1
  saves :
      (env : Env) (now : ℕ) (id : String) (user : AuthUser) (w : World)
      → Call db w (save_listing db env now id user w).1
  unsaves :
      (env : Env) (now : ℕ) (id : String) (user : AuthUser) (w : World)
      → Call db w (unsave_listing db env now id user w).1
  approves :
      (now : ℕ) (id : String) (w : World) → Call db w (Workflow.approve_listing db now id w).1
  rejects : (now : ℕ) (id : String) (w : World) → Call db w (Workflow.reject_listing db now id w).1
  resolves : (now : ℕ) (id : String) (w : World) → Call db w (resolve_report db now id w).1

-- A sequence of calls.
pub data History (db : Prisma) : World → World → Type 0 where
  start : (w : World) → History db w w
  after : {w v x : World} → History db w v → Call db v x → History db w x

module _ (db : Prisma) where
  save_listing-Keeps :
      (env : Env) (now : ℕ) (id : String) (user : AuthUser) (w : World)
      → Keyed db w
      → Keeps (Keyed db) (save_listing db env now id user w)
  unfolding save_listing
  save_listing-Keeps env now id user w k =
      next-Keeps (Keyed db) (require (db.find_first (by_id id) [] w.listings) _ w) _
        (required db _ _ w k)
        λ listing w1 k1.
          elim (Option-cases (db.find_first (favorite_of user.user_id id) [] w1.favorites)) [
            | inl absent ↦ rw absent (IsKeyed-fresh db w1.listings w1.issued k1)
            | inr (f, there) ↦ rw there k1
          ]

  Call-Keyed : {w v : World} → Call db w v → Keyed db w → Keyed db v
  unfolding unsave_listing
  Call-Keyed (Call.creates env now payload user w) k =
      world_after (Keyed db) _ (create-Keeps db env now payload user w k)
  Call-Keyed (Call.updates env now id payload user w) k =
      world_after (Keyed db) _ (update-Keeps db env now id payload user w k)
  Call-Keyed (Call.updates_status env now id status user w) k =
      world_after (Keyed db) _ (update_status-Keeps db env now id status user w k)
  Call-Keyed (Call.removes env now id user w) k =
      world_after (Keyed db) _ (remove-Keeps db env now id user w k)
  Call-Keyed (Call.shows env now id viewer w) k =
      world_after (Keyed db) _ (find_one-Keeps db env now id viewer w k)
  Call-Keyed (Call.saves env now id user w) k =
      world_after (Keyed db) _ (save_listing-Keeps env now id user w k)
  Call-Keyed (Call.unsaves env now id user w) k = k
  Call-Keyed (Call.approves now id w) k =
      world_after (Keyed db) _ (approve_listing-Keeps db now id w k)
  Call-Keyed (Call.rejects now id w) k =
      world_after (Keyed db) _ (reject_listing-Keeps db now id w k)
  Call-Keyed (Call.resolves now id w) k =
      world_after (Keyed db) _ (resolve_report-Keeps db now id w k)

  History-Keyed : {w v : World} → History db w v → Keyed db w → Keyed db v
  History-Keyed (History.start w) k = k
  History-Keyed (History.after h c) k = Call-Keyed c (History-Keyed h k)

  -- Whatever calls have been made, in any order and with any arguments, and however they ended, no
  -- two listings share a slug or an identifier, each identifier was given out by the database, and
  -- the search for a slug finds one for every title.
  pub history-IsKeyed :
      (w v : World)
      → History db w v
      → IsKeyed db w.listings w.issued
      → IsKeyed db v.listings v.issued
        × ((exclude : Option String) (u : Unicode) (title : String)
            → (slug : String) × (generate_slug db exclude v.listings u (length v.listings + 2) title
                ≡ some slug))
  history-IsKeyed w v h k =
      let keyed = History-Keyed h k in
      (
        keyed,
        λ exclude u title.
            let (slug, found, free) =
              generate_slug_total db exclude v.listings u (length v.listings + 2) title
                (IsKeyed-HasSlugs db v.listings v.issued keyed) (omega arith) in
            (slug, found),
      )
