-- ===== src/Moderation/Workflow/Approval.antt =====
-- Approving a listing: the three branches, and what approving it again does.
use Prim.Native.String.{◌++◌ as str_append}
use nestjs_learn.Prelude.{
  ℕ, ◌+◌, ◌≡◌, ap, subst, true, false, none, some, [], ◌∷◌, ◌++◌, Memᴰ, String, arith, Option-cases,
  Bool-cases, inl, inr, mem-map_where, eq_iff,
}
use nestjs_learn.Prisma.{Prisma}
use nestjs_learn.Schema.{Listing, ApprovalStatus, Notification, NotificationType, is_approved}
use nestjs_learn.World.{World, Result, ok, err, not_found, notified}
use nestjs_learn.Moderation.Workflow.{by_id, with_approval, listing_metadata, approve_listing}

module _ (db : Prisma) (now : ℕ) (id : String) (w : World) where
  abbrev pub approval_notice : Listing → Notification
  approval_notice l = record {
    id = db.cuid w.issued;
    user_id = l.seller_id;
    type = NotificationType.listing_approved;
    title = "Listing approved";
    body = str_append "Your listing \"" (str_append l.title "\" has been approved.");
    is_read = false;
    metadata = listing_metadata l.id;
    created_at = now;
  }

  -- The world after the approval of a listing that was not approved.
  abbrev pub approved_world : Listing → World
  approved_world l = record w {
    listings =
        (db.update_many (by_id l.id) (with_approval ApprovalStatus.approved now) w.listings).0;
    notifications = db.create (approval_notice l) w.notifications;
    issued = w.issued + 1;
    effects = w.effects ++ notified l.seller_id (approval_notice l) ∷ [];
  }

  pub approve_missing :
      db.find_first (by_id id) [] w.listings ≡ none
      → approve_listing db now id w ≡ (err (not_found "Listing not found"), w)
  unfolding approve_listing
  approve_missing h = rw h

  module _ (l : Listing) (found : db.find_first (by_id id) [] w.listings ≡ some l) where
    pub approve_again :
        is_approved l.approval_status ≡ true → approve_listing db now id w ≡ (ok l, w)
    unfolding approve_listing
    approve_again h = rw (found, h)

    pub approve_waiting :
        is_approved l.approval_status ≡ false
        → approve_listing db now id w
          ≡ (ok (with_approval ApprovalStatus.approved now l), approved_world l)
    unfolding approve_listing
    approve_waiting h = rw (found, h)

module _ (db : Prisma) (now later : ℕ) (id : String) where
  -- Where a query by the identifier finds approved listings only, approving changes nothing.
  approve_stable :
      (w : World)
      → ((l : Listing)
          → db.find_first (by_id id) [] w.listings ≡ some l
          → is_approved l.approval_status ≡ true)
      → (approve_listing db later id w).1 ≡ w
  approve_stable w all = elim (Option-cases (db.find_first (by_id id) [] w.listings)) [
    | inl missing ↦ ap (λ (p : Result Listing × World). p.1) (approve_missing db later id w missing)
    | inr (l, found) ↦
        ap (λ (p : Result Listing × World). p.1) (approve_again db later id w l found (all l found))
  ]

  -- After the approval every listing of the identifier is approved.
  approved_after :
      (w : World) (l : Listing)
      → l.id ≡ id
      → (r : Listing) → db.find_first (by_id id) [] (approved_world db now id w l).listings ≡ some r
      → is_approved r.approval_status ≡ true
  approved_after w l same r found =
      let set = with_approval ApprovalStatus.approved now in
      let (m, passed) = db.find_first_sound (by_id id) [] _ r found in
      let (x, mx, e) =
        mem-map_where (by_id l.id) set w.listings
          (subst (Memᴰ r) (db.update_many_rows (by_id l.id) set w.listings) m) in
      ground (arith, eq_iff x.id l.id, eq_iff r.id id)

  -- Approving a listing is idempotent: a second approval, at any time, changes nothing at all. In
  -- particular the seller gets no second notification.
  pub approve_listing_idempotent :
      (w : World)
      → (approve_listing db later id (approve_listing db now id w).1).1
        ≡ (approve_listing db now id w).1
  approve_listing_idempotent w = approve_stable (approve_listing db now id w).1 stable
    where
      stable :
          (r : Listing)
          → db.find_first (by_id id) [] (approve_listing db now id w).1.listings ≡ some r
          → is_approved r.approval_status ≡ true
      stable r again = elim (Option-cases (db.find_first (by_id id) [] w.listings)) [
        | inl missing ↦
            let still = rw (approve_missing db now id w missing) at again in absurd (ground arith)
        | inr (l, found) ↦ elim (Bool-cases (is_approved l.approval_status)) [
          | inl approved ↦
              let still = rw (approve_again db now id w l found approved) at again in ground arith
          | inr waiting ↦
              approved_after w l
                ((eq_iff l.id id).0 (db.find_first_sound (by_id id) [] w.listings l found).1) r
                (rw (approve_waiting db now id w l found waiting) at again)
        ]
      ]
