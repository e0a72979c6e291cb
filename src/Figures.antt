-- ===== src/Figures.antt =====
-- The counts of src/modules/stats/stats.service.ts, src/modules/categories/categories.service.ts and
-- src/modules/dashboard/dashboard.service.ts.
use nestjs_learn.Prelude.{ℕ, ◌+◌, Bool, true, ◌&&◌, Option, List, [], ◌∷◌, map, String, ◌==◌}
use nestjs_learn.Prisma.{Prisma, asc}
use nestjs_learn.Schema.{
  User, Listing, ListingStatus, Category, Conversation, ConversationParticipant, Favorite,
  same_status,
}
use nestjs_learn.World.{M, gets}

pub record PublicStats : Type 0 where
  pub total_users : ℕ
  pub total_listings : ℕ
  pub total_conversations : ℕ

pub record CategoryCount : Type 0 where
  pub id : String
  pub key : String
  pub name : String
  pub icon : Option String
  pub count : ℕ

pub record Summary : Type 0 where
  pub my_posts : ℕ
  pub selling : ℕ
  pub saved : ℕ
  pub conversations : ℕ
  pub total_views : ℕ

abbrev pub is_own : String → Listing → Bool
is_own user_id l = l.seller_id == user_id

-- `_sum.viewCount ?? 0` of the rows that pass.
abbrev pub sum_of_views : List Listing → ℕ
sum_of_views [] = 0
sum_of_views (l ∷ rest) = l.view_count + sum_of_views rest

module _ (db : Prisma) where
  unfoldable pub get_public_stats : M PublicStats
  get_public_stats = gets (λ w. record {
    total_users = db.count_rows (λ (x : User). true) w.users;
    total_listings = db.count_rows (λ (l : Listing). true) w.listings;
    total_conversations = db.count_rows (λ (c : Conversation). true) w.conversations;
  })

  -- `findAll` of the categories; `rank` is the place of a slug in the collation of the database.
  unfoldable pub find_all_categories : (String → ℕ) → M (List CategoryCount)
  find_all_categories rank = gets (λ w.
      map
        (λ (c : Category). record {
          id = c.id;
          key = c.slug;
          name = c.name;
          icon = c.icon;
          count = db.count_rows (λ (l : Listing). l.category_id == c.id) w.listings;
        })
        (db.find_many (λ (c : Category). true) (asc (λ (c : Category). rank c.slug) ∷ [])
          w.categories))

  -- `summary` of the dashboard, whose five queries are one transaction.
  unfoldable pub summary : String → M Summary
  summary user_id = gets (λ w. record {
    my_posts = db.count_rows (is_own user_id) w.listings;
    selling =
        db.count_rows (λ l. is_own user_id l && same_status l.status ListingStatus.selling)
          w.listings;
    saved = db.count_rows (λ (f : Favorite). f.user_id == user_id) w.favorites;
    conversations =
        db.count_rows (λ (p : ConversationParticipant). p.user_id == user_id) w.participants;
    total_views = sum_of_views (db.find_many (is_own user_id) [] w.listings);
  })
