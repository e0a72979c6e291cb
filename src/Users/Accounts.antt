-- ===== src/Users/Accounts.antt =====
-- src/modules/users/services/users.service.ts: users, their public profiles and their blocks.
pub mod Blocks
use nestjs_learn.Prelude.{
  ℕ, ◌+◌, Bool, true, false, not, ◌&&◌, Option, none, some, List, [], ◌∷◌, map, String, ◌==◌,
  if◌then◌else◌,
}
use nestjs_learn.Prisma.{Prisma, desc}
use nestjs_learn.Schema.{User, UserRole, Department, UserBlock}
use nestjs_learn.Text.{Unicode, trim, truthy}
use nestjs_learn.World.{
  World, M, Result, ok, err, Exception, bad_request, not_found, conflict, ◌>>=◌, ◌>>◌, pure, throw,
  lift, gets, modify, require, throw_if, skip, fresh,
}
use nestjs_learn.Users.Mapper.{
  FrontendUser, map_user_to_frontend, map_department_from_frontend, map_department_to_frontend,
}

pub record CreateUserDto : Type 0 where
  pub email : String
  pub password : String
  pub name : String
  pub student_id : String
  pub department : Option String

pub record PublicProfile : Type 0 where
  pub id : String
  pub name : String
  pub avatar : Option String
  pub department : Option String
  pub student_id : String
  pub is_verified : Bool
  pub seller_rating : ℕ
  pub total_reviews : ℕ
  pub created_at : ℕ

abbrev pub is_active_user : String → User → Bool
is_active_user id x = x.id == id && x.is_active

abbrev pub is_block : String → String → UserBlock → Bool
is_block blocker_id blocked_id b = b.blocker_id == blocker_id && b.blocked_id == blocked_id

abbrev pub refuse_found : Option User → Exception → M (Unit {0})
refuse_found none e w = (ok tt, w)
refuse_found (some x) e w = (err e, w)

abbrev pub known_or : Option Department → Result (Option Department)
known_or none = err (bad_request "Invalid department")
known_or (some d) = ok (some d)

-- The department of a text that is neither undefined nor empty.
abbrev pub parse_department : Unicode → Option String → Result (Option Department)
parse_department u none = ok none
parse_department u (some s) =
    if truthy s then known_or (map_department_from_frontend u s) else ok none

module _ (db : Prisma) where
  unfoldable pub find_all : M (List FrontendUser)
  unfolding map_user_to_frontend
  find_all = gets (λ w.
      map map_user_to_frontend
        (db.find_many (λ (x : User). true) (desc (λ (x : User). x.created_at) ∷ []) w.users))

  -- `hash` is `bcrypt.hash`.
  unfoldable pub create : Unicode → (String → String) → ℕ → CreateUserDto → M FrontendUser
  unfolding map_department_from_frontend map_user_to_frontend
  create u hash now payload = do
    let email : String = u.to_lower (trim payload.email)
    let student_id : String = trim payload.student_id
    by_email ← gets (λ w. db.find_first (λ (x : User). x.email == email) [] w.users)
    refuse_found by_email (conflict "email already exists")
    by_student_id ← gets (λ w. db.find_first (λ (x : User). x.student_id == student_id) [] w.users)
    refuse_found by_student_id (conflict "studentId already exists")
    department ← lift (parse_department u payload.department)
    id ← fresh db
    let row : User = record {
      id = id;
      email = email;
      student_id = student_id;
      password_hash = hash payload.password;
      name = trim payload.name;
      avatar_url = none;
      avatar_public_id = none;
      department = department;
      seller_rating = 0;
      total_reviews = 0;
      is_verified = true;
      is_active = true;
      role = UserRole.user;
      last_seen = none;
      is_online = false;
      created_at = now;
      updated_at = now;
    }
    modify (λ w. record w { users = db.create row w.users })
    pure (map_user_to_frontend row)

  unfoldable pub me : String → M FrontendUser
  unfolding map_user_to_frontend
  me user_id = do
    found ← gets (λ w. db.find_first (λ (x : User). x.id == user_id) [] w.users)
    user ← require found (not_found "User not found")
    pure (map_user_to_frontend user)

  unfoldable pub find_public_profile : String → M PublicProfile
  find_public_profile id = do
    found ← gets (λ w. db.find_first (is_active_user id) [] w.users)
    user ← require found (not_found "User not found")
    pure (record {
      id = user.id;
      name = user.name;
      avatar = user.avatar_url;
      department = map_department_to_frontend user.department;
      student_id = user.student_id;
      is_verified = user.is_verified;
      seller_rating = user.seller_rating;
      total_reviews = user.total_reviews;
      created_at = user.created_at;
    })

  -- `upsert` with an empty update.
  unfoldable pub upsert_block : ℕ → String → String → Option UserBlock → M (Unit {0})
  upsert_block now blocker_id blocked_id (some b) = skip
  upsert_block now blocker_id blocked_id none = do
    id ← fresh db
    modify (λ w. record w {
      blocks =
          db.create
            (record { id = id; blocker_id = blocker_id; blocked_id = blocked_id; created_at = now })
            w.blocks;
    })

  unfoldable pub block_user : ℕ → String → String → M Bool
  unfolding upsert_block
  block_user now blocker_id blocked_id = do
    throw_if (blocker_id == blocked_id) (bad_request "Cannot block yourself")
    found ← gets (λ w. db.find_first (is_active_user blocked_id) [] w.users)
    blocked ← require found (not_found "User not found")
    existing ← gets (λ w. db.find_first (is_block blocker_id blocked_id) [] w.blocks)
    upsert_block now blocker_id blocked_id existing
    pure true

  unfoldable pub unblock_user : String → String → M Bool
  unblock_user blocker_id blocked_id = do
    modify (λ w. record w { blocks = db.delete_many (is_block blocker_id blocked_id) w.blocks })
    pure false
