-- ===== src/Auth/Data.antt =====
-- src/modules/auth/auth.service.ts: its data, and what the methods write into a row.
use nestjs_learn.Prelude.{
  ℕ, Bool, true, false, not, ◌&&◌, Option, none, some, List, [], ◌∷◌, String, ltb, ◌==◌,
}
use nestjs_learn.Prisma.{Order, desc}
use nestjs_learn.Schema.{User, UserRole, OtpVerification, OtpType, Department}
use nestjs_learn.Text.{Unicode, trim}
use nestjs_learn.World.{Exception}
use nestjs_learn.Users.Mapper.{FrontendUser}

pub record TokenPayload : Type 0 where
  pub sub : String
  pub role : String
  pub token_type : Option String

-- `sign` takes the payload, the time to live and the reading of the clock.
pub record AuthEnv : Type 0 where
  pub unicode : Unicode
  pub hash : String → String
  pub compare : String → String → Bool
  pub sign : TokenPayload → String → ℕ → String
  pub jwt_expires_in : String
  pub mail_failure : String → String → Option Exception
  pub manual_delivery : Bool
  pub is_production : Bool
  pub otp_expires_minutes : ℕ

pub record RegisterDto : Type 0 where
  pub email : String
  pub password : String
  pub name : String
  pub student_id : String
  pub department : String

-- The answer of `register` and `resendOtp`; only the first one has a user.
pub record OtpSent : Type 0 where
  pub message : String
  pub email : String
  pub debug_otp : Option String
  pub user : Option FrontendUser

-- The user of a request, as the guards set it.
pub record SessionUser : Type 0 where
  pub user_id : String
  pub role : String

-- The names of the roles in a token.
abbrev pub role_name : UserRole → String
role_name UserRole.user = "USER"
role_name UserRole.admin = "ADMIN"

abbrev pub is_register : OtpType → Bool
is_register OtpType.register = true
is_register OtpType.reset_password = false

abbrev pub has_email : String → User → Bool
has_email email x = x.email == email

abbrev pub has_id : String → User → Bool
has_id id x = x.id == id

-- The where clause of `verifyOtp`.
abbrev pub is_live : String → String → ℕ → OtpVerification → Bool
is_live email code now o =
    o.email == email && o.code == code && is_register o.type && not o.used && ltb now o.expires_at

abbrev pub newest_otp : List (Order OtpVerification)
newest_otp = desc (λ o. o.created_at) ∷ []

abbrev pub with_used : OtpVerification → OtpVerification
with_used o = record o { used = true }

abbrev pub signed_in : ℕ → User → User
signed_in now x = record x { is_online = true; last_seen = some now; updated_at = now }

abbrev pub verified_in : ℕ → User → User
verified_in now x = record x {
  is_verified = true;
  is_online = true;
  last_seen = some now;
  updated_at = now;
}

abbrev pub signed_out : ℕ → User → User
signed_out now x = record x { is_online = false; last_seen = some now; updated_at = now }

abbrev pub reregistered : RegisterDto → Department → String → ℕ → User → User
reregistered payload department password_hash now x = record x {
  name = trim payload.name;
  student_id = trim payload.student_id;
  department = some department;
  password_hash = password_hash;
  is_verified = false;
  updated_at = now;
}

abbrev pub new_user : RegisterDto → String → Department → String → String → ℕ → User
new_user payload email department password_hash id now = record {
  id = id;
  email = email;
  student_id = trim payload.student_id;
  password_hash = password_hash;
  name = trim payload.name;
  avatar_url = none;
  avatar_public_id = none;
  department = some department;
  seller_rating = 0;
  total_reviews = 0;
  is_verified = false;
  is_active = true;
  role = UserRole.user;
  last_seen = none;
  is_online = false;
  created_at = now;
  updated_at = now;
}

-- Whether the row that has the student's number is of another e-mail address.
abbrev pub is_taken : String → Option User → Bool
is_taken email none = false
is_taken email (some x) = not (x.email == email)

abbrev pub is_verified_user : Option User → Bool
is_verified_user none = false
is_verified_user (some x) = x.is_verified
