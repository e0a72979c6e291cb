-- ===== src/Auth.antt =====
-- src/modules/auth/auth.service.ts. The methods take the reading of the clock. bcrypt, the signing
-- of tokens and the transport of e-mail are parameters, as is the number that `Math.random` draws.
mod Data
pub mod Session
pub mod Otp
use nestjs_learn.Prelude.{
  ℕ, ◌+◌, ◌*◌, Bool, true, false, not, ◌&&◌, ◌||◌, Option, none, some, List, [], ◌∷◌, String, ltb,
  ◌==◌, if◌then◌else◌,
}
use nestjs_learn.Prisma.{Prisma, Order, desc}
use nestjs_learn.Schema.{User, UserRole, OtpVerification, OtpType, Department}
use nestjs_learn.Text.{Unicode, trim}
use nestjs_learn.World.{
  World, M, Result, ok, err, Exception, bad_request, unauthorized, not_found, conflict, database,
  mailed, cookie_set, cookie_cleared, ◌>>=◌, ◌>>◌, pure, throw, lift, gets, modify, require,
  throw_if, skip, when, emit, fresh, transaction,
}
use nestjs_learn.Users.Mapper.{FrontendUser, map_user_to_frontend, map_department_from_frontend}
use nestjs_learn.Listings.Slug.Decimal.{decimal}
pub use Data.*

module _ (db : Prisma) (env : AuthEnv) (now : ℕ) where
  abbrev pub find_user : (User → Bool) → M (Option User)
  find_user test = gets (λ w. db.find_first test [] w.users)

  abbrev pub update_user : String → (User → User) → M (Unit {0})
  update_user id f = modify (λ w. record w { users = (db.update_many (has_id id) f w.users).0 })

  -- `draw` is `Math.floor(Math.random() * 900000)`, below 900000.
  unfoldable pub create_otp : String → OtpType → ℕ → M String
  unfolding decimal
  create_otp email type draw = do
    let code : String = decimal (100000 + draw)
    id ← fresh db
    modify (λ w. record w {
      otps =
          db.create
            (record {
              id = id;
              email = email;
              code = code;
              type = type;
              expires_at = now + env.otp_expires_minutes * 60 * 1000;
              used = false;
              created_at = now;
            })
            w.otps;
    })
    pure code

  unfoldable pub sign_token : String → UserRole → String
  sign_token user_id role =
      env.sign (record { sub = user_id; role = role_name role; token_type = none })
        env.jwt_expires_in now

  abbrev pub should_expose_debug_otp : Bool
  should_expose_debug_otp = env.manual_delivery || not env.is_production

  abbrev pub debug_otp : String → Option String
  debug_otp code = if should_expose_debug_otp then some code else none

  abbrev pub send_otp_email : String → String → M (Unit {0})
  send_otp_email email code = elim (env.mail_failure email code) [
    | none ↦ emit (mailed email code)
    | some e ↦ throw e
  ]

  -- The row that the transaction of `register` updates or creates.
  unfoldable pub write_user : RegisterDto → String → Department → Option User → M User
  write_user payload email department (some existing) = do
    let changed = reregistered payload department (env.hash payload.password) now
    update_user existing.id changed
    pure (changed existing)
  write_user payload email department none = do
    id ← fresh db
    let row : User = new_user payload email department (env.hash payload.password) id now
    modify (λ w. record w { users = db.create row w.users })
    pure row

  unfoldable pub register : RegisterDto → ℕ → M OtpSent
  unfolding map_department_from_frontend write_user create_otp map_user_to_frontend
  register payload draw = do
    let email : String = env.unicode.to_lower (trim payload.email)
    let student_id : String = trim payload.student_id
    department ←
        require (map_department_from_frontend env.unicode payload.department)
          (bad_request "Invalid department value")
    (user, otp_code) ← transaction (do
      by_email ← find_user (has_email email)
      by_student_id ← find_user (λ x. x.student_id == student_id)
      throw_if (is_taken email by_student_id) (conflict "studentId already exists")
      throw_if (is_verified_user by_email) (conflict "email already exists")
      user ← write_user payload email department by_email
      code ← create_otp email OtpType.register draw
      pure (user, code))
    when (not env.manual_delivery) (send_otp_email email otp_code)
    pure (record {
      message = "OTP sent successfully";
      email = email;
      debug_otp = debug_otp otp_code;
      user = some (map_user_to_frontend user);
    })

  unfoldable pub resend_otp : String → ℕ → M OtpSent
  unfolding create_otp
  resend_otp address draw = do
    let email : String = env.unicode.to_lower (trim address)
    otp_code ← transaction (do
      found ← find_user (has_email email)
      user ← require found (not_found "User not found")
      throw_if user.is_verified (bad_request "User is already verified")
      create_otp email OtpType.register draw)
    when (not env.manual_delivery) (send_otp_email email otp_code)
    pure (record {
      message = "OTP resent successfully";
      email = email;
      debug_otp = debug_otp otp_code;
      user = none;
    })

  -- The user as it is after a session began.
  abbrev pub refreshed : String → M FrontendUser
  refreshed id = do
    found ← find_user (has_id id)
    user ← require found (database "P2025")
    pure (map_user_to_frontend user)

  unfoldable pub verify_otp : String → String → M FrontendUser
  unfolding sign_token map_user_to_frontend
  verify_otp address code_text = do
    let email : String = env.unicode.to_lower (trim address)
    let code : String = trim code_text
    found ← gets (λ w. db.find_first (is_live email code now) newest_otp w.otps)
    otp ← require found (unauthorized "Invalid OTP code")
    found_user ← find_user (has_email email)
    user ← require found_user (not_found "User not found")
    modify (λ w. record w {
      otps = (db.update_many (λ (o : OtpVerification). o.id == otp.id) with_used w.otps).0;
    })
    update_user user.id (verified_in now)
    emit (cookie_set (sign_token user.id user.role))
    refreshed user.id

  unfoldable pub login : String → String → M FrontendUser
  unfolding sign_token map_user_to_frontend
  login address password = do
    let email : String = env.unicode.to_lower (trim address)
    found ← find_user (has_email email)
    user ← require found (unauthorized "Invalid email or password")
    throw_if (not user.is_active) (unauthorized "User is disabled")
    throw_if (not (env.compare password user.password_hash))
        (unauthorized "Invalid email or password")
    throw_if (not user.is_verified) (unauthorized "Account is not verified")
    update_user user.id (signed_in now)
    emit (cookie_set (sign_token user.id user.role))
    refreshed user.id

  unfoldable pub me : SessionUser → M FrontendUser
  unfolding map_user_to_frontend
  me auth_user = do
    found ← find_user (has_id auth_user.user_id)
    user ← require found (unauthorized "User not found")
    pure (map_user_to_frontend user)

  -- `update` of a user who is not there is Prisma's error P2025.
  unfoldable pub logout : SessionUser → M String
  logout auth_user = do
    found ← find_user (has_id auth_user.user_id)
    user ← require found (database "P2025")
    update_user auth_user.user_id (signed_out now)
    emit cookie_cleared
    pure "Logged out successfully"

  unfoldable pub create_socket_token : SessionUser → String
  create_socket_token auth_user =
      env.sign
        (record { sub = auth_user.user_id; role = auth_user.role; token_type = some "socket" }) "5m"
        now
