-- ===== src/Tests/Accounts.antt =====
-- Accounts, sessions and guards at concrete values.
use Prim.Native.String.{◌++◌ as str_append}
use nestjs_learn.Prelude.{
  ◌≡◌, refl, ◌↔◌, true, false, Option, none, some, [], ◌∷◌, ◌++◌, String, All, Memᴰ, count, ◌<◌,
  any, ◌==◌,
}
use nestjs_learn.Prisma.Memory.{memory}
use nestjs_learn.Schema.{User, OtpVerification, OtpType}
use nestjs_learn.Text.{Unicode, trim, is_empty}
use nestjs_learn.World.{World, ok, err, Exception, cookie_set}
use nestjs_learn.Users.Mapper.{map_user_to_frontend}
use nestjs_learn.Auth.{
  AuthEnv, RegisterDto, SessionUser, TokenPayload, is_live, verified_in, signed_in, sign_token,
  verify_otp, login, register,
}
use nestjs_learn.Auth.Otp.{verify_otp_uses_code, register_keeps_verified}
use nestjs_learn.Auth.Session.{login_admits}
use nestjs_learn.Guards.{
  auth_guard, roles_guard, Headers, extract_token_from_request, session_of, guarded,
  extract_socket_auth_user,
}
use nestjs_learn.Guards.Admission.{guarded_request, extract_socket_auth_user_iff}
use nestjs_learn.Tests.Worlds.{empty_world, person}

abbrev plain_text : Unicode
plain_text = record { to_lower = λ s. s; to_upper = λ s. s; nfd = λ s. s }

abbrev env : AuthEnv
env = record {
  unicode = plain_text;
  hash = λ s. "hash";
  compare = λ s h. s == "secret";
  sign = λ p ttl now. str_append "token-" p.sub;
  jwt_expires_in = "7d";
  mail_failure = λ a c. none;
  manual_delivery = false;
  is_production = true;
  otp_expires_minutes = 10;
}

abbrev ann : User
ann = person "ann" "ann@x" false

abbrev bob : User
bob = person "bob" "bob@x" true

abbrev ann_code : OtpVerification
ann_code = record {
  id = "o1";
  email = "ann@x";
  code = "123456";
  type = OtpType.register;
  expires_at = 100;
  used = false;
  created_at = 10;
}

abbrev campus : World
campus = record empty_world { users = ann ∷ bob ∷ []; otps = ann_code ∷ [] }

abbrev ann_verified : World
ann_verified = record campus {
  users = verified_in 50 ann ∷ bob ∷ [];
  otps = record ann_code { used = true } ∷ [];
  effects = cookie_set "token-ann" ∷ [];
}

verifies_ann :
    verify_otp memory env 50 " ann@x" "123456" campus
    ≡ (ok (map_user_to_frontend (verified_in 50 ann)), ann_verified)
unfolding verify_otp memory trim sign_token
verifies_ann = refl

verify_otp_uses_code_example :
    (count (is_live (env.unicode.to_lower (trim " ann@x")) (trim "123456") 50) ann_verified.otps
      < count (is_live (env.unicode.to_lower (trim " ann@x")) (trim "123456") 50) campus.otps)
    × (user : User) × Memᴰ user campus.users
    × (user.email ≡ env.unicode.to_lower (trim " ann@x"))
    × All (λ x. x.id ≡ user.id → x.is_verified ≡ true) ann_verified.users
    × (ann_verified.effects
        ≡ campus.effects ++ cookie_set (sign_token memory env 50 user.id user.role) ∷ [])
verify_otp_uses_code_example =
    verify_otp_uses_code memory env 50 " ann@x" "123456" campus ann_verified
      (map_user_to_frontend (verified_in 50 ann)) verifies_ann

abbrev bob_again : RegisterDto
bob_again = record {
  email = "bob@x";
  password = "stolen-it";
  name = "Mallory";
  student_id = "s-9999";
  department = "luat";
}

register_keeps_verified_example :
    (x : Exception) × (register memory env 50 bob_again 7 campus ≡ (err x, campus))
unfolding memory trim
register_keeps_verified_example =
    register_keeps_verified memory env 50 bob_again 7 campus bob refl refl

abbrev bob_in : World
bob_in = record campus {
  users = ann ∷ signed_in 50 bob ∷ [];
  effects = cookie_set "token-bob" ∷ [];
}

bob_signs_in :
    login memory env 50 "bob@x" "secret" campus
    ≡ (ok (map_user_to_frontend (signed_in 50 bob)), bob_in)
unfolding login memory trim sign_token
bob_signs_in = refl

login_admits_example :
    (user : User) × Memᴰ user campus.users
    × (user.email ≡ env.unicode.to_lower (trim "bob@x"))
    × (user.is_active ≡ true)
    × (env.compare "secret" user.password_hash ≡ true)
    × (user.is_verified ≡ true)
    × (bob_in.effects
        ≡ campus.effects ++ cookie_set (sign_token memory env 50 user.id user.role) ∷ [])
login_admits_example =
    login_admits memory env 50 "bob@x" "secret" campus bob_in
      (map_user_to_frontend (signed_in 50 bob)) bob_signs_in

abbrev decode : String → Option String
decode s = some s

abbrev check : String → Option TokenPayload
check t = some (record { sub = t; role = "ADMIN"; token_type = none })

abbrev headers : Headers
headers = record { authorization = none; cookie = some "theme=dark; access_token=root" }

abbrev root_session : SessionUser
root_session = record { user_id = "root"; role = "ADMIN" }

admits_root : guarded decode check ("ADMIN" ∷ []) headers ≡ ok root_session
unfolding auth_guard roles_guard trim
admits_root = refl

guarded_request_example :
    (token : String) × (payload : TokenPayload) × (extract_token_from_request decode headers
      ≡ ok (some token))
    × (check token ≡ some payload)
    × (root_session ≡ session_of decode check payload)
    × (any (λ x. x == payload.role) ("ADMIN" ∷ []) ≡ true)
guarded_request_example = guarded_request decode check "ADMIN" [] headers root_session admits_root

extract_socket_auth_user_iff_example :
    (extract_socket_auth_user decode check (some "root") ≡ ok "root") ↔ (
      (is_empty (trim "root") ≡ false)
      × (payload : TokenPayload) × (check "root" ≡ some payload)
      × (payload.token_type ≡ some "socket")
      × (payload.sub ≡ "root")
      × (is_empty "root" ≡ false))
extract_socket_auth_user_iff_example = extract_socket_auth_user_iff decode check "root" "root"
