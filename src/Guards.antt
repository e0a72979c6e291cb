-- ===== src/Guards.antt =====
-- src/common/guards and src/common/utils: who a request or a socket speaks for. The check of a token
-- is a parameter, as is `decodeURIComponent`; `none` is what they throw.
pub mod Admission
use Prim.Native.Char.{code}
use Prim.Native.String.{[] as nil, ◌∷◌ as char_cons, ◌++◌ as str_append}
use text.Mathlib.Text.{starts_with}
use nestjs_learn.Prelude.{
  ℕ, zero, suc, ◌≡◌, refl, ◌↔◌, ap, sym, ◌∙◌, subst, Bool, true, false, not, ◌||◌, Option, none,
  some, List, [], ◌∷◌, map, String, nat_eq, any, ◌==◌, eq_iff, if◌then◌else◌, arith, Option-cases,
  inl, inr,
}
use nestjs_learn.Text.{trim, truthy, is_empty}
use nestjs_learn.World.{Result, ok, err, unauthorized, forbidden, plain}
use nestjs_learn.World.Laws.{outcome_cases}
use nestjs_learn.Auth.{TokenPayload, SessionUser}

-- `split` at a character: the first part and the others.
unfoldable pub split_first : ℕ → String → String × List String
split_first mark String.[] = (nil, [])
split_first mark (String.◌∷◌ c s) =
    let (first, others) = split_first mark s in
    if nat_eq (code c) mark then (nil, first ∷ others) else (char_cons c first, others)

abbrev pub split : ℕ → String → List String
split mark s = (split_first mark s).0 ∷ (split_first mark s).1

-- `slice(1).join('=')` of the parts between the signs `=`: what follows the first of them.
unfoldable pub after_first : ℕ → String → String
after_first mark String.[] = nil
after_first mark (String.◌∷◌ c s) =
    let rest = after_first mark s in if nat_eq (code c) mark then s else rest

abbrev pub find_text : (String → Bool) → List String → Option String
find_text test [] = none
find_text test (s ∷ rest) = let later = find_text test rest in if test s then some s else later

module _ (decode : String → Option String) where
  -- The inner option is the `null` of the code, the outer one an error of `decodeURIComponent`.
  unfoldable pub extract_cookie_value : Option String → String → Result (Option String)
  unfolding split_first after_first
  extract_cookie_value none name = ok none
  extract_cookie_value (some header) name =
      if is_empty header
      then ok none
      else elim (find_text (λ part. starts_with part (str_append name "="))
          (map trim (split 59 header))) [
            | none ↦ ok none
            | some cookie ↦ elim (decode (after_first 61 cookie)) [
              | none ↦ err (plain "URI malformed")
              | some value ↦ ok (some value)
            ]
          ]

-- The headers of a request.
pub record Headers : Type 0 where
  pub authorization : Option String
  pub cookie : Option String

-- `slice(7)`.
unfoldable pub drop_start : ℕ → String → String
drop_start zero s = s
drop_start (suc n) String.[] = nil
drop_start (suc n) (String.◌∷◌ c s) = drop_start n s

abbrev pub bearer : Option String → Option String
bearer none = none
bearer (some h) = if starts_with h "Bearer " then some (drop_start 7 h) else none

abbrev pub is_socket : Option String → Bool
is_socket none = false
is_socket (some t) = t == "socket"

module _ (decode : String → Option String) where
  unfoldable pub extract_token_from_request : Headers → Result (Option String)
  unfolding drop_start extract_cookie_value
  extract_token_from_request headers = elim (bearer headers.authorization) [
    | none ↦ extract_cookie_value decode headers.cookie "access_token"
    | some token ↦ ok (some token)
  ]

  module _ (verify : String → Option TokenPayload) where
    abbrev pub session_of : TokenPayload → SessionUser
    session_of payload = record { user_id = payload.sub; role = payload.role }

    abbrev pub verified_session : String → Result SessionUser
    verified_session token = elim (verify token) [
      | none ↦ err (unauthorized "Invalid or expired token")
      | some payload ↦ ok (session_of payload)
    ]

    -- `if (!token)`: an empty token is a missing one.
    abbrev pub session_of_token : Option String → Result SessionUser
    session_of_token none = err (unauthorized "Missing access token")
    session_of_token (some token) =
        if truthy token then verified_session token else err (unauthorized "Missing access token")

    -- `AuthGuard`, with the user that it sets.
    unfoldable pub auth_guard : Headers → Result SessionUser
    unfolding extract_token_from_request
    auth_guard headers = elim (extract_token_from_request headers) [
      | err e ↦ err e
      | ok token ↦ session_of_token token
    ]

    abbrev pub optional_session : Option String → Option SessionUser
    optional_session none = none
    optional_session (some token) = elim (verify token) [
      | none ↦ none
      | some payload ↦ if truthy token then some (session_of payload) else none
    ]

    -- `OptionalAuthGuard`, with the user that it sets, if any.
    unfoldable pub optional_auth_guard : Headers → Result (Option SessionUser)
    unfolding extract_token_from_request
    optional_auth_guard headers = elim (extract_token_from_request headers) [
      | err e ↦ err e
      | ok token ↦ ok (optional_session token)
    ]

    -- `extractSocketAuthUser`: what it throws inside the `try` is replaced by the `catch`.
    unfoldable pub extract_socket_auth_user : Option String → Result String
    extract_socket_auth_user none = err (unauthorized "Missing socket token")
    extract_socket_auth_user (some token) =
        if is_empty (trim token)
        then err (unauthorized "Missing socket token")
        else elim (verify token) [
          | none ↦ err (unauthorized "Invalid or expired token")
          | some payload ↦
              if is_empty payload.sub || not (is_socket payload.token_type)
              then err (unauthorized "Invalid or expired token")
              else ok payload.sub
        ]

-- `RolesGuard` on the roles that the handler asks for, and the user of the request.
unfoldable pub roles_guard : List String → Option SessionUser → Result Bool
roles_guard [] user = ok true
roles_guard (r ∷ roles) none = err (forbidden "Insufficient permissions")
roles_guard (r ∷ roles) (some user) =
    if is_empty user.role || not (any (λ x. x == user.role) (r ∷ roles))
    then err (forbidden "Insufficient permissions")
    else ok true

-- A handler under both guards.
abbrev pub guarded :
    (String → Option String)
    → (String → Option TokenPayload)
    → List String
    → Headers
    → Result SessionUser
guarded decode verify roles headers = elim (auth_guard decode verify headers) [
  | err e ↦ err e
  | ok user ↦ elim (roles_guard roles (some user)) [ err e ↦ err e | ok b ↦ ok user ]
]
