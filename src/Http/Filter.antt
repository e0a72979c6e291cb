-- ===== src/Http/Filter.antt =====
-- src/common/filters/http-exception.filter.ts: what a client is answered after an exception. A value
-- that the code does not look into is of a type that is a parameter; log lines are left out.
use Prim.Native.Char.{code}
use Prim.Native.String.{[], ◌∷◌}
use nestjs_learn.Prelude.{
  ℕ, Bool, true, false, ◌&&◌, ◌||◌, Option, none, some, List, String, leb, nat_eq, if◌then◌else◌,
}
use nestjs_learn.Text.{Unicode}
use nestjs_learn.Users.Mapper.{or_else}

-- `string | string[]`; the items of an array are not looked at.
pub data Message (V : Type 0) : Type 0 where
  text : String → Message V
  items : List V → Message V

-- What `getResponse` gives: a text, an object with its `message` where that is a text or an array
-- and its `error` where that is a text, or another value.
pub data HttpBody (V : Type 0) : Type 0 where
  plain_body : String → HttpBody V
  record_body : V → Option (Message V) → Option String → HttpBody V
  other_body : HttpBody V

-- What was thrown.
pub data Thrown (V : Type 0) : Type 0 where
  -- An `HttpException`: its status, message, response and stack.
  http_exception : ℕ → String → HttpBody V → Option String → Thrown V
  -- A known request error of Prisma: its code, `meta` and stack.
  known_request_error : String → Option V → Option String → Thrown V
  -- Another `Error`: its name, message and stack.
  other_error : String → String → Option String → Thrown V
  other_value : V → Thrown V

pub data Details (V : Type 0) : Type 0 where
  given : V → Details V
  code_and_meta : String → Option V → Details V
  name_and_message : String → String → Details V

pub record NormalizedException (V : Type 0) : Type 0 where
  pub status_code : ℕ
  pub message : Message V
  pub error_code : String
  pub details : Option (Details V)
  pub stack : Option String

pub record ApiErrorResponse (V : Type 0) : Type 0 where
  pub success : Bool
  pub status_code : ℕ
  pub message : Message V
  pub error_code : String
  pub details : Option (Details V)
  pub timestamp : ℕ
  pub path : String
  pub request_id : Option String

pub record RequestWithId : Type 0 where
  pub original_url : Option String
  pub url : String
  pub request_id : Option String

-- The status and the body that are sent.
pub record Answer (V : Type 0) : Type 0 where
  pub status : ℕ
  pub body : ApiErrorResponse V

unfoldable pub status_to_error_code : ℕ → String
status_to_error_code status_code =
    if nat_eq status_code 400
    then "BAD_REQUEST"
    else if nat_eq status_code 401
    then "UNAUTHORIZED"
    else if nat_eq status_code 403
    then "FORBIDDEN"
    else if nat_eq status_code 404
    then "NOT_FOUND"
    else if nat_eq status_code 409
    then "CONFLICT"
    else if nat_eq status_code 429
    then "TOO_MANY_REQUESTS"
    else "HTTP_ERROR"

-- `[A-Z0-9]`.
abbrev pub is_code_letter : ℕ → Bool
is_code_letter n = leb 65 n && leb n 90 || leb 48 n && leb n 57

-- Whether a run of other characters ends before the text.
abbrev pub ends_run : String → Bool
ends_run [] = true
ends_run (c ∷ s) = is_code_letter (code c)

-- `replace(/[^A-Z0-9]+/g, '_')`: the last character of a run becomes the line.
unfoldable pub underlines : String → String
underlines [] = []
underlines (c ∷ s) =
    let rest = underlines s in
    if is_code_letter (code c) then c ∷ rest else if ends_run s then "_" ∷ rest else rest

unfoldable pub to_error_code : Unicode → String → String
unfolding underlines
to_error_code u value = underlines (u.to_upper value)

module _ {V : Type 0} (u : Unicode) where
  -- The branch of an `HttpException`.
  unfoldable pub normalize_http : ℕ → String → HttpBody V → Option String → NormalizedException V
  unfolding status_to_error_code to_error_code
  normalize_http status message (plain_body response) stack = record {
    status_code = status;
    message = text response;
    error_code = status_to_error_code status;
    details = none;
    stack = stack;
  }
  normalize_http status message (record_body response said error) stack = record {
    status_code = status;
    message = or_else said (text message);
    error_code = elim error [ none ↦ status_to_error_code status | some e ↦ to_error_code u e ];
    details = some (given response);
    stack = stack;
  }
  normalize_http status message other_body stack = record {
    status_code = status;
    message = text message;
    error_code = status_to_error_code status;
    details = none;
    stack = stack;
  }

  abbrev pub server_error : Details V → Option String → NormalizedException V
  server_error details stack = record {
    status_code = 500;
    message = text "Internal server error";
    error_code = "INTERNAL_SERVER_ERROR";
    details = some details;
    stack = stack;
  }

  unfoldable pub normalize_exception : Thrown V → NormalizedException V
  unfolding normalize_http
  normalize_exception (http_exception status message response stack) =
      normalize_http status message response stack
  normalize_exception (known_request_error error_code meta stack) = record {
    status_code = 400;
    message = text "Database request failed";
    error_code = "DATABASE_ERROR";
    details = some (code_and_meta error_code meta);
    stack = stack;
  }
  normalize_exception (other_error name message stack) =
      server_error (name_and_message name message) stack
  normalize_exception (other_value v) = server_error (given v) none

  unfoldable pub catch_exception : ℕ → RequestWithId → Thrown V → Answer V
  unfolding normalize_exception
  catch_exception now request thrown =
      let normalized = normalize_exception thrown in
      record {
        status = normalized.status_code;
        body = record {
          success = false;
          status_code = normalized.status_code;
          message = normalized.message;
          error_code = normalized.error_code;
          details = normalized.details;
          timestamp = now;
          path = or_else request.original_url request.url;
          request_id = request.request_id;
        };
      }
