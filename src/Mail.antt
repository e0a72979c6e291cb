-- ===== src/Mail.antt =====
-- src/core/mail/mail.service.ts. The tables of Unicode, the reader of numbers and the transports,
-- which are nodemailer and `fetch`, are parameters; the log is left out.
pub mod Sending
pub mod Configured
use Prim.Native.Char.{code}
use Prim.Native.String.{◌∷◌ as char_cons, ◌++◌ as str_append}
use nestjs_learn.Prelude.{
  ℕ, Bool, true, false, not, ◌&&◌, ◌||◌, Option, none, some, List, [], ◌∷◌, String, nat_eq,
  if◌then◌else◌, ◌==◌,
}
use nestjs_learn.Text.{Unicode, trim, truthy, is_space}
use nestjs_learn.World.{Result, ok, err, Exception, service_unavailable, plain}
use nestjs_learn.Listings.Slug.Decimal.{decimal}

pub data MailProvider : Type 0 where
  smtp resend : MailProvider

pub data OtpDeliveryMode : Type 0 where
  email manual : OtpDeliveryMode

-- A double above 0: a whole number, or another one by its bits.
pub data PositiveNumber : Type 0 where
  whole fraction : ℕ → PositiveNumber

pub record MailService : Type 0 where
  pub otp_delivery_mode : OtpDeliveryMode
  pub configured_mail_provider : String
  pub smtp_host : Option String
  pub smtp_port : PositiveNumber
  pub smtp_family : Option PositiveNumber
  pub smtp_secure : Bool
  pub smtp_require_tls : Bool
  pub smtp_connection_timeout : PositiveNumber
  pub smtp_greeting_timeout : PositiveNumber
  pub smtp_socket_timeout : PositiveNumber
  pub smtp_dns_timeout : PositiveNumber
  pub smtp_user : Option String
  pub smtp_pass : Option String
  pub resend_api_key : Option String
  pub resend_api_base_url : String
  pub from_address : Option String
  pub is_production : Bool
  pub smtp_fail_fast : Bool
  pub smtp_verify_on_startup : Bool
  pub active_provider : Option MailProvider
  -- Whether `transporter` is there.
  pub transporter : Bool

pub record OtpMail : Type 0 where
  pub from : String
  pub to : String
  pub subject : String
  pub text : String
  pub html : String

-- What `fetch` gives: an answer with its status and body, or an error with its message.
pub data HttpAnswer : Type 0 where
  answered : Bool → ℕ → String → HttpAnswer
  unreachable : String → HttpAnswer

-- The answers of nodemailer and of `fetch`; `none` where a call succeeds. `fetch` takes the address
-- and the header `Authorization`.
pub record Transports : Type 0 where
  pub create_transport : MailService → Option String
  pub verify : MailService → Option String
  pub send_mail : MailService → OtpMail → Option String
  pub post : String → String → OtpMail → HttpAnswer

-- The truth of a text that may be null.
abbrev pub is_set : Option String → Bool
is_set none = false
is_set (some s) = truthy s

abbrev pub is_manual_mode : OtpDeliveryMode → Bool
is_manual_mode manual = true
is_manual_mode email = false

unfoldable pub is_manual_otp_delivery : MailService → Bool
is_manual_otp_delivery s = is_manual_mode s.otp_delivery_mode

abbrev pub get_or : Option String → String → String
get_or none fallback = fallback
get_or (some s) fallback = s

-- `get(key)?.trim() ?? null`.
abbrev pub trimmed : Option String → Option String
trimmed none = none
trimmed (some s) = some (trim s)

unfoldable pub resolve_provider : String → Option String → Option String → Option MailProvider
resolve_provider configured resend_api_key smtp_host =
    if configured == "resend"
    then (if is_set resend_api_key then some resend else none)
    else if configured == "smtp"
    then (if is_set smtp_host then some smtp else none)
    else if is_set resend_api_key
    then some resend
    else if is_set smtp_host
    then some smtp
    else none

module _ (u : Unicode) (positive_number : String → Option PositiveNumber) where
  unfoldable pub parse_boolean : String → Bool
  unfolding trim
  parse_boolean input =
      let normalized = u.to_lower (trim input) in
      normalized == "1" || normalized == "true" || normalized == "yes"

  -- An unknown mode falls back to e-mail too.
  unfoldable pub parse_otp_delivery_mode : String → OtpDeliveryMode
  unfolding trim
  parse_otp_delivery_mode input = if u.to_lower (trim input) == "manual" then manual else email

  -- `positive_number` is `Number(value)` where that is finite and above 0.
  unfoldable pub parse_number : String → PositiveNumber → PositiveNumber
  parse_number input fallback =
      if truthy input
      then elim (positive_number input) [ none ↦ fallback | some n ↦ n ]
      else fallback

  abbrev pub four_or_six : PositiveNumber → Option PositiveNumber
  four_or_six (whole n) = if nat_eq n 4 || nat_eq n 6 then some (whole n) else none
  four_or_six (fraction bits) = none

  unfoldable pub parse_family : Option String → Option PositiveNumber
  parse_family none = none
  parse_family (some input) = elim (positive_number input) [
    | none ↦ none
    | some n ↦ if truthy input then four_or_six n else none
  ]

  -- The constructor, on `configService.get`.
  unfoldable pub mail_service : (String → Option String) → MailService
  unfolding parse_boolean parse_otp_delivery_mode parse_number parse_family resolve_provider trim
  mail_service get =
      let configured = u.to_lower (trim (get_or (get "MAIL_PROVIDER") "auto")) in
      record {
        otp_delivery_mode = parse_otp_delivery_mode (get_or (get "OTP_DELIVERY_MODE") "email");
        configured_mail_provider = configured;
        smtp_host = trimmed (get "SMTP_HOST");
        smtp_port = parse_number (get_or (get "SMTP_PORT") "587") (whole 587);
        smtp_family = parse_family (get "SMTP_FAMILY");
        smtp_secure = parse_boolean (get_or (get "SMTP_SECURE") "false");
        smtp_require_tls = parse_boolean (get_or (get "SMTP_REQUIRE_TLS") "false");
        smtp_connection_timeout =
            parse_number (get_or (get "SMTP_CONNECTION_TIMEOUT") "10000") (whole 10000);
        smtp_greeting_timeout =
            parse_number (get_or (get "SMTP_GREETING_TIMEOUT") "10000") (whole 10000);
        smtp_socket_timeout =
            parse_number (get_or (get "SMTP_SOCKET_TIMEOUT") "15000") (whole 15000);
        smtp_dns_timeout = parse_number (get_or (get "SMTP_DNS_TIMEOUT") "10000") (whole 10000);
        smtp_user = trimmed (get "SMTP_USER");
        smtp_pass = trimmed (get "SMTP_PASS");
        resend_api_key = trimmed (get "RESEND_API_KEY");
        resend_api_base_url = get_or (get "RESEND_API_BASE_URL") "https://api.resend.com";
        from_address = trimmed (get "MAIL_FROM");
        is_production = get_or (get "NODE_ENV") "development" == "production";
        smtp_fail_fast = parse_boolean (get_or (get "SMTP_FAIL_FAST") "false");
        smtp_verify_on_startup = parse_boolean (get_or (get "SMTP_VERIFY_ON_STARTUP") "false");
        active_provider =
            resolve_provider configured (trimmed (get "RESEND_API_KEY"))
              (trimmed (get "SMTP_HOST"));
        transporter = false;
      }
