-- ===== src/Tests/Mails.antt =====
-- The mail service at concrete settings.
use nestjs_learn.Prelude.{
  ◌≡◌, refl, ◌↔◌, true, Option, none, some, [], ◌∷◌, String, ◌==◌, if◌then◌else◌,
}
use nestjs_learn.Text.{Unicode, ascii_lower, trim}
use nestjs_learn.World.{ok}
use nestjs_learn.Mail.{
  MailService, PositiveNumber, whole, Transports, answered, mail_service, parse_boolean,
  parse_otp_delivery_mode, parse_number, parse_family, resolve_provider, is_manual_otp_delivery,
}
use nestjs_learn.Mail.Sending.{
  is_mail_configured, get_missing_config_keys, start_smtp, on_module_init, sent, send_otp_email,
  normalize_log_value, spaces,
}
use nestjs_learn.Mail.Configured.{is_mail_configured_iff, transported, on_module_init-serves}

abbrev ascii : Unicode
ascii = record { to_lower = ascii_lower; to_upper = λ s. s; nfd = λ s. s }

abbrev number : String → Option PositiveNumber
number s = if s == "587" then some (whole 587) else none

abbrev get : String → Option String
get key =
    if key == "NODE_ENV"
    then some "production"
    else if key == "SMTP_HOST"
    then some " smtp.x "
    else if key == "SMTP_FAIL_FAST"
    then some "yes"
    else if key == "SMTP_USER"
    then some "ann"
    else if key == "SMTP_PASS"
    then some "secret"
    else if key == "MAIL_FROM"
    then some "no-reply@x"
    else none

abbrev mailer : MailService
mailer = mail_service ascii number get

-- A transport that refuses one address.
abbrev transports : Transports
transports = record {
  create_transport = λ s. none;
  verify = λ s. none;
  send_mail = λ s m. if m.to == "bad@x" then some "no such mailbox" else none;
  post = λ url key m. answered true 200 "";
}

in_production : mailer.is_production ≡ true
unfolding mail_service
in_production = refl

fails_fast : mailer.smtp_fail_fast ≡ true
unfolding mail_service parse_boolean trim ascii_lower
fails_fast = refl

started : on_module_init transports mailer ≡ ok (record mailer { transporter = true })
unfolding on_module_init is_manual_otp_delivery is_mail_configured start_smtp mail_service
    parse_boolean parse_otp_delivery_mode parse_number parse_family resolve_provider trim
    ascii_lower
started = refl

on_module_init-serves_example :
    send_otp_email transports (record mailer { transporter = true }) "bad@x" "123456" ≡ (
      if is_manual_otp_delivery (record mailer { transporter = true })
      then ok tt
      else sent (transported transports (record mailer { transporter = true }) "bad@x" "123456"))
on_module_init-serves_example =
    on_module_init-serves transports mailer (record mailer { transporter = true }) "bad@x" "123456"
      in_production fails_fast started

is_mail_configured_iff_example :
    is_mail_configured mailer ≡ true ↔ get_missing_config_keys mailer ≡ []
is_mail_configured_iff_example = is_mail_configured_iff mailer

-- Without a password the service is not configured, and tells so.
password_missing : get_missing_config_keys (record mailer { smtp_pass = none }) ≡ "SMTP_PASS" ∷ []
unfolding get_missing_config_keys is_manual_otp_delivery mail_service parse_boolean
    parse_otp_delivery_mode parse_number parse_family resolve_provider trim ascii_lower
password_missing = refl

squeezes : normalize_log_value " a  b " ≡ "a b"
unfolding normalize_log_value spaces trim
squeezes = refl
