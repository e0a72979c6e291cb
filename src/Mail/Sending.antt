-- ===== src/Mail/Sending.antt =====
-- src/core/mail/mail.service.ts: the checks of the configuration, the start of the service and the
-- e-mail with a code. The answers of the transports are a parameter.
use Prim.Native.Char.{code}
use Prim.Native.String.{◌∷◌ as char_cons, ◌++◌ as str_append}
use nestjs_learn.Prelude.{
  Bool, true, false, not, ◌&&◌, ◌||◌, Option, none, some, List, [], ◌∷◌, String, if◌then◌else◌,
  ◌==◌,
}
use nestjs_learn.Text.{trim, is_space}
use nestjs_learn.World.{Result, ok, err, Exception, service_unavailable, plain}
use nestjs_learn.Listings.Slug.Decimal.{decimal}
use nestjs_learn.Mail.{
  MailProvider, MailService, OtpMail, HttpAnswer, Transports, is_set, is_manual_otp_delivery,
  get_or, smtp, resend, answered, unreachable,
}

unfoldable pub is_mail_configured : MailService → Bool
unfolding is_manual_otp_delivery
is_mail_configured s =
    if is_manual_otp_delivery s
    then true
    else if not (is_set s.from_address)
    then false
    else elim s.active_provider [
      | none ↦ false
      | some resend ↦ is_set s.resend_api_key
      | some smtp ↦
          if not (is_set s.smtp_host)
          then false
          else not (
              is_set s.smtp_user && not (is_set s.smtp_pass)
              || not (is_set s.smtp_user) && is_set s.smtp_pass)
    ]

-- `if (missing) missing.push(key)`.
abbrev pub push_if : Bool → String → List String → List String
push_if true key missing = key ∷ missing
push_if false key missing = missing

-- The keys that are missing for the provider.
abbrev pub missing_for : MailService → List String → List String
missing_for s rest = elim s.active_provider [
  | none ↦
      if s.configured_mail_provider == "resend"
      then "RESEND_API_KEY" ∷ rest
      else if s.configured_mail_provider == "smtp"
      then "SMTP_HOST" ∷ rest
      else "RESEND_API_KEY or SMTP_HOST" ∷ rest
  | some resend ↦ push_if (not (is_set s.resend_api_key)) "RESEND_API_KEY" rest
  | some smtp ↦ push_if (not (is_set s.smtp_host)) "SMTP_HOST" (
      if is_set s.smtp_user && not (is_set s.smtp_pass)
        || not (is_set s.smtp_user) && is_set s.smtp_pass
      then push_if (not (is_set s.smtp_user)) "SMTP_USER"
          (push_if (not (is_set s.smtp_pass)) "SMTP_PASS" rest)
      else rest)
]

unfoldable pub get_missing_config_keys : MailService → List String
unfolding is_manual_otp_delivery
get_missing_config_keys s =
    if is_manual_otp_delivery s
    then []
    else missing_for s (push_if (not (is_set s.from_address)) "MAIL_FROM" [])

unfoldable pub otp_mail : String → String → String → OtpMail
otp_mail from to code = record {
  from = from;
  to = to;
  subject = "OTP Verification Code";
  text = str_append "Your OTP code is: " (str_append code ". This code expires in 10 minutes.");
  html =
      str_append "<p>Your OTP code is: <strong>"
        (str_append code "</strong></p><p>This code expires in 10 minutes.</p>");
}

abbrev pub is_resend : Option MailProvider → Bool
is_resend none = false
is_resend (some smtp) = false
is_resend (some resend) = true

abbrev pub as_plain : Option String → Option Exception
as_plain none = none
as_plain (some message) = some (plain message)

-- `error instanceof ServiceUnavailableException`.
abbrev pub is_unavailable : Exception → Bool
is_unavailable (service_unavailable message) = true
is_unavailable _ = false

-- `replace(/\s+/g, ' ').trim()`; the flag tells that the character before was white space.
unfoldable pub spaces : Bool → String → String
spaces in_run String.[] = String.[]
spaces in_run (char_cons c s) =
    let more = spaces true s in
    let next = spaces false s in
    if is_space (code c) then (if in_run then more else char_cons " " more) else char_cons c next

unfoldable pub normalize_log_value : String → String
unfolding spaces trim
normalize_log_value input = trim (spaces false input)

-- The error of an answer that is not `ok`.
abbrev pub refusal : HttpAnswer → Option Exception
refusal (answered true status body) = none
refusal (answered false status body) = some (
    plain (
      str_append "Resend HTTP "
        (str_append (decimal status) (str_append " body=" (normalize_log_value body)))))
refusal (unreachable message) = some (plain message)

-- The `catch` of `sendOtpEmail`.
abbrev pub sent : Option Exception → Result (Unit {0})
sent none = ok tt
sent (some e) =
    if is_unavailable e then err e else err (service_unavailable "Unable to send OTP email")

module _ (transports : Transports) where
  -- `createTransporter`, then `verifyProvider` unless the verification is off; the error of either.
  unfoldable pub start_smtp : MailService → Option String
  start_smtp s =
      if not (is_set s.smtp_host)
      then some "Missing SMTP_HOST"
      else elim (transports.create_transport s) [
        | some message ↦ some message
        | none ↦ if not s.smtp_verify_on_startup then none else transports.verify s
      ]

  -- `onModuleInit`, with the service after it.
  unfoldable pub on_module_init : MailService → Result MailService
  unfolding is_manual_otp_delivery is_mail_configured start_smtp
  on_module_init s =
      if is_manual_otp_delivery s
      then ok s
      else if not (is_mail_configured s)
      then (if s.is_production then err (plain "Mail service is required in production") else ok s)
      else if is_resend s.active_provider
      then ok s
      else elim (start_smtp s) [
        | none ↦ ok (record s { transporter = true })
        | some message ↦
            if s.is_production && s.smtp_fail_fast
            then err (plain "SMTP provider verification failed at startup")
            else ok (record s { transporter = false })
      ]

  -- `sendViaResend`, as the error that it ends with.
  unfoldable pub send_via_resend : MailService → String → String → Option Exception
  unfolding otp_mail normalize_log_value
  send_via_resend s to code =
      if not (is_set s.resend_api_key) || not (is_set s.from_address)
      then some (service_unavailable "Email service is unavailable")
      else refusal (
          transports.post (str_append s.resend_api_base_url "/emails")
            (str_append "Bearer " (get_or s.resend_api_key ""))
            (otp_mail (get_or s.from_address "") to code))

  -- The call of `transporter.sendMail`, as the error that it ends with.
  unfoldable pub send_via_smtp : MailService → String → String → Option Exception
  unfolding otp_mail
  send_via_smtp s to code =
      if not s.transporter || not (is_set s.from_address)
      then some (service_unavailable "Email service is unavailable")
      else as_plain (transports.send_mail s (otp_mail (get_or s.from_address "") to code))

  unfoldable pub send_otp_email : MailService → String → String → Result (Unit {0})
  unfolding is_manual_otp_delivery send_via_resend send_via_smtp
  send_otp_email s to code =
      if is_manual_otp_delivery s
      then ok tt
      else if is_resend s.active_provider
      then sent (send_via_resend s to code)
      else sent (send_via_smtp s to code)
