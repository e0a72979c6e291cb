-- ===== src/Mail/Configured.antt =====
-- What the service promises of its configuration and of its start.
use Prim.Native.String.{◌++◌ as str_append}
use nestjs_learn.Prelude.{◌≡◌, ◌↔◌, true, [], String, arith, if◌then◌else◌}
use nestjs_learn.World.{ok, Exception}
use nestjs_learn.Prelude.{Option}
use nestjs_learn.Mail.{MailService, Transports, get_or, is_manual_otp_delivery}
use nestjs_learn.Mail.Sending.{
  is_mail_configured, get_missing_config_keys, otp_mail, on_module_init, refusal, as_plain,
  is_resend, sent, send_otp_email, start_smtp, send_via_resend, send_via_smtp,
}

-- The service counts as configured exactly when it reports no missing key, whatever its fields are.
pub is_mail_configured_iff :
    (s : MailService) → is_mail_configured s ≡ true ↔ get_missing_config_keys s ≡ []
unfolding is_mail_configured get_missing_config_keys is_manual_otp_delivery
is_mail_configured_iff s = (λ h. ground arith, λ h. ground arith)

module _ (transports : Transports) where
  -- What the transport of the active provider itself answers to the e-mail.
  abbrev pub transported : MailService → String → String → Option Exception
  transported s to code =
      if is_resend s.active_provider
      then refusal (
          transports.post (str_append s.resend_api_base_url "/emails")
            (str_append "Bearer " (get_or s.resend_api_key ""))
            (otp_mail (get_or s.from_address "") to code))
      else as_plain (transports.send_mail s (otp_mail (get_or s.from_address "") to code))

  -- In production with the fail-fast option, a service that has started answers to every e-mail with
  -- a code as its transport does: an e-mail that the transport takes is sent, and none is refused for
  -- a missing key, sender or connection; in the manual mode nothing is sent, without an error.
  pub on_module_init-serves :
      (s s' : MailService) (to code : String)
      → s.is_production ≡ true
      → s.smtp_fail_fast ≡ true
      → on_module_init transports s ≡ ok s'
      → send_otp_email transports s' to code
        ≡ (if is_manual_otp_delivery s' then ok tt else sent (transported s' to code))
  unfolding on_module_init send_otp_email is_manual_otp_delivery is_mail_configured send_via_resend
      send_via_smtp start_smtp
  on_module_init-serves s s' to code production fail_fast e = ground arith
