-- ===== src/Tests/Settings.antt =====
-- The settings of the environment at concrete values.
use Prim.Native.String.{◌++◌ as str_append}
use nestjs_learn.Prelude.{◌≡◌, refl, Bool, true, Option, none, some, String, ◌==◌, if◌then◌else◌}
use nestjs_learn.Text.{Unicode, ascii_lower, trim}
use nestjs_learn.World.{ok, err, plain}
use nestjs_learn.Listings.Slug.Decimal.{decimal, value}
use nestjs_learn.Config.{
  Float, unit_interval, nan, Environment, NodeEnv, flag, read_string, times, match_duration,
  parse_boolean, parse_node_env, parse_positive_integer, parse_duration, parse_duration_to_ms,
  parse_trust_proxy, parse_openrouter_provider_sort,
}
use nestjs_learn.Config.Numbers.{Number, finite, to_double, is_digits, span_digits, parse_int}
use nestjs_learn.Config.Durations.{parse_duration-read, decimal_read}
use nestjs_learn.Config.Validation.{check_settings, make_environment, validate_environment}
use nestjs_learn.Config.Validation.Sound.{IsSound, validate_environment-IsSound}

abbrev ascii : Unicode
ascii = record { to_lower = ascii_lower; to_upper = λ s. s; nfd = λ s. s }

abbrev float : String → Float
float s = if s == "0.85" then unit_interval 85 else nan

-- `parseInt` reads a prefix, and refuses a text that does not begin with a number.
reads_prefix : parse_positive_integer (some " 12abc ") "PORT" none ≡ ok (finite 12)
unfolding parse_positive_integer read_string parse_int span_digits trim to_double value
reads_prefix = refl

reads_zero :
    parse_positive_integer (some "0") "PORT" none ≡ err (plain "PORT must be a positive integer")
unfolding parse_positive_integer read_string parse_int span_digits trim to_double value
reads_zero = refl

rounds : to_double 9007199254740993 ≡ finite 9007199254740992
unfolding to_double
rounds = refl

admits_day : parse_duration (some "1D") "JWT_EXPIRES_IN" "7d" ≡ ok "1D"
unfolding parse_duration read_string trim is_digits match_duration span_digits ascii_lower
admits_day = refl

parse_duration-read_example : (ms : Number) × (parse_duration_to_ms ascii "1D" ≡ ok ms)
unfolding ascii_lower
parse_duration-read_example =
    parse_duration-read ascii (λ s h. refl) (some "1D") "JWT_EXPIRES_IN" "7d" "1D" admits_day

decimal_read_example :
    (parse_duration_to_ms ascii (str_append (decimal 15) "m") ≡ ok (times (to_double 15) 60000))
    × (parse_duration_to_ms ascii (decimal 15) ≡ ok (times (to_double 15) 1000))
decimal_read_example = decimal_read ascii (λ s h. refl) 15 60000 "m" refl

quarter : parse_duration_to_ms ascii "15m" ≡ ok (finite 900000)
unfolding parse_duration_to_ms trim is_digits match_duration span_digits ascii_lower to_double value
quarter = refl

abbrev settings : String → Option String
settings key =
    if key == "JWT_SECRET" then some "s3cret" else if key == "PORT" then some "8080" else none

abbrev environment : Environment
environment = record {
  node_env = NodeEnv.development;
  port = finite 8080;
  jwt_secret = "s3cret";
  jwt_expires_in = "7d";
  otp_expires_minutes = finite 5;
  ai_moderation_enabled = Bool.false;
  openrouter_api_key = none;
  openrouter_base_url = "https://openrouter.ai/api/v1";
  ai_moderation_model = "openrouter/free";
  ai_moderation_timeout_ms = finite 30000;
  ai_auto_approve_confidence_min = unit_interval 85;
  require_parameters = true;
  provider_sort = "latency";
  preferred_max_latency_ms = finite 20000;
  enable_response_healing = true;
  openrouter_http_referer = none;
  openrouter_app_title = none;
  trust_proxy = flag Bool.false;
}

validates : validate_environment ascii float settings ≡ ok environment
unfolding validate_environment check_settings make_environment read_string parse_boolean
    parse_node_env parse_positive_integer parse_duration parse_trust_proxy
    parse_openrouter_provider_sort trim parse_int span_digits to_double value is_digits
    match_duration ascii_lower
validates = refl

validate_environment-IsSound_example : IsSound ascii float environment
validate_environment-IsSound_example =
    validate_environment-IsSound ascii float settings environment validates
