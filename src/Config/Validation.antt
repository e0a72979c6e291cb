-- ===== src/Config/Validation.antt =====
-- `validateEnvironment` of src/config/env.validation.ts, over the values of the keys.
pub mod Sound
use nestjs_learn.Prelude.{
  ℕ, ◌≡◌, refl, Bool, true, false, not, ◌&&◌, Option, none, some, String, arith, Option-cases, inl,
  inr, subst,
}
use nestjs_learn.Text.{Unicode, truthy}
use nestjs_learn.World.{Result, ok, err, Exception}
use nestjs_learn.Config.{
  Float, nan, below_zero, above_one, unit_interval, NodeEnv, Environment, ◌>>=◌, ◌>>◌, refuse_if,
  one_of, placeholders, provider_sorts, read_string, read_or, is_some, is_positive, parse_boolean,
  parse_positive_integer, parse_node_env, parse_duration, parse_trust_proxy,
  parse_openrouter_provider_sort,
}
use nestjs_learn.Config.Numbers.{Number, finite}

abbrev pub pure : {A : Type 0} → A → Result A
pure a = ok a

abbrev pub require : {A : Type 0} → Option A → String → Result A
require none message = err (Exception.plain message)
require (some a) message = ok a

abbrev pub is_test : NodeEnv → Bool
is_test NodeEnv.test = true
is_test NodeEnv.development = false
is_test NodeEnv.production = false

-- Whether the number is not one, or lies outside of 0 and 1.
abbrev pub is_outside : Float → Bool
is_outside (unit_interval bits) = false
is_outside nan = true
is_outside below_zero = true
is_outside above_one = true

-- What the first half of the function reads and checks, before the object is made.
pub record Checked : Type 0 where
  pub node_env : NodeEnv
  pub jwt_secret : String
  pub ai_moderation_enabled : Bool
  pub ai_moderation_model : String
  pub openrouter_api_key : Option String
  pub confidence_min : Float

module _ (u : Unicode) (parse_float : String → Float) where
  unfoldable pub check_settings : (String → Option String) → Result Checked
  unfolding read_string parse_boolean parse_node_env
  check_settings config = do
    node_env ← parse_node_env u (config "NODE_ENV")
    ai_moderation_enabled ← parse_boolean u (config "AI_MODERATION_ENABLED") false
    let ai_moderation_model : String = read_or (config "AI_MODERATION_MODEL") "openrouter/free"
    let openrouter_api_key : Option String = read_string (config "OPENROUTER_API_KEY")
    let confidence_min : Float =
        parse_float (read_or (config "AI_AUTO_APPROVE_CONFIDENCE_MIN") "0.85")
    jwt_secret ← require (read_string (config "JWT_SECRET")) "JWT_SECRET is required"
    refuse_if (not (is_test node_env) && one_of placeholders (u.to_lower jwt_secret))
        "JWT_SECRET must be replaced with a strong secret outside test environments"
    refuse_if (ai_moderation_enabled && not (is_some openrouter_api_key))
        "OPENROUTER_API_KEY is required when AI moderation is enabled"
    refuse_if (ai_moderation_enabled && not (truthy ai_moderation_model))
        "AI_MODERATION_MODEL is required when AI moderation is enabled"
    refuse_if (is_outside confidence_min)
        "AI_AUTO_APPROVE_CONFIDENCE_MIN must be a number between 0 and 1"
    pure (record {
      node_env = node_env;
      jwt_secret = jwt_secret;
      ai_moderation_enabled = ai_moderation_enabled;
      ai_moderation_model = ai_moderation_model;
      openrouter_api_key = openrouter_api_key;
      confidence_min = confidence_min;
    })

  -- The object literal, whose members are read in their order.
  unfoldable pub make_environment : (String → Option String) → Checked → Result Environment
  unfolding read_string parse_boolean parse_positive_integer parse_duration parse_trust_proxy
      parse_openrouter_provider_sort
  make_environment config checked = do
    port ← parse_positive_integer (config "PORT") "PORT" (some (finite 3000))
    jwt_expires_in ← parse_duration (config "JWT_EXPIRES_IN") "JWT_EXPIRES_IN" "7d"
    otp_expires_minutes ←
        parse_positive_integer (config "OTP_EXPIRES_MINUTES") "OTP_EXPIRES_MINUTES"
          (some (finite 5))
    timeout ←
        parse_positive_integer (config "AI_MODERATION_TIMEOUT_MS") "AI_MODERATION_TIMEOUT_MS"
          (some (finite 30000))
    require_parameters ← parse_boolean u (config "AI_MODERATION_PROVIDER_REQUIRE_PARAMETERS") true
    provider_sort ←
        parse_openrouter_provider_sort u (config "AI_MODERATION_PROVIDER_SORT") "latency"
    max_latency ←
        parse_positive_integer (config "AI_MODERATION_PREFERRED_MAX_LATENCY_MS")
          "AI_MODERATION_PREFERRED_MAX_LATENCY_MS" (some (finite 20000))
    response_healing ← parse_boolean u (config "AI_MODERATION_ENABLE_RESPONSE_HEALING") true
    trust_proxy ← parse_trust_proxy u (config "TRUST_PROXY")
    pure (record {
      node_env = checked.node_env;
      port = port;
      jwt_secret = checked.jwt_secret;
      jwt_expires_in = jwt_expires_in;
      otp_expires_minutes = otp_expires_minutes;
      ai_moderation_enabled = checked.ai_moderation_enabled;
      openrouter_api_key = checked.openrouter_api_key;
      openrouter_base_url = read_or (config "OPENROUTER_BASE_URL") "https://openrouter.ai/api/v1";
      ai_moderation_model = checked.ai_moderation_model;
      ai_moderation_timeout_ms = timeout;
      ai_auto_approve_confidence_min = checked.confidence_min;
      require_parameters = require_parameters;
      provider_sort = provider_sort;
      preferred_max_latency_ms = max_latency;
      enable_response_healing = response_healing;
      openrouter_http_referer = read_string (config "OPENROUTER_HTTP_REFERER");
      openrouter_app_title = read_string (config "OPENROUTER_APP_TITLE");
      trust_proxy = trust_proxy;
    })

  unfoldable pub validate_environment : (String → Option String) → Result Environment
  unfolding check_settings make_environment
  validate_environment config = do checked ← check_settings config; make_environment config checked
