-- ===== src/Config/Validation/Sound.antt =====
-- What `validateEnvironment` guarantees of the settings that it returns.
use nestjs_learn.Prelude.{
  ℕ, ◌≡◌, refl, Bool, true, false, not, ◌&&◌, Option, none, some, String, arith, Option-cases, inl,
  inr, subst,
}
use nestjs_learn.Text.{Unicode, truthy}
use nestjs_learn.World.{Result, ok, err}
use nestjs_learn.Config.{
  Float, nan, below_zero, above_one, unit_interval, NodeEnv, Environment, ◌>>=◌, ◌>>◌, refuse_if,
  one_of, placeholders, provider_sorts, read_string, read_or, is_some, is_positive, parse_boolean,
  parse_positive_integer, parse_node_env, parse_duration, parse_trust_proxy,
  parse_openrouter_provider_sort,
}
use nestjs_learn.Config.Numbers.{Number, finite}
use nestjs_learn.Config.Validation.{
  pure, require, is_test, is_outside, Checked, check_settings, make_environment,
  validate_environment,
}

module _ (u : Unicode) (parse_float : String → Float) where
  result_ok :
      {A B : Type 0} (m : Result A) (f : A → Result B) (b : B)
      → (m >>= f) ≡ ok b
      → (a : A) × (m ≡ ok a) × (f a ≡ ok b)
  result_ok (ok a) f b e = (a, refl, e)
  result_ok (err x) f b e = absurd (ground arith)

  passed_ok :
      {B : Type 0} (test : Bool) (message : String) (m : Result B) (b : B)
      → (refuse_if test message >> m) ≡ ok b
      → (test ≡ false) × (m ≡ ok b)
  passed_ok true message m b e = absurd (ground arith)
  passed_ok false message m b e = (refl, e)

  abbrev pub IsPositive : Number → Type 0
  IsPositive n = is_positive n ≡ true

  abbrev pub IsChecked : Checked → Type 0
  IsChecked c =
      (truthy c.jwt_secret ≡ true)
      × (is_test c.node_env ≡ false → one_of placeholders (u.to_lower c.jwt_secret) ≡ false)
      × (c.ai_moderation_enabled ≡ true
          → (key : String) × (c.openrouter_api_key ≡ some key) × (truthy key ≡ true))
      × (truthy c.ai_moderation_model ≡ true)
      × ((bits : ℕ) × (c.confidence_min ≡ unit_interval bits))

  -- The checked settings of an environment.
  abbrev pub checked_of : Environment → Checked
  checked_of env = record {
    node_env = env.node_env;
    jwt_secret = env.jwt_secret;
    ai_moderation_enabled = env.ai_moderation_enabled;
    ai_moderation_model = env.ai_moderation_model;
    openrouter_api_key = env.openrouter_api_key;
    confidence_min = env.ai_auto_approve_confidence_min;
  }

  -- What the rest of the program takes for granted of its settings.
  abbrev pub IsSound : Environment → Type 0
  IsSound env =
      IsChecked (checked_of env)
      × IsPositive env.port
      × IsPositive env.otp_expires_minutes
      × IsPositive env.ai_moderation_timeout_ms
      × IsPositive env.preferred_max_latency_ms
      × (one_of provider_sorts env.provider_sort ≡ true)

  parse_positive_integer-IsPositive :
      (input : Option String) (key : String) (fallback n : Number)
      → IsPositive fallback
      → parse_positive_integer input key (some fallback) ≡ ok n
      → IsPositive n
  unfolding parse_positive_integer
  parse_positive_integer-IsPositive input key fallback n h e = ground arith

  sort_known :
      (input : Option String) (fallback s : String)
      → parse_openrouter_provider_sort u input fallback ≡ ok s
      → one_of provider_sorts s ≡ true
  unfolding parse_openrouter_provider_sort
  sort_known input fallback s e = ground arith

  read_string-truthy :
      (input : Option String) (s : String) → read_string input ≡ some s → truthy s ≡ true
  unfolding read_string
  read_string-truthy none s e = absurd (ground arith)
  read_string-truthy (some input) s e = ground arith

  read_or-truthy :
      (input : Option String) (fallback : String)
      → truthy fallback ≡ true
      → truthy (read_or input fallback) ≡ true
  unfolding read_or
  read_or-truthy input fallback h = elim (Option-cases (read_string input)) [
    | inl missing ↦ rw (missing, read_or) h
    | inr (s, found) ↦ rw (found, read_or) (read_string-truthy input s found)
  ]

  require_ok :
      {A : Type 0} (o : Option A) (message : String) (a : A) → require o message ≡ ok a → o ≡ some a
  require_ok none message a e = absurd (ground arith)
  require_ok (some x) message a e = ground arith

  pure_ok : {A : Type 0} {a b : A} → pure a ≡ ok b → a ≡ b
  pure_ok e = ground arith

  replaced_secret :
      (node_env : NodeEnv) (secret : String)
      → (not (is_test node_env) && one_of placeholders (u.to_lower secret)) ≡ false
      → is_test node_env ≡ false
      → one_of placeholders (u.to_lower secret) ≡ false
  replaced_secret node_env secret h k = ground arith

  given_key :
      (enabled : Bool) (input : Option String)
      → (enabled && not (is_some (read_string input))) ≡ false
      → enabled ≡ true
      → (key : String) × (read_string input ≡ some key) × (truthy key ≡ true)
  given_key enabled input h on = elim (Option-cases (read_string input)) [
    | inl missing ↦ absurd (ground arith)
    | inr (key, found) ↦ (key, found, read_string-truthy input key found)
  ]

  inside_unit : (f : Float) → is_outside f ≡ false → (bits : ℕ) × (f ≡ unit_interval bits)
  inside_unit (unit_interval bits) h = (bits, refl)
  inside_unit nan h = absurd (ground arith)
  inside_unit below_zero h = absurd (ground arith)
  inside_unit above_one h = absurd (ground arith)

  check_settings-IsChecked :
      (config : String → Option String) (c : Checked)
      → check_settings u parse_float config ≡ ok c
      → IsChecked c
  unfolding check_settings
  check_settings-IsChecked config c e =
      let (node_env, e0, f0) = result_ok (parse_node_env u (config "NODE_ENV")) _ c e in
      let (enabled, e1, f1) =
        result_ok (parse_boolean u (config "AI_MODERATION_ENABLED") false) _ c f0 in
      let (secret, e2, f2) =
        result_ok (require (read_string (config "JWT_SECRET")) "JWT_SECRET is required") _ c f1 in
      let (replaced, f3) =
        passed_ok (not (is_test node_env) && one_of placeholders (u.to_lower secret)) _ _ c f2 in
      let (has_key, f4) =
        passed_ok (enabled && not (is_some (read_string (config "OPENROUTER_API_KEY")))) _ _ c f3 in
      let (has_model, f5) =
        passed_ok
          (enabled && not (truthy (read_or (config "AI_MODERATION_MODEL") "openrouter/free"))) _ _ c
          f4 in
      let (inside, f6) =
        passed_ok
          (is_outside (parse_float (read_or (config "AI_AUTO_APPROVE_CONFIDENCE_MIN") "0.85"))) _ _
          c f5 in
      subst IsChecked (pure_ok f6) (
        read_string-truthy (config "JWT_SECRET") secret (require_ok _ _ secret e2),
        replaced_secret node_env secret replaced,
        given_key enabled (config "OPENROUTER_API_KEY") has_key,
        read_or-truthy (config "AI_MODERATION_MODEL") "openrouter/free" refl,
        inside_unit _ inside,
      )

  make_environment-IsSound :
      (config : String → Option String) (c : Checked) (env : Environment)
      → IsChecked c
      → make_environment u parse_float config c ≡ ok env
      → IsSound env
  unfolding make_environment
  make_environment-IsSound config c env h e =
      let (port, e7, f7) =
        result_ok (parse_positive_integer (config "PORT") "PORT" (some (finite 3000))) _ env e in
      let (expires, e8, f8) =
        result_ok (parse_duration (config "JWT_EXPIRES_IN") "JWT_EXPIRES_IN" "7d") _ env f7 in
      let (minutes, e9, f9) =
        result_ok
          (parse_positive_integer (config "OTP_EXPIRES_MINUTES") "OTP_EXPIRES_MINUTES"
            (some (finite 5)))
          _ env f8 in
      let (timeout, ea, fa) =
        result_ok
          (parse_positive_integer (config "AI_MODERATION_TIMEOUT_MS") "AI_MODERATION_TIMEOUT_MS"
            (some (finite 30000)))
          _ env f9 in
      let (parameters, eb, fb) =
        result_ok (parse_boolean u (config "AI_MODERATION_PROVIDER_REQUIRE_PARAMETERS") true) _ env
          fa in
      let (sort, ec, fc) =
        result_ok
          (parse_openrouter_provider_sort u (config "AI_MODERATION_PROVIDER_SORT") "latency") _ env
          fb in
      let (latency, ed, fd) =
        result_ok
          (parse_positive_integer (config "AI_MODERATION_PREFERRED_MAX_LATENCY_MS")
            "AI_MODERATION_PREFERRED_MAX_LATENCY_MS" (some (finite 20000)))
          _ env fc in
      let (healing, ee, fe) =
        result_ok (parse_boolean u (config "AI_MODERATION_ENABLE_RESPONSE_HEALING") true) _ env
          fd in
      let (proxy, ef, ff) = result_ok (parse_trust_proxy u (config "TRUST_PROXY")) _ env fe in
      subst IsSound (pure_ok ff) (
        h,
        parse_positive_integer-IsPositive (config "PORT") "PORT" (finite 3000) port refl e7,
        parse_positive_integer-IsPositive (config "OTP_EXPIRES_MINUTES") "OTP_EXPIRES_MINUTES"
            (finite 5) minutes refl e9,
        parse_positive_integer-IsPositive (config "AI_MODERATION_TIMEOUT_MS")
            "AI_MODERATION_TIMEOUT_MS" (finite 30000) timeout refl ea,
        parse_positive_integer-IsPositive (config "AI_MODERATION_PREFERRED_MAX_LATENCY_MS")
            "AI_MODERATION_PREFERRED_MAX_LATENCY_MS" (finite 20000) latency refl ed,
        sort_known (config "AI_MODERATION_PROVIDER_SORT") "latency" sort ec,
      )

  -- Every environment that `validateEnvironment` accepts is sound: the secret is there and, outside
  -- of tests, is no placeholder; an enabled moderation has a key and a model; the minimal confidence
  -- lies from 0 to 1; the port, the lifetime of a code and the limits of time are positive; the sort
  -- of the providers is a known one.
  pub validate_environment-IsSound :
      (config : String → Option String) (env : Environment)
      → validate_environment u parse_float config ≡ ok env
      → IsSound env
  unfolding validate_environment
  validate_environment-IsSound config env e =
      let (checked, e0, f0) = result_ok (check_settings u parse_float config) _ env e in
      make_environment-IsSound config checked env (check_settings-IsChecked config checked e0) f0
