-- ===== src/Moderation/Evaluation/Call.antt =====
-- src/modules/ai/ai-moderation.service.ts: the options that the service reads from the environment,
-- the call that it makes of the language model, and the race of its answer against the timer.
use nestjs_learn.Prelude.{
  ℕ, ◌+◌, ◌-◌, ◌/◌, ◌^◌, Bool, false, not, ◌&&◌, Option, none, some, List, [], ◌∷◌, ◌++◌, String,
  ltb, leb, ◌==◌, if◌then◌else◌,
}
use nestjs_learn.Text.{Unicode, trim, truthy}
use nestjs_learn.Users.Mapper.{or_else}
use nestjs_learn.Listings.Query.{present_trimmed}
use nestjs_learn.Config.Numbers.{Number, finite, infinity, parse_int}
use nestjs_learn.Moderation.Types.{ListingModerationInput}
use nestjs_learn.Moderation.Policy.{
  build_input_hash, build_user_prompt, get_system_prompt, get_policy_prompt,
}
use nestjs_learn.Moderation.Evaluation.{
  ResponseMetadata, ModerationOutput, Response, responded, failed, Evaluation, evaluate_listing,
}

-- The variables of `process.env` that the service reads.
pub record AiEnv : Type 0 where
  pub enabled : Option String
  pub model : Option String
  pub timeout_ms : Option String
  pub api_key : Option String
  pub base_url : Option String
  pub http_referer : Option String
  pub app_title : Option String
  pub provider_require_parameters : Option String
  pub provider_sort : Option String
  pub preferred_max_latency_ms : Option String
  pub enable_response_healing : Option String

-- The fields of the service. A number is `none` where it is `NaN`; the validation of the environment
-- lets no negative one through.
pub record AiOptions : Type 0 where
  pub enabled : Bool
  pub model : String
  pub timeout_ms : Option Number
  pub api_key : String
  pub base_url : String
  pub http_referer : Option String
  pub app_title : Option String
  pub provider_require_parameters : Bool
  pub provider_sort : String
  pub preferred_max_latency_ms : Option Number
  pub enable_response_healing : Bool

-- `value === text` of a variable that may be undefined.
abbrev pub is_text : String → Option String → Bool
is_text t none = false
is_text t (some s) = s == t

unfoldable pub ai_options : Unicode → AiEnv → AiOptions
unfolding parse_int
ai_options u env =
    let sort = u.to_lower (trim (or_else env.provider_sort "")) in
    record {
      enabled = is_text "true" env.enabled;
      model = or_else (present_trimmed env.model) "openrouter/free";
      timeout_ms = parse_int (or_else env.timeout_ms "30000");
      api_key = or_else (present_trimmed env.api_key) "";
      base_url = or_else (present_trimmed env.base_url) "https://openrouter.ai/api/v1";
      http_referer = present_trimmed env.http_referer;
      app_title = present_trimmed env.app_title;
      provider_require_parameters = not (is_text "false" env.provider_require_parameters);
      provider_sort = if truthy sort then sort else "latency";
      preferred_max_latency_ms = parse_int (or_else env.preferred_max_latency_ms "20000");
      enable_response_healing = not (is_text "false" env.enable_response_healing);
    }

-- `this.model || 'unknown'`.
unfoldable pub get_model_name : AiOptions → String
get_model_name options = if truthy options.model then options.model else "unknown"

-- The headers, by name.
abbrev pub header_of : String → Option String → List (String × String)
header_of name none = []
header_of name (some value) = (name, value) ∷ []

unfoldable pub build_headers : AiOptions → List (String × String)
build_headers options =
    header_of "HTTP-Referer" options.http_referer ++ header_of "X-Title" options.app_title

-- `Math.max(1, Math.round(ms / 1000))`, of numbers whose quotient a double holds closely enough.
abbrev pub seconds_of : Option Number → Option Number
seconds_of none = none
seconds_of (some infinity) = some infinity
seconds_of (some (finite ms)) =
    let seconds = (ms + 500) / 1000 in some (finite (if ltb seconds 1 then 1 else seconds))

pub record ModelKwargs : Type 0 where
  pub require_parameters : Bool
  pub sort : String
  pub preferred_max_latency : Option Number
  -- The identifiers of the plugins, if the key is there.
  pub plugins : Option (List String)

unfoldable pub build_model_kwargs : AiOptions → ModelKwargs
build_model_kwargs options = record {
  require_parameters = options.provider_require_parameters;
  sort = options.provider_sort;
  preferred_max_latency = seconds_of options.preferred_max_latency_ms;
  plugins = if options.enable_response_healing then some ("response-healing" ∷ []) else none;
}

-- What `ChatOpenAI` is made of, and the messages of the call.
pub record ChatCall : Type 0 where
  pub model : String
  pub api_key : String
  pub temperature : ℕ
  pub stream_usage : Bool
  pub model_kwargs : ModelKwargs
  pub base_url : String
  pub default_headers : List (String × String)
  pub system_messages : List String
  pub human_message : String

unfoldable pub chat_call : AiOptions → List String → String → ChatCall
unfolding build_model_kwargs build_headers
chat_call options system_messages human_message = record {
  model = options.model;
  api_key = options.api_key;
  temperature = 0;
  stream_usage = false;
  model_kwargs = build_model_kwargs options;
  base_url = options.base_url;
  default_headers = build_headers options;
  system_messages = system_messages;
  human_message = human_message;
}

-- How the model answers: a response, or what the call throws, with the message of an `Error`.
pub data Answer : Type 0 where
  answered : Option ResponseMetadata → Option ModerationOutput → Answer
  threw : Option String → Answer

-- The answer with the time that it takes.
pub record Reply : Type 0 where
  pub after_ms : ℕ
  pub answer : Answer

-- The delay of `setTimeout`: one outside the numbers from 1 to 2^31 - 1 is taken as 1.
abbrev pub timer_delay : Option Number → ℕ
timer_delay none = 1
timer_delay (some infinity) = 1
timer_delay (some (finite ms)) = if leb 1 ms && leb ms (2 ^ 31 - 1) then ms else 1

-- `error instanceof Error ? error.message : 'AI moderation failed'` of what is caught.
abbrev pub response_of : Answer → Response
response_of (answered raw parsed) = responded raw parsed
response_of (threw message) = failed (or_else message "AI moderation failed")

-- `Promise.race` of the call and the timer; a call may never answer.
unfoldable pub race : ℕ → Option Reply → Response
race delay none = failed "AI moderation timed out"
race delay (some reply) =
    if ltb delay reply.after_ms then failed "AI moderation timed out" else response_of reply.answer

-- `evaluateListing` with its call; the digest and the time that passes are given.
unfoldable pub evaluate_call :
    Unicode
    → AiOptions
    → (ChatCall → Option Reply)
    → (String → String)
    → ℕ
    → ListingModerationInput
    → Evaluation
unfolding chat_call race evaluate_listing build_input_hash build_user_prompt get_system_prompt
    get_policy_prompt
evaluate_call u options invoke digest ms input =
    let messages : List String = get_system_prompt ∷ get_policy_prompt ∷ [] in
    let reply = invoke (chat_call options messages (build_user_prompt input)) in
    evaluate_listing u (build_input_hash digest input) options.model ms
      (race (timer_delay options.timeout_ms) reply)
