-- ===== src/Config.antt =====
-- src/config/env.validation.ts. A value of the environment that is not a text is `none`. The parser
-- of floating-point numbers, `Number.parseFloat`, is a parameter.
pub mod Numbers
pub mod Validation
pub mod Words
pub mod Durations
use Prim.Native.Char.{code}
use Prim.Native.String.{[], ◌++◌ as str_append}
use nestjs_learn.Prelude.{
  ℕ, ◌*◌, Bool, true, false, not, ◌&&◌, ◌||◌, Option, none, some, List, ◌∷◌, String, any, leb,
  if◌then◌else◌, ◌==◌,
}
use nestjs_learn.Listings.Slug.Decimal.{value}
use nestjs_learn.Text.{Unicode, ascii_lower, trim, truthy, is_empty}
use nestjs_learn.World.{Result, ok, err, plain}
use Numbers.{Number, finite, infinity, to_double, span_digits, is_digits, read_digits, parse_int}

-- What `parseFloat` gives: not a number, a number below 0, one from 0 to 1 by its bits, one above.
pub data Float : Type 0 where
  nan below_zero above_one : Float
  unit_interval : ℕ → Float

-- `value` of the settings that are texts, flags or counts.
pub data TrustProxy : Type 0 where
  flag : Bool → TrustProxy
  hops : Number → TrustProxy
  keyword : String → TrustProxy

pub data NodeEnv : Type 0 where
  development production test : NodeEnv

-- The object that `validateEnvironment` returns, over the keys that it sets.
pub record Environment : Type 0 where
  pub node_env : NodeEnv
  pub port : Number
  pub jwt_secret : String
  pub jwt_expires_in : String
  pub otp_expires_minutes : Number
  pub ai_moderation_enabled : Bool
  pub openrouter_api_key : Option String
  pub openrouter_base_url : String
  pub ai_moderation_model : String
  pub ai_moderation_timeout_ms : Number
  pub ai_auto_approve_confidence_min : Float
  pub require_parameters : Bool
  pub provider_sort : String
  pub preferred_max_latency_ms : Number
  pub enable_response_healing : Bool
  pub openrouter_http_referer : Option String
  pub openrouter_app_title : Option String
  pub trust_proxy : TrustProxy

module _ {A B : Type 0} where
  infixl 5 ◌>>=◌ ◌>>◌
  abbrev pub ◌>>=◌ : Result A → (A → Result B) → Result B
  ◌>>=◌ (ok a) f = f a
  ◌>>=◌ (err e) f = err e

  abbrev pub ◌>>◌ : Result A → Result B → Result B
  ◌>>◌ (ok a) m = m
  ◌>>◌ (err e) m = err e

abbrev pub refuse_if : Bool → String → Result (Unit {0})
refuse_if true message = err (plain message)
refuse_if false message = ok tt

abbrev pub one_of : List String → String → Bool
one_of texts s = any (λ t. t == s) texts

abbrev pub truths : List String
truths = "true" ∷ "1" ∷ "on" ∷ "yes" ∷ List.[]

abbrev pub falsehoods : List String
falsehoods = "false" ∷ "0" ∷ "off" ∷ "no" ∷ List.[]

abbrev pub placeholders : List String
placeholders =
    "dev-secret" ∷ "test-secret" ∷ "change-me-in-production" ∷ "replace-with-a-long-random-secret"
    ∷ List.[]

abbrev pub provider_sorts : List String
provider_sorts = "latency" ∷ "price" ∷ "throughput" ∷ List.[]

abbrev pub proxy_keywords : List String
proxy_keywords = "loopback" ∷ "linklocal" ∷ "uniquelocal" ∷ List.[]

unfoldable pub read_string : Option String → Option String
unfolding trim
read_string none = none
read_string (some input) = if truthy (trim input) then some (trim input) else none

-- `readString(value) ?? fallback`.
abbrev pub read_or : Option String → String → String
unfolding read_string
read_or value fallback = elim (read_string value) [ none ↦ fallback | some s ↦ s ]

-- `Number.isInteger(parsed) && parsed > 0`.
abbrev pub is_positive : Number → Bool
is_positive (finite n) = leb 1 n
is_positive infinity = false

unfoldable pub parse_positive_integer : Option String → String → Option Number → Result Number
unfolding read_string parse_int
parse_positive_integer input key fallback = elim (read_string input) [
  | none ↦ elim fallback [ some n ↦ ok n | none ↦ err (plain (str_append key " is required")) ]
  | some raw ↦ elim (parse_int raw) [
    | none ↦ err (plain (str_append key " must be a positive integer"))
    | some n ↦
        if is_positive n then ok n else err (plain (str_append key " must be a positive integer"))
  ]
]

-- The milliseconds of a unit.
abbrev pub unit_ms : String → Option ℕ
unit_ms unit =
    if unit == "ms"
    then some 1
    else if unit == "s"
    then some 1000
    else if unit == "m"
    then some 60000
    else if unit == "h"
    then some 3600000
    else if unit == "d"
    then some 86400000
    else if unit == "w"
    then some 604800000
    else none

-- `s.match(/^(\d+)(ms|s|m|h|d|w)$/)`, with the milliseconds of the unit.
unfoldable pub match_duration : String → Option (String × ℕ)
unfolding span_digits
match_duration s =
    let (digits, rest) = span_digits s in
    if is_empty digits
    then none
    else elim (unit_ms rest) [ none ↦ none | some ms ↦ some (digits, ms) ]

abbrev pub is_some : {A : Type 0} → Option A → Bool
is_some none = false
is_some (some a) = true

-- A product of two numbers.
abbrev pub times : Number → ℕ → Number
unfolding to_double
times infinity k = infinity
times (finite n) k = to_double (n * k)

-- `Number.parseInt` of digits.
abbrev pub parsed_digits : String → Number
unfolding to_double value
parsed_digits digits = to_double (value 0 digits)

-- The flag `i` of the pattern compares the letters of ASCII in either case.
unfoldable pub parse_duration : Option String → String → String → Result String
unfolding read_string
parse_duration input key fallback =
    let raw = read_or input fallback in
    if is_digits raw || is_some (match_duration (ascii_lower raw))
    then ok raw
    else err (
        plain
          (str_append key " must be a positive integer in seconds or a duration like 15m, 24h, 7d"))

-- The rest of `parseDurationToMs`, from the text `trimmed` on.
unfoldable pub read_duration : String → String → Result Number
read_duration input trimmed =
    if is_digits trimmed
    then ok (times (parsed_digits trimmed) 1000)
    else elim (match_duration trimmed) [
      | some (amount, ms) ↦ ok (times (parsed_digits amount) ms)
      | none ↦ err (
          plain (
            str_append "Invalid duration value \""
              (str_append input "\". Expected seconds or units ms/s/m/h/d/w.")))
    ]

module _ (u : Unicode) where
  unfoldable pub parse_boolean : Option String → Bool → Result Bool
  unfolding read_string
  parse_boolean input fallback = elim (read_string input) [
    | none ↦ ok fallback
    | some raw ↦
        let normalized = u.to_lower raw in
        if one_of truths normalized
        then ok true
        else if one_of falsehoods normalized
        then ok false
        else err (plain "Expected a boolean value")
  ]

  unfoldable pub parse_node_env : Option String → Result NodeEnv
  unfolding read_string
  parse_node_env input =
      let normalized : String = elim (read_string input) [
        | none ↦ "development"
        | some s ↦ u.to_lower s
      ] in
      if normalized == "development"
      then ok NodeEnv.development
      else if normalized == "production"
      then ok NodeEnv.production
      else if normalized == "test"
      then ok NodeEnv.test
      else err (plain "NODE_ENV must be one of development, production, test")

  unfoldable pub parse_trust_proxy : Option String → Result TrustProxy
  unfolding read_string is_digits
  parse_trust_proxy input = elim (read_string input) [
    | none ↦ ok (flag false)
    | some raw ↦
        let normalized = u.to_lower raw in
        if one_of falsehoods normalized
        then ok (flag false)
        else if one_of truths normalized
        then ok (flag true)
        else if is_digits normalized
        then ok (hops (parsed_digits normalized))
        else if one_of proxy_keywords normalized
        then ok (keyword normalized)
        else err (
            plain
              "TRUST_PROXY must be false, true, a hop count, or one of loopback/linklocal/uniquelocal")
  ]

  unfoldable pub parse_openrouter_provider_sort : Option String → String → Result String
  unfolding read_string
  parse_openrouter_provider_sort input fallback =
      let normalized = u.to_lower (read_or input fallback) in
      if one_of provider_sorts normalized
      then ok normalized
      else err (plain "AI_MODERATION_PROVIDER_SORT must be one of latency, price, throughput")

  unfoldable pub parse_duration_to_ms : String → Result Number
  unfolding read_duration
  parse_duration_to_ms input = read_duration input (u.to_lower (trim input))
