-- ===== src/Moderation/Evaluation.antt =====
-- src/modules/ai/ai-moderation.service.ts: what the service makes of the answer of the language
-- model. The call of the model and the hash of its input are parameters; the logs are left out.
pub mod Call
use nestjs_learn.Prelude.{ℕ, Option, none, some, List, [], ◌∷◌, String, any, if◌then◌else◌, ◌==◌}
use nestjs_learn.Schema.{ModerationFailureType, ModerationRiskLevel, ModerationRecommendedAction}
use nestjs_learn.Text.{Unicode, trim, truthy, includes}

-- The output that `moderationOutputSchema` accepts; the confidence is a number from 0 to 1.
pub data ParsedRisk : Type 0 where
  low medium high : ParsedRisk

pub data ParsedAction : Type 0 where
  approve manual_review : ParsedAction

pub record ModerationOutput : Type 0 where
  pub risk_level : ParsedRisk
  pub confidence : ℕ
  pub violations : List String
  pub summary : String
  pub recommended_action : ParsedAction

-- The three properties of `response_metadata` that are read, where they are texts.
pub record ResponseMetadata : Type 0 where
  pub model_name : Option String
  pub model : Option String
  pub provider : Option String

-- What `Promise.race` of the call and the timeout gives: a response, or an error.
pub data Response : Type 0 where
  responded : Option ResponseMetadata → Option ModerationOutput → Response
  -- An `Error` with its message.
  failed : String → Response

pub record ModerationEvaluationResult : Type 0 where
  pub input_hash : String
  pub model : String
  pub risk_level : ModerationRiskLevel
  pub confidence : ℕ
  pub violations : List String
  pub summary : String
  pub recommended_action : ModerationRecommendedAction
  pub processing_ms : ℕ

pub record ModerationEvaluationError : Type 0 where
  pub message : String
  pub failure_type : ModerationFailureType
  pub processing_ms : ℕ
  pub model : String

pub data Evaluation : Type 0 where
  evaluated : ModerationEvaluationResult → Evaluation
  rejected : ModerationEvaluationError → Evaluation

unfoldable pub map_risk_level : ParsedRisk → ModerationRiskLevel
map_risk_level ParsedRisk.low = ModerationRiskLevel.low
map_risk_level ParsedRisk.medium = ModerationRiskLevel.medium
map_risk_level ParsedRisk.high = ModerationRiskLevel.high

unfoldable pub map_recommended_action : ParsedAction → ModerationRecommendedAction
map_recommended_action ParsedAction.approve = ModerationRecommendedAction.approve
map_recommended_action ParsedAction.manual_review = ModerationRecommendedAction.manual_review

-- `candidates.find`: a text that is not blank.
unfoldable pub first_name : List (Option String) → Option String
first_name [] = none
first_name (none ∷ rest) = first_name rest
first_name (some s ∷ rest) =
    let later = first_name rest in if truthy (trim s) then some s else later

unfoldable pub resolve_model_name : String → Option ResponseMetadata → String
unfolding first_name
resolve_model_name model none = model
resolve_model_name model (some m) = elim (first_name (m.model_name ∷ m.model ∷ m.provider ∷ [])) [
  | none ↦ model
  | some s ↦ s
]

unfoldable pub classify_failure : Unicode → String → ModerationFailureType
classify_failure u message =
    let normalized = u.to_lower message in
    if any (includes normalized) ("timed out" ∷ "timeout" ∷ "abort" ∷ [])
    then ModerationFailureType.timeout
    else if any (includes normalized) ("parse" ∷ "schema" ∷ "json" ∷ "structured output" ∷ [])
    then ModerationFailureType.parse
    else if any (includes normalized)
        ("openrouter" ∷ "provider" ∷ "status code" ∷ "api key" ∷ "rate limit" ∷ "network" ∷ [])
    then ModerationFailureType.provider
    else ModerationFailureType.unknown

-- `Array.from(new Set(values))`: the first occurrences, in order.
abbrev pub without : String → List String → List String
without s [] = []
without s (t ∷ rest) = let later = without s rest in if s == t then later else t ∷ later

unfoldable pub distinct : List String → List String
distinct [] = []
distinct (s ∷ rest) = s ∷ without s (distinct rest)

-- `evaluateListing`: the hash of the input, the model that was configured and the time that passed.
unfoldable pub evaluate_listing : Unicode → String → String → ℕ → Response → Evaluation
unfolding map_risk_level map_recommended_action resolve_model_name classify_failure distinct
evaluate_listing u hash model ms (failed message) = rejected (record {
  message = message;
  failure_type = classify_failure u message;
  processing_ms = ms;
  model = model;
})
evaluate_listing u hash model ms (responded raw none) = rejected (record {
  message = "AI moderation returned an empty structured output";
  failure_type = ModerationFailureType.parse;
  processing_ms = ms;
  model = model;
})
evaluate_listing u hash model ms (responded raw (some parsed)) = evaluated (record {
  input_hash = hash;
  model = resolve_model_name model raw;
  risk_level = map_risk_level parsed.risk_level;
  confidence = parsed.confidence;
  violations = distinct parsed.violations;
  summary = trim parsed.summary;
  recommended_action = map_recommended_action parsed.recommended_action;
  processing_ms = ms;
})
