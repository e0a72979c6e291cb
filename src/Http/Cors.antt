-- ===== src/Http/Cors.antt =====
-- src/common/utils/cors.ts: which origins may call. The constructor `URL` is a parameter, as the
-- origin of a text that it parses.
use Prim.Native.Char.{code}
use Prim.Native.String.{[] as nil, ◌∷◌ as char_cons}
use nestjs_learn.Prelude.{
  Bool, true, false, ◌&&◌, Option, none, some, List, [], ◌∷◌, map, String, any, keep, nat_eq, ◌==◌,
  if◌then◌else◌,
}
use nestjs_learn.Text.{trim, truthy, is_empty}
use nestjs_learn.Guards.{split}
use nestjs_learn.Moderation.Evaluation.{distinct}

-- `replace(/\/+$/, '')`.
unfoldable pub drop_last_slashes : String → String
drop_last_slashes String.[] = nil
drop_last_slashes (String.◌∷◌ c s) =
    let rest = drop_last_slashes s in
    if nat_eq (code c) 47 && is_empty rest then nil else char_cons c rest

-- The `origin` of the options: a Boolean, or the callback over the configured origins.
pub data CorsOrigin : Type 0 where
  always never : CorsOrigin
  callback : List String → CorsOrigin

module _ (parse_origin : String → Option String) where
  unfoldable pub normalize_origin : String → String
  unfolding drop_last_slashes
  normalize_origin origin =
      if truthy (trim origin)
      then elim (parse_origin (trim origin)) [
        | some parsed ↦ parsed
        | none ↦ drop_last_slashes (trim origin)
      ]
      else ""

  -- The argument is `CORS_ORIGIN`, empty where it is not set.
  unfoldable pub get_configured_cors_origins : String → List String
  unfolding normalize_origin distinct
  get_configured_cors_origins raw_origins =
      distinct (keep truthy (map normalize_origin (split 44 raw_origins)))

  unfoldable pub get_cors_origin_option : String → Option String → CorsOrigin
  unfolding get_configured_cors_origins
  get_cors_origin_option raw_origins node_env = elim (get_configured_cors_origins raw_origins) [
    | [] ↦ if is_production node_env then never else always
    | origin ∷ others ↦ callback (origin ∷ others)
  ]
    where
      is_production : Option String → Bool
      is_production none = false
      is_production (some e) = e == "production"

  -- What the callback answers for the origin of a request, which may be undefined.
  unfoldable pub allows_origin : List String → Option String → Bool
  unfolding normalize_origin
  allows_origin configured none = true
  allows_origin configured (some origin) =
      if is_empty origin then true else any (λ o. o == normalize_origin origin) configured
