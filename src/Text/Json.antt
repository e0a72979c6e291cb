-- ===== src/Text/Json.antt =====
-- `JSON.stringify` of JavaScript, for texts, `null`, objects and arrays of texts, as the moderation
-- writes them: src/modules/ai/ai-moderation.service.ts and moderation-policy.service.ts.
use Prim.Native.Char.{Char, code}
use Prim.Native.String.{[], ◌∷◌, ◌++◌}
use nestjs_learn.Prelude.{◌/◌, ◌%◌, Option, none, some, List, String, ltb, nat_eq, if◌then◌else◌}
use nestjs_learn.Text.{char_at}

-- The last two digits of `\u00xx`.
abbrev pub hex_digits : Char → String
hex_digits c =
    char_at (code c / 16) "0123456789abcdef" c ∷ char_at (code c % 16) "0123456789abcdef" c ∷ []

abbrev pub escape_char : Char → String
escape_char c =
    if nat_eq (code c) 34
    then "\\\""
    else if nat_eq (code c) 92
    then "\\\\"
    else if nat_eq (code c) 8
    then "\\b"
    else if nat_eq (code c) 9
    then "\\t"
    else if nat_eq (code c) 10
    then "\\n"
    else if nat_eq (code c) 12
    then "\\f"
    else if nat_eq (code c) 13
    then "\\r"
    else if ltb (code c) 32
    then "\\u00" ++ hex_digits c
    else c ∷ []

unfoldable pub escape : String → String
unfolding char_at
escape [] = []
escape (c ∷ s) = escape_char c ++ escape s

abbrev pub quote : String → String
quote s = "\"" ++ (escape s ++ "\"")

-- A text, or `null`.
abbrev pub quote_or_null : Option String → String
quote_or_null none = "null"
quote_or_null (some s) = quote s

-- `join` of the texts with a text between them.
unfoldable pub join : String → List String → String
join between List.[] = ""
join between (List.◌∷◌ s List.[]) = s
join between (List.◌∷◌ s (List.◌∷◌ t rest)) = s ++ (between ++ join between (List.◌∷◌ t rest))
