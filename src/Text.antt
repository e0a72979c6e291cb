-- ===== src/Text.antt =====
-- The string functions of JavaScript that the services use. A text is a list of Unicode characters;
-- a lone surrogate, which a JavaScript string may hold, is not one. The case mappings and the
-- decomposition NFD come from the tables of Unicode, which are a parameter.
pub mod Laws
pub mod Json
use Prim.Native.Char.{Char, code}
use Prim.Native.String.{[], ◌∷◌, ◌++◌}
use text.Mathlib.Text.{starts_with}
use nestjs_learn.Prelude.{
  ◌≡◌, ℕ, zero, suc, ◌-◌, Bool, true, false, ◌&&◌, ◌||◌, not, String, leb, nat_eq, if◌then◌else◌,
  Option, none, some,
}
use nestjs_learn.Prelude.{List}

pub record Unicode : Type 0 where
  pub to_lower : String → String
  pub to_upper : String → String
  pub nfd : String → String

abbrev pub is_empty : String → Bool
is_empty [] = true
is_empty (c ∷ s) = false

-- `Boolean(s)` of a text.
abbrev pub truthy : String → Bool
truthy s = not (is_empty s)

-- `s || null` and `s || undefined`.
abbrev pub or_none : String → Option String
or_none s = if truthy s then some s else none

-- The white space and line terminators of `trim` and `\s`.
abbrev pub is_space : ℕ → Bool
is_space n =
    leb 9 n && leb n 13
    || nat_eq n 32
    || nat_eq n 160
    || nat_eq n 5760
    || leb 8192 n && leb n 8202
    || nat_eq n 8232
    || nat_eq n 8233
    || nat_eq n 8239
    || nat_eq n 8287
    || nat_eq n 12288
    || nat_eq n 65279

unfoldable pub trim_start : String → String
trim_start [] = []
trim_start (c ∷ s) = let rest = trim_start s in if is_space (code c) then rest else c ∷ s

-- The text without the white space at its end.
unfoldable pub trim_end : String → String
trim_end [] = []
trim_end (c ∷ s) =
    let rest = trim_end s in if is_space (code c) && is_empty rest then [] else c ∷ rest

unfoldable pub trim : String → String
unfolding trim_start trim_end
trim s = trim_end (trim_start s)

unfoldable pub includes : String → String → Bool
includes [] t = is_empty t
includes (c ∷ s) t = starts_with (c ∷ s) t || includes s t

-- Every character of the text passes a test on its number.
abbrev pub Every : (ℕ → Bool) → String → Type 0
Every ok [] = Unit
Every ok (c ∷ s) = (ok (code c) ≡ true) × Every ok s

-- The character at a place of a text, with a default.
unfoldable pub char_at : ℕ → String → Char → Char
char_at n [] d = d
char_at zero (c ∷ s) d = c
char_at (suc n) (c ∷ s) d = char_at n s d

unfoldable pub lower_char : Char → Char
unfolding char_at
lower_char c =
    if leb 65 (code c) && leb (code c) 90
    then char_at (code c - 65) "abcdefghijklmnopqrstuvwxyz" c
    else c

-- The lower case of the letters of ASCII, which `toLowerCase` gives on texts of ASCII.
unfoldable pub ascii_lower : String → String
unfolding lower_char
ascii_lower [] = []
ascii_lower (c ∷ s) = lower_char c ∷ ascii_lower s
