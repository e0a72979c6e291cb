-- ===== src/Config/Numbers.antt =====
-- The numbers of JavaScript that src/config/env.validation.ts reads: whole doubles without a sign,
-- `parseInt` of a text in base ten, and the texts that `\d` describes.
use Prim.Native.Char.{code}
use Prim.Native.String.{[], ◌∷◌}
use nestjs_learn.Prelude.{
  ℕ, zero, suc, ◌+◌, ◌*◌, ◌/◌, ◌%◌, ◌^◌, Bool, true, false, not, ◌&&◌, ◌||◌, Option, none, some,
  String, ltb, nat_eq, if◌then◌else◌,
}
use nestjs_learn.Text.{is_empty, trim_start}
use nestjs_learn.Listings.Slug.Decimal.{is_digit, value}

-- A value of type `number` that is not negative.
pub data Number : Type 0 where
  finite : ℕ → Number
  infinity : Number

-- How many of its last binary digits a number drops to keep 53; no double drops more than 971.
unfoldable pub dropped_bits : ℕ → ℕ → ℕ
dropped_bits zero n = zero
dropped_bits (suc fuel) n = elim (ltb n (2 ^ 53)) [
  | true ↦ zero
  | false ↦ suc (dropped_bits fuel (n / 2))
]

-- The quotient by the unit, rounded to the nearest number, and to the even one of two.
abbrev pub half_even : ℕ → ℕ → ℕ
half_even n unit =
    let q = n / unit in
    let twice = 2 * (n % unit) in
    if ltb unit twice || nat_eq twice unit && nat_eq (q % 2) 1 then q + 1 else q

-- The double that is nearest to a whole number.
unfoldable pub to_double : ℕ → Number
unfolding dropped_bits
to_double n = elim (ltb n (2 ^ 53)) [
  | true ↦ finite n
  | false ↦
      let unit = 2 ^ dropped_bits 1000 n in
      let rounded = half_even n unit * unit in
      elim (ltb rounded (2 ^ 1024)) [ true ↦ finite rounded | false ↦ infinity ]
]

-- The digits at the start of a text, and what follows them.
unfoldable pub span_digits : String → String × String
span_digits [] = ([], [])
span_digits (c ∷ s) =
    let (digits, rest) = span_digits s in
    if is_digit (code c) then (c ∷ digits, rest) else ([], c ∷ s)

-- `/^\d+$/.test(s)`.
unfoldable pub is_digits : String → Bool
unfolding span_digits
is_digits s = not (is_empty (span_digits s).0) && is_empty (span_digits s).1

-- `parseInt` of digits; of none it is not a number.
abbrev pub read_digits : String → Option Number
unfolding to_double value
read_digits s = if is_empty s then none else some (to_double (value 0 s))

-- The text behind an optional sign, and whether the sign is a minus.
abbrev pub sign_of : String → Bool × String
sign_of [] = (false, [])
sign_of (c ∷ s) =
    if nat_eq (code c) 45
    then (true, s)
    else if nat_eq (code c) 43
    then (false, s)
    else (false, c ∷ s)

-- `Number.parseInt(s, 10)` where the result is not negative: a prefix of the text is read. A minus
-- leaves a number that is zero or below, for which `none` stands too, as the callers refuse both.
unfoldable pub parse_int : String → Option Number
unfolding span_digits trim_start
parse_int s =
    let (minus, digits) = sign_of (trim_start s) in
    if minus then none else read_digits (span_digits digits).0
