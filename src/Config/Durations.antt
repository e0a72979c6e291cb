-- ===== src/Config/Durations.antt =====
-- That the two readers of durations of src/config/env.validation.ts agree: `parseDuration`, which
-- admits a setting, and `parseDurationToMs`, which the authentication takes its cookie's age from.
use Prim.Native.String.{◌++◌ as str_append}
use nestjs_learn.Prelude.{
  ℕ, ◌≡◌, refl, ap, ◌∙◌, Bool, true, false, ◌||◌, Option, some, String, arith, Bool-cases,
  Option-cases, inl, inr,
}
use nestjs_learn.Text.{Unicode, Every, is_empty, trim, ascii_lower}
use nestjs_learn.Text.Laws.{every-Every, Every-mono, Every-append}
use nestjs_learn.World.{ok}
use nestjs_learn.Listings.Slug.Decimal.{
  decimal-is_empty, is_digit, decimal, value-decimal, decimal-Every,
}
use nestjs_learn.Config.{
  unit_ms, match_duration, is_some, times, parsed_digits, parse_duration, parse_duration_to_ms,
  read_duration,
}
use nestjs_learn.Config.Numbers.{Number, to_double, span_digits, is_digits}
use nestjs_learn.Config.Words.{
  is_ascii, is_word, span_digits-lower, unit_ms-IsUnit, trim_of_word, is_digits-Every,
  match_duration-Every, is_digits-lower, span_digits-append, decimal-is_digits,
  ascii_lower_of_digits,
}

abbrev is_duration : String → Bool
is_duration t = is_digits t || is_some (match_duration t)

parse_duration-admits :
    (input : Option String) (key fallback raw : String)
    → parse_duration input key fallback ≡ ok raw
    → (is_digits raw || is_some (match_duration (ascii_lower raw))) ≡ true
unfolding parse_duration
parse_duration-admits input key fallback raw e = ground arith

reads : (raw t : String) → is_duration t ≡ true → (ms : Number) × (read_duration raw t ≡ ok ms)
unfolding read_duration
reads raw t h = elim (Bool-cases (is_digits t)) [
  | inl digits ↦ (times (parsed_digits t) 1000, rw digits refl)
  | inr other ↦ elim (Option-cases (match_duration t)) [
    | inl missing ↦ absurd (ground arith)
    | inr ((amount, k), found) ↦ (times (parsed_digits amount) k, rw (other, found) refl)
  ]
]

lowered :
    (u : Unicode)
    → ((s : String) → Every is_ascii s → u.to_lower s ≡ ascii_lower s)
    → (s : String) → Every is_word s
    → u.to_lower (trim s) ≡ ascii_lower s
lowered u lowers s word =
    rw (trim_of_word s word)
      (lowers s (Every-mono {p = is_word} {q = is_ascii} s (λ n k. ground arith) word))

-- Every setting that `parseDuration` admits, the fallback included, is read by `parseDurationToMs`,
-- which returns a number of milliseconds, provided the lower case of a text of ASCII is that of its
-- letters.
pub parse_duration-read :
    (u : Unicode)
    → ((s : String) → Every is_ascii s → u.to_lower s ≡ ascii_lower s)
    → (input : Option String) (key fallback raw : String)
    → parse_duration input key fallback ≡ ok raw
    → (ms : Number) × (parse_duration_to_ms u raw ≡ ok ms)
unfolding parse_duration_to_ms
parse_duration-read u lowers input key fallback raw e =
    let admitted = parse_duration-admits input key fallback raw e in
    let word : Every is_word raw = elim (Bool-cases (is_digits raw)) [
      | inl digits ↦ is_digits-Every raw digits
      | inr other ↦ match_duration-Every raw (ground arith)
    ] in
    let lower = lowered u lowers raw word in
    let (ms, read) = reads raw (ascii_lower raw) (rw (is_digits-lower raw) admitted) in
    (ms, rw lower read)

module _ (t unit : String) (n k : ℕ) where
  unit_not_digits : (span_digits t).1 ≡ unit → is_empty unit ≡ false → is_digits t ≡ false
  unfolding is_digits
  unit_not_digits back more = ground arith

  match_units :
      (span_digits t).0 ≡ decimal n
      → (span_digits t).1 ≡ unit
      → unit_ms unit ≡ some k
      → match_duration t ≡ some (decimal n, k)
  unfolding match_duration
  match_units front back known = rw (back, known, front, decimal-is_empty n) refl

  units_read :
      (raw : String)
      → (span_digits t).0 ≡ decimal n
      → (span_digits t).1 ≡ unit
      → is_empty unit ≡ false
      → unit_ms unit ≡ some k
      → read_duration raw t ≡ ok (times (to_double n) k)
  unfolding read_duration parsed_digits to_double
  units_read raw front back more known =
      rw (unit_not_digits back more, match_units front back known)
        (ap (λ m. ok (times (to_double m) k)) (value-decimal n))

seconds_read :
    (raw : String) (n : ℕ) → read_duration raw (decimal n) ≡ ok (times (to_double n) 1000)
unfolding read_duration parsed_digits to_double
seconds_read raw n =
    rw (decimal-is_digits n) (ap (λ m. ok (times (to_double m) 1000)) (value-decimal n))

-- A number in decimal with one of the units behind it is read as that number of units, and the
-- number alone as that number of seconds, rounded to a double, provided the lower case of a text of
-- ASCII is that of its letters.
pub decimal_read :
    (u : Unicode)
    → ((s : String) → Every is_ascii s → u.to_lower s ≡ ascii_lower s)
    → (n k : ℕ) (unit : String) → unit_ms unit ≡ some k
    → (parse_duration_to_ms u (str_append (decimal n) unit) ≡ ok (times (to_double n) k))
      × (parse_duration_to_ms u (decimal n) ≡ ok (times (to_double n) 1000))
unfolding parse_duration_to_ms
decimal_read u lowers n k unit e =
    let (word, more, low, no_digit, whole) = unit_ms-IsUnit unit k e in
    let (front, back) = span_digits-append (decimal n) unit (decimal-Every n) no_digit whole in
    let digits : Every is_word (decimal n) =
      Every-mono {p = is_digit} {q = is_word} (decimal n) (λ n k. ground arith) (decimal-Every n) in
    let text = str_append (decimal n) unit in
    let all : Every is_word text =
      Every-append is_word (decimal n) unit digits (every-Every is_word unit word) in
    let (lower_front, lower_back) = span_digits-lower text in
    (
      rw (lowered u lowers text all) (
          units_read (ascii_lower text) unit n k text (lower_front ∙ front)
            (lower_back ∙ ap ascii_lower back ∙ low) more e),
      rw (lowered u lowers (decimal n) digits, ascii_lower_of_digits (decimal n) (decimal-Every n))
          (seconds_read (decimal n) n),
    )
