-- ===== src/Config/Words.antt =====
-- The texts that are a duration for src/config/env.validation.ts: their characters, their digits and
-- their units.
use Prim.Native.Char.{Char, code}
use Prim.Native.String.{[], ◌∷◌, ◌++◌ as str_append}
use text.Mathlib.TextLemmas.{nil-append, cons-append, append-nil}
use nestjs_learn.Prelude.{
  ℕ, ◌≤◌, ◌≡◌, refl, ap, sym, subst, Bool, true, false, not, ◌&&◌, ◌||◌, some, String, leb, arith,
  Bool-cases, Option-cases, inl, inr, if◌then◌else◌, eq_iff, ◌==◌,
}
use nestjs_learn.Text.{Every, is_empty, is_space, trim, ascii_lower, lower_char}
use nestjs_learn.Text.Laws.{trim_of_Every, lower_char-holds, every, every-Every, Every-mono}
use nestjs_learn.Listings.Slug.Decimal.{decimal-is_empty, is_digit, decimal, decimal-Every}
use nestjs_learn.Config.{unit_ms, match_duration, is_some}
use nestjs_learn.Config.Numbers.{span_digits, is_digits}

abbrev is_upper : ℕ → Bool
is_upper n = leb 65 n && leb n 90

-- The letters and digits of ASCII.
abbrev pub is_word : ℕ → Bool
is_word n = is_digit n || is_upper n || leb 97 n && leb n 122

abbrev pub is_ascii : ℕ → Bool
is_ascii n = leb n 127

lower_char_of_other : (c : Char) → is_upper (code c) ≡ false → lower_char c ≡ c
unfolding lower_char
lower_char_of_other c h = ground arith

pub span_digits-lower :
    (s : String)
    → ((span_digits (ascii_lower s)).0 ≡ (span_digits s).0)
      × ((span_digits (ascii_lower s)).1 ≡ ascii_lower (span_digits s).1)
unfolding span_digits ascii_lower
span_digits-lower [] = (refl, refl)
span_digits-lower (c ∷ s) = elim (Bool-cases (is_digit (code c))) [
  | inl digit ↦
      let same = lower_char_of_other c (ground arith) in
      let (front, back) = span_digits-lower s in
      rw (same, digit) (ap (λ (t : String). c ∷ t) front, back)
  | inr other ↦
      let still : not (is_digit (code (lower_char c))) ≡ true =
        lower_char-holds (λ n. not (is_digit n)) c (λ n k. ground arith) (ground arith) in
      let no : is_digit (code (lower_char c)) ≡ false = ground arith in rw (no, other) (refl, refl)
]

step-Every :
    (b : Bool) (c : Char) (s digits rest : String)
    → is_digit (code c) ≡ b
    → (Every is_word rest → Every is_word s)
    → Every is_word (if◌then◌else◌ {A = String × String} b (c ∷ digits, rest) ([], c ∷ s)).1
    → Every is_word (c ∷ s)
step-Every true c s digits rest e more h = (ground arith, more h)
step-Every false c s digits rest e more h = h

span_digits-Every : (s : String) → Every is_word (span_digits s).1 → Every is_word s
unfolding span_digits
span_digits-Every [] h = tt
span_digits-Every (c ∷ s) h =
    step-Every (is_digit (code c)) c s (span_digits s).0 (span_digits s).1 refl
      (span_digits-Every s) h

-- What holds of the six units holds of every text that is one.
unit_cases :
    (P : String → Type 0)
    → P "ms"
    → P "s"
    → P "m"
    → P "h"
    → P "d"
    → P "w"
    → (s : String) (k : ℕ) → unit_ms s ≡ some k
    → P s
unit_cases P p0 p1 p2 p3 p4 p5 s k e = elim (Bool-cases (s == "ms")) [
  | inl e ↦ subst P (sym ((eq_iff s "ms").0 e)) p0
  | inr n0 ↦ elim (Bool-cases (s == "s")) [
    | inl e ↦ subst P (sym ((eq_iff s "s").0 e)) p1
    | inr n1 ↦ elim (Bool-cases (s == "m")) [
      | inl e ↦ subst P (sym ((eq_iff s "m").0 e)) p2
      | inr n2 ↦ elim (Bool-cases (s == "h")) [
        | inl e ↦ subst P (sym ((eq_iff s "h").0 e)) p3
        | inr n3 ↦ elim (Bool-cases (s == "d")) [
          | inl e ↦ subst P (sym ((eq_iff s "d").0 e)) p4
          | inr n4 ↦ elim (Bool-cases (s == "w")) [
            | inl e ↦ subst P (sym ((eq_iff s "w").0 e)) p5
            | inr n5 ↦ absurd (ground arith)
          ]
        ]
      ]
    ]
  ]
]

-- A unit is a text in lower case, which is not empty and has no digit at its start.
abbrev pub IsUnit : String → Type 0
IsUnit s =
    (every is_word s ≡ true)
    × (is_empty s ≡ false)
    × (ascii_lower s ≡ s)
    × ((span_digits s).0 ≡ [])
    × ((span_digits s).1 ≡ s)

pub unit_ms-IsUnit : (s : String) (k : ℕ) → unit_ms s ≡ some k → IsUnit s
unfolding ascii_lower span_digits
unit_ms-IsUnit =
    unit_cases IsUnit (refl, refl, refl, refl, refl) (refl, refl, refl, refl, refl)
      (refl, refl, refl, refl, refl) (refl, refl, refl, refl, refl) (refl, refl, refl, refl, refl)
      (refl, refl, refl, refl, refl)

ascii_lower-Every : (s : String) → Every is_word (ascii_lower s) → Every is_word s
unfolding ascii_lower
ascii_lower-Every [] h = tt
ascii_lower-Every (c ∷ s) (h, hs) = elim (Bool-cases (is_upper (code c))) [
  | inl upper ↦ (ground arith, ascii_lower-Every s hs)
  | inr other ↦
      let same = lower_char_of_other c other in
      (subst (λ x. is_word (code x) ≡ true) same h, ascii_lower-Every s hs)
]

word_not_space : (n : ℕ) → is_word n ≡ true → not (is_space n) ≡ true
word_not_space n k =
    let low : n ≤ 122 = ground arith in let high : 48 ≤ n = ground arith in ground arith

pub trim_of_word : (s : String) → Every is_word s → trim s ≡ s
trim_of_word s h = trim_of_Every s (Every-mono {q = λ n. not (is_space n)} s word_not_space h)

pub is_digits-Every : (s : String) → is_digits s ≡ true → Every is_word s
unfolding is_digits
is_digits-Every s h =
    span_digits-Every s (
      subst (λ (t : String). Every is_word t) (sym (empty_lem (span_digits s).1 (ground arith))) tt)
  where
    empty_lem : (t : String) → is_empty t ≡ true → t ≡ []
    empty_lem [] e = refl
    empty_lem (c ∷ t) e = absurd (ground arith)

pub match_duration-Every :
    (s : String) → is_some (match_duration (ascii_lower s)) ≡ true → Every is_word s
unfolding match_duration
match_duration-Every s h = span_digits-Every s (
    ascii_lower-Every (span_digits s).1
      (subst (λ (t : String). Every is_word t) (span_digits-lower s).1 known))
  where
    known : Every is_word (span_digits (ascii_lower s)).1
    known = elim (Option-cases (unit_ms (span_digits (ascii_lower s)).1)) [
      | inl missing ↦ absurd (ground arith)
      | inr (k, found) ↦
          every-Every is_word (span_digits (ascii_lower s)).1
            (unit_ms-IsUnit (span_digits (ascii_lower s)).1 k found).0
    ]

pub is_digits-lower : (s : String) → is_digits (ascii_lower s) ≡ is_digits s
unfolding is_digits ascii_lower
is_digits-lower s =
    let (front, back) = span_digits-lower s in
    rw (front, back) (ap (λ b. not (is_empty (span_digits s).0) && b) (is_empty-lower _))
  where
    is_empty-lower : (t : String) → is_empty (ascii_lower t) ≡ is_empty t
    is_empty-lower [] = refl
    is_empty-lower (c ∷ t) = refl

pub span_digits-append :
    (digits rest : String)
    → Every is_digit digits
    → (span_digits rest).0 ≡ []
    → (span_digits rest).1 ≡ rest
    → ((span_digits (str_append digits rest)).0 ≡ digits)
      × ((span_digits (str_append digits rest)).1 ≡ rest)
unfolding span_digits
span_digits-append [] rest h k m = rw nil-append (k, m)
span_digits-append (c ∷ digits) rest (h, hs) k m =
    let (front, back) = span_digits-append digits rest hs k m in
    rw (cons-append, h) (ap (λ (t : String). c ∷ t) front, back)

pub decimal-is_digits : (n : ℕ) → is_digits (decimal n) ≡ true
unfolding is_digits
decimal-is_digits n =
    let (front, back) = span_digits-append (decimal n) [] (decimal-Every n) refl refl in
    subst (λ (s : String). (not (is_empty (span_digits s).0) && is_empty (span_digits s).1) ≡ true)
      (append-nil (decimal n)) (rw (front, back, decimal-is_empty n) refl)

pub ascii_lower_of_digits : (s : String) → Every is_digit s → ascii_lower s ≡ s
unfolding ascii_lower
ascii_lower_of_digits [] h = refl
ascii_lower_of_digits (c ∷ s) (h, hs) =
    rw (lower_char_of_other c (ground arith), ascii_lower_of_digits s hs) refl
