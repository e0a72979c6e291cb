-- ===== src/Listings/Slug/Decimal.antt =====
-- Numbers in decimal, as a template literal prints them, and that different numbers print apart.
use Prim.Native.Char.{Char, code}
use Prim.Native.String.{[], ◌∷◌}
use nestjs_learn.Text.{Every, is_empty}
use nestjs_learn.Prelude.{
  ◌&&◌, leb, ℕ, zero, suc, ◌+◌, ◌-◌, ◌*◌, ◌/◌, ◌%◌, ◌<◌, ◌≡◌, refl, ◌∙◌, sym, ap, Bool, true, false,
  String, ltb, if◌then◌else◌, arith, Bool-cases, inl, inr,
}

abbrev digit : ℕ → Char
digit zero = "0"
digit (suc zero) = "1"
digit (suc (suc zero)) = "2"
digit (suc (suc (suc zero))) = "3"
digit (suc (suc (suc (suc zero)))) = "4"
digit (suc (suc (suc (suc (suc zero))))) = "5"
digit (suc (suc (suc (suc (suc (suc zero)))))) = "6"
digit (suc (suc (suc (suc (suc (suc (suc zero))))))) = "7"
digit (suc (suc (suc (suc (suc (suc (suc (suc zero)))))))) = "8"
digit (suc (suc (suc (suc (suc (suc (suc (suc (suc n))))))))) = "9"

-- The digits of the number before the text; one round for each digit.
digits_before : ℕ → ℕ → String → String
digits_before zero n out = out
digits_before (suc fuel) n out =
    let more = digits_before fuel (n / 10) (digit (n % 10) ∷ out) in
    if ltb n 10 then digit n ∷ out else more

unfoldable pub decimal : ℕ → String
unfolding digits_before
decimal n = digits_before (suc n) n []

unfoldable pub value : ℕ → String → ℕ
value acc [] = acc
value acc (c ∷ s) = value (acc * 10 + (code c - 48)) s

code-digit : (n : ℕ) → n < 10 → code (digit n) - 48 ≡ n
code-digit zero h = refl
code-digit (suc zero) h = refl
code-digit (suc (suc zero)) h = refl
code-digit (suc (suc (suc zero))) h = refl
code-digit (suc (suc (suc (suc zero)))) h = refl
code-digit (suc (suc (suc (suc (suc zero))))) h = refl
code-digit (suc (suc (suc (suc (suc (suc zero)))))) h = refl
code-digit (suc (suc (suc (suc (suc (suc (suc zero))))))) h = refl
code-digit (suc (suc (suc (suc (suc (suc (suc (suc zero)))))))) h = refl
code-digit (suc (suc (suc (suc (suc (suc (suc (suc (suc zero))))))))) h = refl
code-digit (suc (suc (suc (suc (suc (suc (suc (suc (suc (suc n)))))))))) h = absurd (omega arith)

value-digits_before :
    (fuel n : ℕ) (out : String) → n < fuel → value 0 (digits_before fuel n out) ≡ value n out
unfolding value digits_before
value-digits_before zero n out h = absurd (omega arith)
value-digits_before (suc fuel) n out h = elim (Bool-cases (ltb n 10)) [
  | inl small ↦ rw small (ap (λ m. value m out) (omega (arith, code-digit n (ground arith))))
  | inr large ↦ rw large (
      value-digits_before fuel (n / 10) (digit (n % 10) ∷ out) (ground arith)
      ∙ ap (λ m. value m out) (omega (arith, code-digit (n % 10) (omega arith))))
]

pub value-decimal : (n : ℕ) → value 0 (decimal n) ≡ n
unfolding decimal value
value-decimal n = value-digits_before (suc n) n [] (omega arith)

pub decimal_injective : (n m : ℕ) → decimal n ≡ decimal m → n ≡ m
decimal_injective n m e = sym (value-decimal n) ∙ ap (value 0) e ∙ value-decimal m

abbrev pub is_digit : ℕ → Bool
is_digit n = leb 48 n && leb n 57

digit-is_digit : (n : ℕ) → n < 10 → is_digit (code (digit n)) ≡ true
digit-is_digit zero h = refl
digit-is_digit (suc zero) h = refl
digit-is_digit (suc (suc zero)) h = refl
digit-is_digit (suc (suc (suc zero))) h = refl
digit-is_digit (suc (suc (suc (suc zero)))) h = refl
digit-is_digit (suc (suc (suc (suc (suc zero))))) h = refl
digit-is_digit (suc (suc (suc (suc (suc (suc zero)))))) h = refl
digit-is_digit (suc (suc (suc (suc (suc (suc (suc zero))))))) h = refl
digit-is_digit (suc (suc (suc (suc (suc (suc (suc (suc zero)))))))) h = refl
digit-is_digit (suc (suc (suc (suc (suc (suc (suc (suc (suc zero))))))))) h = refl
digit-is_digit (suc (suc (suc (suc (suc (suc (suc (suc (suc (suc n)))))))))) h =
    absurd (omega arith)

digits_before-Every :
    (fuel n : ℕ) (out : String) → Every is_digit out → Every is_digit (digits_before fuel n out)
unfolding digits_before
digits_before-Every zero n out h = h
digits_before-Every (suc fuel) n out h = elim (Bool-cases (ltb n 10)) [
  | inl small ↦ rw small (digit-is_digit n (ground arith), h)
  | inr large ↦
      rw large (digits_before-Every fuel (n / 10) _ (digit-is_digit (n % 10) (omega arith), h))
]

-- The text of a number has digits only.
pub decimal-Every : (n : ℕ) → Every is_digit (decimal n)
unfolding decimal
decimal-Every n = digits_before-Every (suc n) n [] tt

digits_before-is_empty :
    (fuel n : ℕ) (out : String) → is_empty out ≡ false → is_empty (digits_before fuel n out) ≡ false
unfolding digits_before
digits_before-is_empty zero n out h = h
digits_before-is_empty (suc fuel) n out h = elim (Bool-cases (ltb n 10)) [
  | inl small ↦ rw small refl
  | inr large ↦ rw large (digits_before-is_empty fuel (n / 10) _ refl)
]

pub decimal-is_empty : (n : ℕ) → is_empty (decimal n) ≡ false
unfolding decimal digits_before
decimal-is_empty n = elim (Bool-cases (ltb n 10)) [
  | inl small ↦ rw small refl
  | inr large ↦ rw large (digits_before-is_empty n (n / 10) _ refl)
]
