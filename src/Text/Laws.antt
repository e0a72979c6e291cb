-- ===== src/Text/Laws.antt =====
-- Trimming and the lower case of ASCII. The result neither begins nor ends with white space, and trimming it changes nothing.
use Prim.Native.Char.{Char, code}
use Prim.Native.String.{[], ◌∷◌, ◌++◌ as str_append}
use text.Mathlib.TextLemmas.{nil-append, cons-append}
use nestjs_learn.Prelude.{
  ℕ, zero, suc, ◌-◌, ◌≡◌, refl, ◌∙◌, ap, Bool, true, false, not, leb, String, arith, Bool-cases,
  inl, inr, ◌&&◌,
}
use nestjs_learn.Text.{is_empty, is_space, trim_start, trim_end, trim, Every, char_at, lower_char}

-- The text does not begin with white space.
abbrev pub IsFlush : String → Type 0
IsFlush [] = Unit
IsFlush (c ∷ s) = is_space (code c) ≡ false

trim_start-IsFlush : (s : String) → IsFlush (trim_start s)
unfolding trim_start
trim_start-IsFlush [] = tt
trim_start-IsFlush (c ∷ s) = elim (Bool-cases (is_space (code c))) [
  | inl space ↦ rw space (trim_start-IsFlush s)
  | inr other ↦ rw other other
]

trim_start_of_IsFlush : (s : String) → IsFlush s → trim_start s ≡ s
unfolding trim_start
trim_start_of_IsFlush [] h = refl
trim_start_of_IsFlush (c ∷ s) h = rw h

trim_end-IsFlush : (s : String) → IsFlush s → IsFlush (trim_end s)
unfolding trim_end
trim_end-IsFlush [] h = tt
trim_end-IsFlush (c ∷ s) h = rw h h

trim_end_idempotent : (s : String) → trim_end (trim_end s) ≡ trim_end s
unfolding trim_end
trim_end_idempotent [] = refl
trim_end_idempotent (c ∷ s) = elim (Bool-cases (is_space (code c) && is_empty (trim_end s))) [
  | inl gone ↦ rw gone refl
  | inr stays ↦ rw stays (rw (trim_end_idempotent s, stays))
]

pub trim_idempotent : (s : String) → trim (trim s) ≡ trim s
unfolding trim
trim_idempotent s =
    ap trim_end (
      trim_start_of_IsFlush (trim_end (trim_start s))
        (trim_end-IsFlush (trim_start s) (trim_start-IsFlush s)))
    ∙ trim_end_idempotent (trim_start s)

trim_start_of_Every : (s : String) → Every (λ n. not (is_space n)) s → trim_start s ≡ s
trim_start_of_Every [] h = trim_start_of_IsFlush [] tt
trim_start_of_Every (c ∷ s) (h, hs) = trim_start_of_IsFlush (c ∷ s) (ground arith)

trim_end_of_Every : (s : String) → Every (λ n. not (is_space n)) s → trim_end s ≡ s
unfolding trim_end
trim_end_of_Every [] h = refl
trim_end_of_Every (c ∷ s) (h, hs) = let same = trim_end_of_Every s hs in ground arith

-- A text without white space is not changed by trimming.
pub trim_of_Every : (s : String) → Every (λ n. not (is_space n)) s → trim s ≡ s
unfolding trim
trim_of_Every s h = rw (trim_start_of_Every s h) (trim_end_of_Every s h)

char_at-Every :
    (p : ℕ → Bool) (n : ℕ) (s : String) (d : Char)
    → Every p s
    → p (code d) ≡ true
    → p (code (char_at n s d)) ≡ true
unfolding char_at
char_at-Every p n [] d h k = k
char_at-Every p zero (c ∷ s) d (h, hs) k = h
char_at-Every p (suc n) (c ∷ s) d (h, hs) k = char_at-Every p n s d hs k

abbrev pub is_small : ℕ → Bool
is_small n = leb 97 n && leb n 122

abbrev pub every : (ℕ → Bool) → String → Bool
every ok [] = true
every ok (c ∷ s) = ok (code c) && every ok s

-- To check a text by computation.
pub every-Every : (ok : ℕ → Bool) (s : String) → every ok s ≡ true → Every ok s
every-Every ok [] h = tt
every-Every ok (c ∷ s) h = (ground arith, every-Every ok s (ground arith))

pub Every-mono :
    {p q : ℕ → Bool} (s : String) → ((n : ℕ) → p n ≡ true → q n ≡ true) → Every p s → Every q s
Every-mono [] h k = tt
Every-mono (c ∷ s) h (k, ks) = (h (code c) k, Every-mono s h ks)

-- What holds of a character and of the small letters holds of its lower case.
pub lower_char-holds :
    (p : ℕ → Bool) (c : Char)
    → ((n : ℕ) → is_small n ≡ true → p n ≡ true)
    → p (code c) ≡ true
    → p (code (lower_char c)) ≡ true
unfolding lower_char
lower_char-holds p c h k =
    let letters : String = "abcdefghijklmnopqrstuvwxyz" in
    let small : p (code (char_at (code c - 65) letters c)) ≡ true =
      char_at-Every p (code c - 65) letters c
        (Every-mono letters h (every-Every is_small letters refl)) k in
    elim (Bool-cases (leb 65 (code c) && leb (code c) 90)) [
      | inl upper ↦ rw upper small
      | inr other ↦ rw other k
    ]

pub Every-append :
    (ok : ℕ → Bool) (s t : String) → Every ok s → Every ok t → Every ok (str_append s t)
Every-append ok [] t h k = rw nil-append k
Every-append ok (c ∷ s) t (p, h) k = rw cons-append (p, Every-append ok s t h k)
