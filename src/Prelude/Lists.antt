-- ===== src/Prelude/Lists.antt =====
-- Lists measured, cut and tested with native numbers and Booleans, and a predicate on all members.
use Prim.Native.Nat.{ℕ, zero, suc, ◌+◌, ◌<◌}
use mathlib.Core.Path.{◌≡◌, refl, ap}
use mathlib.Core.Logic.{inl, inr}
use mathlib.Core.Bool.{Bool, true, false, ◌||◌}
use mathlib.Core.List.{List, [], ◌∷◌, ◌++◌, Memᴰ, map}
use native.Mathlib.Omega.{arith}
use nestjs_learn.Prelude.Tests.{if◌then◌else◌, Bool-cases}

module _ {ℓ} {A : Type ℓ} where
  abbrev pub length : List A → ℕ
  length [] = 0
  length (x ∷ xs) = suc (length xs)

  abbrev pub take : ℕ → List A → List A
  take zero xs = []
  take (suc n) [] = []
  take (suc n) (x ∷ xs) = x ∷ take n xs

  abbrev pub drop : ℕ → List A → List A
  drop zero xs = xs
  drop (suc n) [] = []
  drop (suc n) (x ∷ xs) = drop n xs

  -- The members that pass a test, in their order.
  abbrev pub keep : (A → Bool) → List A → List A
  keep test [] = []
  keep test (x ∷ xs) = let rest = keep test xs in if test x then x ∷ rest else rest

  abbrev pub count : (A → Bool) → List A → ℕ
  count test [] = 0
  count test (x ∷ xs) = let rest = count test xs in if test x then suc rest else rest

  abbrev pub any : (A → Bool) → List A → Bool
  any test [] = false
  any test (x ∷ xs) = test x || any test xs

  -- The members that pass the test are replaced.
  abbrev pub map_where : (A → Bool) → (A → A) → List A → List A
  map_where test f [] = []
  map_where test f (x ∷ xs) = (if test x then f x else x) ∷ map_where test f xs

  pub length-append : (xs ys : List A) → length (xs ++ ys) ≡ length xs + length ys
  length-append [] ys = omega arith
  length-append (x ∷ xs) ys = omega (arith, length-append xs ys)

module _ {ℓ κ} {A : Type ℓ} (P : A → Type κ) where
  abbrev pub All : List A → Type κ
  All [] = Unit
  All (x ∷ xs) = P x × All xs

  pub All-append : (xs ys : List A) → All xs → All ys → All (xs ++ ys)
  All-append [] ys h k = k
  All-append (x ∷ xs) ys (p, h) k = (p, All-append xs ys h k)

  pub All-at : (xs : List A) {x : A} → All xs → Memᴰ x xs → P x
  All-at [] h m = elim m [ ]
  All-at (y ∷ xs) (p, h) (Memᴰ.head e) = rw e p
  All-at (y ∷ xs) (p, h) (Memᴰ.tail m) = All-at xs h m

  pub All-map_where :
      (test : A → Bool) (f : A → A) (xs : List A)
      → ((x : A) → P x → P (if test x then f x else x))
      → All xs
      → All (map_where test f xs)
  All-map_where test f [] step h = tt
  All-map_where test f (x ∷ xs) step (p, h) = (step x p, All-map_where test f xs step h)

module _ {ℓ} {A : Type ℓ} where
  pub map_where-none :
      (test : A → Bool) (f : A → A) (xs : List A)
      → All (λ x. test x ≡ false) xs
      → map_where test f xs ≡ xs
  map_where-none test f [] h = refl
  map_where-none test f (x ∷ xs) (p, h) = rw (p, map_where-none test f xs h)

  pub count-none :
      (test : A → Bool) (xs : List A) → All (λ x. test x ≡ false) xs → count test xs ≡ 0
  count-none test [] h = refl
  count-none test (x ∷ xs) (p, h) = rw (p, count-none test xs h)

  pub All-of_count :
      (test : A → Bool) (xs : List A) → count test xs ≡ 0 → All (λ x. test x ≡ false) xs
  All-of_count test [] h = tt
  All-of_count test (x ∷ xs) h = (ground arith, All-of_count test xs (ground arith))

  pub mem-map_where :
      (test : A → Bool) (f : A → A) (xs : List A) {y : A}
      → Memᴰ y (map_where test f xs)
      → (x : A) × Memᴰ x xs × (y ≡ (if test x then f x else x))
  mem-map_where test f [] m = elim m [ ]
  mem-map_where test f (x ∷ xs) (Memᴰ.head e) = (x, Memᴰ.head refl, e)
  mem-map_where test f (x ∷ xs) (Memᴰ.tail m) =
      let (z, mz, e) = mem-map_where test f xs m in (z, Memᴰ.tail mz, e)

  pub map_where-mem :
      (test : A → Bool) (f : A → A) (xs : List A) {x : A}
      → Memᴰ x xs
      → Memᴰ (if test x then f x else x) (map_where test f xs)
  map_where-mem test f [] m = elim m [ ]
  map_where-mem test f (x ∷ xs) (Memᴰ.head e) = Memᴰ.head (ap (λ z. if test z then f z else z) e)
  map_where-mem test f (x ∷ xs) (Memᴰ.tail m) = Memᴰ.tail (map_where-mem test f xs m)

module _ {ℓ κ} {A : Type ℓ} (P : A → Type κ) where
  pub All-keep : (test : A → Bool) (xs : List A) → All P xs → All P (keep test xs)
  All-keep test [] h = tt
  All-keep test (x ∷ xs) (p, h) = elim (Bool-cases (test x)) [
    | inl passed ↦ rw passed (p, All-keep test xs h)
    | inr failed ↦ rw failed (All-keep test xs h)
  ]

  pub All-mono : {Q : A → Type κ} (xs : List A) → ((x : A) → P x → Q x) → All P xs → All Q xs
  All-mono [] step h = tt
  All-mono (x ∷ xs) step (p, h) = (step x p, All-mono xs step h)

module _ {ℓ κ} {A : Type ℓ} (P : A → Type κ) where
  pub All-of_mem : (xs : List A) → ((x : A) → Memᴰ x xs → P x) → All P xs
  All-of_mem [] h = tt
  All-of_mem (x ∷ xs) h = (h x (Memᴰ.head refl), All-of_mem xs (λ y m. h y (Memᴰ.tail m)))

module _ {ℓ} {A : Type ℓ} where
  pub map_where_cong :
      (test test' : A → Bool) (f : A → A) (xs : List A)
      → All (λ x. test x ≡ test' x) xs
      → map_where test f xs ≡ map_where test' f xs
  map_where_cong test test' f [] h = refl
  map_where_cong test test' f (x ∷ xs) (e, h) = rw (e, map_where_cong test test' f xs h)

  pub count-pos_of_mem :
      (test : A → Bool) (xs : List A) {x : A} → Memᴰ x xs → test x ≡ true → 0 < count test xs
  count-pos_of_mem test [] m h = elim m [ ]
  count-pos_of_mem test (y ∷ ys) {x} (Memᴰ.head e) h =
      let passed : test y ≡ true = rw e at h in ground arith
  count-pos_of_mem test (y ∷ ys) (Memᴰ.tail m) h =
      let later = count-pos_of_mem test ys m h in ground arith

  pub count-map_where :
      (test test' u : A → Bool) (f : A → A) (xs : List A)
      → ((x : A) → test (if u x then f x else x) ≡ test' x)
      → count test (map_where u f xs) ≡ count test' xs
  count-map_where test test' u f [] h = refl
  count-map_where test test' u f (x ∷ xs) h = rw (h x, count-map_where test test' u f xs h)

  pub count-append :
      (test : A → Bool) (xs ys : List A) → count test (xs ++ ys) ≡ count test xs + count test ys
  count-append test [] ys = omega arith
  count-append test (x ∷ xs) ys = ground (arith, count-append test xs ys)

module _ {ℓ κ} {A : Type ℓ} (P : A → Type κ) where
  pub All-take : (n : ℕ) (xs : List A) → All P xs → All P (take n xs)
  All-take zero xs h = tt
  All-take (suc n) [] h = tt
  All-take (suc n) (x ∷ xs) (p, h) = (p, All-take n xs h)

  pub All-drop : (n : ℕ) (xs : List A) → All P xs → All P (drop n xs)
  All-drop zero xs h = h
  All-drop (suc n) [] h = tt
  All-drop (suc n) (x ∷ xs) (p, h) = All-drop n xs h

module _ {ℓ κ μ} {A : Type ℓ} {B : Type κ} (P : B → Type μ) where
  pub All-map : (f : A → B) (xs : List A) → All (λ x. P (f x)) xs → All P (map f xs)
  All-map f [] h = tt
  All-map f (x ∷ xs) (p, h) = (p, All-map f xs h)

module _ {ℓ} {A : Type ℓ} where
  pub mem-append_last : (xs : List A) (x : A) → Memᴰ x (xs ++ x ∷ [])
  mem-append_last [] x = Memᴰ.head refl
  mem-append_last (y ∷ xs) x = Memᴰ.tail (mem-append_last xs x)

  pub any_of_mem :
      (test : A → Bool) (xs : List A) {x : A} → Memᴰ x xs → test x ≡ true → any test xs ≡ true
  any_of_mem test [] m h = elim m [ ]
  any_of_mem test (y ∷ xs) (Memᴰ.head e) h = let passed : test y ≡ true = rw e at h in ground arith
  any_of_mem test (y ∷ xs) (Memᴰ.tail m) h = let later = any_of_mem test xs m h in ground arith

  pub any-append :
      (test : A → Bool) (xs ys : List A) → any test (xs ++ ys) ≡ (any test xs || any test ys)
  any-append test [] ys = refl
  any-append test (x ∷ xs) ys = let rest = any-append test xs ys in ground arith

  pub any-none :
      (test : A → Bool) (xs : List A) → All (λ x. test x ≡ false) xs → any test xs ≡ false
  any-none test [] h = refl
  any-none test (x ∷ xs) (p, h) = let rest = any-none test xs h in ground arith

  pub mem-append_left : (xs ys : List A) {x : A} → Memᴰ x xs → Memᴰ x (xs ++ ys)
  mem-append_left [] ys m = elim m [ ]
  mem-append_left (y ∷ xs) ys (Memᴰ.head e) = Memᴰ.head e
  mem-append_left (y ∷ xs) ys (Memᴰ.tail m) = Memᴰ.tail (mem-append_left xs ys m)

module _ {ℓ κ} {A : Type ℓ} {B : Type κ} where
  pub count-map :
      (test : B → Bool) (f : A → B) (xs : List A)
      → count test (map f xs) ≡ count (λ x. test (f x)) xs
  count-map test f [] = refl
  count-map test f (x ∷ xs) = rw (count-map test f xs)
