-- ===== src/Prisma/Ordering.antt =====
-- The order of the rows under an `orderBy` clause, and what an arrangement of them is.
use nestjs_learn.Prelude.{
  ◌≡◌, ◌∙◌, refl, sym, ap, subst, Bool, true, false, ◌||◌, List, [], ◌∷◌, Memᴰ, All, All-at, count,
  count-none, arith, Bool-cases, inl, inr, keep,
}
use nestjs_learn.Prisma.{Order, asc, desc, before, IsOrdered, IsArrangement}

pub before_irrefl : {Row : Type 0} (order : List (Order Row)) (a : Row) → before order a a ≡ false
before_irrefl [] a = refl
before_irrefl (asc key ∷ rest) a = ground (arith, before_irrefl rest a)
before_irrefl (desc key ∷ rest) a = ground (arith, before_irrefl rest a)

-- Not to stand before is transitive.
pub before_trans :
    {Row : Type 0} (order : List (Order Row)) (a b c : Row)
    → before order a b ≡ false
    → before order b c ≡ false
    → before order a c ≡ false
before_trans [] a b c h k = refl
before_trans (asc key ∷ rest) a b c h k = ground (arith, before_trans rest a b c)
before_trans (desc key ∷ rest) a b c h k = ground (arith, before_trans rest a b c)

pub before_asym :
    {Row : Type 0} (order : List (Order Row)) (a b : Row)
    → before order a b ≡ true
    → before order b a ≡ false
before_asym [] a b h = cc
before_asym (asc key ∷ rest) a b h = ground (arith, before_asym rest a b)
before_asym (desc key ∷ rest) a b h = ground (arith, before_asym rest a b)

-- No two of the rows are equal under the clause.
abbrev pub HasNoTies : {Row : Type 0} → List (Order Row) → List Row → Type 0
HasNoTies order [] = Unit
HasNoTies order (x ∷ xs) =
    All (λ y. (before order x y || before order y x) ≡ true) xs × HasNoTies order xs

module _ {Row : Type 0} (order : List (Order Row)) where
  equal_of_tie :
      (xs : List Row) (a b : Row)
      → HasNoTies order xs
      → Memᴰ a xs
      → Memᴰ b xs
      → before order a b ≡ false
      → before order b a ≡ false
      → a ≡ b
  equal_of_tie [] a b t m n h k = elim m [ ]
  equal_of_tie (x ∷ xs) a b (t, ts) (Memᴰ.head e) (Memᴰ.head f) h k = e ∙ sym f
  equal_of_tie (x ∷ xs) a b (t, ts) (Memᴰ.head e) (Memᴰ.tail n) h k =
      let apart : (before order a b || before order b a) ≡ true =
        subst (λ (z : Row). (before order z b || before order b z) ≡ true) (sym e)
          (All-at _ xs t n) in
      absurd (ground arith)
  equal_of_tie (x ∷ xs) a b (t, ts) (Memᴰ.tail m) (Memᴰ.head f) h k =
      let apart : (before order b a || before order a b) ≡ true =
        subst (λ (z : Row). (before order z a || before order a z) ≡ true) (sym f)
          (All-at _ xs t m) in
      absurd (ground arith)
  equal_of_tie (x ∷ xs) a b (t, ts) (Memᴰ.tail m) (Memᴰ.tail n) h k = equal_of_tie xs a b ts m n h k

  -- A row does not stand before the first one of another ordered list with the same members.
  not_before_first :
      (x y : Row) (xs ys : List Row)
      → IsOrdered order (y ∷ ys)
      → ((q : Row → Bool) → count q (x ∷ xs) ≡ count q (y ∷ ys))
      → before order x y ≡ false
  not_before_first x y xs ys (first, rest) same = elim (Bool-cases (before order x y)) [
    | inr later ↦ later
    | inl early ↦
        let none_earlier = count-none (λ z. before order z y) ys first in
        let irreflexive = before_irrefl order y in
        let counted = same (λ z. before order z y) in absurd (ground arith)
  ]

  -- Two ordered lists with the same members are the same list where no two rows are equal under the
  -- clause.
  pub ordered_unique :
      (rows xs ys : List Row)
      → HasNoTies order rows
      → All (λ r. Memᴰ r rows) xs
      → All (λ r. Memᴰ r rows) ys
      → IsOrdered order xs
      → IsOrdered order ys
      → ((q : Row → Bool) → count q xs ≡ count q ys)
      → xs ≡ ys
  ordered_unique rows [] [] t mx my ox oy same = refl
  ordered_unique rows [] (y ∷ ys) t mx my ox oy same =
      let counted = same (λ _. true) in absurd (ground arith)
  ordered_unique rows (x ∷ xs) [] t mx my ox oy same =
      let counted = same (λ _. true) in absurd (ground arith)
  ordered_unique rows (x ∷ xs) (y ∷ ys) t (mx, mxs) (my, mys) ox oy same =
      let e : x ≡ y =
        equal_of_tie rows x y t mx my (not_before_first x y xs ys oy same)
          (not_before_first y x ys xs ox (λ q. sym (same q))) in
      let tails : (q : Row → Bool) → count q xs ≡ count q ys =
        λ q. let counted = same q in let also : q x ≡ q y = ap q e in ground arith in
      rw (e, ordered_unique rows xs ys t mxs mys ox.1 oy.1 tails)

  pub arrangement_unique :
      (test : Row → Bool) (rows xs ys : List Row)
      → HasNoTies order (keep test rows)
      → IsArrangement test order rows xs
      → IsArrangement test order rows ys
      → xs ≡ ys
  arrangement_unique test rows xs ys t a b =
      ordered_unique (keep test rows) xs ys t a.members b.members a.ordered b.ordered
        (λ q. a.counts q ∙ sym (b.counts q))
