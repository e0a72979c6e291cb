-- ===== src/Listings/Keys.antt =====
-- The keys of the table of listings: what of it stays true under the statements of the services.
pub mod Operations
pub mod Creation
pub mod Changes
pub mod History
use nestjs_learn.Prelude.{
  ℕ, suc, ◌+◌, ◌≤◌, ◌<◌, ◌≡◌, ◌≢◌, refl, sym, ◌∙◌, subst, ap, Bool, true, false, not, Option, none,
  some, List, [], ◌∷◌, ◌++◌, String, arith, Bool-cases, inl, inr, count, keep, map_where, length,
  All, All-append, All-map_where, All-mono, All-keep, All-at, count-map_where, count-append,
  count-none, count-pos_of_mem, Memᴰ, ◌==◌, eq_iff, if◌then◌else◌,
}
use nestjs_learn.Prisma.{Prisma}
use nestjs_learn.Schema.{Listing}
use nestjs_learn.World.{World}
use nestjs_learn.Listings.Store.{by_id}
use nestjs_learn.Listings.Slug.{has_slug}

-- Each identifier was given out by the database, and no two rows share an identifier or a slug.
pub record IsKeyed (db : Prisma) (rows : List Listing) (issued : ℕ) : Type 0 where
  pub slugs : (s : String) → count (has_slug s) rows ≤ 1
  pub ids : (id : String) → count (by_id id) rows ≤ 1
  pub made : All (λ l. (n : ℕ) × (n < issued) × (l.id ≡ db.cuid n)) rows

module _ (db : Prisma) where
  -- The statement of a world.
  abbrev pub Keyed : World → Type 0
  Keyed w = IsKeyed db w.listings w.issued

  abbrev IsMade : ℕ → Listing → Type 0
  IsMade n l = (m : ℕ) × (m < n) × (l.id ≡ db.cuid m)

  -- A column that a change keeps.
  column_kept :
      (column : Listing → String) (f : Listing → Listing) (b : Bool) (l : Listing) (s : String)
      → column (f l) ≡ column l
      → (column (if b then f l else l) == s) ≡ (column l == s)
  column_kept column f true l s h = ap (λ (t : String). t == s) h
  column_kept column f false l s h = refl

  IsMade-kept :
      (f : Listing → Listing) (n : ℕ) (b : Bool) (l : Listing)
      → (f l).id ≡ l.id
      → IsMade n l
      → IsMade n (if b then f l else l)
  IsMade-kept f n true l h (m, lt, e) = (m, lt, h ∙ e)
  IsMade-kept f n false l h k = k

  pub IsKeyed-fresh : (rows : List Listing) (n : ℕ) → IsKeyed db rows n → IsKeyed db rows (n + 1)
  IsKeyed-fresh rows n k = record {
    slugs = k.slugs;
    ids = k.ids;
    made = All-mono _ rows (λ l (m, lt, e). (m, omega arith, e)) k.made;
  }

  id_kept :
      (test : Listing → Bool) (f : Listing → Listing) (rows : List Listing) (n : ℕ)
      → ((l : Listing) → (f l).id ≡ l.id)
      → IsKeyed db rows n
      → (id : String) → count (by_id id) (map_where test f rows) ≤ 1
  id_kept test f rows n same_id k id =
      subst (λ m. m ≤ 1)
        (sym (
          count-map_where (by_id id) (by_id id) test f rows
            (λ l. column_kept (λ x. x.id) f (test l) l id (same_id l))))
        (k.ids id)

  -- A change that keeps the identifier and the slug of each row.
  pub IsKeyed-map_where :
      (test : Listing → Bool) (f : Listing → Listing) (rows : List Listing) (n : ℕ)
      → ((l : Listing) → (f l).id ≡ l.id)
      → ((l : Listing) → (f l).slug ≡ l.slug)
      → IsKeyed db rows n
      → IsKeyed db (map_where test f rows) n
  IsKeyed-map_where test f rows n same_id same_slug k = record {
    slugs = λ s.
        subst (λ m. m ≤ 1)
          (sym (
            count-map_where (has_slug s) (has_slug s) test f rows
              (λ l. column_kept (λ x. x.slug) f (test l) l s (same_slug l))))
          (k.slugs s);
    ids = λ id. id_kept test f rows n same_id k id;
    made =
        All-map_where (IsMade n) test f rows (λ l. IsMade-kept f n (test l) l (same_id l)) k.made;
  }

  count-keep :
      (q test : Listing → Bool) (rows : List Listing) → count q (keep test rows) ≤ count q rows
  count-keep q test [] = omega arith
  count-keep q test (l ∷ rows) = ground (arith, count-keep q test rows)

  pub IsKeyed-keep :
      (test : Listing → Bool) (rows : List Listing) (n : ℕ)
      → IsKeyed db rows n
      → IsKeyed db (keep test rows) n
  IsKeyed-keep test rows n k = record {
    slugs = λ s. omega (arith, k.slugs s, count-keep (has_slug s) test rows);
    ids = λ id. omega (arith, k.ids id, count-keep (by_id id) test rows);
    made = All-keep _ test rows k.made;
  }

  -- A new row with a new identifier and a free slug.
  pub IsKeyed-append :
      (rows : List Listing) (n : ℕ) (l : Listing)
      → l.id ≡ db.cuid n
      → count (has_slug l.slug) rows ≡ 0
      → IsKeyed db rows n
      → IsKeyed db (rows ++ l ∷ []) (n + 1)
  IsKeyed-append rows n l id free k = record {
    slugs = λ s. ground (arith, k.slugs s, count-append (has_slug s) rows (l ∷ []), same_free s);
    ids = λ i. ground (arith, k.ids i, count-append (by_id i) rows (l ∷ []), new_id i);
    made =
        All-append (IsMade (n + 1)) rows (l ∷ []) (IsKeyed-fresh rows n k).made
          ((n, omega arith, id), tt);
  }
    where
      same_free : (s : String) → (l.slug == s) ≡ true → count (has_slug s) rows ≡ 0
      same_free s e =
          subst (λ (t : String). count (has_slug t) rows ≡ 0) ((eq_iff l.slug s).0 e) free

      new_id : (i : String) → (l.id == i) ≡ true → count (by_id i) rows ≡ 0
      new_id i e = count-none (by_id i) rows (
          All-mono (IsMade n) rows
            (λ x (m, lt, made). elim (Bool-cases (x.id == i)) [
              | inl same ↦
                  let equal : db.cuid m ≡ db.cuid n =
                    sym made ∙ (eq_iff x.id i).0 same ∙ sym ((eq_iff l.id i).0 e) ∙ id in
                  absurd (omega (arith, db.cuid_injective m n equal))
              | inr apart ↦ apart
            ])
            k.made)

  moved_slug :
      (id t : String) (f : Listing → Listing) (rows : List Listing)
      → ((l : Listing) → (f l).slug ≡ t)
      → All (λ r. r.slug ≡ t → (r.id == id) ≡ true) rows
      → count (has_slug t) (map_where (by_id id) f rows) ≡ count (by_id id) rows
  moved_slug id t f [] h k = refl
  moved_slug id t f (r ∷ rows) h (k, ks) =
      ground (arith, moved_slug id t f rows h ks, h r, eq_iff (f r).slug t, eq_iff r.slug t)

  other_slug :
      (id t s : String) (f : Listing → Listing) (rows : List Listing)
      → ((l : Listing) → (f l).slug ≡ t)
      → (t == s) ≡ false
      → count (has_slug s) (map_where (by_id id) f rows) ≤ count (has_slug s) rows
  other_slug id t s f [] h apart = omega arith
  other_slug id t s f (r ∷ rows) h apart =
      let gone : has_slug s (f r) ≡ false =
        subst (λ (x : String). (x == s) ≡ false) (sym (h r)) apart in
      ground (arith, other_slug id t s f rows h apart)

  -- The row of one identifier gets a slug that no other row has.
  pub IsKeyed-slug :
      (id t : String) (f : Listing → Listing) (rows : List Listing) (n : ℕ)
      → ((l : Listing) → (f l).id ≡ l.id)
      → ((l : Listing) → (f l).slug ≡ t)
      → All (λ r. r.slug ≡ t → (r.id == id) ≡ true) rows
      → IsKeyed db rows n
      → IsKeyed db (map_where (by_id id) f rows) n
  IsKeyed-slug id t f rows n same_id new_slug other k = record {
    slugs = λ s. elim (Bool-cases (t == s)) [
      | inl same ↦
          subst (λ (x : String). count (has_slug x) (map_where (by_id id) f rows) ≤ 1)
            ((eq_iff t s).0 same) (omega (arith, k.ids id, moved_slug id t f rows new_slug other))
      | inr apart ↦ omega (arith, k.slugs s, other_slug id t s f rows new_slug apart)
    ];
    ids = id_kept (by_id id) f rows n same_id k;
    made =
        All-map_where (IsMade n) (by_id id) f rows (λ l. IsMade-kept f n (by_id id l) l (same_id l))
          k.made;
  }
