-- ===== src/Pagination.antt =====
-- The paging that the services share: `skip: (query.page - 1) * query.limit, take: query.limit` and
-- the `meta` object, as in src/modules/notifications/notifications.service.ts. The validated query
-- has `page >= 1` and `1 <= limit <= 100`.
pub mod Cover
use nestjs_learn.Prelude.{ℕ, ◌+◌, ◌-◌, ◌*◌, ◌/◌, Bool, List}
use nestjs_learn.Prisma.{Prisma, Order}

pub record Paging : Type 0 where
  pub page : ℕ
  pub limit : ℕ

pub record Meta : Type 0 where
  pub total : ℕ
  pub page : ℕ
  pub limit : ℕ
  pub total_pages : ℕ

pub record Paged (A : Type 0) : Type 0 where
  pub data_rows : List A
  pub meta : Meta

-- `Math.ceil(total / limit)`.
abbrev pub total_pages : ℕ → ℕ → ℕ
total_pages total limit = (total + (limit - 1)) / limit

abbrev pub meta_of : ℕ → Paging → Meta
meta_of total q = record {
  total = total;
  page = q.page;
  limit = q.limit;
  total_pages = total_pages total q.limit;
}

-- The transaction of a `count` and a `findMany`, over one table.
unfoldable pub find_paged :
    Prisma → {Row : Type 0} → (Row → Bool) → List (Order Row) → Paging → List Row → Paged Row
find_paged db test order q rows = record {
  data_rows = db.find_page test order ((q.page - 1) * q.limit) q.limit rows;
  meta = meta_of (db.count_rows test rows) q;
}
