-- ===== src/Http.antt =====
-- src/common/filters/http-exception.filter.ts and src/common/utils/cors.ts.
pub mod Filter
pub mod Cors
