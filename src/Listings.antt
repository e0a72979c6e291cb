-- ===== src/Listings.antt =====
-- src/modules/listings.
pub mod Types
pub mod Mapper
pub mod Input
pub mod Query
pub mod Store
pub mod Shown
pub mod Service
pub mod Update
pub mod Ownership
pub mod Keys
pub mod Images
pub mod Slug
