-- ===== src/Users.antt =====
-- src/modules/users.
pub mod Mapper
pub mod Accounts
pub mod Profile
pub mod OwnListings
