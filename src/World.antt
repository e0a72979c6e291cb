-- ===== src/World.antt =====
-- The state that the services share, the tables of the database and what left the process, and the
-- monad in which they run: a method may throw, and what it wrote before that stays written. Prisma's
-- interactive and batched transactions roll back.
pub mod Exec
pub mod Laws
pub mod Rules
pub use Exec.*
