-- ===== src/Database.antt =====
-- Backend/src/database and Backend/include/database.
pub mod Table
pub mod Session
pub mod Invariant
pub mod ImageRepo
pub mod UserRepo
pub mod Samples
mod Tests
