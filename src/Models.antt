-- ===== src/Models.antt =====
-- Backend/include/models and Backend/src/models.
pub mod User
pub mod TaskStatus
pub mod ImageGeneration
pub mod FailureCode
