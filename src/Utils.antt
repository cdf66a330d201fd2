-- ===== src/Utils.antt =====
-- Backend/include/utils and Backend/src/utils.
pub mod Chrono
pub mod RequestId
