-- ===== src/Core.antt =====
-- src/core: the value that crosses the database boundary (orm-value.c), the dialects
-- (orm-enums.h) and the error codes (orm-error.h).
pub mod Platform
pub mod Value
pub mod Error
