-- ===== src/Orm.antt =====
-- src/orm: the object-relational mapping.
pub mod IdentityMap
pub mod Property
pub mod Mapper
pub mod Session
pub mod Query
