-- ===== src/Dips.antt =====
-- internal/dips: the service that generates, keeps and deletes DIPs (dissemination packages).
pub mod Datatypes
pub mod Persistence
pub mod UpdateDip
pub mod CreateDip
pub mod Service
pub mod ParseMetadata
