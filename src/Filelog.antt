-- ===== src/Filelog.antt =====
-- internal/filelog: the single-disk voting journal.
pub mod Types
pub mod Codec
pub mod Scan
pub mod Store
