-- ===== src/Loader.antt =====
-- src/core/profile/loader.c: profiles and fan tables are read from files, as JSON or as sections of keys
-- and values.
pub mod Values
pub mod Json
pub mod Document
pub mod Named
pub mod Rounds
pub mod Valid
