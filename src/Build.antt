-- ===== src/Build.antt =====
-- What the build generates.
pub mod Thunks
