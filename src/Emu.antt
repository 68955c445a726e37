-- ===== src/Emu.antt =====
-- The emulator around the ARM code: the processor that it uses (`Uc`), the state beside it (`Host`),
-- src/filesystem.cpp, the supervisor calls of src/api.cpp, the stack walk of src/debug.cpp, and
-- the machine of src/ccdl.cpp (`Board`).
pub mod Uc
pub mod Action
pub mod Host
pub mod Filesystem
pub mod Debug
pub mod Svc
pub mod Board
pub mod Rom
pub mod Standalone
