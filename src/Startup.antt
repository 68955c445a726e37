-- ===== src/Startup.antt =====
-- The start of an application, through both sides of the emulator: src/ccdl.cpp loads the file into
-- the guest's memory, and minisys/minisys.c starts there. `Image` and `Parts` have the bytes of a file,
-- `Session` and `Application` the way from the file on the disk to the application.
pub mod Image
pub mod Parts
pub mod Application
pub mod Session
