-- ===== src/Minisys.antt =====
-- minisys/minisys.c: the small operating system that loads the application. `Builtin` has the table
-- of its functions, `Start` its entry point, `Files` the file functions, `Devices` the display,
-- the keypad and the clock.
pub mod Builtin
pub mod Start
pub mod Files
pub mod Devices
pub mod Api
