-- ===== src/Lib.antt =====
-- GA330-libretro runs applications of the Gemei A330 handheld under an ARM emulator. Its ARM side
-- is a small operating system: it loads an application from a CCDL file, links it against the
-- system's functions, and serves its calls.
--
-- The parts and the files:
--
-- * `Machine` is the memory and the console that the ARM code runs on: bytes at 32-bit addresses,
--   mapped or not, little-endian words, and a log of what is printed. A command (`Cmd`) ends with a
--   value, or faults on an unmapped address, runs on for ever (`hang`), or panics. `Machine/Access`,
--   `Machine/Frame` and `Machine/Words` have its lemmas.
-- * `Libc` is `strcmp`, and `Libc/Strings` relates it to lists of bytes.
-- * `Host` is libccos/include/libccos/ccos_host.h: what libccos asks of the system around it.
-- * `Dl/Format` has the structures of libccos/include/libccos/dl.h (`CCDL_header_t` is `Header`,
--   `CCDL_section_header_t` is `SectionHeader`, `CCDL_import_export_header_t` is `TableHeader`,
--   `CCDL_import_export_entry_t` is `TableEntry`, `CCDL_ERPT_entry_t` is `ResourceEntry`; a `DL_t` and
--   a `DL_res_t` live in memory, and have the addresses of their fields).
-- * `Dl/Loader` is `ccdl_from_memory`, `Dl/Exports` is `dl_get_proc`, and `Dl/Resources` is
--   `dl_res_open`, `dl_res_get_size` and `dl_res_get_data`, all of libccos/src/dl.c. Each loop is a
--   function of its own, and each function keeps the order of the reads and writes.
-- * `Minisys` is minisys/minisys.c: `Builtin` is `ccos_get_builtin_proc`, `Start` is `_start`, `Files`
--   has the `fsys` functions, `Devices` the display, the keypad and the clock.
-- * `Crossing` is a call of the emulator from the ARM code: `Crossing/Processor` says what the
--   processor passes on, and `Crossing/Open`, `Crossing/Handlers` and `Crossing/Transfers` have the
--   handlers of src/api.cpp as the ARM code sees them. `Crossing/Files`, `Crossing/Wide` and
--   `Crossing/SaveAndLoad` are the file functions of minisys with these handlers behind them,
--   `Crossing/Devices` and `Crossing/Clock` the keypad and the clock, `Crossing/Panic` is the trace of
--   a panic, and `Crossing/Numbers` the thunk in between.
-- * `Startup` puts `load_rom` of the emulator and `_start` of minisys together: `Startup/Image` and
--   `Startup/Parts` are the bytes of a file, `Startup/Session` and `Startup/Application` the way from
--   the disk to the application.
-- * `Syscalls` is minisys/syscalls.c, with `sbrk`, `sys_write` and so on for `_sbrk`, `_write`.
-- * `Ucos` is libccos/src/ucos_ii.c and libccos/src/malloc.c.
-- * `Emu` is the emulator around the ARM code. `Emu/Uc` is the interface of the processor (the
--   unicorn library), and `Emu/Host` the state beside it. `Emu/Filesystem` is src/filesystem.cpp,
--   whose `open_files` is a table of streams by handle; `Emu/Svc` has the supervisor calls of
--   src/api.cpp (`svc_fopen` for `Svc_GemeiEmu_fopen`); `Emu/Debug` is `aarch32_walk_stack` of
--   src/debug.cpp; `Emu/Board` has the memory map and the hooks of src/ccdl.cpp, `Emu/Rom` its
--   `load_rom` and `ccdl_run_frame` (`opened` of `Board` says that the static pointer to the engine
--   is not null); `Emu/Standalone` is src/standalone-main.cpp.
-- * `Retro` is src/libretro-main.cpp: `Retro/Api` has the types of include/libretro.h that it uses,
--   `Retro/State` its static variables, `Retro/Core` its functions, `Retro` and `Retro/Keypad` the
--   keypad, `Retro/Saves` saved states, `Retro/Run` the frames, and `Retro/Emulated` and
--   `Retro/Failed` the frames on the machine of `Emu/Rom`.
-- * `Build/Thunks` is make-thunks.py, which makes the functions that an application imports and the
--   table of the emulator's handlers; `Build/Thunks/Table` joins its table with minisys.
-- * `Examples` is a small CCDL file in memory, on which the theorems are instantiated.
--
-- How the parts interact: `_start` calls the loader, which calls `ccos_get_builtin_proc` for each
-- import through the record `CcosHost`, which `minisys_host` fills. The application then calls
-- `dl_get_proc`, the resource functions and the file functions, through the thunks that the loader
-- wrote. A thunk for a function of the emulator makes a supervisor call, on which the processor calls
-- `hook_intr`, which runs a handler of `Emu/Svc`; its file functions work on `Emu/Filesystem`. The
-- frontend calls the core, which runs the processor frame by frame.
--
-- Addresses are natural numbers that wrap at 2 ^ 32 when memory is used, and sums that the code
-- keeps in a variable wrap where the variable is written. An `int` is its 32-bit pattern, read as a
-- signed number where the code does. Undefined behaviour (a read past the 500 bytes of a file name)
-- is a fault.
--
-- Bounds: a loop over a table recurses on the entries that are left, and needs no other bound.
-- `strcmp` compares at most 2 ^ 32 bytes, the number of addresses, after which it would go round the
-- address space for ever. `copy_data` runs for `data_rounds` rounds, the words of `.data` and the last
-- test; past them it hangs.
--
-- The strings that a supervisor call reads have fewer than 2 ^ 31 bytes, the values of the index `i`
-- of the loop in `get_string` (2 ^ 30 units in `get_wstring`); behind them the index overflows.
--
-- Parameters: `malloc`, a call of application code, the addresses that minisys.ld places, and the
-- functions of the emulator behind minisys/emu.h, which `Crossing` fills with the handlers.
-- Formatted output is logged by its format. Streams (`std::fstream`) and the disk behind them are a
-- parameter of `Emu/Filesystem`, with any behaviour. The processor is a parameter with named laws,
-- `IsLawful`: registers and memory keep what is written to them. Its run, `uc_emu_start`, is a
-- function of `Surroundings` that may do anything. For the calls of `Crossing`, `IsProcessor` says
-- that a supervisor call hands the registers and the memory over (`Enter`), that the ARM code goes
-- on with what the handler left there, and that a write to mapped memory changes the bytes that are
-- written. The callbacks of the frontend are parameters of the core.
--
-- Not modelled: the instructions of the processor, so that the ARM side runs on `Machine` and the
-- emulator's side on the engine. The two meet in the memory (`IsView`: what the engine gives for an
-- address is what `Machine` reads there) and its changes (`IsMemory`), the memory map, the arguments
-- of `_start`, the numbers of the supervisor calls and the handles; the text of the generated C
-- files; minisys.ld; and the copies of other projects' code (include/libretro.h beyond the types
-- that the core uses, dependencies/GSL).
pub mod Common
pub mod Machine
pub mod Host
pub mod Libc
pub mod Dl
pub mod Minisys
pub mod Crossing
pub mod Startup
pub mod Syscalls
pub mod Ucos
pub mod Build
pub mod Emu
pub mod Retro
pub mod Examples
