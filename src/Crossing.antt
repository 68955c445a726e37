-- ===== src/Crossing.antt =====
-- The calls that minisys makes of the emulator, from one side to the other. A function of
-- minisys/emu.h is a thunk that makes a supervisor call: the arguments are in `r0` to `r3`, the
-- processor stops, a handler of src/api.cpp runs, and the ARM code goes on with what is in `r0`.
pub mod Processor
pub mod Transfers
pub mod Open
pub mod Handlers
pub mod Files
pub mod Wide
pub mod SaveAndLoad
pub mod Devices
pub mod Clock
pub mod Panic
pub mod Numbers
use ga330_libretro.Common.{ℕ, none, some, if◌then◌else◌, ltb, get_elem?}
use ga330_libretro.Machine.{word_mod, Memory, Cmd, ◌>>=◌, pure, ok, fault}
use ga330_libretro.Minisys.Files.{EmuFiles}
use ga330_libretro.Minisys.Devices.{EmuDevices}
use ga330_libretro.Emu.Uc.{Unicorn, r0}
use ga330_libretro.Emu.Action.{Action, Outcome, done, undefined}
use ga330_libretro.Emu.Host.{Host, System}
use ga330_libretro.Emu.Filesystem.{Streams}
use ga330_libretro.Emu.Svc.{
  svc_fopen, svc_fopen_w, svc_fclose, svc_fread, svc_fseek, svc_ftell, svc_fwrite, svc_get_key_pad,
  svc_get_time_ms, svc_sleep_ms, svc_new_frame,
}

-- The memory of the engine, byte by byte; behind the end of the address space there is nothing that
-- the engine could give.
abbrev pub guest_memory : {U : Type 0} → Unicorn U → U → Memory → Memory
guest_memory uc u beyond x =
    if ltb x word_mod
    then elim (uc.mem_read x 1 u) [ none ↦ none | some bs ↦ get_elem? bs 0 ]
    else beyond x

-- The engine as it is when ARM code with the memory has made a supervisor call: `r0` to `r3`, and
-- the memory.
abbrev pub Enter : Type 0 → Type 0
Enter U = ℕ → ℕ → ℕ → ℕ → Memory → U

module _ {U S W : Type 0} (uc : Unicorn U) (enter : Enter U) where
  -- The state of the emulator when a handler is called.
  abbrev pub entered : Host U S W → ℕ → ℕ → ℕ → ℕ → Memory → Host U S W
  entered h a b c d m = record h { engine = enter a b c d m }

  -- How the ARM code goes on. Where the emulator's behaviour is undefined, so is that of the call.
  abbrev pub resumed : Outcome (Host U S W) (Unit {0}) → Cmd ℕ
  resumed (done x h) μ =
      ok (uc.reg_read r0 h.engine) (record μ { mem = guest_memory uc h.engine μ.mem })
  resumed undefined μ = fault

  -- A call of the emulator in the state `h`.
  abbrev pub served : Action (Host U S W) (Unit {0}) → Host U S W → ℕ → ℕ → ℕ → ℕ → Cmd ℕ
  served handler h a b c d μ = resumed (handler (entered h a b c d μ.mem)) μ

  -- The functions of minisys/emu.h on files, as the emulator in the state `h` serves them. A
  -- register without an argument is 0.
  abbrev pub served_files : Streams S W → System W → Host U S W → EmuFiles
  served_files lib sys h = record {
    fopen = λ path mode. served (svc_fopen uc lib) h path mode 0 0;
    fopen_w = λ path mode. served (svc_fopen_w uc lib sys) h path mode 0 0;
    fclose = λ fd. served (svc_fclose uc lib) h fd 0 0 0 >>= λ r. pure tt;
    fread = λ buffer size count fd. served (svc_fread uc lib) h buffer size count fd;
    fseek = λ fd offset whence. served (svc_fseek uc lib) h fd offset whence 0;
    ftell = λ fd. served (svc_ftell uc lib) h fd 0 0 0;
    fwrite = λ buffer size count fd. served (svc_fwrite uc lib) h buffer size count fd;
  }

  -- The other functions of minisys/emu.h that have a result or end a frame.
  abbrev pub served_devices : System W → Host U S W → EmuDevices
  served_devices sys h = record {
    get_key_pad = served (svc_get_key_pad uc sys) h 0 0 0 0;
    get_time_ms = served (svc_get_time_ms uc sys) h 0 0 0 0;
    sleep_ms = λ ms. served (svc_sleep_ms uc sys) h ms 0 0 0 >>= λ r. pure tt;
    new_frame = served (svc_new_frame uc) h 0 0 0 0 >>= λ r. pure tt;
  }
