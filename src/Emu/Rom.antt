-- ===== src/Emu/Rom.antt =====
-- src/ccdl.cpp: how the machine is set up with an application, and run frame by frame.
pub mod Frames
pub mod Calls
pub mod Boot
use ga330_libretro.Common.{
  ℕ, zero, suc, ◌+◌, ◌-◌, ◌*◌, ◌/◌, ◌^◌, ◌%◌, Bool, true, false, Option, none, some, List, [], ◌∷◌,
  ◌++◌, length, take, get_elem?, if◌then◌else◌, ◌==◌,
}
use ga330_libretro.Common.Signed.{ℤ, pos, negsuc}
use ga330_libretro.Machine.{wrap, u32_at}
use ga330_libretro.Emu.Board.{
  Setup, map_region, write, unchecked, hook, setup, stack_top, minisys_addr, minisys_size,
  framebuf_addr, app_load_address, app_max_size,
}
use ga330_libretro.Emu.Uc.{Unicorn, Reg, r0, r1, sp, pc, HookKind, mem_invalid, intr, MemType}
use ga330_libretro.Emu.Action.{Action, Outcome, done, undefined, pure, stuck, ◌>>=◌, ◌>>◌}
use ga330_libretro.Emu.Host.{
  Message, trace, invalid_access, failed, at_pc, emulation_start, emulation_done, Host, print, reg,
  set_reg,
}

-- On with the engine, or out with the error.
abbrev pub err_check : {U : Type 0} → ℕ × U → (U → ℕ × U) → ℕ × U
err_check (zero, u) k = k u
err_check (suc e, u) k = (suc e, u)

module _ {U : Type 0} (uc : Unicorn U) where
  unfoldable pub do_setup : Setup → U → ℕ × U
  do_setup (map_region r) u = uc.mem_map r.from r.size r.prot u
  do_setup (write addr bytes) u = uc.mem_write addr bytes u
  do_setup (unchecked s) u = (0, (do_setup s u).1)
  do_setup (hook kind) u = uc.hook_add kind u

  -- `ERR_CHECK()` behind each call: the first error ends the list.
  unfoldable pub run_setup : List Setup → U → ℕ × U
  run_setup [] u = (0, u)
  run_setup (s ∷ rest) u = err_check (do_setup s u) (run_setup rest)

-- The static variables of the file, with what the emulator has beside them. `opened` says that the
-- pointer `uc` is not null; without it, `host.engine` is not what `uc` points to.
pub record Board (U S W : Type 0) : Type 0 where
  pub host : Host U S W
  pub aborted : Bool
  pub opened : Bool

-- What `load_rom` and `ccdl_run_frame` use: the contents of a file, the path of minisys in the
-- environment, what is on the stack where `msbuffer` will stand, and `uc_emu_start`, which runs
-- the processor from an address, and with it the hooks.
pub record Surroundings (U S W : Type 0) : Type 0 where
  pub contents : List ℕ → W → Option (List ℕ)
  pub minisys_bin : W → Option (List ℕ)
  pub stack_bytes : W → List ℕ
  pub emu_start : ℕ → Host U S W → ℕ × Host U S W

module _ {U S W : Type 0} (uc : Unicorn U) (env : Surroundings U S W) where
  abbrev pub on_host : {A : Type 0} → Action (Host U S W) A → Action (Board U S W) A
  on_host m b = elim (m b.host) [
    | undefined ↦ undefined
    | done a h ↦ done a (record b { host = h })
  ]

  -- `fread` of at most `limit` bytes of a file; a file that cannot be opened is a null pointer.
  unfoldable pub read_whole : Option (List ℕ) → ℕ → Action (Board U S W) (List ℕ)
  read_whole path limit b = elim path [
    | none ↦ undefined
    | some p ↦ elim (env.contents p b.host.files.1) [
      | none ↦ undefined
      | some bytes ↦ done (take limit bytes) b
    ]
  ]

  -- Behind `uc_emu_start`.
  unfoldable pub after_start : ℕ × Host U S W → Action (Board U S W) ℤ
  after_start (err, h) b0 = elim (err == 0) [
    | false ↦ done (negsuc 0) (record b0 {
      host = record h { out = failed err ∷ at_pc (uc.reg_read pc h.engine) ∷ h.out };
      aborted = true;
    })
    | true ↦
        done (pos 0)
          (record b0 { host = record h { out = emulation_done (uc.reg_read r1 h.engine) ∷ h.out } })
  ]

  -- From the registers on.
  unfoldable pub boot : ℕ → Action (Board U S W) ℤ
  boot app_size b0 =
      let engine = uc.reg_write sp stack_top b0.host.engine in
      let engine = uc.reg_write r0 app_load_address engine in
      let engine = uc.reg_write r1 app_size engine in
      let ready = record b0.host { engine = engine; out = emulation_start ∷ b0.host.out } in
      after_start (env.emu_start minisys_addr ready) b0

  -- Behind the calls on the engine that set the machine up.
  unfoldable pub launch : ℕ × U → ℕ → Action (Board U S W) ℤ
  launch (zero, engine) app_size b =
      boot app_size (record b { host = record b.host { engine = engine } })
  launch (suc e, engine) app_size b =
      done (negsuc 0)
        (record b { host = record b.host { engine = engine; out = failed (suc e) ∷ b.host.out } })

  -- Behind `uc_open`: only when it succeeds, `uc` points to the new engine.
  unfoldable pub after_open : ℕ × U → List ℕ → List ℕ → Action (Board U S W) ℤ
  after_open (zero, engine) msbuffer app b =
      launch (run_setup uc (setup msbuffer app) engine) (length app) (record b { opened = true })
  after_open (suc e, engine) msbuffer app b =
      done (negsuc 0) (record b { host = record b.host { out = failed (suc e) ∷ b.host.out } })

  -- From `uc_open` on.
  unfoldable pub set_up : List ℕ → List ℕ → Action (Board U S W) ℤ
  set_up msbuffer app b = after_open (uc.open_arm b.host.engine) msbuffer app b

  unfoldable pub load_rom : List ℕ → Action (Board U S W) ℤ
  load_rom path = do
    app ← read_whole (some path) app_max_size
    bin ← (λ b. done (env.minisys_bin b.host.files.1) b)
    ms ← read_whole bin minisys_size
    garbage ← (λ b. done (env.stack_bytes b.host.files.1) b)
    set_up (take minisys_size (ms ++ garbage)) app

  -- The run of the processor in a frame, from where it stopped before.
  unfoldable pub resume : Board U S W → Board U S W
  resume b =
      let at = uc.reg_read pc b.host.engine in
      let (err, h) = env.emu_start at b.host in
      if err == 0
      then record b { host = h }
      else record b { host = record h { out = failed err ∷ at_pc at ∷ h.out }; aborted = true }

  -- Without an engine, a null pointer is read.
  unfoldable pub ccdl_run_frame : Action (Board U S W) (Unit {0})
  ccdl_run_frame b =
      if b.aborted then done tt b else if b.opened then done tt (resume b) else undefined

  -- The bytes of the frame buffer; where they cannot be read, those of the caller stay.
  unfoldable pub picture : List ℕ → Board U S W → List ℕ
  picture frame_buf_out b = elim (uc.mem_read framebuf_addr (320 * 240 * 2) b.host.engine) [
    | none ↦ frame_buf_out
    | some bytes ↦ bytes
  ]

  unfoldable pub ccdl_get_framebuffer : List ℕ → Action (Board U S W) (List ℕ)
  ccdl_get_framebuffer frame_buf_out b =
      if b.opened then done (picture frame_buf_out b) b else undefined
