-- ===== src/Emu/Rom/Boot.antt =====
-- From `load_rom` to the first instruction of minisys.
use ga330_libretro.Common.{
  ℕ, ◌<◌, ◌^◌, ◌≡◌, ◌≢◌, refl, sym, subst, ◌∙◌, ap, true, some, List, [], ◌∷◌, ◌++◌, length, take,
  arith,
}
use ga330_libretro.Emu.Uc.{Unicorn, IsLawful, r0, r1, sp, mem_invalid, intr}
use ga330_libretro.Emu.Action.{done, ◌>>=◌, continue}
use ga330_libretro.Emu.Host.{Host, emulation_start}
use ga330_libretro.Emu.Board.{
  map_region, write, unchecked, hook, setup, stack_top, minisys_addr, minisys_size,
  app_load_address, app_max_size, io_region,
}
use ga330_libretro.Emu.Rom.{Board, Surroundings, do_setup, after_start, boot, read_whole, load_rom}
use ga330_libretro.Emu.Rom.Calls.{Succeeds, set_up-Succeeds}

registers_differ : (r0 ≢ r1) × (sp ≢ r1) × (sp ≢ r0)
registers_differ = ground arith

module _ {U S W : Type 0} (uc : Unicorn U) (env : Surroundings U S W) where
  -- What the write of the application and the calls behind it leave in the guest's memory.
  app_in_memory :
      (app : List ℕ) (u v : U)
      → IsLawful uc
      → Succeeds uc
          (write app_load_address app
            ∷ unchecked (map_region io_region)
            ∷ hook mem_invalid
            ∷ hook intr
            ∷ [])
          u
          v
      → uc.mem_read app_load_address (length app) v ≡ some app
  unfolding do_setup
  app_in_memory app u v law (u1, stored, (u2, mapped, (u3, hooked, (u4, hooked_too, last)))) =
      let here = λ (x : U). uc.mem_read app_load_address (length app) x ≡ some app in
      let engine = λ (r : ℕ × U). r.1 in
      let at1 : here u1 = law.mem_same app_load_address app u u1 stored in
      let at2 : here u2 = subst here (ap engine mapped) (
        law.map_mem io_region.from io_region.size io_region.prot app_load_address (length app) app
          u1 at1) in
      let at3 : here u3 =
        subst here (ap engine hooked)
          (law.hook_mem mem_invalid app_load_address (length app) u2 ∙ at2) in
      let at4 : here u4 =
        subst here (ap engine hooked_too)
          (law.hook_mem intr app_load_address (length app) u3 ∙ at3) in
      subst here last at4

  read_whole-some :
      (path bytes : List ℕ) (limit : ℕ) (b : Board U S W)
      → env.contents path b.host.files.1 ≡ some bytes
      → read_whole uc env (some path) limit b ≡ done (take limit bytes) b
  unfolding read_whole
  read_whole-some path bytes limit b e = rw (read_whole, e) refl

  -- The files can be read, and the engine accepts every call of the setup: it is `v` behind them.
  pub record IsSetUp (path bin file ms msbuffer app : List ℕ) (b : Board U S W) (u v : U)
      : Type 0 where
    pub found : env.contents path b.host.files.1 ≡ some file
    pub cut : app ≡ take app_max_size file
    pub short : length app < 2 ^ 32
    pub has_bin : env.minisys_bin b.host.files.1 ≡ some bin
    pub found_ms : env.contents bin b.host.files.1 ≡ some ms
    pub filled :
        msbuffer ≡ take minisys_size (take minisys_size ms ++ env.stack_bytes b.host.files.1)
    pub opened : uc.open_arm b.host.engine ≡ (0, u)
    pub ready : Succeeds uc (setup msbuffer app) u v

  -- The host at the first instruction of minisys, with the engine `v` behind the setup.
  abbrev pub at_entry : ℕ → Board U S W → U → Host U S W
  at_entry size b v =
      let at_r0 = uc.reg_write r0 app_load_address (uc.reg_write sp stack_top v) in
      record b.host { engine = uc.reg_write r1 size at_r0; out = emulation_start ∷ b.host.out }

  pub load_rom-at_entry :
      (path bin file ms msbuffer app : List ℕ) (b : Board U S W) (u v : U)
      → IsSetUp path bin file ms msbuffer app b u v
      → load_rom uc env path b
        ≡ after_start uc env
            (env.emu_start minisys_addr (at_entry (length app) b v))
            (record b { host = record b.host { engine = v }; opened = true })
  unfolding load_rom boot
  load_rom-at_entry path bin file ms msbuffer app b u v h =
      rw
        (
          load_rom,
          ◌>>=◌,
          continue,
          read_whole-some path file app_max_size b h.found,
          h.has_bin,
          read_whole-some bin ms minisys_size b h.found_ms,
          sym h.cut,
          sym h.filled,
        )
        (set_up-Succeeds uc env msbuffer app b u v h.opened h.ready)

  -- What minisys finds in the registers and at the application's address.
  pub entry_state :
      (msbuffer app : List ℕ) (b : Board U S W) (u v : U)
      → IsLawful uc
      → length app < 2 ^ 32
      → Succeeds uc (setup msbuffer app) u v
      → (uc.reg_read r0 (at_entry (length app) b v).engine ≡ app_load_address)
        × (uc.reg_read r1 (at_entry (length app) b v).engine ≡ length app)
        × (uc.reg_read sp (at_entry (length app) b v).engine ≡ stack_top)
        × (uc.mem_read app_load_address (length app) (at_entry (length app) b v).engine ≡ some app)
  entry_state msbuffer app b u v law short ready =
      let at_sp = uc.reg_write sp stack_top v in
      let at_r0 = uc.reg_write r0 app_load_address at_sp in
      let n = length app in
      (
        law.reg_other r0 r1 n at_r0 registers_differ.0
            ∙ law.reg_same r0 app_load_address at_sp (omega arith),
        law.reg_same r1 n at_r0 short,
        law.reg_other sp r1 n at_r0 registers_differ.1
            ∙ law.reg_other sp r0 app_load_address at_sp registers_differ.2
            ∙ law.reg_same sp stack_top v (omega arith),
        law.reg_mem r1 n app_load_address n at_r0
            ∙ law.reg_mem r0 app_load_address app_load_address n at_sp
            ∙ law.reg_mem sp stack_top app_load_address n v
            ∙ app_in_memory app ready.2.2.2.2.2.0 v law ready.2.2.2.2.2.2,
      )

  -- When the files can be read and the engine accepts every call of the setup, the processor starts
  -- at minisys with the application's address and size as the arguments of `_start`, the stack
  -- pointer at the top of the stack, and the application at its address, cut off at the largest
  -- size; the result of `load_rom` is what the run then ends with.
  pub load_rom-starts :
      (path bin file ms msbuffer app : List ℕ) (b : Board U S W) (u v : U)
      → IsLawful uc
      → env.contents path b.host.files.1 ≡ some file
      → app ≡ take app_max_size file
      → length app < 2 ^ 32
      → env.minisys_bin b.host.files.1 ≡ some bin
      → env.contents bin b.host.files.1 ≡ some ms
      → msbuffer ≡ take minisys_size (take minisys_size ms ++ env.stack_bytes b.host.files.1)
      → uc.open_arm b.host.engine ≡ (0, u)
      → Succeeds uc (setup msbuffer app) u v
      → (b1 : Board U S W) × (h : Host U S W) × (load_rom uc env path b
          ≡ after_start uc env (env.emu_start minisys_addr h) b1)
        × (h.files ≡ b.host.files)
        × (uc.reg_read r0 h.engine ≡ app_load_address)
        × (uc.reg_read r1 h.engine ≡ length app)
        × (uc.reg_read sp h.engine ≡ stack_top)
        × (uc.mem_read app_load_address (length app) h.engine ≡ some app)
  load_rom-starts path bin file ms msbuffer app b u v law found cut short has_bin found_ms filled
        opened ready =
      let supplied : IsSetUp path bin file ms msbuffer app b u v = record {
        found = found;
        cut = cut;
        short = short;
        has_bin = has_bin;
        found_ms = found_ms;
        filled = filled;
        opened = opened;
        ready = ready;
      } in
      let (in_r0, in_r1, in_sp, in_memory) = entry_state msbuffer app b u v law short ready in
      (
        record b { host = record b.host { engine = v }; opened = true },
        at_entry (length app) b v,
        load_rom-at_entry path bin file ms msbuffer app b u v supplied,
        refl,
        in_r0,
        in_r1,
        in_sp,
        in_memory,
      )
