-- ===== src/Startup/Session.antt =====
-- `load_rom` of src/ccdl.cpp, and then `_start` of minisys/minisys.c in the memory that it leaves.
use ga330_libretro.Common.{
  ℕ, ◌+◌, ◌*◌, ◌≤◌, ◌≡◌, subst, ◌∙◌, true, some, List, ◌∷◌, ◌++◌, length, length-take, inl, arith,
}
use ga330_libretro.Machine.{word_mod, Memory, Machine, read_bytes, Event, panic, text, panicked}
use ga330_libretro.Machine.Access.{Holds, Holds-read_bytes, Holds-append_left, Holds-frame}
use ga330_libretro.Host.{CcosHost}
use ga330_libretro.Dl.Format.{Header, SectionHeader}
use ga330_libretro.Dl.Loader.Outcome.{Refused}
use ga330_libretro.Minisys.Start.{Layout, run_application, start}
use ga330_libretro.Minisys.Start.Run.{run_application-Refused}
use ga330_libretro.Minisys.Start.Sections.{
  bytes_of, data_copied, data_copied-SameOn, data_copied-Holds,
}
use ga330_libretro.Minisys.Start.Boot.{HasData, start-data_copied}
use ga330_libretro.Emu.Uc.{Unicorn, IsLawful, r0, r1}
use ga330_libretro.Emu.Board.{app_load_address, app_max_size, minisys_addr}
use ga330_libretro.Emu.Rom.{Board, Surroundings, after_start, load_rom}
use ga330_libretro.Emu.Rom.Boot.{IsSetUp, at_entry, load_rom-at_entry, entry_state}
use ga330_libretro.Startup.Image.{image_bytes, IsImage, image_bytes-ImageAt}

-- What the engine has in its memory is what the ARM code reads.
abbrev pub IsView : {U : Type 0} → Unicorn U → U → Memory → Type 0
IsView uc u m = (a n : ℕ) (bs : List ℕ) → uc.mem_read a n u ≡ some bs → read_bytes m a n ≡ some bs

module _ {U S W : Type 0} (uc : Unicorn U) (env : Surroundings U S W) (host : CcosHost) (l : Layout)
    (path bin file ms msbuffer app : List ℕ) (b : Board U S W) (u v : U) (ws : List (List ℕ))
    (μ : Machine) where
  -- `_start` as `load_rom` leaves the machine, with the memory behind its first loop.
  pub start_as_left :
      IsLawful uc
      → IsSetUp uc env path bin file ms msbuffer app b u v
      → IsView uc (at_entry uc env (length app) b v).engine μ.mem
      → HasData l μ.mem ws
      → l.sdata + 4 * length ws ≤ app_load_address
      → (start host l
            (uc.reg_read r0 (at_entry uc env (length app) b v).engine)
            (uc.reg_read r1 (at_entry uc env (length app) b v).engine)
            μ
          ≡ run_application host l app_load_address
              (length app)
              (record μ { mem = data_copied μ.mem l.sdata ws }))
        × (app_load_address + length app ≤ word_mod)
        × Holds (data_copied μ.mem l.sdata ws) app_load_address app
  start_as_left law supplied view initial below =
      let (in_r0, in_r1, in_sp, in_memory) =
        entry_state uc env msbuffer app b u v law supplied.short supplied.ready in
      let m = data_copied μ.mem l.sdata ws in
      let same_above =
        data_copied-SameOn μ.mem l.sdata (l.sdata + 4 * length ws) word_mod ws initial.four
          initial.top (inl (omega arith)) in
      let app_at =
        (Holds-read_bytes μ.mem app_load_address (length app) app
          (view app_load_address (length app) app in_memory)).0 in
      let fits : length app ≤ app_max_size =
        rw supplied.cut (omega (arith, length-take app_max_size file)) in
      (
        rw (in_r0, in_r1) (start-data_copied host l app_load_address (length app) ws μ initial),
        omega arith,
        Holds-frame μ.mem m app_load_address (l.sdata + 4 * length ws) word_mod app same_above below
            (omega arith) (omega arith) app_at,
      )

  -- The file that `load_rom` is given is what `_start` loads: when `_start` is called with the
  -- registers and the memory that `load_rom` leaves, `.data` gets its initial values, and then the
  -- application is run from the file's address and with its size; the bytes of the file are still
  -- there.
  pub load_rom-run_application :
      IsLawful uc
      → IsSetUp uc env path bin file ms msbuffer app b u v
      → IsView uc (at_entry uc env (length app) b v).engine μ.mem
      → HasData l μ.mem ws
      → l.sdata + 4 * length ws ≤ app_load_address
      → (m : Memory) × (load_rom uc env path b
          ≡ after_start uc env
              (env.emu_start minisys_addr (at_entry uc env (length app) b v))
              (record b { host = record b.host { engine = v }; opened = true }))
        × (start host l
              (uc.reg_read r0 (at_entry uc env (length app) b v).engine)
              (uc.reg_read r1 (at_entry uc env (length app) b v).engine)
              μ
            ≡ run_application host l app_load_address (length app) (record μ { mem = m }))
        × Holds m l.sdata (bytes_of ws)
        × Holds m app_load_address app
  load_rom-run_application law supplied view initial below =
      let (ran, top, app_at) = start_as_left law supplied view initial below in
      (
        data_copied μ.mem l.sdata ws,
        load_rom-at_entry uc env path bin file ms msbuffer app b u v supplied,
        ran,
        data_copied-Holds μ.mem l.sdata ws initial.four initial.top,
        app_at,
      )

  -- A file on the disk that begins with headers for which the loader refuses it: `_start`, called
  -- with the registers and the memory that `load_rom` leaves, stops the emulation, with the
  -- loader's message and the panic in the log.
  pub load_rom-Refused :
      (hdr : Header) (hs : List SectionHeader) (rest : List ℕ) (e : Event)
      → IsLawful uc
      → IsSetUp uc env path bin file ms msbuffer app b u v
      → app ≡ image_bytes hdr hs ++ rest
      → IsImage hdr hs
      → Refused hdr hs e
      → IsView uc (at_entry uc env (length app) b v).engine μ.mem
      → HasData l μ.mem ws
      → l.sdata + 4 * length ws ≤ app_load_address
      → start host l
          (uc.reg_read r0 (at_entry uc env (length app) b v).engine)
          (uc.reg_read r1 (at_entry uc env (length app) b v).engine)
          μ
        ≡ panic (
            panicked "Failed to load application" 32
            ∷ text "ccdl_from_memory: %d\n"
            ∷ e
            ∷ text "miniSYS _start(%p, %zd)\n"
            ∷ μ.log)
  load_rom-Refused hdr hs rest e law supplied begins image refused view initial below =
      let (m, loads, ran, data_at, app_at) =
        load_rom-run_application law supplied view initial below in
      let whole = subst (λ (bs : List ℕ). Holds m app_load_address bs) begins app_at in
      let head = Holds-append_left m app_load_address (image_bytes hdr hs) rest whole in
      let at_app = image_bytes-ImageAt m app_load_address hdr hs image head in
      ran
      ∙ run_application-Refused host l app_load_address (length app) hdr hs e (record μ { mem = m })
          at_app refused
