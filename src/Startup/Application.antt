-- ===== src/Startup/Application.antt =====
-- From the file on the disk to the application's `AppMain`: `load_rom` of src/ccdl.cpp, `_start` of
-- minisys/minisys.c, and the loader of libccos/src/dl.c.
use ga330_libretro.Common.{ℕ, ◌+◌, ◌*◌, ◌≤◌, ◌≡◌, ◌∙◌, List, ◌∷◌, length}
use ga330_libretro.Machine.{Machine, ok, text}
use ga330_libretro.Host.{CcosHost}
use ga330_libretro.Dl.Format.{Header, SectionHeader}
use ga330_libretro.Dl.Handle.{DlAt, filled}
use ga330_libretro.Dl.Loader.Link.{Import}
use ga330_libretro.Dl.Loader.Image.{loaded}
use ga330_libretro.Dl.Exports.Lookup.{Export}
use ga330_libretro.Minisys.Start.{Layout, start}
use ga330_libretro.Minisys.Start.Run.{IsReady, run_application-app_main}
use ga330_libretro.Minisys.Start.Sections.{data_copied}
use ga330_libretro.Minisys.Start.Boot.{HasData}
use ga330_libretro.Emu.Uc.{Unicorn, IsLawful, r0, r1}
use ga330_libretro.Emu.Board.{app_load_address}
use ga330_libretro.Emu.Rom.{Board, Surroundings}
use ga330_libretro.Emu.Rom.Boot.{IsSetUp, at_entry}
use ga330_libretro.Startup.Parts.{IsFile, HasRoom, file-IsLoadable}
use ga330_libretro.Startup.Session.{IsView, start_as_left}

module _ {U S W : Type 0} (uc : Unicorn U) (env : Surroundings U S W) (host : CcosHost) (l : Layout)
    (path bin file ms msbuffer app : List ℕ) (b : Board U S W) (u v : U) (ws : List (List ℕ))
    (μ : Machine) where
  -- From the file on the disk to `AppMain`. The file has a header that this loader takes, its
  -- sections, the code and a table of imports; memory has room for them, and minisys a function for
  -- each import; the application's entry point, called with the code and the thunks in place,
  -- returns, and the file then exports `AppMain`. Then `_start`, called with the registers and the
  -- memory that `load_rom` leaves, calls `AppMain` with the address of `my_dl`, where the file's
  -- `DL_t` stands by then.
  pub load_rom-app_main :
      (lo hi : ℕ) (hdr : Header) (hs : List SectionHeader) (c s : SectionHeader)
      (code unused : List ℕ) (es : List Import) (xs : List Export) (address r : ℕ) (μ2 : Machine)
      → IsLawful uc
      → IsSetUp uc env path bin file ms msbuffer app b u v
      → IsView uc (at_entry uc env (length app) b v).engine μ.mem
      → HasData l μ.mem ws
      → l.sdata + 4 * length ws ≤ app_load_address
      → IsFile app hdr hs c s code unused es
      → HasRoom host lo hi (data_copied μ.mem l.sdata ws) app_load_address (length app) c s es
      → host.call c.entry_point 0 0 (record {
        mem = loaded (data_copied μ.mem l.sdata ws) c code es;
        log = text "miniSYS _start(%p, %zd)\n" ∷ μ.log;
      })
        ≡ ok r μ2
      → IsReady host l app_load_address (length app) hdr hs μ2 xs address
      → (start host l
            (uc.reg_read r0 (at_entry uc env (length app) b v).engine)
            (uc.reg_read r1 (at_entry uc env (length app) b v).engine)
            μ
          ≡ l.call_app address l.my_dl (record {
            mem = filled μ2.mem l.my_dl app_load_address (length app) hdr;
            log = text "minSYS: AppMain=%p\n" ∷ text "ccdl_from_memory: %d\n" ∷ μ2.log;
          }))
        × DlAt
            (filled μ2.mem l.my_dl app_load_address (length app) hdr)
            l.my_dl
            app_load_address
            (length app)
            hdr
  load_rom-app_main lo hi hdr hs c s code unused es xs address r μ2 law supplied view initial below
        is room called next =
      let m = data_copied μ.mem l.sdata ws in
      let (ran, top, app_at) =
        start_as_left uc env host l path bin file ms msbuffer app b u v ws μ law supplied view
          initial below in
      let can =
        file-IsLoadable host lo hi m app_load_address app hdr hs c s code unused es app_at is
          room in
      let (main, at_dl) =
        run_application-app_main host l app_load_address (length app) hdr hs lo hi c code es xs
          address r (record μ { mem = m }) μ2 can called next in
      (ran ∙ main, at_dl)
