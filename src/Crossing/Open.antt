-- ===== src/Crossing/Open.antt =====
-- `Svc_GemeiEmu_fopen` of src/api.cpp as the ARM code sees it: the names are strings in its memory.
use ga330_libretro.Common.{ℕ, ◌+◌, ◌<◌, ◌^◌, ◌≡◌, refl, ◌∙◌, some, List, ◌∷◌, length, arith}
use ga330_libretro.Common.Table.{find}
use ga330_libretro.Machine.{word_mod, Memory, Machine, ok}
use ga330_libretro.Emu.Uc.{Unicorn, r0, r1}
use ga330_libretro.Emu.Action.{done}
use ga330_libretro.Emu.Host.{opening, Host}
use ga330_libretro.Emu.Filesystem.{Streams, no_file, open_file}
use ga330_libretro.Emu.Filesystem.Handles.{
  IsSound, Opens, Refuses, open_file-find, open_file-Refuses,
}
use ga330_libretro.Emu.Svc.{svc_fopen}
use ga330_libretro.Emu.Svc.Files.{Text, svc_fopen-Text}
use ga330_libretro.Libc.Strings.{CString}
use ga330_libretro.Crossing.{Enter, entered, served}
use ga330_libretro.Crossing.Processor.{IsProcessor, served-same, Text-CString}

-- The path and the mode are strings in memory, shorter than the emulator's loops can count.
pub record AreNames (path_at mode_at : ℕ) (path mode : List ℕ) (m : Memory) : Type 0 where
  pub path_fits : path_at < word_mod
  pub mode_fits : mode_at < word_mod
  pub short_path : length path < 2 ^ 31
  pub short_mode : length mode < 2 ^ 31
  pub path_there : CString m path_at path
  pub mode_there : CString m mode_at mode

module _ {U S W : Type 0} (uc : Unicorn U) (lib : Streams S W) (enter : Enter U) where
  svc_fopen-AreNames :
      (path_at mode_at : ℕ) (path mode : List ℕ) (h : Host U S W) (μ : Machine)
      → IsProcessor uc enter
      → AreNames path_at mode_at path mode μ.mem
      → (let r = open_file lib path mode h.files in
          svc_fopen uc lib (entered uc enter h path_at mode_at 0 0 μ.mem)
          ≡ done tt (record {
            engine = uc.reg_write r0 r.0 (enter path_at mode_at 0 0 μ.mem);
            files = r.1;
            out = opening path mode ∷ h.out;
          }))
  svc_fopen-AreNames path_at mode_at path mode h μ is names =
      let u = enter path_at mode_at 0 0 μ.mem in
      let args =
        is.registers path_at mode_at 0 0 μ.mem names.path_fits names.mode_fits (omega arith)
          (omega arith) in
      let here = is.memory path_at mode_at 0 0 μ.mem in
      let at_path : Text uc u (uc.reg_read r0 u) 0 path =
        rw args.in_r0 (Text-CString uc u μ.mem path_at path here names.path_there) in
      let at_mode : Text uc u (uc.reg_read r1 u) 0 mode =
        rw args.in_r1 (Text-CString uc u μ.mem mode_at mode here names.mode_there) in
      svc_fopen-Text uc lib path mode (entered uc enter h path_at mode_at 0 0 μ.mem)
        names.short_path names.short_mode at_path at_mode

  pub svc_fopen-served :
      (path_at mode_at : ℕ) (path mode : List ℕ) (s : S) (w' : W) (h : Host U S W) (μ : Machine)
      → IsProcessor uc enter
      → AreNames path_at mode_at path mode μ.mem
      → IsSound h.files.0
      → h.files.0.next_handle + 1 < 2 ^ 31
      → Opens lib h.files.1 path mode s w'
      → (h' : Host U S W) × (svc_fopen uc lib (entered uc enter h path_at mode_at 0 0 μ.mem)
          ≡ done tt h')
        × (find h.files.0.next_handle h'.files.0.open_files ≡ some s)
        × (h'.files.1 ≡ w')
        × IsSound h'.files.0
        × (served uc enter (svc_fopen uc lib) h path_at mode_at 0 0 μ ≡ ok h.files.0.next_handle μ)
  svc_fopen-served path_at mode_at path mode s w' h μ is names sound room opens =
      let u = enter path_at mode_at 0 0 μ.mem in
      let (fs', got, free, found, others, next, sound') =
        open_file-find lib h.files.0 h.files.1 w' path mode s sound room opens in
      let h' : Host U S W = record {
        engine = uc.reg_write r0 h.files.0.next_handle u;
        files = (fs', w');
        out = opening path mode ∷ h.out;
      } in
      let ran : svc_fopen uc lib (entered uc enter h path_at mode_at 0 0 μ.mem) ≡ done tt h' =
        svc_fopen-AreNames path_at mode_at path mode h μ is names ∙ (rw got refl) in
      (
        h',
        ran,
        found,
        refl,
        sound',
        served-same uc enter (svc_fopen uc lib) h h' path_at mode_at 0 0 h.files.0.next_handle μ is
            ran refl (omega arith),
      )

  -- A file that is refused: the pattern of -1.
  pub svc_fopen-refused :
      (path_at mode_at : ℕ) (path mode : List ℕ) (w' : W) (h : Host U S W) (μ : Machine)
      → IsProcessor uc enter
      → AreNames path_at mode_at path mode μ.mem
      → Refuses lib h.files.1 path mode w'
      → (h' : Host U S W) × (svc_fopen uc lib (entered uc enter h path_at mode_at 0 0 μ.mem)
          ≡ done tt h')
        × (h'.files ≡ (h.files.0, w'))
        × (served uc enter (svc_fopen uc lib) h path_at mode_at 0 0 μ ≡ ok no_file μ)
  svc_fopen-refused path_at mode_at path mode w' h μ is names refuses =
      let got = open_file-Refuses lib h.files.0 h.files.1 w' path mode refuses in
      let h' : Host U S W = record {
        engine = uc.reg_write r0 no_file (enter path_at mode_at 0 0 μ.mem);
        files = (h.files.0, w');
        out = opening path mode ∷ h.out;
      } in
      let ran : svc_fopen uc lib (entered uc enter h path_at mode_at 0 0 μ.mem) ≡ done tt h' =
        svc_fopen-AreNames path_at mode_at path mode h μ is names ∙ (rw got refl) in
      (
        h',
        ran,
        refl,
        served-same uc enter (svc_fopen uc lib) h h' path_at mode_at 0 0 no_file μ is ran refl
            (omega arith),
      )
