-- ===== src/Minisys/Devices.antt =====
-- The rest of minisys/minisys.c: the handle of the application, the display, the clock, the event
-- loop and the keypad.
pub mod Keypad
use ga330_libretro.Common.{ℕ, ◌+◌, ◌*◌}
use ga330_libretro.Common.Signed.{ℤ, negsuc}
use ga330_libretro.Machine.{Cmd, pure, ◌>>=◌, ◌>>◌, store32}
use ga330_libretro.Host.{ccos_diag}

-- The emulator's calls of minisys/emu.h that are not about files; numbers are patterns of `int`s.
pub record EmuDevices : Type 0 where
  pub get_key_pad : Cmd ℕ
  pub get_time_ms : Cmd ℕ
  pub sleep_ms : ℕ → Cmd (Unit {0})
  pub new_frame : Cmd (Unit {0})

-- The address that the framebuffer is mapped at.
abbrev pub framebuffer : ℕ
framebuffer = 0x80000000

-- `GetDLHandle` and `get_dl_handle`: the address of `my_dl`.
unfoldable pub get_dl_handle_upper : ℕ → Cmd ℕ
get_dl_handle_upper my_dl = ccos_diag "STUB GetDLHandle" 67 >> pure my_dl

unfoldable pub get_dl_handle : ℕ → Cmd ℕ
get_dl_handle my_dl = ccos_diag "STUB get_dl_handle" 73 >> pure my_dl

unfoldable pub lcd_get_frame : Cmd ℕ
lcd_get_frame = ccos_diag "STUB lcd_get_frame" 78 >> pure framebuffer

unfoldable pub lcd_get_fb : Cmd ℕ
lcd_get_fb = ccos_diag "STUB LCDGetFB" 83 >> pure framebuffer

unfoldable pub lcd_get_fb_format : ℕ → ℕ → Cmd ℕ
lcd_get_fb_format unk_0 unk_4 = ccos_diag "STUB LCDGetFBFormat" 88 >> pure 0

unfoldable pub lcd_get_height : Cmd ℕ
lcd_get_height = pure 240

unfoldable pub lcd_get_width : Cmd ℕ
lcd_get_width = pure 320

-- The result is the address of a literal, `placeholder`.
unfoldable pub to_locale_ansi : ℕ → Cmd ℕ
to_locale_ansi placeholder = ccos_diag "STUB __to_locale_ansi" 162 >> pure placeholder

unfoldable pub rmt_get_status : Cmd ℕ
rmt_get_status = pure 0

module _ (emu : EmuDevices) where
  unfoldable pub os_time_dly : ℕ → Cmd (Unit {0})
  os_time_dly ms = emu.sleep_ms ms

  unfoldable pub os_time_get : Cmd ℕ
  os_time_get = emu.get_time_ms

  unfoldable pub sys_judge_event : ℕ → Cmd ℤ
  sys_judge_event cb = do emu.new_frame; pure (negsuc 0)

  -- The third of three words has the keys.
  unfoldable pub kbd_get_status : ℕ → Cmd (Unit {0})
  kbd_get_status outputs = do
    store32 outputs 0
    store32 (outputs + 4) 0
    keys ← emu.get_key_pad
    store32 (outputs + 8) keys
