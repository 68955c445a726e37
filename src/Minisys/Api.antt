-- ===== src/Minisys/Api.antt =====
-- minisys/thunksdef.h: the functions of minisys.c that an application can import.
use ga330_libretro.Common.{ℕ}
use ga330_libretro.Common.Signed.{ℤ}
use ga330_libretro.Machine.{Cmd}
use ga330_libretro.Minisys.Files
use ga330_libretro.Minisys.Files.{EmuFiles}
use ga330_libretro.Minisys.Devices
use ga330_libretro.Minisys.Devices.{EmuDevices}

pub record OsApi : Type 0 where
  pub fsys_fopen : ℕ → ℕ → Cmd ℕ
  pub fsys_fopen_w : ℕ → ℕ → Cmd ℕ
  pub fsys_fread : ℕ → ℕ → ℕ → ℕ → Cmd ℕ
  pub fsys_fwrite : ℕ → ℕ → ℕ → ℕ → Cmd ℕ
  pub fsys_fseek : ℕ → ℕ → ℕ → Cmd ℕ
  pub fsys_ftell : ℕ → Cmd ℕ
  pub fsys_fclose : ℕ → Cmd (Unit {0})
  pub get_dl_handle_upper : Cmd ℕ
  pub get_dl_handle : Cmd ℕ
  pub to_locale_ansi : Cmd ℕ
  pub lcd_get_frame : Cmd ℕ
  pub lcd_get_fb : Cmd ℕ
  pub lcd_get_height : Cmd ℕ
  pub lcd_get_width : Cmd ℕ
  pub lcd_get_fb_format : ℕ → ℕ → Cmd ℕ
  pub sys_judge_event : ℕ → Cmd ℤ
  pub kbd_get_status : ℕ → Cmd (Unit {0})
  pub rmt_get_status : Cmd ℕ
  pub os_time_dly : ℕ → Cmd (Unit {0})
  pub os_time_get : Cmd ℕ

-- The functions of minisys.c, with the addresses of `my_dl` and of a literal.
abbrev pub minisys_api : (ℕ → Cmd ℕ) → EmuFiles → EmuDevices → ℕ → ℕ → OsApi
minisys_api malloc files devices my_dl placeholder = record {
  fsys_fopen = Files.fsys_fopen malloc files;
  fsys_fopen_w = Files.fsys_fopen_w malloc files;
  fsys_fread = Files.fsys_fread files;
  fsys_fwrite = Files.fsys_fwrite files;
  fsys_fseek = Files.fsys_fseek files;
  fsys_ftell = Files.fsys_ftell files;
  fsys_fclose = Files.fsys_fclose files;
  get_dl_handle_upper = Devices.get_dl_handle_upper my_dl;
  get_dl_handle = Devices.get_dl_handle my_dl;
  to_locale_ansi = Devices.to_locale_ansi placeholder;
  lcd_get_frame = Devices.lcd_get_frame;
  lcd_get_fb = Devices.lcd_get_fb;
  lcd_get_height = Devices.lcd_get_height;
  lcd_get_width = Devices.lcd_get_width;
  lcd_get_fb_format = Devices.lcd_get_fb_format;
  sys_judge_event = Devices.sys_judge_event devices;
  kbd_get_status = Devices.kbd_get_status devices;
  rmt_get_status = Devices.rmt_get_status;
  os_time_dly = Devices.os_time_dly devices;
  os_time_get = Devices.os_time_get devices;
}
