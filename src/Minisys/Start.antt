-- ===== src/Minisys/Start.antt =====
-- `_start` of minisys/minisys.c: the `.data` section is initialised, the application is loaded,
-- and its `AppMain` is called.
pub mod Sections
pub mod Boot
pub mod Run
use ga330_libretro.Common.{ℕ, zero, suc, ◌+◌, ◌/◌, ◌-◌, Bool, true, false, if◌then◌else◌, ltb}
use ga330_libretro.Common.Signed.{ℤ, pos, negsuc}
use ga330_libretro.Machine.{Cmd, pure, hang, ◌>>=◌, ◌>>◌, memcpy, print, text}
use ga330_libretro.Host.{CcosHost, ccos_panic}
use ga330_libretro.Dl.Loader.{ccdl_from_memory}
use ga330_libretro.Dl.Exports.{dl_get_proc}

-- What the linker places, and the call of a function of the application with one argument.
pub record Layout : Type 0 where
  pub sidata : ℕ
  pub sdata : ℕ
  pub edata : ℕ
  -- the variable `my_dl`, and the literal "AppMain"
  pub my_dl : ℕ
  pub app_main : ℕ
  pub call_app : ℕ → ℕ → Cmd ℕ

-- `while (dst < &_edata) *(dst++) = *(src++);`
unfoldable pub copy_data : ℕ → ℕ → ℕ → ℕ → Cmd (Unit {0})
copy_data zero edata src dst = λ μ. hang
copy_data (suc rounds) edata src dst =
    if ltb dst edata
    then (do memcpy dst src 4; copy_data rounds edata (src + 4) (dst + 4))
    else pure tt

-- Enough rounds for the words from `sdata` to `edata`, and the last test.
abbrev pub data_rounds : Layout → ℕ
data_rounds l = (l.edata - l.sdata + 3) / 4 + 1

abbrev pub is_negative : ℤ → Bool
is_negative (pos n) = false
is_negative (negsuc n) = true

-- With the data in place: the application is loaded and started.
unfoldable pub run_application : CcosHost → Layout → ℕ → ℕ → Cmd ℕ
run_application host l file_bytes file_size = do
  print (text "miniSYS _start(%p, %zd)\n")
  rc ← ccdl_from_memory host l.my_dl file_bytes file_size
  print (text "ccdl_from_memory: %d\n")
  if is_negative rc then ccos_panic "Failed to load application" 32 else do
    app_main_address ← dl_get_proc host l.my_dl l.app_main
    print (text "minSYS: AppMain=%p\n")
    l.call_app app_main_address l.my_dl

unfoldable pub start : CcosHost → Layout → ℕ → ℕ → Cmd ℕ
start host l file_bytes file_size =
    copy_data (data_rounds l) l.edata l.sidata l.sdata
    >> run_application host l file_bytes file_size
