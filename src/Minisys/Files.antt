-- ===== src/Minisys/Files.antt =====
-- The file functions of minisys/minisys.c. A handle of the emulator is kept in a block of memory of
-- its own, and the application has the block's address.
pub mod Handles
use ga330_libretro.Common.{ℕ, ◌+◌, String, if◌then◌else◌, ltb, ◌^◌}
use ga330_libretro.Machine.{Cmd, pure, ◌>>=◌, ◌>>◌, load32, store32, print, diag}
use ga330_libretro.Host.{ccos_diag}

-- The emulator's calls on files (minisys/emu.h, minisys/thunks.c, src/api.cpp), with numbers and
-- results as the patterns of `int`s.
pub record EmuFiles : Type 0 where
  pub fopen : ℕ → ℕ → Cmd ℕ
  pub fopen_w : ℕ → ℕ → Cmd ℕ
  pub fclose : ℕ → Cmd (Unit {0})
  pub fread : ℕ → ℕ → ℕ → ℕ → Cmd ℕ
  pub fseek : ℕ → ℕ → ℕ → Cmd ℕ
  pub ftell : ℕ → Cmd ℕ
  pub fwrite : ℕ → ℕ → ℕ → ℕ → Cmd ℕ

-- `fd >= 0`: a pointer to memory that holds `fd`; else `NULL`.
unfoldable pub wrap_fd : (ℕ → Cmd ℕ) → ℕ → Cmd ℕ
wrap_fd malloc fd =
    if ltb fd (2 ^ 31) then (do p_fd ← malloc 4; store32 p_fd fd; pure p_fd) else pure 0

module _ (malloc : ℕ → Cmd ℕ) (emu : EmuFiles) where
  unfoldable pub fsys_fopen : ℕ → ℕ → Cmd ℕ
  fsys_fopen path mode = do
    ccos_diag "STUB fsys_fopen" 107
    fd ← emu.fopen path mode
    wrap_fd malloc fd

  unfoldable pub fsys_fopen_w : ℕ → ℕ → Cmd ℕ
  fsys_fopen_w path mode = do
    ccos_diag "STUB fsys_fopenW" 122
    fd ← emu.fopen_w path mode
    wrap_fd malloc fd

module _ (emu : EmuFiles) where
  unfoldable pub fsys_fclose : ℕ → Cmd (Unit {0})
  fsys_fclose p_fd = do fd ← load32 p_fd; emu.fclose fd

  unfoldable pub fsys_fread : ℕ → ℕ → ℕ → ℕ → Cmd ℕ
  fsys_fread buffer size count p_fd = do fd ← load32 p_fd; emu.fread buffer size count fd

  unfoldable pub fsys_fseek : ℕ → ℕ → ℕ → Cmd ℕ
  fsys_fseek p_fd offset whence = do fd ← load32 p_fd; emu.fseek fd offset whence

  unfoldable pub fsys_ftell : ℕ → Cmd ℕ
  fsys_ftell p_fd = do fd ← load32 p_fd; emu.ftell fd

  unfoldable pub fsys_fwrite : ℕ → ℕ → ℕ → ℕ → Cmd ℕ
  fsys_fwrite buffer size count p_fd = do fd ← load32 p_fd; emu.fwrite buffer size count fd
