-- ===== src/Ucos.antt =====
-- libccos/src/ucos_ii.c and libccos/src/malloc.c: semaphores that do nothing, and the C library's
-- allocator under other names.
use ga330_libretro.Common.{ℕ}
use ga330_libretro.Machine.{Cmd, pure, ◌>>◌}
use ga330_libretro.Host.{ccos_diag}

unfoldable pub os_sem_pend : ℕ → ℕ → ℕ → Cmd (Unit {0})
os_sem_pend pevent timeout err = ccos_diag "STUB OSSemPend" 10

unfoldable pub os_sem_post : ℕ → Cmd ℕ
os_sem_post pevent = ccos_diag "STUB OSSemPost" 14 >> pure 0

module _ (malloc : ℕ → Cmd ℕ) where
  unfoldable pub os_malloc : ℕ → Cmd ℕ
  os_malloc size = malloc size

module _ (free : ℕ → Cmd (Unit {0})) where
  unfoldable pub os_free : ℕ → Cmd (Unit {0})
  os_free ptr = free ptr
