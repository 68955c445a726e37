-- ===== src/Syscalls.antt =====
-- minisys/syscalls.c: what newlib asks of minisys. `_sbrk` hands out the heap, `_write` and `_read`
-- are the console, and the others are stubs.
pub mod Heap
pub mod Console
use ga330_libretro.Common.{
  ℕ, zero, suc, ◌+◌, ◌-◌, ◌^◌, List, [], ◌∷◌, if◌then◌else◌, ◌==◌, ltb, ◌%◌,
}
use ga330_libretro.Common.Signed.{ℤ, pos, negsuc}
use ga330_libretro.Machine.{
  Cmd, pure, ◌>>=◌, ◌>>◌, wrap, load32, store32, load_bytes, store_bytes, byte,
}

abbrev pub ram_start : ℕ
ram_start = 0x11000000

-- `heap_end` is the address of the static variable of that name; `incr` is the pattern of an
-- `int`, and a negative one moves the end back.
unfoldable pub sbrk : ℕ → ℕ → Cmd ℕ
sbrk heap_end incr = do
  first ← load32 heap_end
  if first == 0 then store32 heap_end ram_start else pure tt
  prev_heap_end ← load32 heap_end
  store32 heap_end (wrap (prev_heap_end + incr))
  pure prev_heap_end

-- `for (DataIdx = 0; DataIdx < len; DataIdx++)` with `len` an `int`: the number of rounds.
abbrev pub rounds : ℕ → ℕ
rounds len = if ltb len (2 ^ 31) then len else 0

module _ (putc : ℕ → Cmd (Unit {0})) where
  unfoldable pub write_loop : ℕ → ℕ → Cmd (Unit {0})
  write_loop zero ptr = pure tt
  write_loop (suc n) ptr = do c ← load_bytes ptr 1; putc (byte c 0); write_loop n (ptr + 1)

  -- `len` is the pattern of an `int`, as is the result.
  unfoldable pub sys_write : ℕ → ℕ → ℕ → Cmd ℕ
  sys_write file ptr len = do write_loop (rounds len) ptr; pure len

module _ (io_getchar : Cmd ℕ) where
  unfoldable pub read_loop : ℕ → ℕ → Cmd (Unit {0})
  read_loop zero ptr = pure tt
  read_loop (suc n) ptr = do
    c ← io_getchar
    store_bytes ptr ((c % 2 ^ 8) ∷ [])
    read_loop n (ptr + 1)

  unfoldable pub sys_read : ℕ → ℕ → ℕ → Cmd ℕ
  sys_read file ptr len = do read_loop (rounds len) ptr; pure len

unfoldable pub sys_close : ℕ → Cmd ℤ
sys_close file = pure (negsuc 0)

-- `st_mode` is at `st_mode_offset` in newlib's `struct stat`, and `S_IFCHR` is 0020000.
abbrev pub s_ifchr : ℕ
s_ifchr = 0o20000

unfoldable pub sys_fstat : ℕ → ℕ → ℕ → Cmd ℕ
sys_fstat st_mode_offset file st = do store32 (st + st_mode_offset) s_ifchr; pure 0

unfoldable pub sys_isatty : ℕ → Cmd ℕ
sys_isatty file = pure 1

unfoldable pub sys_lseek : ℕ → ℕ → ℕ → Cmd ℕ
sys_lseek file ptr dir = pure 0
