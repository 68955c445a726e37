-- ===== src/Examples/Services.antt =====
-- The system calls of minisys on the small file.
use ga330_libretro.Common.{◌≡◌, refl, inl, [], ◌∷◌, arith}
use ga330_libretro.Machine.{word_mod, Memory, ok, poke, u32_bytes, putc, print}
use ga330_libretro.Machine.Access.{SameOn}
use ga330_libretro.Syscalls.{sbrk, sys_write, ram_start}
use ga330_libretro.Syscalls.Heap.{BreakAt, fresh, sbrk-BreakAt, sbrk_all, sbrk_all-starts}
use ga330_libretro.Syscalls.Console.{sys_write-printed}
use ga330_libretro.Examples.{my_memory, my_machine, puts, holds_test, Holds-of_test}

-- `heap_end` is at 0x10000c00, and is 0.
my_break : BreakAt my_memory 0x10000c00 ram_start
unfolding holds_test poke
my_break = fresh (Holds-of_test my_memory 0x10000c00 (u32_bytes 0) refl) refl

-- A call with -16.
sbrk-BreakAt_example :
    (m : Memory) × (sbrk 0x10000c00 0xfffffff0 my_machine
      ≡ ok ram_start (record { mem = m; log = [] }))
    × BreakAt m 0x10000c00 0x10fffff0
    × SameOn 0x10000c04 word_mod my_memory m
sbrk-BreakAt_example =
    sbrk-BreakAt 0x10000c00 (omega arith) ram_start 0xfffffff0 0x10000c04 word_mod my_machine
      my_break (omega arith) (inl (omega arith))

sbrk_all-starts_example :
    (m : Memory) × (sbrk_all 0x10000c00 (16 ∷ 32 ∷ []) my_machine
      ≡ ok (0x11000000 ∷ 0x11000010 ∷ []) (record { mem = m; log = [] }))
    × BreakAt m 0x10000c00 0x11000030
sbrk_all-starts_example =
    sbrk_all-starts 0x10000c00 (omega arith) ram_start (16 ∷ 32 ∷ []) my_machine my_break
      (omega arith)

sys_write-printed_example :
    sys_write (λ c. print (putc c)) 1 0x20000000 4 my_machine
    ≡ ok 4 (record my_machine { log = putc b's' ∷ putc b't' ∷ putc b'u' ∷ putc b'p' ∷ [] })
unfolding holds_test poke
sys_write-printed_example =
    sys_write-printed 1 0x20000000 puts my_machine (omega arith)
      (Holds-of_test my_memory 0x20000000 puts refl)
