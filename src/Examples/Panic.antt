-- ===== src/Examples/Panic.antt =====
-- A panic on the small engine.
use ga330_libretro.Common.{ℕ, ◌≡◌, refl, [], ◌∷◌, arith}
use ga330_libretro.Machine.{Memory, poke, read_bytes, u32_bytes}
use ga330_libretro.Emu.Uc.{Reg, r0, r1, r2, r3, sp, lr, pc}
use ga330_libretro.Emu.Action.{done}
use ga330_libretro.Emu.Host.{panic_at, registers, address}
use ga330_libretro.Emu.Svc.{svc_panic}
use ga330_libretro.Crossing.Panic.{stack_words, svc_panic-stack_words}
use ga330_libretro.Examples.Chip.{Chip, chip}
use ga330_libretro.Examples.Calls.{ram, my_host}

-- The stack pointer is four words below the end of the memory.
abbrev panic_regs : Reg → ℕ
panic_regs r0 = 0
panic_regs r1 = 0
panic_regs r2 = 0
panic_regs r3 = 0
panic_regs sp = 0x10000ff0
panic_regs lr = 0x20000020
panic_regs pc = 0x20000104

-- The first of the words is in minisys, the second is 5, and the others are 0.
abbrev panic_ram : Memory
panic_ram = poke (poke ram 0x10000ff0 (u32_bytes 0x20000010)) 0x10000ff4 (u32_bytes 5)

abbrev at_panic : Chip
at_panic = record { regs = panic_regs; mem = panic_ram }

svc_panic-stack_words_example :
    svc_panic chip (my_host at_panic)
    ≡ done tt (record (my_host at_panic) {
      out =
          address 0x20000010
          ∷ address 0x20000020
          ∷ address 0x20000104
          ∷ registers 0x20000104 0x20000020 0x10000ff0
          ∷ panic_at 0x20000104
          ∷ [];
    })
unfolding stack_words read_bytes poke
svc_panic-stack_words_example =
    svc_panic-stack_words chip (my_host at_panic) panic_ram (λ a n fits. refl) refl (omega arith)
