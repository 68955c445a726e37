-- ===== src/Examples/Calls.antt =====
-- Memory, registers and handlers for supervisor calls on the small engine.
use ga330_libretro.Common.{String, if◌then◌else◌, ℕ, none, List, [], ◌∷◌}
use ga330_libretro.Machine.{Memory, poke, u32_bytes}
use ga330_libretro.Emu.Uc.{Reg, r0, r1, r2, r3, sp, lr, pc}
use ga330_libretro.Emu.Host.{Host}
use ga330_libretro.Emu.Filesystem.{new_filesystem}
use ga330_libretro.Emu.Svc.{svc_new_frame, svc_putc}
use ga330_libretro.Emu.Board.{SvcHandler}
use ga330_libretro.Emu.Board.Dispatch.{svc_instruction}
use ga330_libretro.Build.Thunks.{Row, emu, abort}
use text.Mathlib.Text.{◌==◌ as str_eq}
use ga330_libretro.Examples.Chip.{Chip, chip, mapped}

-- One page of RAM, with the strings "x" and "rb", and a `svc 1`.
abbrev pub ram : Memory
ram =
    poke
      (poke (poke (mapped 0x10000000 4096 (λ x. none)) 0x10000010 (b'x' ∷ 0 ∷ [])) 0x10000020
        (b'r' ∷ b'b' ∷ 0 ∷ []))
      0x10000100 (u32_bytes (svc_instruction 1))

-- The values of `r0` to `r3`, and of `pc`.
abbrev pub registers : ℕ → ℕ → ℕ → ℕ → Reg → ℕ
registers a b c d r0 = a
registers a b c d r1 = b
registers a b c d r2 = c
registers a b c d r3 = d
registers a b c d sp = 0
registers a b c d lr = 0
registers a b c d pc = 0x10000104

abbrev pub my_host : Chip → Host Chip (List ℕ) ℕ
my_host c = record { engine = c; files = (new_filesystem, 0); out = [] }

-- Three rows of api.csv, two of them for the emulator.
abbrev pub my_rows : List Row
my_rows =
    record { name = "GemeiEmu_newFrame"; kind = emu; prototype = "void GemeiEmu_newFrame(void)" }
    ∷ record { name = "abort"; kind = abort; prototype = "" }
    ∷ record { name = "GemeiEmu_putc"; kind = emu; prototype = "void GemeiEmu_putc(int c)" }
    ∷ []

abbrev pub my_handler : String → SvcHandler Chip (List ℕ) ℕ
my_handler name = if str_eq name "GemeiEmu_putc" then svc_putc chip else svc_new_frame chip
