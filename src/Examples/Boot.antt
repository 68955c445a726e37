-- ===== src/Examples/Boot.antt =====
-- The small engine is set up with an application of four bytes and run.
use ga330_libretro.Common.{
  ℕ, ◌+◌, ◌*◌, ◌≤◌, ◌≡◌, refl, false, true, some, none, List, [], ◌∷◌, ◌||◌, arith, if◌then◌else◌,
  ◌==◌,
}
use ga330_libretro.Common.Signed.{negsuc}
use ga330_libretro.Host.{ccos_diag}
use ga330_libretro.Machine.{poke, is_mapped, read_bytes, print}
use ga330_libretro.Minisys.Devices.{lcd_get_fb, lcd_get_width, lcd_get_height}
use ga330_libretro.Emu.Uc.{Unicorn, r0, r1, sp}
use ga330_libretro.Emu.Action.{done}
use ga330_libretro.Emu.Host.{Host, failed}
use ga330_libretro.Emu.Filesystem.{new_filesystem}
use ga330_libretro.Emu.Debug.{panic_is_code_address}
use ga330_libretro.Emu.Board.{
  Setup, map_region, setup, minisys_region, stack_region, ram_region, framebuf_region, write,
  minisys_addr, app_load_address, framebuf_addr, framebuf_size, stack_top,
}
use ga330_libretro.Emu.Board.Map.{
  covers, covering, regions_of, ArePages, memory_map_lem, lcd_get_fb-pixels,
}
use ga330_libretro.Emu.Rom.{Board, Surroundings, do_setup, set_up, after_start, load_rom}
use ga330_libretro.Emu.Rom.Boot.{load_rom-starts}
use ga330_libretro.Emu.Rom.Calls.{Succeeds, set_up-fails}
use ga330_libretro.Examples.{my_machine}
use ga330_libretro.Examples.Chip.{Chip, chip, mapped, write_mem, chip-IsLawful}

abbrev pub my_chip : Chip
my_chip = record { regs = λ q. 0; mem = λ x. none }

-- Every file has four bytes, and the processor stops at once, with the error `err`.
abbrev pub my_env : ℕ → Surroundings Chip (List ℕ) ℕ
my_env err = record {
  contents = λ path w. some (1 ∷ 2 ∷ 3 ∷ 4 ∷ []);
  minisys_bin = λ w. some (b'm' ∷ []);
  stack_bytes = λ w. [];
  emu_start = λ at h. (err, h);
}

abbrev pub my_board : Board Chip (List ℕ) ℕ
my_board = record {
  host = record { engine = my_chip; files = (new_filesystem, 0); out = [] };
  aborted = false;
  opened = false;
}

abbrev pub my_bytes : List ℕ
my_bytes = 1 ∷ 2 ∷ 3 ∷ 4 ∷ []

-- The engine behind a list of calls.
unfoldable pub after : Unicorn Chip → List Setup → Chip → Chip
after uc [] c = c
after uc (s ∷ rest) c = after uc rest (do_setup uc s c).1

pub my_setup-Succeeds :
    Succeeds chip (setup my_bytes my_bytes) my_chip (after chip (setup my_bytes my_bytes) my_chip)
unfolding after do_setup write_mem is_mapped poke
my_setup-Succeeds = (
  _,
  refl,
  (
    _,
    refl,
    (_, refl, (_, refl, (_, refl, (_, refl, (_, refl, (_, refl, (_, refl, (_, refl, refl)))))))),
  ),
)

load_rom-starts_example :
    (b1 : Board Chip (List ℕ) ℕ) × (h : Host Chip (List ℕ) ℕ) × (load_rom chip
        (my_env 0)
        (b'a' ∷ [])
        my_board
      ≡ after_start chip (my_env 0) ((my_env 0).emu_start minisys_addr h) b1)
    × (h.files ≡ my_board.host.files)
    × (h.engine.regs r0 ≡ app_load_address)
    × (h.engine.regs r1 ≡ 4)
    × (h.engine.regs sp ≡ stack_top)
    × (read_bytes h.engine.mem app_load_address 4 ≡ some my_bytes)
load_rom-starts_example =
    load_rom-starts chip (my_env 0) (b'a' ∷ []) (b'm' ∷ []) my_bytes my_bytes my_bytes my_bytes
      my_board my_chip (after chip (setup my_bytes my_bytes) my_chip) chip-IsLawful refl refl
      (omega arith) refl refl refl refl my_setup-Succeeds

-- An engine that maps no memory without read permission.
abbrev strict : Unicorn Chip
strict = record chip {
  mem_map = λ from size prot c.
      if prot == 2 then (11, c) else (0, record c { mem = mapped from size c.mem });
}

abbrev first_calls : List Setup
first_calls =
    map_region minisys_region
    ∷ write minisys_addr my_bytes
    ∷ map_region stack_region
    ∷ map_region ram_region
    ∷ []

set_up-fails_example :
    set_up strict (my_env 0) my_bytes my_bytes my_board
    ≡ done (negsuc 0) (record my_board {
      host = record my_board.host {
        engine = after strict first_calls my_chip;
        out = failed 11 ∷ [];
      };
      opened = true;
    })
unfolding after do_setup write_mem is_mapped
set_up-fails_example =
    set_up-fails strict (my_env 0) my_bytes my_bytes first_calls (map_region framebuf_region) _ 11
      my_board my_chip (after strict first_calls my_chip) (after strict first_calls my_chip) refl
      refl (_, refl, (_, refl, (_, refl, (_, refl, refl)))) refl (omega arith)

memory_map_example :
    (covering 0x1fffffff (regions_of (setup my_bytes my_bytes)) ≤ 1)
    × ArePages (regions_of (setup my_bytes my_bytes))
    × (panic_is_code_address 0x1fffffff
        ≡ (covers ram_region 0x1fffffff || covers minisys_region 0x1fffffff))
memory_map_example = memory_map_lem my_bytes my_bytes 0x1fffffff

lcd_get_fb-pixels_example :
    (framebuf_addr ≤ framebuf_addr + 2 * (239 * 320 + 319))
    × (framebuf_addr + 2 * (239 * 320 + 319) + 2 ≤ framebuf_addr + 320 * 240 * 2)
    × (framebuf_addr + 320 * 240 * 2 ≤ framebuf_addr + framebuf_size)
unfolding lcd_get_fb lcd_get_width lcd_get_height ccos_diag print
lcd_get_fb-pixels_example =
    lcd_get_fb-pixels 320 240 framebuf_addr 319 239 my_machine my_machine my_machine
      (record my_machine { log = _ }) refl refl refl (omega arith) (omega arith)
