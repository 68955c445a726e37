-- ===== src/Examples/Wide.antt =====
-- A file with a wide name on the small engine.
use ga330_libretro.Common.{ℕ, ◌≡◌, refl, some, List, [], ◌∷◌, arith}
use ga330_libretro.Common.Table.{find}
use ga330_libretro.Machine.{Memory, Machine, ok, poke, is_mapped, u32_bytes}
use ga330_libretro.Machine.Frame.{SameOn-refl}
use ga330_libretro.Minisys.Files.{fsys_fopen_w, fsys_fread}
use ga330_libretro.Minisys.Files.Handles.{traced_wide}
use ga330_libretro.Emu.Action.{done}
use ga330_libretro.Emu.Host.{Host}
use ga330_libretro.Emu.Filesystem.Handles.{reads}
use ga330_libretro.Emu.Svc.{svc_fopen_w, svc_fread}
use ga330_libretro.Crossing.{entered}
use ga330_libretro.Crossing.Wide.{AreWideNames, fsys_fread-fsys_fopen_w_served}
use ga330_libretro.Examples.Chip.{Chip, chip}
use ga330_libretro.Examples.Calls.{ram}
use ga330_libretro.Examples.Emulator.{my_lib}
use ga330_libretro.Examples.Crossing.{
  enter, chip-IsProcessor, first_host, my_system, my_emu, my_malloc, two_bytes,
}

-- The unit 0x416 and a 0 at 0x10000030, beside the mode "rb" at 0x10000020.
abbrev wide_ram : Memory
wide_ram = poke ram 0x10000030 (0x16 ∷ 4 ∷ 0 ∷ 0 ∷ [])

abbrev wide_machine : Machine
wide_machine = record { mem = wide_ram; log = [] }

wide_names : AreWideNames 0x10000030 0x10000020 (0x416 ∷ []) (b'r' ∷ b'b' ∷ []) wide_ram
unfolding poke
wide_names = record {
  path_fits = omega arith;
  mode_fits = omega arith;
  short_path = omega arith;
  short_mode = omega arith;
  path_there = ((refl, (refl, tt)), omega arith, (refl, (refl, tt)));
  mode_there = (refl, omega arith, (refl, omega arith, refl));
}

abbrev with_block : Machine
with_block = record {
  mem = poke wide_ram 0x10000400 (u32_bytes 1);
  log = (traced_wide wide_machine).log;
}

fsys_fread-fsys_fopen_w_served_example :
    (h1 : Host Chip (List ℕ) ℕ) × (svc_fopen_w chip my_lib my_system
        (entered chip enter first_host 0x10000030 0x10000020 0 0 wide_ram)
      ≡ done tt h1)
    × (fsys_fopen_w my_malloc (my_emu first_host) 0x10000030 0x10000020 wide_machine
        ≡ ok 0x10000400 with_block)
    × (h2 : Host Chip (List ℕ) ℕ) × (svc_fread chip my_lib
          (entered chip enter h1 0x10000200 1 2 1 with_block.mem)
        ≡ done tt h2)
    × (fsys_fread (my_emu h1) 0x10000200 1 2 0x10000400 with_block
        ≡ ok 2 (record with_block { mem = poke with_block.mem 0x10000200 (1 ∷ 2 ∷ []) }))
    × (find 1 h2.files.0.open_files ≡ some (3 ∷ []))
    × (h2.files.1 ≡ 1)
unfolding is_mapped poke
fsys_fread-fsys_fopen_w_served_example =
    fsys_fread-fsys_fopen_w_served chip my_lib my_system enter my_malloc 0x10000030 0x10000020
      0x10000400 (0x416 ∷ []) (b'r' ∷ b'b' ∷ []) (1 ∷ 2 ∷ 3 ∷ []) (3 ∷ []) 1 1 first_host
      wide_machine (traced_wide wide_machine) with_block 0x10000200 1 2 (1 ∷ 2 ∷ [])
      chip-IsProcessor wide_names tt (omega arith) (reads [] _ _ refl) refl refl (omega arith)
      (SameOn-refl 0x10000400 0x10000404 with_block.mem) (two_bytes 0x10000200 (omega arith)) refl
      (omega arith) refl
