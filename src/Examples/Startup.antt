-- ===== src/Examples/Startup.antt =====
-- The small engine is set up with an application, and minisys starts in the memory that it has then.
use ga330_libretro.Common.{
  true, ℕ, ◌≡◌, refl, some, List, [], ◌∷◌, length, arith, if◌then◌else◌, list_eq, inl,
}
use ga330_libretro.Machine.{Memory, Machine, poke, is_mapped, panic, text, panicked, diag}
use ga330_libretro.Machine.Access.{Holds}
use ga330_libretro.Dl.Format.{Header}
use ga330_libretro.Dl.Loader.Outcome.{wrong_sign}
use ga330_libretro.Minisys.Start.{Layout, run_application, start}
use ga330_libretro.Minisys.Start.Boot.{HasData}
use ga330_libretro.Emu.Board.{setup, app_load_address}
use ga330_libretro.Emu.Rom.{Surroundings, do_setup, after_start, load_rom}
use ga330_libretro.Emu.Host.{Host}
use ga330_libretro.Emu.Rom.Boot.{IsSetUp, at_entry}
use ga330_libretro.Startup.Image.{image_bytes, IsImage}
use ga330_libretro.Startup.Session.{load_rom-run_application, load_rom-Refused}
use ga330_libretro.Examples.Loading.{my_host}
use ga330_libretro.Examples.Boot.{my_chip, my_env, my_board, my_bytes, after, my_setup-Succeeds}
use ga330_libretro.Examples.Chip.{Chip, chip, write_mem, chip-IsLawful}

-- The word of `.data` is the first one of minisys.
abbrev small_layout : Layout
small_layout = record {
  sidata = 0x20000000;
  sdata = 0x10000b00;
  edata = 0x10000b04;
  my_dl = 0x10000e00;
  app_main = 0x20000005;
  call_app = λ f x μ. panic μ.log;
}

abbrev pub set_up_chip : List ℕ → Chip
set_up_chip app = after chip (setup my_bytes app) my_chip

abbrev pub entry_host : List ℕ → Host Chip (List ℕ) ℕ
entry_host app = at_entry chip (my_env 0) (length app) my_board (set_up_chip app)

abbrev entry_machine : List ℕ → Machine
entry_machine app = record { mem = (entry_host app).engine.mem; log = [] }

entry_data : HasData small_layout (entry_machine my_bytes).mem ((1 ∷ 2 ∷ 3 ∷ 4 ∷ []) ∷ [])
unfolding after do_setup write_mem is_mapped poke
entry_data = record {
  four = (refl, tt);
  order = omega arith;
  covers = omega arith;
  tight = omega arith;
  top = omega arith;
  room = refl;
  source_top = omega arith;
  apart = inl (omega arith);
  values = (refl, (refl, (refl, (refl, tt))));
}

pub entry_IsSetUp :
    IsSetUp chip
      (my_env 0)
      (b'a' ∷ [])
      (b'm' ∷ [])
      my_bytes
      my_bytes
      my_bytes
      my_bytes
      my_board
      my_chip
      (set_up_chip my_bytes)
entry_IsSetUp = record {
  found = refl;
  cut = refl;
  short = omega arith;
  has_bin = refl;
  found_ms = refl;
  filled = refl;
  opened = refl;
  ready = my_setup-Succeeds;
}

load_rom-run_application_example :
    (m : Memory) × (load_rom chip (my_env 0) (b'a' ∷ []) my_board
      ≡ after_start chip
          (my_env 0)
          (0, entry_host my_bytes)
          (record my_board {
            host = record my_board.host { engine = set_up_chip my_bytes };
            opened = true;
          }))
    × (start my_host small_layout 0x30000000 4 (entry_machine my_bytes)
        ≡ run_application my_host small_layout app_load_address 4 (record { mem = m; log = [] }))
    × Holds m 0x10000b00 my_bytes
    × Holds m app_load_address my_bytes
load_rom-run_application_example =
    load_rom-run_application chip (my_env 0) my_host small_layout (b'a' ∷ []) (b'm' ∷ []) my_bytes
      my_bytes my_bytes my_bytes my_board my_chip (set_up_chip my_bytes) ((1 ∷ 2 ∷ 3 ∷ 4 ∷ []) ∷ [])
      (entry_machine my_bytes) chip-IsLawful entry_IsSetUp (λ a n bs e. e) entry_data (omega arith)

-- A file with a header of zeros, and a disk that has it beside minisys.
abbrev zero_header : Header
zero_header = record {
  sign = 0 ∷ 0 ∷ 0 ∷ 0 ∷ [];
  version = 0;
  unk_8 = 0;
  num_sections = 0;
  unk_16 = 0 ∷ 0 ∷ 0 ∷ 0 ∷ [];
}

abbrev zero_file : List ℕ
zero_file = image_bytes zero_header []

abbrev zero_env : Surroundings Chip (List ℕ) ℕ
zero_env = record (my_env 0) {
  contents = λ path w. some (if list_eq path (b'a' ∷ []) then zero_file else my_bytes);
}

zero_IsSetUp :
    IsSetUp chip zero_env
      (b'a' ∷ [])
      (b'm' ∷ [])
      zero_file
      my_bytes
      my_bytes
      zero_file
      my_board
      my_chip
      (set_up_chip zero_file)
unfolding after do_setup write_mem is_mapped poke
zero_IsSetUp = record {
  found = refl;
  cut = refl;
  short = omega arith;
  has_bin = refl;
  found_ms = refl;
  filled = refl;
  opened = refl;
  ready = (
    _,
    refl,
    (
      _,
      refl,
      (_, refl, (_, refl, (_, refl, (_, refl, (_, refl, (_, refl, (_, refl, (_, refl, refl)))))))),
    ),
  );
}

zero_data : HasData small_layout (entry_machine zero_file).mem ((1 ∷ 2 ∷ 3 ∷ 4 ∷ []) ∷ [])
unfolding after do_setup write_mem is_mapped poke
zero_data = record {
  four = (refl, tt);
  order = omega arith;
  covers = omega arith;
  tight = omega arith;
  top = omega arith;
  room = refl;
  source_top = omega arith;
  apart = inl (omega arith);
  values = (refl, (refl, (refl, (refl, tt))));
}

zero_IsImage : IsImage zero_header []
zero_IsImage = record {
  header = record {
    sign = refl;
    version = omega arith;
    unk_8 = omega arith;
    num_sections = omega arith;
    unk_16_length = refl;
    unk_16 = ground arith;
  };
  count = refl;
  sections = tt;
}

load_rom-Refused_example :
    start my_host small_layout 0x30000000 32 (entry_machine zero_file)
    ≡ panic (
        panicked "Failed to load application" 32
        ∷ text "ccdl_from_memory: %d\n"
        ∷ diag "Not a CCDL file" 24
        ∷ text "miniSYS _start(%p, %zd)\n"
        ∷ [])
load_rom-Refused_example =
    load_rom-Refused chip zero_env my_host small_layout (b'a' ∷ []) (b'm' ∷ []) zero_file my_bytes
      my_bytes zero_file my_board my_chip (set_up_chip zero_file) ((1 ∷ 2 ∷ 3 ∷ 4 ∷ []) ∷ [])
      (entry_machine zero_file) zero_header [] [] (diag "Not a CCDL file" 24) chip-IsLawful
      zero_IsSetUp refl zero_IsImage (wrong_sign (λ e. ground arith)) (λ a n bs e. e) zero_data
      (omega arith)
