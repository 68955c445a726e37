-- ===== src/Examples/Whole.antt =====
-- A file on the disk of the small engine, whose application is loaded, linked and started.
use ga330_libretro.Common.{
  ℕ, ◌+◌, ◌≡◌, refl, Bool, true, false, ◌&&◌, Option, none, some, List, [], ◌∷◌, ◌++◌, arith,
  length, if◌then◌else◌, list_eq, ◌==◌, inl, not,
}
use ga330_libretro.Machine.{Memory, Machine, ok, poke, is_mapped, pure, text}
use ga330_libretro.Libc.{string_at}
use ga330_libretro.Libc.Strings.{Spells}
use ga330_libretro.Dl.Format.{words_bytes}
use ga330_libretro.Dl.Format.Tables.{table_entry_bytes}
use ga330_libretro.Dl.Handle.{DlAt, filled}
use ga330_libretro.Dl.Loader.Image.{loaded}
use ga330_libretro.Dl.Exports.Lookup.{present}
use ga330_libretro.Minisys.Builtin.Lookup.{NamesAt, ImportsNamed, minisys_host-Resolves}
use ga330_libretro.Minisys.Start.{Layout, start}
use ga330_libretro.Minisys.Start.Run.{IsReady}
use ga330_libretro.Minisys.Start.Sections.{data_copied}
use ga330_libretro.Minisys.Start.Boot.{HasData}
use ga330_libretro.Emu.Board.{setup}
use ga330_libretro.Emu.Rom.{Surroundings, do_setup}
use ga330_libretro.Emu.Rom.Boot.{IsSetUp, at_entry}
use ga330_libretro.Startup.Image.{image_bytes}
use ga330_libretro.Startup.Parts.{IsFile, HasRoom}
use ga330_libretro.Startup.Application.{load_rom-app_main}
use ga330_libretro.Examples.{
  my_header, my_sections, my_code, my_imports, my_exports, my_builtins, code_section,
  import_section, export_section, puts, app_main, entry, file_at, holds_test, Holds-of_test,
}
use ga330_libretro.Examples.Loading.{
  my_host, my_header-IsHeader, lo, hi, my-IsAccepted, my_section-IsSectionHeader, my-ImageAt,
}
use ga330_libretro.Examples.Boot.{my_chip, my_env, my_board, after}
use ga330_libretro.Examples.Chip.{Chip, chip, write_mem, chip-IsLawful}

-- A Boolean test for a C string.
spells_test : (ℕ → Option ℕ) → ℕ → List ℕ → Bool
spells_test r i [] = elim (r i) [ none ↦ false | some c ↦ c == 0 ]
spells_test r i (b ∷ bs) =
    elim (r i) [ none ↦ false | some c ↦ c == b ] && (not (b == 0) && spells_test r (i + 1) bs)

Spells-of_test : (r : ℕ → Option ℕ) (i : ℕ) (s : List ℕ) → spells_test r i s ≡ true → Spells r i s
unfolding spells_test
Spells-of_test r i [] h = ground arith
Spells-of_test r i (b ∷ bs) h =
    (ground arith, ground arith, Spells-of_test r (i + 1) bs (ground arith))

-- minisys has two names and the initial value of `.data`.
abbrev names_bytes : List ℕ
names_bytes = puts ++ (0 ∷ app_main ++ (0 ∷ 1 ∷ 2 ∷ 3 ∷ 4 ∷ []))

abbrev import_part : List ℕ
import_part = words_bytes (1 ∷ 0 ∷ 0 ∷ 0 ∷ []) ++ (table_entry_bytes (entry 0x10000020) ++ puts)

abbrev export_part : List ℕ
export_part = words_bytes (1 ∷ 0 ∷ 0 ∷ 0 ∷ []) ++ (table_entry_bytes (entry 0x10000004) ++ app_main)

abbrev app_file : List ℕ
app_file =
    image_bytes my_header my_sections ++ (my_code ++ (import_part ++ (0 ∷ export_part ++ (0 ∷ []))))

abbrev app_env : Surroundings Chip (List ℕ) ℕ
app_env = record (my_env 0) {
  contents = λ path w. some (if list_eq path (b'a' ∷ []) then app_file else names_bytes);
}

abbrev app_chip : Chip
app_chip = after chip (setup names_bytes app_file) my_chip

abbrev app_machine : Machine
app_machine = record {
  mem = (at_entry chip app_env (length app_file) my_board app_chip).engine.mem;
  log = [];
}

abbrev app_layout : Layout
app_layout = record {
  sidata = 0x2000000d;
  sdata = 0x10000b00;
  edata = 0x10000b04;
  my_dl = 0x10000900;
  app_main = 0x20000005;
  call_app = λ f a. pure f;
}

app_IsSetUp :
    IsSetUp chip app_env
      (b'a' ∷ [])
      (b'm' ∷ [])
      app_file
      names_bytes
      names_bytes
      app_file
      my_board
      my_chip
      app_chip
unfolding after do_setup write_mem is_mapped poke
app_IsSetUp = record {
  found = refl;
  cut = refl;
  short = omega arith;
  has_bin = refl;
  found_ms = refl;
  filled = refl;
  opened = refl;
  ready = (
    _,
    refl,
    (
      _,
      refl,
      (_, refl, (_, refl, (_, refl, (_, refl, (_, refl, (_, refl, (_, refl, (_, refl, refl)))))))),
    ),
  );
}

app_data : HasData app_layout app_machine.mem ((1 ∷ 2 ∷ 3 ∷ 4 ∷ []) ∷ [])
unfolding after do_setup write_mem is_mapped poke holds_test
app_data = record {
  four = (refl, tt);
  order = omega arith;
  covers = omega arith;
  tight = omega arith;
  top = omega arith;
  room = refl;
  source_top = omega arith;
  apart = inl (omega arith);
  values = Holds-of_test app_machine.mem 0x2000000d (1 ∷ 2 ∷ 3 ∷ 4 ∷ []) refl;
}

app_IsFile :
    IsFile app_file my_header my_sections code_section import_section my_code
      (0 ∷ 0 ∷ 0 ∷ [])
      my_imports
app_IsFile = record {
  image = record {
    header = my_header-IsHeader;
    count = refl;
    sections = (
      my_section-IsSectionHeader 7 249 515 (omega arith) (omega arith) (omega arith),
      (
        my_section-IsSectionHeader 1 160 12 (omega arith) (omega arith) (omega arith),
        (
          my_section-IsSectionHeader 8 172 37 (omega arith) (omega arith) (omega arith),
          (my_section-IsSectionHeader 9 209 40 (omega arith) (omega arith) (omega arith), tt),
        ),
      ),
    );
  };
  accepted = my-IsAccepted;
  head = record { before = []; behind = _; parts = refl; offset_is = refl };
  head_fits = omega arith;
  code_found = refl;
  code_part = record {
    before = image_bytes my_header my_sections;
    behind = _;
    parts = refl;
    offset_is = refl;
  };
  code_size = refl;
  table_found = refl;
  unused_length = refl;
  words = omega arith;
  table_head = record {
    before = image_bytes my_header my_sections ++ my_code;
    behind = table_entry_bytes (entry 0x10000020) ++ (puts ++ (0 ∷ export_part ++ (0 ∷ [])));
    parts = refl;
    offset_is = refl;
  };
  table_part = record {
    before = image_bytes my_header my_sections ++ (my_code ++ words_bytes (1 ∷ 0 ∷ 0 ∷ 0 ∷ []));
    behind = puts ++ (0 ∷ export_part ++ (0 ∷ []));
    parts = refl;
    offset_is = refl;
  };
  table_fits = omega arith;
  imports = (record { words = omega arith }, tt);
}

-- Memory behind the loop over `.data`.
abbrev ready_memory : Memory
ready_memory = data_copied app_machine.mem 0x10000b00 ((1 ∷ 2 ∷ 3 ∷ 4 ∷ []) ∷ [])

ready_names : NamesAt lo hi ready_memory my_builtins
unfolding after do_setup write_mem is_mapped poke spells_test
ready_names = (
  omega arith,
  omega arith,
  omega arith,
  Spells-of_test (string_at ready_memory 0x20000000) 0 puts refl,
  tt,
)

ready_imports : ImportsNamed lo hi ready_memory (file_at + 204) my_builtins my_imports
unfolding after do_setup write_mem is_mapped poke spells_test
ready_imports = (
  (
    puts,
    Spells-of_test (string_at ready_memory (file_at + 204)) 0 puts refl,
    omega arith,
    omega arith,
    refl,
  ),
  tt,
)

app_HasRoom : HasRoom my_host lo hi ready_memory file_at 249 code_section import_section my_imports
unfolding after do_setup write_mem is_mapped poke
app_HasRoom = record {
  below = omega arith;
  above = omega arith;
  top = omega arith;
  code_room = refl;
  code_top = omega arith;
  code_apart = inl (omega arith);
  thunks_fit = (omega arith, inl (omega arith), refl, tt);
  resolved =
      minisys_host-Resolves (λ n. pure 0x10000400) (λ f a b. pure 7) lo hi ready_memory
        (file_at + 204) my_builtins my_imports (omega arith) ready_names ready_imports;
}

-- The entry point leaves memory alone.
abbrev entered : Machine
entered = record {
  mem = loaded ready_memory code_section my_code my_imports;
  log = text "miniSYS _start(%p, %zd)\n" ∷ [];
}

abbrev final_memory : Memory
final_memory = filled entered.mem 0x10000900 file_at 249 my_header

app_IsReady :
    IsReady my_host app_layout file_at 249 my_header my_sections entered my_exports 0x10000004
unfolding after do_setup write_mem is_mapped poke holds_test spells_test
app_IsReady = record {
  room = refl;
  top = omega arith;
  f_word = omega arith;
  image = my-ImageAt final_memory refl refl refl refl refl;
  exports = present export_section (0 ∷ 0 ∷ 0 ∷ []) refl (record {
    unused_length = refl;
    words = omega arith;
    head = Holds-of_test final_memory (file_at + 209) (words_bytes (1 ∷ 0 ∷ 0 ∷ 0 ∷ [])) refl;
    entries = (
      record { words = omega arith },
      Holds-of_test final_memory (file_at + 225) (table_entry_bytes (entry 0x10000004)) refl,
      Spells-of_test (string_at final_memory (file_at + 241)) 0 app_main refl,
      omega arith,
      tt,
    );
  });
  name = app_main;
  app_main = Spells-of_test (string_at final_memory 0x20000005) 0 app_main refl;
  exported = refl;
}

load_rom-app_main_example :
    (start my_host app_layout file_at 249 app_machine
      ≡ ok 0x10000004 (record {
        mem = final_memory;
        log = text "minSYS: AppMain=%p\n" ∷ text "ccdl_from_memory: %d\n" ∷ entered.log;
      }))
    × DlAt final_memory 0x10000900 file_at 249 my_header
load_rom-app_main_example =
    load_rom-app_main chip app_env my_host app_layout (b'a' ∷ []) (b'm' ∷ []) app_file names_bytes
      names_bytes app_file my_board my_chip app_chip ((1 ∷ 2 ∷ 3 ∷ 4 ∷ []) ∷ []) app_machine lo hi
      my_header my_sections code_section import_section my_code (0 ∷ 0 ∷ 0 ∷ []) my_imports
      my_exports 0x10000004 7 entered chip-IsLawful app_IsSetUp (λ a n bs e. e) app_data
      (omega arith) app_IsFile app_HasRoom refl app_IsReady
