-- ===== src/Examples/System.antt =====
-- The start of minisys, and its table of functions, on the small file.
use ga330_libretro.Common.{ℕ, ◌+◌, ◌≡◌, refl, inl, List, [], ◌∷◌, arith}
use ga330_libretro.Machine.{
  word_mod, Memory, Machine, ok, panic, poke, pure, is_mapped, text, panicked,
}
use ga330_libretro.Machine.Access.{Holds, SameOn}
use ga330_libretro.Libc.Strings.{CString}
use ga330_libretro.Dl.Loader.Image.{loaded}
use ga330_libretro.Dl.Format.{words_bytes}
use ga330_libretro.Dl.Format.Tables.{table_entry_bytes}
use ga330_libretro.Dl.Handle.{DlAt, filled}
use ga330_libretro.Dl.Loader.Link.{Resolves}
use ga330_libretro.Dl.Exports.Lookup.{present}
use ga330_libretro.Minisys.Builtin.{ccos_get_builtin_proc}
use ga330_libretro.Minisys.Builtin.Lookup.{
  table_of, ccos_get_builtin_proc-builtin_address, minisys_host-Resolves,
}
use ga330_libretro.Minisys.Start.{Layout, run_application, start}
use ga330_libretro.Minisys.Start.Run.{IsReady, run_application-app_main}
use ga330_libretro.Minisys.Start.Boot.{HasData, start-run_application}
use ga330_libretro.Examples.Loading.{
  my_host, my_file-IsLoadable, lo, hi, my_names, my_imports_named, my-ImageAt,
}
use ga330_libretro.Examples.{
  my_memory, my_machine, my_header, my_sections, my_code, my_imports, my_exports, my_builtins,
  code_section, export_section, app_main, entry, file_at, holds_test, Holds-of_test,
}

-- "AppMain" is not a function of the system.
app_main_name : CString my_memory 0x20000005 app_main
unfolding poke
app_main_name = (
  refl,
  omega arith,
  (
    refl,
    omega arith,
    (
      refl,
      omega arith,
      (refl, omega arith, (refl, omega arith, (refl, omega arith, (refl, omega arith, refl)))),
    ),
  ),
)

ccos_get_builtin_proc-builtin_address_example :
    ccos_get_builtin_proc (table_of my_builtins) 0x20000005 my_machine
    ≡ panic (panicked "Failed to link proc" 50 ∷ text "dl_get_proc(%s) FAIL\n" ∷ [])
ccos_get_builtin_proc-builtin_address_example =
    ccos_get_builtin_proc-builtin_address lo hi 0x20000005 app_main my_builtins my_machine
      (omega arith) my_names app_main_name

minisys_host-Resolves_example : Resolves my_host lo hi my_memory (file_at + 204) my_imports
minisys_host-Resolves_example =
    minisys_host-Resolves (λ n. pure 0x10000400) (λ f a b. pure 7) lo hi my_memory (file_at + 204)
      my_builtins my_imports (omega arith) my_names my_imports_named

-- `.data` is one word and a byte at 0x10000b00, its initial values at 0x20000080.
abbrev my_layout : Layout
my_layout = record {
  sidata = 0x20000080;
  sdata = 0x10000b00;
  edata = 0x10000b05;
  my_dl = 0x10000900;
  app_main = 0x20000005;
  call_app = λ f a. pure 0;
}

-- The entry point leaves memory alone.
abbrev entered : Memory
entered = loaded my_memory code_section my_code my_imports

abbrev entered_machine : Machine
entered_machine = record { mem = entered; log = text "miniSYS _start(%p, %zd)\n" ∷ [] }

abbrev filled_memory : Memory
filled_memory = filled entered 0x10000900 file_at 764 my_header

my-IsReady :
    IsReady my_host my_layout file_at 764 my_header my_sections entered_machine my_exports
      0x10000004
unfolding holds_test poke is_mapped
my-IsReady = record {
  room = refl;
  top = omega arith;
  f_word = omega arith;
  image = my-ImageAt filled_memory refl refl refl refl refl;
  exports = present export_section (0 ∷ 0 ∷ 0 ∷ []) refl (record {
    unused_length = refl;
    words = omega arith;
    head = Holds-of_test filled_memory (file_at + 209) (words_bytes (1 ∷ 0 ∷ 0 ∷ 0 ∷ [])) refl;
    entries = (
      record { words = omega arith },
      Holds-of_test filled_memory (file_at + 225) (table_entry_bytes (entry 0x10000004)) refl,
      (
        refl,
        omega arith,
        (
          refl,
          omega arith,
          (
            refl,
            omega arith,
            (
              refl,
              omega arith,
              (refl, omega arith, (refl, omega arith, (refl, omega arith, refl))),
            ),
          ),
        ),
      ),
      omega arith,
      tt,
    );
  });
  name = app_main;
  app_main = (
    refl,
    omega arith,
    (
      refl,
      omega arith,
      (
        refl,
        omega arith,
        (refl, omega arith, (refl, omega arith, (refl, omega arith, (refl, omega arith, refl)))),
      ),
    ),
  );
  exported = refl;
}

run_application-app_main_example :
    (run_application my_host my_layout file_at 764 my_machine
      ≡ ok 0 (record {
        mem = filled_memory;
        log =
            text "minSYS: AppMain=%p\n"
            ∷ text "ccdl_from_memory: %d\n"
            ∷ text "miniSYS _start(%p, %zd)\n"
            ∷ [];
      }))
    × DlAt filled_memory 0x10000900 file_at 764 my_header
run_application-app_main_example =
    run_application-app_main my_host my_layout file_at 764 my_header my_sections lo hi code_section
      my_code my_imports my_exports 0x10000004 7 my_machine entered_machine my_file-IsLoadable refl
      my-IsReady

abbrev data_words : List (List ℕ)
data_words = (0 ∷ 0 ∷ 0 ∷ 0 ∷ []) ∷ (0 ∷ 0 ∷ 0 ∷ 0 ∷ []) ∷ []

my_data : HasData my_layout my_memory data_words
unfolding holds_test poke is_mapped
my_data = record {
  four = (refl, (refl, tt));
  order = omega arith;
  covers = omega arith;
  tight = omega arith;
  top = omega arith;
  room = refl;
  source_top = omega arith;
  apart = inl (omega arith);
  values = Holds-of_test my_memory 0x20000080 (0 ∷ 0 ∷ 0 ∷ 0 ∷ 0 ∷ 0 ∷ 0 ∷ 0 ∷ []) refl;
}

start-run_application_example :
    (m : Memory) × (start my_host my_layout file_at 764 my_machine
      ≡ run_application my_host my_layout file_at 764 (record { mem = m; log = [] }))
    × Holds m 0x10000b00 (0 ∷ 0 ∷ 0 ∷ 0 ∷ 0 ∷ 0 ∷ 0 ∷ 0 ∷ [])
    × SameOn 0 0x10000b00 my_memory m
    × SameOn 0x10000b08 word_mod my_memory m
start-run_application_example =
    start-run_application my_host my_layout file_at 764 data_words my_machine my_data
