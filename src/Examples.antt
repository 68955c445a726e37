-- ===== src/Examples.antt =====
-- A small CCDL file in a machine laid out as src/ccdl.cpp does it, on which the theorems are
-- instantiated and the definitions are run. RAM is 0x1000 bytes from 0x10000000 here, minisys's
-- read-only data stands at 0x20000000, and the file at 0x30000000.
mod Loading
mod Reading
mod Resources
mod System
mod Services
mod Emulator
mod Core
mod Frontend
mod Whole
mod Chip
mod Calls
mod Crossing
mod Devices
mod Wide
mod Panic
mod Table
mod Boot
mod Startup
use ga330_libretro.Common.{
  ℕ, zero, suc, ◌+◌, ◌-◌, ◌≤◌, ◌<◌, ◌≡◌, refl, Bool, true, false, ◌&&◌, ◌||◌, Option, none, some,
  List, [], ◌∷◌, ◌++◌, leb, ltb, ◌==◌, if◌then◌else◌, arith, length,
}
use ga330_libretro.Machine.{Memory, Machine, Run, ok, poke, wrap, u32_bytes, Cmd, pure}
use ga330_libretro.Machine.Access.{Holds, SameOn}
use ga330_libretro.Dl.Format.{
  Header, header_bytes, words_bytes, SectionHeader, TableEntry, ResourceEntry, section_code,
  section_import, section_export, section_resources,
}
use ga330_libretro.Dl.Format.Tables.{section_header_bytes, table_entry_bytes}
use ga330_libretro.Dl.Loader.Link.{Import}
use ga330_libretro.Dl.Exports.Lookup.{Export}
use ga330_libretro.Dl.Resources.Open.{Resource}
use ga330_libretro.Minisys.Builtin.{OsFunction}
use ga330_libretro.Minisys.Builtin.Lookup.{Builtin}

abbrev pub in_range : ℕ → ℕ → ℕ → Bool
in_range lo hi x = leb lo x && ltb x hi

-- All of the mapped memory holds 0.
abbrev pub blank : Memory
blank x =
    if in_range 0x10000000 0x10001000 x
      || in_range 0x20000000 0x20000100 x
      || in_range 0x30000000 0x30000400 x
    then some 0
    else none

abbrev pub file_at : ℕ
file_at = 0x30000000

abbrev pub my_header : Header
my_header = record {
  sign = b'C' ∷ b'C' ∷ b'D' ∷ b'L' ∷ [];
  version = 0x10000;
  unk_8 = 0x20001;
  num_sections = 4;
  unk_16 = 0 ∷ 0 ∷ 0 ∷ 0 ∷ [];
}

abbrev pub section : ℕ → ℕ → ℕ → SectionHeader
section type offset size = record {
  fourcc = 0 ∷ 0 ∷ 0 ∷ 0 ∷ [];
  type = type;
  offset = offset;
  size = size;
  unk_0 = 0;
  entry_point = 0x10000000;
  load_address = 0x10000000;
  alloc_size = 0x100;
}

abbrev pub code_section : SectionHeader
code_section = section section_code 160 12

abbrev pub import_section : SectionHeader
import_section = section section_import 172 37

abbrev pub export_section : SectionHeader
export_section = section section_export 209 40

abbrev pub resource_section : SectionHeader
resource_section = section section_resources 249 515

abbrev pub my_sections : List SectionHeader
my_sections = resource_section ∷ code_section ∷ import_section ∷ export_section ∷ []

abbrev pub my_code : List ℕ
my_code = 1 ∷ 2 ∷ 3 ∷ 4 ∷ 5 ∷ 6 ∷ 7 ∷ 8 ∷ 9 ∷ 10 ∷ 11 ∷ 12 ∷ []

abbrev pub entry : ℕ → TableEntry
entry address = record { name_offset = 0; unk_4 = 0; unk_8 = 0; address = address }

abbrev pub puts : List ℕ
puts = b'p' ∷ b'u' ∷ b't' ∷ b's' ∷ []

abbrev pub app_main : List ℕ
app_main = b'A' ∷ b'p' ∷ b'p' ∷ b'M' ∷ b'a' ∷ b'i' ∷ b'n' ∷ []

-- The import is linked to the function at 0x20000080, by a thunk at 0x10000020.
abbrev pub my_imports : List Import
my_imports = record { entry = entry 0x10000020; proc = 0x20000080 } ∷ []

abbrev pub my_exports : List Export
my_exports = record { entry = entry 0x10000004; name = app_main } ∷ []

abbrev pub zeros : ℕ → List ℕ
zeros zero = []
zeros (suc n) = 0 ∷ zeros n

abbrev pub my_resource : ResourceEntry
my_resource = record { filename = b'r' ∷ zeros 499; size = 3; offset = 512 }

abbrev pub my_resources : List Resource
my_resources = record { entry = my_resource; name = b'r' ∷ [] } ∷ []

abbrev pub encoded : List ℕ
encoded = 0x08 ∷ 0x29 ∷ 0x61 ∷ []

-- The table of minisys's functions.
abbrev pub my_builtins : List Builtin
my_builtins = record { entry = record { name = 0x20000000; addr = 0x20000080 }; name = puts } ∷ []

-- The file and minisys's names in memory.
abbrev pub headers_memory : Memory
headers_memory =
    poke
      (poke
        (poke
          (poke (poke blank file_at (header_bytes my_header)) (file_at + 32)
            (section_header_bytes resource_section))
          (file_at + 64) (section_header_bytes code_section))
        (file_at + 96) (section_header_bytes import_section))
      (file_at + 128) (section_header_bytes export_section)

abbrev pub tables_memory : Memory
tables_memory =
    poke
      (poke (poke headers_memory (file_at + 160) my_code) (file_at + 172)
        (words_bytes (1 ∷ 0 ∷ 0 ∷ 0 ∷ []) ++ (table_entry_bytes (entry 0x10000020) ++ puts)))
      (file_at + 209)
      (words_bytes (1 ∷ 0 ∷ 0 ∷ 0 ∷ []) ++ (table_entry_bytes (entry 0x10000004) ++ app_main))

abbrev pub my_memory : Memory
my_memory =
    poke
      (poke (poke tables_memory (file_at + 249) (u32_bytes 1 ++ (b'r' ∷ []))) (file_at + 753)
        (u32_bytes 3 ++ (u32_bytes 512 ++ encoded)))
      0x20000000 (puts ++ (0 ∷ app_main))

abbrev pub my_machine : Machine
my_machine = record { mem = my_memory; log = [] }

-- A Boolean test for `Holds`.
unfoldable pub holds_test : Memory → ℕ → List ℕ → Bool
holds_test m a [] = true
holds_test m a (b ∷ bs) =
    elim (m (wrap a)) [ none ↦ false | some c ↦ c == b ] && holds_test m (a + 1) bs

pub Holds-of_test : (m : Memory) (a : ℕ) (bs : List ℕ) → holds_test m a bs ≡ true → Holds m a bs
unfolding holds_test
Holds-of_test m a [] h = tt
Holds-of_test m a (b ∷ bs) h = (ground arith, Holds-of_test m (a + 1) bs (ground arith))
