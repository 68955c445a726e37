-- ===== src/Examples/Resources.antt =====
-- Exports and resources of the small file.
use ga330_libretro.Common.{◌+◌, ◌≡◌, refl, inl, inr, some, [], ◌∷◌, arith}
use ga330_libretro.Machine.{Memory, Machine, ok, poke, is_mapped, u32_bytes}
use ga330_libretro.Machine.Access.{Holds}
use ga330_libretro.Libc.Strings.{CString}
use ga330_libretro.Dl.Format.{header_bytes, words_bytes, resource_entry_bytes}
use ga330_libretro.Dl.Format.Tables.{table_entry_bytes, IsResourceEntry}
use ga330_libretro.Dl.Handle.{DlAt, filled, DlAt-filled}
use ga330_libretro.Dl.Exports.{dl_get_proc}
use ga330_libretro.Dl.Exports.Lookup.{
  HasExports, present, export_address, or_builtin, dl_get_proc-export_address,
}
use ga330_libretro.Dl.Resources.{dl_res_open}
use ga330_libretro.Dl.Resources.Open as Open
use ga330_libretro.Dl.Resources.Open.{
  HasResources, resource_named, open_found, dl_res_open-resource_named,
}
use ga330_libretro.Dl.Resources.Whole.{read_resource, HasRoom, read_resource-map-flip}
use ga330_libretro.Dl.Loader.Image.{ImageAt}
use ga330_libretro.Examples.Loading.{my_host, my_header-IsHeader, my-ImageAt}
use ga330_libretro.Examples.{
  my_memory, my_header, my_sections, my_exports, my_resource, my_resources, export_section,
  resource_section, entry, app_main, encoded, file_at, holds_test, Holds-of_test,
}

-- The file is loaded, its handle at 0x10000900.
abbrev pub open_memory : Memory
open_memory = filled my_memory 0x10000900 file_at 764 my_header

abbrev pub open_machine : Machine
open_machine = record { mem = open_memory; log = [] }

my_dl-DlAt : DlAt open_memory 0x10000900 file_at 764 my_header
my_dl-DlAt = DlAt-filled 0x10000900 file_at 764 my_header my_header-IsHeader my_memory (omega arith)

pub open_image : ImageAt open_memory file_at my_header my_sections
unfolding holds_test poke
open_image = my-ImageAt open_memory refl refl refl refl refl

-- "AppMain" in the file's string table, and in minisys.
exported_name : CString open_memory (file_at + 241) app_main
unfolding poke
exported_name = (
  refl,
  omega arith,
  (
    refl,
    omega arith,
    (
      refl,
      omega arith,
      (refl, omega arith, (refl, omega arith, (refl, omega arith, (refl, omega arith, refl)))),
    ),
  ),
)

pub wanted_name : CString open_memory 0x20000005 app_main
unfolding poke
wanted_name = (
  refl,
  omega arith,
  (
    refl,
    omega arith,
    (
      refl,
      omega arith,
      (refl, omega arith, (refl, omega arith, (refl, omega arith, (refl, omega arith, refl)))),
    ),
  ),
)

pub my_exports_at : HasExports open_memory file_at my_sections my_exports
unfolding holds_test poke
my_exports_at = present export_section (0 ∷ 0 ∷ 0 ∷ []) refl (record {
  unused_length = refl;
  words = omega arith;
  head = Holds-of_test open_memory (file_at + 209) (words_bytes (1 ∷ 0 ∷ 0 ∷ 0 ∷ [])) refl;
  entries = (
    record { words = omega arith },
    Holds-of_test open_memory (file_at + 225) (table_entry_bytes (entry 0x10000004)) refl,
    exported_name,
    omega arith,
    tt,
  );
})

dl_get_proc-export_address_example :
    dl_get_proc my_host 0x10000900 0x20000005 open_machine
    ≡ or_builtin my_host 0x20000005 (export_address app_main my_exports) open_machine
dl_get_proc-export_address_example =
    dl_get_proc-export_address my_host 0x10000900 file_at 764 my_header my_sections my_exports
      0x20000005 app_main open_machine (omega arith) my_dl-DlAt open_image my_exports_at wanted_name

-- It is the exported address.
exported_address :
    or_builtin my_host 0x20000005 (export_address app_main my_exports) open_machine
    ≡ ok 0x10000004 open_machine
exported_address = refl

-- The name "r", at 0x10000a00.
abbrev named_memory : Memory
named_memory = poke open_memory 0x10000a00 (b'r' ∷ [])

abbrev named_machine : Machine
named_machine = record { mem = named_memory; log = [] }

my_resource-IsResourceEntry : IsResourceEntry my_resource
my_resource-IsResourceEntry = record { filename = refl; words = omega arith }

named_dl : DlAt named_memory 0x10000900 file_at 764 my_header
unfolding holds_test poke
named_dl = record {
  file_bytes = Holds-of_test named_memory 0x10000900 (u32_bytes file_at) refl;
  file_size = Holds-of_test named_memory 0x10000904 (u32_bytes 764) refl;
  hdr_bytes = Holds-of_test named_memory 0x10000908 (header_bytes my_header) refl;
}

named_image : ImageAt named_memory file_at my_header my_sections
unfolding holds_test poke
named_image = my-ImageAt named_memory refl refl refl refl refl

my_resources_at : HasResources named_memory file_at my_sections my_resources (some resource_section)
unfolding holds_test poke
my_resources_at =
    Open.present resource_section refl (omega arith)
      (Holds-of_test named_memory (file_at + 249) (u32_bytes 1) refl)
      (
        my_resource-IsResourceEntry,
        Holds-of_test named_memory (file_at + 253) (resource_entry_bytes my_resource) refl,
        (refl, omega arith, refl),
        omega arith,
        tt,
      )

resource_name : CString named_memory 0x10000a00 (b'r' ∷ [])
unfolding poke
resource_name = (refl, omega arith, refl)

dl_res_open-resource_named_example :
    dl_res_open my_host 0x10000900 0 0x10000a00 named_machine
    ≡ open_found my_host 0x10000900
        (some resource_section)
        (resource_named (b'r' ∷ []) my_resources)
        named_machine
dl_res_open-resource_named_example =
    dl_res_open-resource_named my_host 0x10000900 file_at 764 my_header my_sections my_resources 0
      0x10000a00 (b'r' ∷ []) (some resource_section) named_machine (omega arith) named_dl
      named_image my_resources_at resource_name

my_room : HasRoom named_memory 0x10000400 0x10000900 file_at 761 0x10000700 encoded
unfolding holds_test poke is_mapped
my_room = record {
  block = refl;
  block_top = omega arith;
  dl_word = omega arith;
  dl_top = omega arith;
  f_word = omega arith;
  file_at = Holds-of_test named_memory 0x10000900 (u32_bytes file_at) refl;
  from_word = omega arith;
  bytes = Holds-of_test named_memory (file_at + 761) encoded refl;
  bytes_top = omega arith;
  room = refl;
  buffer_top = omega arith;
  block_dl = inl (omega arith);
  block_bytes = inl (omega arith);
  block_buffer = inr (omega arith);
}

read_resource-map-flip_example :
    (m : Memory) × (read_resource my_host 0x10000900 0x10000a00 0x10000700 named_machine
      ≡ ok 3 (record { mem = m; log = [] }))
    × Holds m 0x10000700 (0x48 ∷ 0x69 ∷ 0x21 ∷ [])
read_resource-map-flip_example =
    read_resource-map-flip my_host 0x10000900 file_at 764 my_header my_sections my_resources
      0x10000a00 (b'r' ∷ []) resource_section my_resource 0x10000400 0x10000700 encoded
      named_machine named_machine named_dl named_image my_resources_at resource_name refl
      my_resource-IsResourceEntry refl refl my_room
