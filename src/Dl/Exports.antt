-- ===== src/Dl/Exports.antt =====
-- `dl_get_proc` of libccos/src/dl.c: the address of an exported function, or else of a function of
-- the system.
pub mod Lookup
use ga330_libretro.Common.{ℕ, zero, suc, ◌+◌, ◌*◌, Option, none, some, if◌then◌else◌}
use ga330_libretro.Machine.{Cmd, pure, ◌>>=◌, load32}
use ga330_libretro.Libc.{string_at, strcmp_is_zero}
use ga330_libretro.Host.{CcosHost}
use ga330_libretro.Dl.Format.{
  load_table_header, sizeof_table_header, load_table_entry, sizeof_table_entry, section_export,
  dl_file_bytes, dl_hdr_num_sections,
}
use ga330_libretro.Dl.Loader.{find_section}

-- The loop over the entries from `p` on, up to the first one with the name.
unfoldable pub find_export : ℕ → ℕ → ℕ → ℕ → Cmd (Option ℕ)
find_export string_table name zero p = pure none
find_export string_table name (suc rounds) p = do
  ent ← load_table_entry p
  same ← strcmp_is_zero (λ m. string_at m (string_table + ent.name_offset)) (λ m. string_at m name)
  if same
      then pure (some ent.address)
      else find_export string_table name rounds (p + sizeof_table_entry)

-- The table of exports at `p`.
unfoldable pub search_exports : ℕ → ℕ → Cmd (Option ℕ)
search_exports name p = do
  iehdr ← load_table_header p
  let entries = p + sizeof_table_header
  find_export (entries + iehdr.num_entries * sizeof_table_entry) name iehdr.num_entries entries

-- The fields of `*dl` are read in every round of the search for the section; nothing is written
-- meanwhile, so `num_sections` is read once here.
unfoldable pub dl_get_proc : CcosHost → ℕ → ℕ → Cmd ℕ
dl_get_proc host dl name = do
  num_sections ← load32 (dl_hdr_num_sections dl)
  found ← find_section (load32 (dl_file_bytes dl)) section_export num_sections 0
  elim found [
    | none ↦ host.get_builtin_proc name
    | some shdr ↦ do
      file_bytes ← load32 (dl_file_bytes dl)
      hit ← search_exports name (file_bytes + shdr.offset)
      elim hit [ some address ↦ pure address | none ↦ host.get_builtin_proc name ]
  ]
