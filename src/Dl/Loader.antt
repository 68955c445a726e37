-- ===== src/Dl/Loader.antt =====
-- `ccdl_from_memory` of libccos/src/dl.c: the header is checked, the code section is copied to its
-- load address, each import is replaced by a jump to the function that it names, and the entry
-- point is called.
pub mod Link
pub mod Image
pub mod Loaded
pub mod Outcome
pub mod Sections
pub mod Success
use ga330_libretro.Common.{
  ℕ, zero, suc, ◌+◌, ◌*◌, ◌≡◌, Bool, true, false, ◌||◌, not, Option, none, some, List, [], ◌∷◌,
  ◌++◌, if◌then◌else◌, ◌==◌, list_eq,
}
use ga330_libretro.Common.Signed.{ℤ, pos, negsuc}
use ga330_libretro.Machine.{Cmd, pure, ◌>>=◌, ◌>>◌, wrap, memcpy, store_bytes, store32, u32_bytes}
use ga330_libretro.Host.{CcosHost, ccos_diag}
use ga330_libretro.Dl.Format.{
  Header, header_bytes, sizeof_header, load_header, SectionHeader, sizeof_section_header,
  load_section_header, section_code, section_import, TableHeader, sizeof_table_header,
  load_table_header, TableEntry, sizeof_table_entry, load_table_entry, dl_file_bytes, dl_file_size,
  dl_hdr,
}

-- The loop that all of dl.c uses to look for a section: from section `i` on, with `rounds` headers
-- left, the first one whose type is `type`. `file_bytes` is how the code has the file's address, a
-- parameter or a field of a `DL_t`, and is evaluated in each round.
unfoldable pub find_section : Cmd ℕ → ℕ → ℕ → ℕ → Cmd (Option SectionHeader)
find_section file_bytes type zero i = pure none
find_section file_bytes type (suc rounds) i = do
  base ← file_bytes
  shdr ← load_section_header (base + sizeof_header + i * sizeof_section_header)
  if shdr.type == type then pure (some shdr) else find_section file_bytes type rounds (i + 1)

-- `memcmp(hdr.sign, "CCDL", 4)`
abbrev pub ccdl_sign : List ℕ
ccdl_sign = b'C' ∷ b'C' ∷ b'D' ∷ b'L' ∷ []

abbrev pub ccdl_version : ℕ
ccdl_version = 0x00010000

abbrev pub ccdl_unk_8 : ℕ
ccdl_unk_8 = 0x00020001

-- `GENERAL_ERROR`
abbrev pub general_error : ℤ
general_error = negsuc 0

-- `ldr pc, [pc, #-4]`: a jump to the address in the word that follows.
abbrev pub ldr_pc : ℕ
ldr_pc = 0xe51ff004

abbrev pub thunk_bytes : ℕ → List ℕ
thunk_bytes proc = u32_bytes ldr_pc ++ u32_bytes proc

-- The code section's bytes go to their load address.
unfoldable pub load_code : ℕ → SectionHeader → Cmd (Unit {0})
load_code file_bytes shdr = memcpy shdr.load_address (file_bytes + shdr.offset) shdr.size

unfoldable pub fill_dl : ℕ → ℕ → ℕ → Header → Cmd (Unit {0})
fill_dl dl_out file_bytes file_size hdr = do
  store32 (dl_file_bytes dl_out) file_bytes
  store32 (dl_file_size dl_out) file_size
  store_bytes (dl_hdr dl_out) (header_bytes hdr)

module _ (host : CcosHost) where
  -- One entry of the import table: a thunk for the function that it names.
  unfoldable pub link_import : ℕ → TableEntry → Cmd (Unit {0})
  link_import string_table ent = do
    proc ← host.get_builtin_proc (wrap (string_table + ent.name_offset))
    store_bytes ent.address (thunk_bytes proc)

  -- The entries from `p` on.
  unfoldable pub link_imports : ℕ → ℕ → ℕ → Cmd (Unit {0})
  link_imports string_table zero p = pure tt
  link_imports string_table (suc rounds) p = do
    ent ← load_table_entry p
    link_import string_table ent
    link_imports string_table rounds (p + sizeof_table_entry)

  -- The first import section, if there is one.
  unfoldable pub resolve_imports : ℕ → Header → Cmd (Unit {0})
  resolve_imports file_bytes hdr = do
    found ← find_section (pure file_bytes) section_import hdr.num_sections 0
    elim found [
      | none ↦ pure tt
      | some shdr ↦ do
        let p = file_bytes + shdr.offset
        iehdr ← load_table_header p
        let entries = p + sizeof_table_header
        link_imports (entries + iehdr.num_entries * sizeof_table_entry) iehdr.num_entries entries
    ]

  -- From the code section on.
  unfoldable pub load_image : ℕ → ℕ → ℕ → Header → SectionHeader → Cmd ℤ
  load_image dl_out file_bytes file_size hdr shdr_code = do
    load_code file_bytes shdr_code
    resolve_imports file_bytes hdr
    r ← host.call shdr_code.entry_point 0 0
    fill_dl dl_out file_bytes file_size hdr
    pure (pos 0)

  -- Behind the checks of the header.
  unfoldable pub load_sections : ℕ → ℕ → ℕ → Header → Cmd ℤ
  load_sections dl_out file_bytes file_size hdr = do
    code ← find_section (pure file_bytes) section_code hdr.num_sections 0
    elim code [
      | none ↦ ccos_diag "No RAWD section in CCDL" 54 >> pure general_error
      | some shdr_code ↦ load_image dl_out file_bytes file_size hdr shdr_code
    ]

  unfoldable pub ccdl_from_memory : ℕ → ℕ → ℕ → Cmd ℤ
  ccdl_from_memory dl_out file_bytes file_size = do
    hdr ← load_header file_bytes
    if not (list_eq hdr.sign ccdl_sign)
        then ccos_diag "Not a CCDL file" 24 >> pure general_error
        else if not (hdr.version == ccdl_version) || not (hdr.unk_8 == ccdl_unk_8)
        then ccos_diag "Invalid file version" 29 >> pure general_error
        else load_sections dl_out file_bytes file_size hdr
