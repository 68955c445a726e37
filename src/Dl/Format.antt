-- ===== src/Dl/Format.antt =====
-- The structures of libccos/include/libccos/dl.h, as they stand in memory: each is a record of its
-- fields, read from its bytes. All fields are 32-bit words, so there is no padding.
pub mod Layout
pub mod Tables
use ga330_libretro.Common.{ℕ, ◌+◌, List, [], ◌∷◌, ◌++◌, take, drop}
use ga330_libretro.Machine.{Cmd, ◌>>=◌, pure, load_bytes, u32_at, u32_bytes}

-- `CCDL_header_t`.
pub record Header : Type 0 where
  pub sign : List ℕ
  pub version : ℕ
  pub unk_8 : ℕ
  pub num_sections : ℕ
  pub unk_16 : List ℕ

abbrev pub sizeof_header : ℕ
sizeof_header = 32

abbrev pub header_of : List ℕ → Header
header_of bs = record {
  sign = take 4 bs;
  version = u32_at bs 4;
  unk_8 = u32_at bs 8;
  num_sections = u32_at bs 12;
  unk_16 = u32_at bs 16 ∷ u32_at bs 20 ∷ u32_at bs 24 ∷ u32_at bs 28 ∷ [];
}

abbrev pub words_bytes : List ℕ → List ℕ
words_bytes [] = []
words_bytes (w ∷ ws) = u32_bytes w ++ words_bytes ws

abbrev pub header_bytes : Header → List ℕ
header_bytes h = h.sign ++ words_bytes (h.version ∷ h.unk_8 ∷ h.num_sections ∷ h.unk_16)

-- The types of sections.
abbrev pub section_code : ℕ
section_code = 1

abbrev pub section_resources : ℕ
section_resources = 7

abbrev pub section_import : ℕ
section_import = 8

abbrev pub section_export : ℕ
section_export = 9

-- `CCDL_section_header_t`; the fields from `unk_0` on are those of `specific_data.code`.
pub record SectionHeader : Type 0 where
  pub fourcc : List ℕ
  pub type : ℕ
  pub offset : ℕ
  pub size : ℕ
  pub unk_0 : ℕ
  pub entry_point : ℕ
  pub load_address : ℕ
  pub alloc_size : ℕ

abbrev pub sizeof_section_header : ℕ
sizeof_section_header = 32

abbrev pub section_header_of : List ℕ → SectionHeader
section_header_of bs = record {
  fourcc = take 4 bs;
  type = u32_at bs 4;
  offset = u32_at bs 8;
  size = u32_at bs 12;
  unk_0 = u32_at bs 16;
  entry_point = u32_at bs 20;
  load_address = u32_at bs 24;
  alloc_size = u32_at bs 28;
}

-- `CCDL_import_export_header_t`.
pub record TableHeader : Type 0 where
  pub num_entries : ℕ
  pub unused : List ℕ

abbrev pub sizeof_table_header : ℕ
sizeof_table_header = 16

abbrev pub table_header_of : List ℕ → TableHeader
table_header_of bs = record {
  num_entries = u32_at bs 0;
  unused = u32_at bs 4 ∷ u32_at bs 8 ∷ u32_at bs 12 ∷ [];
}

-- `CCDL_import_export_entry_t`.
pub record TableEntry : Type 0 where
  pub name_offset : ℕ
  pub unk_4 : ℕ
  pub unk_8 : ℕ
  pub address : ℕ

abbrev pub sizeof_table_entry : ℕ
sizeof_table_entry = 16

abbrev pub table_entry_of : List ℕ → TableEntry
table_entry_of bs = record {
  name_offset = u32_at bs 0;
  unk_4 = u32_at bs 4;
  unk_8 = u32_at bs 8;
  address = u32_at bs 12;
}

-- `CCDL_ERPT_entry_t`, a resource.
pub record ResourceEntry : Type 0 where
  pub filename : List ℕ
  pub size : ℕ
  pub offset : ℕ

abbrev pub filename_length : ℕ
filename_length = 500

abbrev pub sizeof_resource_entry : ℕ
sizeof_resource_entry = 508

abbrev pub resource_entry_of : List ℕ → ResourceEntry
resource_entry_of bs = record {
  filename = take filename_length bs;
  size = u32_at bs filename_length;
  offset = u32_at bs (filename_length + 4);
}

abbrev pub resource_entry_bytes : ResourceEntry → List ℕ
resource_entry_bytes e = e.filename ++ (u32_bytes e.size ++ u32_bytes e.offset)

-- Where the fields of a `DL_t` stand: `file_bytes`, `file_size`, `hdr`.
abbrev pub dl_file_bytes : ℕ → ℕ
dl_file_bytes dl = dl

abbrev pub dl_file_size : ℕ → ℕ
dl_file_size dl = dl + 4

abbrev pub dl_hdr : ℕ → ℕ
dl_hdr dl = dl + 8

abbrev pub dl_hdr_num_sections : ℕ → ℕ
dl_hdr_num_sections dl = dl + 20

abbrev pub sizeof_dl : ℕ
sizeof_dl = 40

-- Where the fields of a `DL_res_t` stand: `start_file_offset`, `current_file_offset`, `dl`, `ent`.
abbrev pub res_start_file_offset : ℕ → ℕ
res_start_file_offset res = res

abbrev pub res_current_file_offset : ℕ → ℕ
res_current_file_offset res = res + 4

abbrev pub res_dl : ℕ → ℕ
res_dl res = res + 8

abbrev pub res_ent : ℕ → ℕ
res_ent res = res + 12

abbrev pub sizeof_res : ℕ
sizeof_res = 520

-- `memcpy` of a structure in memory into a local variable.
unfoldable pub load_header : ℕ → Cmd Header
load_header p = do bs ← load_bytes p sizeof_header; pure (header_of bs)

unfoldable pub load_section_header : ℕ → Cmd SectionHeader
load_section_header p = do bs ← load_bytes p sizeof_section_header; pure (section_header_of bs)

unfoldable pub load_table_header : ℕ → Cmd TableHeader
load_table_header p = do bs ← load_bytes p sizeof_table_header; pure (table_header_of bs)

unfoldable pub load_table_entry : ℕ → Cmd TableEntry
load_table_entry p = do bs ← load_bytes p sizeof_table_entry; pure (table_entry_of bs)

unfoldable pub load_resource_entry : ℕ → Cmd ResourceEntry
load_resource_entry p = do bs ← load_bytes p sizeof_resource_entry; pure (resource_entry_of bs)
