-- ===== src/Dl/Resources.antt =====
-- `dl_res_open`, `dl_res_get_size` and `dl_res_get_data` of libccos/src/dl.c: named resources in
-- the CCDL file, whose bytes are stored with bit 6 flipped.
pub mod Handle
pub mod Open
pub mod Data
pub mod Whole
use ga330_libretro.Common.{
  ℕ, zero, suc, ◌+◌, ◌*◌, Option, none, some, List, [], ◌∷◌, if◌then◌else◌, bit_xor,
}
use ga330_libretro.Machine.{
  Cmd, pure, ◌>>=◌, ◌>>◌, wrap, load32, store32, store_bytes, load_bytes, memcpy, byte,
}
use ga330_libretro.Libc.{string_at, array, strcmp_is_zero}
use ga330_libretro.Host.{CcosHost}
use ga330_libretro.Dl.Format.{
  SectionHeader, ResourceEntry, resource_entry_bytes, sizeof_resource_entry, filename_length,
  load_resource_entry, section_resources, dl_file_bytes, dl_hdr_num_sections, sizeof_res,
  res_start_file_offset, res_current_file_offset, res_dl, res_ent,
}
use ga330_libretro.Dl.Loader.{find_section}

-- The loop over the entries from `p` on, up to the first one with the name. The file name is
-- compared in the local copy of the entry, where a read past its 500 bytes is undefined.
unfoldable pub find_resource : ℕ → ℕ → ℕ → Cmd (Option ResourceEntry)
find_resource name zero p = pure none
find_resource name (suc rounds) p = do
  ent ← load_resource_entry p
  same ← strcmp_is_zero (λ m. array ent.filename) (λ m. string_at m name)
  if same then pure (some ent) else find_resource name rounds (p + sizeof_resource_entry)

unfoldable pub fill_res : ℕ → ℕ → ℕ → ResourceEntry → Cmd (Unit {0})
fill_res res start dl ent = do
  store32 (res_current_file_offset res) start
  store32 (res_start_file_offset res) start
  store32 (res_dl res) dl
  store_bytes (res_ent res) (resource_entry_bytes ent)

-- A new `DL_res_t`; the result of `malloc` is not checked.
unfoldable pub new_res : CcosHost → ℕ → SectionHeader → ResourceEntry → Cmd ℕ
new_res host dl shdr ent = do
  res ← host.malloc sizeof_res
  fill_res res (wrap (shdr.offset + ent.offset)) dl ent
  pure res

-- The result 0 is `NULL`.
unfoldable pub dl_res_open : CcosHost → ℕ → ℕ → ℕ → Cmd ℕ
dl_res_open host dl unk_4 name = do
  num_sections ← load32 (dl_hdr_num_sections dl)
  found ← find_section (load32 (dl_file_bytes dl)) section_resources num_sections 0
  elim found [
    | none ↦ pure 0
    | some shdr ↦ do
      file_bytes ← load32 (dl_file_bytes dl)
      count ← load32 (file_bytes + shdr.offset)
      hit ← find_resource name count (file_bytes + shdr.offset + 4)
      elim hit [ none ↦ pure 0 | some ent ↦ new_res host dl shdr ent ]
  ]

-- `res->ent.size`
unfoldable pub dl_res_get_size : ℕ → Cmd ℕ
dl_res_get_size res = load32 (res_ent res + filename_length)

abbrev pub flip : ℕ → ℕ
flip b = bit_xor b 0x40

-- The loop from index `i` of the buffer on: `((char*) buffer)[i] ^= 0x40`.
unfoldable pub decode_loop : ℕ → ℕ → ℕ → Cmd (Unit {0})
decode_loop buffer zero i = pure tt
decode_loop buffer (suc rounds) i = do
  b ← load_bytes (buffer + i) 1
  store_bytes (buffer + i) (flip (byte b 0) ∷ [])
  decode_loop buffer rounds (i + 1)

-- `size` and `count` are the patterns of two `int`s, whose product wraps. The loop counts to
-- `count`, which is converted to `size_t`.
unfoldable pub dl_res_get_data : ℕ → ℕ → ℕ → ℕ → Cmd ℕ
dl_res_get_data res buffer size count = do
  let num_to_read = wrap (size * count)
  dl ← load32 (res_dl res)
  file_bytes ← load32 (dl_file_bytes dl)
  from ← load32 (res_current_file_offset res)
  memcpy buffer (file_bytes + from) num_to_read
  current ← load32 (res_current_file_offset res)
  store32 (res_current_file_offset res) (wrap (current + num_to_read))
  decode_loop buffer count 0
  pure num_to_read
