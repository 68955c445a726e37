-- ===== src/Dl/Exports/Lookup.antt =====
-- `dl_get_proc` against a lookup in the list of exports.
use ga330_libretro.Common.{
  ℕ, ◌+◌, ◌*◌, ◌<◌, ◌≡◌, refl, Option, none, some, List, [], ◌∷◌, arith, length, list_eq,
  if◌then◌else◌, Option-cases, inl, inr,
}
use ga330_libretro.Machine.{word_mod, Memory, Machine, Run, ok, load32}
use ga330_libretro.Machine.Access.{Holds}
use ga330_libretro.Machine.Words.{IsWord}
use ga330_libretro.Libc.{string_at}
use ga330_libretro.Libc.Strings.{CString, strcmp_is_zero-list_eq}
use ga330_libretro.Host.{CcosHost}
use ga330_libretro.Dl.Format.{Header, SectionHeader, TableEntry, words_bytes, section_export}
use ga330_libretro.Dl.Format.Layout.{AreWords}
use ga330_libretro.Dl.Format.Tables.{
  table_entry_bytes, IsTableEntry, load_table_entry-Holds, load_table_header-Holds,
}
use ga330_libretro.Dl.Handle.{DlAt, DlAt-file_bytes, DlAt-num_sections}
use ga330_libretro.Dl.Loader.Sections.{first_of_type, find_section-all}
use ga330_libretro.Dl.Loader.Image.{ImageAt}
use ga330_libretro.Dl.Exports.{find_export, search_exports, dl_get_proc}

-- An entry of the table of exports, and its name.
pub record Export : Type 0 where
  pub entry : TableEntry
  pub name : List ℕ

-- The entries stand from `p` on, with their names in the string table.
abbrev pub ExportsAt : Memory → ℕ → ℕ → List Export → Type 0
ExportsAt m names p [] = Unit
ExportsAt m names p (x ∷ xs) =
    IsTableEntry x.entry
    × Holds m p (table_entry_bytes x.entry)
    × CString m (names + x.entry.name_offset) x.name
    × (length x.name < word_mod)
    × ExportsAt m names (p + 16) xs

-- The address of the first export with the name.
abbrev pub export_address : List ℕ → List Export → Option ℕ
export_address s [] = none
export_address s (x ∷ xs) = if list_eq x.name s then some x.entry.address else export_address s xs

pub find_export-export_address :
    (names name : ℕ) (s : List ℕ) (xs : List Export) (p : ℕ) (μ : Machine)
    → CString μ.mem name s
    → ExportsAt μ.mem names p xs
    → find_export names name (length xs) p μ ≡ ok (export_address s xs) μ
unfolding find_export
find_export-export_address names name s [] p μ named at_p = refl
find_export-export_address names name s (x ∷ xs) p μ named at_p = ground (
  arith,
  load_table_entry-Holds p x.entry μ at_p.0 at_p.1,
  strcmp_is_zero-list_eq (λ m. string_at m (names + x.entry.name_offset)) (λ m. string_at m name)
      x.name s μ at_p.3 at_p.2 named,
  find_export-export_address names name s xs (p + 16) μ named at_p.4,
)

-- The table of exports of the section `e`.
pub record ExportTable (m : Memory) (f : ℕ) (e : SectionHeader) (unused : List ℕ) (xs : List Export)
    : Type 0 where
  pub unused_length : length unused ≡ 3
  pub words : AreWords (length xs ∷ unused)
  pub head : Holds m (f + e.offset) (words_bytes (length xs ∷ unused))
  pub entries : ExportsAt m (f + e.offset + 16 + length xs * 16) (f + e.offset + 16) xs

-- The file has no export section and no exports, or a section with a table of them.
pub data HasExports (m : Memory) (f : ℕ) (hs : List SectionHeader) (xs : List Export) : Type 0 where
  absent : first_of_type section_export hs ≡ none → xs ≡ [] → HasExports m f hs xs
  present :
      (e : SectionHeader) (unused : List ℕ)
      → first_of_type section_export hs ≡ some e
      → ExportTable m f e unused xs
      → HasExports m f hs xs

-- The address where there is one, and else what the system has under the name.
abbrev pub or_builtin : CcosHost → ℕ → Option ℕ → Machine → Run ℕ
or_builtin host name (some address) μ = ok address μ
or_builtin host name none μ = host.get_builtin_proc name μ

search_exports-export_address :
    (name p : ℕ) (s : List ℕ) (unused : List ℕ) (xs : List Export) (μ : Machine)
    → CString μ.mem name s
    → length unused ≡ 3
    → AreWords (length xs ∷ unused)
    → Holds μ.mem p (words_bytes (length xs ∷ unused))
    → ExportsAt μ.mem (p + 16 + length xs * 16) (p + 16) xs
    → search_exports name p μ ≡ ok (export_address s xs) μ
unfolding search_exports
search_exports-export_address name p s unused xs μ named three words head entries =
    rw (load_table_header-Holds p (length xs) unused μ three words head)
      (find_export-export_address (p + 16 + length xs * 16) name s xs (p + 16) μ named entries)

module _ (host : CcosHost) (dl f size : ℕ) (hdr : Header) (hs : List SectionHeader)
    (xs : List Export) where
  -- `dl_get_proc` finds the first export with the name, and asks the system for a name that the
  -- file does not export; it writes nothing itself.
  pub dl_get_proc-export_address :
      (name : ℕ) (s : List ℕ) (μ : Machine)
      → IsWord f
      → DlAt μ.mem dl f size hdr
      → ImageAt μ.mem f hdr hs
      → HasExports μ.mem f hs xs
      → CString μ.mem name s
      → dl_get_proc host dl name μ ≡ or_builtin host name (export_address s xs) μ
  unfolding dl_get_proc
  dl_get_proc-export_address name s μ fits at_dl image (absent none_found empty) named =
      rw
        (
          DlAt-num_sections dl f size hdr image.header μ at_dl,
          find_section-all (load32 dl) section_export hdr.num_sections f hs none μ
              (DlAt-file_bytes dl f size hdr image.header μ fits at_dl) image.count image.sections
              none_found,
          empty,
        )
        refl
  dl_get_proc-export_address name s μ fits at_dl image (present e unused found table) named =
      let base = DlAt-file_bytes dl f size hdr image.header μ fits at_dl in
      rw
        (
          DlAt-num_sections dl f size hdr image.header μ at_dl,
          find_section-all (load32 dl) section_export hdr.num_sections f hs (some e) μ base
              image.count image.sections found,
          base,
          search_exports-export_address name (f + e.offset) s unused xs μ named table.unused_length
              table.words table.head table.entries,
        )
        (elim (Option-cases (export_address s xs)) [ inl e ↦ rw e refl | inr (a, e) ↦ rw e refl ])
