-- ===== src/Dl/Loader/Image.antt =====
-- A CCDL file in memory: what stands where, as the loader expects it.
use ga330_libretro.Common.{ℕ, ◌+◌, ◌*◌, ◌≤◌, ◌≡◌, ◌⊎◌, none, some, List, [], ◌∷◌, length}
use ga330_libretro.Machine.{word_mod, Memory, poke}
use ga330_libretro.Machine.Access.{Holds, Mapped}
use ga330_libretro.Host.{CcosHost}
use ga330_libretro.Dl.Format.{
  Header, header_bytes, words_bytes, SectionHeader, section_code, section_import,
}
use ga330_libretro.Dl.Format.Layout.{IsHeader, AreWords}
use ga330_libretro.Dl.Loader.{ccdl_sign, ccdl_version, ccdl_unk_8}
use ga330_libretro.Dl.Loader.Sections.{SectionsAt, first_of_type}
use ga330_libretro.Dl.Loader.Link.{Import, ImportsAt, ThunksFit, Resolves, linked}

-- The file's header and section headers.
pub record ImageAt (m : Memory) (f : ℕ) (hdr : Header) (hs : List SectionHeader) : Type 0 where
  pub header : IsHeader hdr
  pub header_at : Holds m f (header_bytes hdr)
  pub count : hdr.num_sections ≡ length hs
  pub sections : SectionsAt m f 0 hs

-- The header is one that this loader takes.
pub record IsAccepted (hdr : Header) : Type 0 where
  pub sign : hdr.sign ≡ ccdl_sign
  pub version : hdr.version ≡ ccdl_version
  pub unk_8 : hdr.unk_8 ≡ ccdl_unk_8

-- The code section, and room for its bytes outside of the range from `lo` to `hi`.
pub record CodeFits (lo hi : ℕ) (m : Memory) (f : ℕ) (hs : List SectionHeader) (c : SectionHeader)
    (code : List ℕ) : Type 0 where
  pub found : first_of_type section_code hs ≡ some c
  pub bytes : Holds m (f + c.offset) code
  pub size : length code ≡ c.size
  pub room : Mapped m c.load_address c.size
  pub top : c.load_address + c.size ≤ word_mod
  pub apart : (c.load_address + c.size ≤ lo) ⊎ (hi ≤ c.load_address)

-- The import table of the section `s`.
pub record TableFits (host : CcosHost) (lo hi : ℕ) (m : Memory) (f : ℕ) (s : SectionHeader)
    (unused : List ℕ) (es : List Import) : Type 0 where
  pub unused_length : length unused ≡ 3
  pub words : AreWords (length es ∷ unused)
  pub head : Holds m (f + s.offset) (words_bytes (length es ∷ unused))
  pub below : lo ≤ f + s.offset
  pub above : f + s.offset + 16 + length es * 16 ≤ hi
  pub entries : ImportsAt m (f + s.offset + 16) es
  pub resolved : Resolves host lo hi m (f + s.offset + 16 + length es * 16) es

-- The file has no import section, or one with a table.
pub data ImportsFit (host : CcosHost) (lo hi : ℕ) (m : Memory) (f : ℕ) (hs : List SectionHeader)
    (es : List Import) : Type 0 where
  absent : first_of_type section_import hs ≡ none → es ≡ [] → ImportsFit host lo hi m f hs es
  present :
      (s : SectionHeader) (unused : List ℕ)
      → first_of_type section_import hs ≡ some s
      → TableFits host lo hi m f s unused es
      → ImportsFit host lo hi m f hs es

-- A file that can be loaded. All that the loader reads, the host's names included, lies between
-- `lo` and `hi`, and the file's code and the thunks go elsewhere.
pub record IsLoadable (host : CcosHost) (lo hi : ℕ) (m : Memory) (f : ℕ) (hdr : Header)
    (hs : List SectionHeader) (c : SectionHeader) (code : List ℕ) (es : List Import) : Type 0 where
  pub image : ImageAt m f hdr hs
  pub accepted : IsAccepted hdr
  pub below : lo ≤ f
  pub above : f + 32 + length hs * 32 ≤ hi
  pub top : hi ≤ word_mod
  pub code_fits : CodeFits lo hi m f hs c code
  pub thunks_fit : ThunksFit lo hi m es
  pub imports : ImportsFit host lo hi m f hs es

-- Memory when the entry point is called.
abbrev pub loaded : Memory → SectionHeader → List ℕ → List Import → Memory
loaded m c code es = linked (poke m c.load_address code) es
