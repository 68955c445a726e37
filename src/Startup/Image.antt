-- ===== src/Startup/Image.antt =====
-- The bytes of a CCDL file (libccos/include/libccos/dl.h) up to the end of its section headers, and
-- the file in memory.
use ga330_libretro.Common.{ℕ, ◌+◌, ◌*◌, ◌≡◌, subst, List, [], ◌∷◌, ◌++◌, length, arith}
use ga330_libretro.Machine.{Memory}
use ga330_libretro.Machine.Access.{Holds, Holds-append_left, Holds-append_right}
use ga330_libretro.Dl.Format.{Header, header_bytes, SectionHeader}
use ga330_libretro.Dl.Format.Layout.{IsHeader, header_of-header_bytes}
use ga330_libretro.Dl.Format.Tables.{
  section_header_bytes, IsSectionHeader, length-section_header_bytes,
}
use ga330_libretro.Dl.Loader.Sections.{SectionsAt}
use ga330_libretro.Dl.Loader.Image.{ImageAt}

abbrev pub sections_bytes : List SectionHeader → List ℕ
sections_bytes [] = []
sections_bytes (h ∷ hs) = section_header_bytes h ++ sections_bytes hs

abbrev pub image_bytes : Header → List SectionHeader → List ℕ
image_bytes hdr hs = header_bytes hdr ++ sections_bytes hs

abbrev pub AreSections : List SectionHeader → Type 0
AreSections [] = Unit
AreSections (h ∷ hs) = IsSectionHeader h × AreSections hs

-- The headers fit their C types, and there are as many sections as the header says.
pub record IsImage (hdr : Header) (hs : List SectionHeader) : Type 0 where
  pub header : IsHeader hdr
  pub count : hdr.num_sections ≡ length hs
  pub sections : AreSections hs

sections_bytes-SectionsAt :
    (m : Memory) (f i : ℕ) (hs : List SectionHeader)
    → AreSections hs
    → Holds m (f + 32 + i * 32) (sections_bytes hs)
    → SectionsAt m f i hs
sections_bytes-SectionsAt m f i [] ok h = tt
sections_bytes-SectionsAt m f i (s ∷ hs) ok h =
    let first = section_header_bytes s in
    let next : f + 32 + i * 32 + length first ≡ f + 32 + (i + 1) * 32 =
      omega (arith, length-section_header_bytes s ok.0) in
    (
      ok.0,
      Holds-append_left m (f + 32 + i * 32) first (sections_bytes hs) h,
      sections_bytes-SectionsAt m f (i + 1) hs ok.1 (
          subst (λ (a : ℕ). Holds m a (sections_bytes hs)) next
            (Holds-append_right m (f + 32 + i * 32) first (sections_bytes hs) h)),
    )

pub image_bytes-ImageAt :
    (m : Memory) (f : ℕ) (hdr : Header) (hs : List SectionHeader)
    → IsImage hdr hs
    → Holds m f (image_bytes hdr hs)
    → ImageAt m f hdr hs
image_bytes-ImageAt m f hdr hs ok h =
    let next : f + length (header_bytes hdr) ≡ f + 32 + 0 * 32 =
      omega (arith, (header_of-header_bytes hdr ok.header).1) in
    record {
      header = ok.header;
      header_at = Holds-append_left m f (header_bytes hdr) (sections_bytes hs) h;
      count = ok.count;
      sections = sections_bytes-SectionsAt m f 0 hs ok.sections (
          subst (λ (a : ℕ). Holds m a (sections_bytes hs)) next
            (Holds-append_right m f (header_bytes hdr) (sections_bytes hs) h));
    }
