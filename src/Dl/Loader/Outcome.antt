-- ===== src/Dl/Loader/Outcome.antt =====
-- What `ccdl_from_memory` does with a file: it refuses it with a message, or it has the code and
-- the thunks in place when it calls the entry point.
use ga330_libretro.Common.{
  ℕ, ◌≡◌, ◌≢◌, refl, ◌⊎◌, false, none, List, [], ◌∷◌, not, ◌||◌, arith, ◌==◌, list_eq,
  list_eq_sound,
}
use ga330_libretro.Machine.{Machine, ok, Event, diag, pure}
use ga330_libretro.Host.{CcosHost, ccos_diag}
use ga330_libretro.Dl.Format.{Header, SectionHeader, section_code}
use ga330_libretro.Dl.Format.Layout.{load_header-Holds}
use ga330_libretro.Dl.Loader.{
  ccdl_sign, ccdl_version, ccdl_unk_8, general_error, load_sections, ccdl_from_memory,
}
use ga330_libretro.Dl.Loader.Sections.{first_of_type, find_section-first_of_type}
use ga330_libretro.Dl.Loader.Image.{ImageAt, IsAccepted}

-- No section has the type.
abbrev pub NoneOf : ℕ → List SectionHeader → Type 0
NoneOf type [] = Unit
NoneOf type (h ∷ hs) = (h.type ≢ type) × NoneOf type hs

pub first_of_type-NoneOf :
    (type : ℕ) (hs : List SectionHeader) → NoneOf type hs → first_of_type type hs ≡ none
first_of_type-NoneOf type [] h = refl
first_of_type-NoneOf type (s ∷ hs) h = ground (arith, first_of_type-NoneOf type hs h.1)

-- Why a file is refused, with the message that is printed.
pub data Refused (hdr : Header) (hs : List SectionHeader) : Event → Type 0 where
  wrong_sign : hdr.sign ≢ ccdl_sign → Refused hdr hs (diag "Not a CCDL file" 24)
  wrong_version :
      hdr.sign ≡ ccdl_sign
      → (hdr.version ≢ ccdl_version) ⊎ (hdr.unk_8 ≢ ccdl_unk_8)
      → Refused hdr hs (diag "Invalid file version" 29)
  no_code :
      IsAccepted hdr → NoneOf section_code hs → Refused hdr hs (diag "No RAWD section in CCDL" 54)

pub accepted-tests :
    (hdr : Header)
    → IsAccepted hdr
    → (not (list_eq hdr.sign ccdl_sign) ≡ false)
      × ((not (hdr.version == ccdl_version) || not (hdr.unk_8 == ccdl_unk_8)) ≡ false)
accepted-tests hdr acc = (rw acc.sign refl, rw (acc.version, acc.unk_8) refl)

module _ (host : CcosHost) (dl f size : ℕ) where
  load_sections-no_code :
      (hdr : Header) (hs : List SectionHeader) (μ : Machine)
      → ImageAt μ.mem f hdr hs
      → NoneOf section_code hs
      → load_sections host dl f size hdr μ
        ≡ ok general_error (record μ { log = diag "No RAWD section in CCDL" 54 ∷ μ.log })
  unfolding load_sections ccos_diag
  load_sections-no_code hdr hs μ image none_of =
      rw
        (
          image.count,
          find_section-first_of_type (pure f) section_code hs 0 f μ refl image.sections,
          first_of_type-NoneOf section_code hs none_of,
        )
        refl

  -- A file with a wrong signature, a wrong version or no code section is refused: the result is
  -- -1, the message is printed, and memory is as before.
  pub ccdl_from_memory-Refused :
      (hdr : Header) (hs : List SectionHeader) (e : Event) (μ : Machine)
      → ImageAt μ.mem f hdr hs
      → Refused hdr hs e
      → ccdl_from_memory host dl f size μ ≡ ok general_error (record μ { log = e ∷ μ.log })
  unfolding ccdl_from_memory ccos_diag
  ccdl_from_memory-Refused hdr hs e μ image (wrong_sign ne) =
      rw (load_header-Holds f hdr μ image.header image.header_at)
        (ground (arith, list_eq_sound hdr.sign ccdl_sign))
  ccdl_from_memory-Refused hdr hs e μ image (wrong_version eq ne) =
      rw (load_header-Holds f hdr μ image.header image.header_at, eq) (ground arith)
  ccdl_from_memory-Refused hdr hs e μ image (no_code acc none_of) =
      let tests = accepted-tests hdr acc in
      rw (load_header-Holds f hdr μ image.header image.header_at, tests.0, tests.1)
        (load_sections-no_code hdr hs μ image none_of)
