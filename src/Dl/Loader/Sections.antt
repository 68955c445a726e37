-- ===== src/Dl/Loader/Sections.antt =====
-- The section headers of a file in memory, and the search for one by its type.
use ga330_libretro.Common.{
  ℕ, ◌+◌, ◌*◌, ◌≤◌, ◌≡◌, refl, Option, none, some, List, [], ◌∷◌, arith, length, if◌then◌else◌,
  ◌==◌,
}
use ga330_libretro.Machine.{word_mod, Memory, Machine, Cmd, ok}
use ga330_libretro.Machine.Access.{Holds, SameOn, Holds-frame}
use ga330_libretro.Dl.Format.{SectionHeader}
use ga330_libretro.Dl.Format.Tables.{
  section_header_bytes, IsSectionHeader, load_section_header-Holds, length-section_header_bytes,
}
use ga330_libretro.Dl.Loader.{find_section}

-- The headers `hs` stand in the file at `f` from section `i` on.
abbrev pub SectionsAt : Memory → ℕ → ℕ → List SectionHeader → Type 0
SectionsAt m f i [] = Unit
SectionsAt m f i (h ∷ hs) =
    IsSectionHeader h
    × Holds m (f + 32 + i * 32) (section_header_bytes h)
    × SectionsAt m f (i + 1) hs

-- The first header of a type.
abbrev pub first_of_type : ℕ → List SectionHeader → Option SectionHeader
first_of_type type [] = none
first_of_type type (h ∷ hs) = if h.type == type then some h else first_of_type type hs

-- The search finds the first section of the type, and changes nothing.
pub find_section-first_of_type :
    (base : Cmd ℕ) (type : ℕ) (hs : List SectionHeader) (i f : ℕ) (μ : Machine)
    → base μ ≡ ok f μ
    → SectionsAt μ.mem f i hs
    → find_section base type (length hs) i μ ≡ ok (first_of_type type hs) μ
unfolding find_section
find_section-first_of_type base type [] i f μ hb at_f = refl
find_section-first_of_type base type (h ∷ hs) i f μ hb at_f = ground (
  arith,
  load_section_header-Holds (f + 32 + i * 32) h μ at_f.0 at_f.1,
  find_section-first_of_type base type hs (i + 1) f μ hb at_f.2,
)

-- The search as the code makes it, over all of the file's sections.
pub find_section-all :
    (base : Cmd ℕ) (type n f : ℕ) (hs : List SectionHeader) (o : Option SectionHeader) (μ : Machine)
    → base μ ≡ ok f μ
    → n ≡ length hs
    → SectionsAt μ.mem f 0 hs
    → first_of_type type hs ≡ o
    → find_section base type n 0 μ ≡ ok o μ
find_section-all base type n f hs o μ hb count at_f found =
    rw (count, ← found) (find_section-first_of_type base type hs 0 f μ hb at_f)

pub SectionsAt-frame :
    (m m' : Memory) (f lo hi i : ℕ) (hs : List SectionHeader)
    → SameOn lo hi m m'
    → lo ≤ f
    → f + 32 + (i + length hs) * 32 ≤ hi
    → hi ≤ word_mod
    → SectionsAt m f i hs
    → SectionsAt m' f i hs
SectionsAt-frame m m' f lo hi i [] same below above top at_f = tt
SectionsAt-frame m m' f lo hi i (h ∷ hs) same below above top at_f = (
  at_f.0,
  Holds-frame m m' (f + 32 + i * 32) lo hi (section_header_bytes h) same (omega arith)
      (omega (arith, length-section_header_bytes h at_f.0)) top at_f.1,
  SectionsAt-frame m m' f lo hi (i + 1) hs same below (omega arith) top at_f.2,
)
