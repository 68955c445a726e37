-- ===== src/Examples/Loading.antt =====
-- The loader on the small file.
use ga330_libretro.Common.{ℕ, ◌+◌, ◌<◌, ◌≡◌, refl, inl, true, [], ◌∷◌, arith}
use ga330_libretro.Common.Signed.{pos}
use ga330_libretro.Machine.{word_mod, Memory, Machine, ok, poke, pure, is_mapped, diag, word_mod}
use ga330_libretro.Machine.Access.{SameOn}
use ga330_libretro.Host.{CcosHost}
use ga330_libretro.Dl.Format.{Header, header_bytes, words_bytes}
use ga330_libretro.Dl.Format.Layout.{IsHeader}
use ga330_libretro.Dl.Format.Tables.{section_header_bytes, table_entry_bytes, IsSectionHeader}
use ga330_libretro.Dl.Loader.{ccdl_from_memory, general_error}
use ga330_libretro.Dl.Loader.Image.{
  ImageAt, IsAccepted, CodeFits, TableFits, present, IsLoadable, loaded,
}
use ga330_libretro.Dl.Loader.Outcome.{Refused, wrong_sign, ccdl_from_memory-Refused}
use ga330_libretro.Dl.Loader.Loaded.{ccdl_from_memory-DlAt}
use ga330_libretro.Minisys.Builtin.{minisys_host}
use ga330_libretro.Minisys.Builtin.Lookup.{table_of, NamesAt, ImportsNamed, minisys_host-Resolves}
use ga330_libretro.Libc.Strings.{CString}
use ga330_libretro.Dl.Handle.{DlAt}
use ga330_libretro.Dl.Loader.Sections.{SectionsAt}
use ga330_libretro.Examples.{
  section, entry, resource_section, export_section, my_memory, my_machine, my_header, my_sections,
  my_code, my_imports, my_builtins, file_at, code_section, import_section, puts, holds_test,
  Holds-of_test,
}

-- `malloc` hands out the block at 0x10000400; the application's functions do nothing.
abbrev pub my_host : CcosHost
my_host = minisys_host (table_of my_builtins) (λ n. pure 0x10000400) (λ f a b. pure 7)

pub my_header-IsHeader : IsHeader my_header
my_header-IsHeader = record {
  sign = refl;
  version = omega arith;
  unk_8 = omega arith;
  num_sections = omega arith;
  unk_16_length = refl;
  unk_16 = omega arith;
}

pub my_section-IsSectionHeader :
    (t o s : ℕ) → t < word_mod → o < word_mod → s < word_mod → IsSectionHeader (section t o s)
my_section-IsSectionHeader t o s ht ho hs = record {
  fourcc = refl;
  words = (ht, (ho, (hs, (omega arith, (omega arith, (omega arith, (omega arith, tt)))))));
}

my_sections_at :
    (m : Memory)
    → holds_test m (file_at + 32) (section_header_bytes resource_section) ≡ true
    → holds_test m (file_at + 64) (section_header_bytes code_section) ≡ true
    → holds_test m (file_at + 96) (section_header_bytes import_section) ≡ true
    → holds_test m (file_at + 128) (section_header_bytes export_section) ≡ true
    → SectionsAt m file_at 0 my_sections
my_sections_at m a b c d = (
  my_section-IsSectionHeader 7 249 515 (omega arith) (omega arith) (omega arith),
  Holds-of_test m (file_at + 32) (section_header_bytes resource_section) a,
  (
    my_section-IsSectionHeader 1 160 12 (omega arith) (omega arith) (omega arith),
    Holds-of_test m (file_at + 64) (section_header_bytes code_section) b,
    (
      my_section-IsSectionHeader 8 172 37 (omega arith) (omega arith) (omega arith),
      Holds-of_test m (file_at + 96) (section_header_bytes import_section) c,
      (
        my_section-IsSectionHeader 9 209 40 (omega arith) (omega arith) (omega arith),
        Holds-of_test m (file_at + 128) (section_header_bytes export_section) d,
        tt,
      ),
    ),
  ),
)

-- The file stands in any memory that passes the tests.
pub my-ImageAt :
    (m : Memory)
    → holds_test m file_at (header_bytes my_header) ≡ true
    → holds_test m (file_at + 32) (section_header_bytes resource_section) ≡ true
    → holds_test m (file_at + 64) (section_header_bytes code_section) ≡ true
    → holds_test m (file_at + 96) (section_header_bytes import_section) ≡ true
    → holds_test m (file_at + 128) (section_header_bytes export_section) ≡ true
    → ImageAt m file_at my_header my_sections
my-ImageAt m h a b c d = record {
  header = my_header-IsHeader;
  header_at = Holds-of_test m file_at (header_bytes my_header) h;
  count = refl;
  sections = my_sections_at m a b c d;
}

pub my_image : ImageAt my_memory file_at my_header my_sections
unfolding holds_test poke
my_image = my-ImageAt my_memory refl refl refl refl refl

pub my-IsAccepted : IsAccepted my_header
my-IsAccepted = record { sign = refl; version = refl; unk_8 = refl }

abbrev pub lo : ℕ
lo = 0x20000000

abbrev pub hi : ℕ
hi = 0x30000400

my_code_fits : CodeFits lo hi my_memory file_at my_sections code_section my_code
unfolding holds_test poke is_mapped
my_code_fits = record {
  found = refl;
  bytes = Holds-of_test my_memory (file_at + 160) my_code refl;
  size = refl;
  room = refl;
  top = omega arith;
  apart = inl (omega arith);
}

my_puts-CString : CString my_memory (file_at + 204) puts
unfolding poke
my_puts-CString =
    (refl, omega arith, (refl, omega arith, (refl, omega arith, (refl, omega arith, refl))))

pub my_names : NamesAt lo hi my_memory my_builtins
unfolding poke
my_names = (
  omega arith,
  omega arith,
  omega arith,
  (refl, omega arith, (refl, omega arith, (refl, omega arith, (refl, omega arith, refl)))),
  tt,
)

pub my_imports_named : ImportsNamed lo hi my_memory (file_at + 204) my_builtins my_imports
my_imports_named = ((puts, my_puts-CString, omega arith, omega arith, refl), tt)

my-TableFits : TableFits my_host lo hi my_memory file_at import_section (0 ∷ 0 ∷ 0 ∷ []) my_imports
unfolding holds_test poke
my-TableFits = record {
  unused_length = refl;
  words = omega arith;
  head = Holds-of_test my_memory (file_at + 172) (words_bytes (1 ∷ 0 ∷ 0 ∷ 0 ∷ [])) refl;
  below = omega arith;
  above = omega arith;
  entries = (
    record { words = omega arith },
    Holds-of_test my_memory (file_at + 188) (table_entry_bytes (entry 0x10000020)) refl,
    tt,
  );
  resolved =
      minisys_host-Resolves (λ n. pure 0x10000400) (λ f a b. pure 7) lo hi my_memory (file_at + 204)
        my_builtins my_imports (omega arith) my_names my_imports_named;
}

pub my_file-IsLoadable :
    IsLoadable my_host lo hi my_memory file_at my_header my_sections code_section my_code my_imports
unfolding is_mapped poke
my_file-IsLoadable = record {
  image = my_image;
  accepted = my-IsAccepted;
  below = omega arith;
  above = omega arith;
  top = omega arith;
  code_fits = my_code_fits;
  thunks_fit = (omega arith, inl (omega arith), refl, tt);
  imports = present import_section (0 ∷ 0 ∷ 0 ∷ []) refl my-TableFits;
}

ccdl_from_memory-DlAt_example :
    (m : Memory) × (ccdl_from_memory my_host 0x10000900 file_at 764 my_machine
      ≡ ok (pos 0) (record { mem = m; log = [] }))
    × DlAt m 0x10000900 file_at 764 my_header
    × SameOn 0 0x10000900 (loaded my_memory code_section my_code my_imports) m
    × SameOn 0x10000928 word_mod (loaded my_memory code_section my_code my_imports) m
unfolding is_mapped poke
ccdl_from_memory-DlAt_example =
    ccdl_from_memory-DlAt my_host lo hi 0x10000900 file_at 764 my_header my_sections code_section
      my_code my_imports 7 my_machine
      (record { mem = loaded my_memory code_section my_code my_imports; log = [] })
      my_file-IsLoadable refl refl (omega arith)

-- The same file with another signature.
abbrev pub bad_header : Header
bad_header = record my_header { sign = 0 ∷ 0 ∷ 0 ∷ 0 ∷ [] }

abbrev pub bad_machine : Machine
bad_machine = record { mem = poke my_memory file_at (0 ∷ 0 ∷ 0 ∷ 0 ∷ []); log = [] }

pub bad_image : ImageAt bad_machine.mem file_at bad_header my_sections
unfolding holds_test poke
bad_image = record {
  header = record {
    sign = refl;
    version = omega arith;
    unk_8 = omega arith;
    num_sections = omega arith;
    unk_16_length = refl;
    unk_16 = omega arith;
  };
  header_at = Holds-of_test bad_machine.mem file_at (header_bytes bad_header) refl;
  count = refl;
  sections = my_sections_at bad_machine.mem refl refl refl refl;
}

pub bad-Refused : Refused bad_header my_sections (diag "Not a CCDL file" 24)
bad-Refused = wrong_sign (λ e. absurd (ground arith))

ccdl_from_memory-Refused_example :
    ccdl_from_memory my_host 0x10000900 file_at 764 bad_machine
    ≡ ok general_error (record bad_machine { log = diag "Not a CCDL file" 24 ∷ [] })
ccdl_from_memory-Refused_example =
    ccdl_from_memory-Refused my_host 0x10000900 file_at 764 bad_header my_sections
      (diag "Not a CCDL file" 24) bad_machine bad_image bad-Refused
