-- ===== src/Startup/Parts.antt =====
-- The parts of a file, and the file in memory.
use ga330_libretro.Common.{
  ℕ, ◌+◌, ◌*◌, ◌≤◌, ◌⊎◌, ◌≡◌, subst, some, List, [], ◌∷◌, ◌++◌, length, arith,
}
use ga330_libretro.Machine.{word_mod, Memory}
use ga330_libretro.Machine.Access.{Holds, Mapped, Holds-append_left, Holds-append_right}
use ga330_libretro.Host.{CcosHost}
use ga330_libretro.Dl.Format.{Header, SectionHeader, words_bytes, section_code, section_import}
use ga330_libretro.Dl.Format.Layout.{AreWords}
use ga330_libretro.Dl.Format.Tables.{table_entry_bytes, IsTableEntry}
use ga330_libretro.Dl.Loader.Sections.{first_of_type}
use ga330_libretro.Dl.Loader.Link.{Import, ImportsAt, ThunksFit, Resolves}
use ga330_libretro.Dl.Loader.Image.{IsAccepted, IsLoadable, present}
use ga330_libretro.Startup.Image.{image_bytes, IsImage, image_bytes-ImageAt}

-- The file has `bs` at an offset.
pub record HasPart (file : List ℕ) (offset : ℕ) (bs : List ℕ) : Type 0 where
  pub before : List ℕ
  pub behind : List ℕ
  pub parts : file ≡ before ++ (bs ++ behind)
  pub offset_is : length before ≡ offset

pub Holds-HasPart :
    (m : Memory) (f offset : ℕ) (file bs : List ℕ)
    → Holds m f file
    → HasPart file offset bs
    → Holds m (f + offset) bs
Holds-HasPart m f offset file bs h part =
    let whole = subst (λ (xs : List ℕ). Holds m f xs) part.parts h in
    let rest = Holds-append_right m f part.before (bs ++ part.behind) whole in
    let here = Holds-append_left m (f + length part.before) bs part.behind rest in
    subst (λ (k : ℕ). Holds m (f + k) bs) part.offset_is here

-- The entries of an import table, one behind the other.
abbrev pub imports_bytes : List Import → List ℕ
imports_bytes [] = []
imports_bytes (e ∷ es) = table_entry_bytes e.entry ++ imports_bytes es

abbrev pub AreImports : List Import → Type 0
AreImports [] = Unit
AreImports (e ∷ es) = IsTableEntry e.entry × AreImports es

pub imports_bytes-ImportsAt :
    (m : Memory) (p : ℕ) (es : List Import)
    → AreImports es
    → Holds m p (imports_bytes es)
    → ImportsAt m p es
imports_bytes-ImportsAt m p [] ok h = tt
imports_bytes-ImportsAt m p (e ∷ es) ok h = (
  ok.0,
  Holds-append_left m p (table_entry_bytes e.entry) (imports_bytes es) h,
  imports_bytes-ImportsAt m (p + 16) es ok.1
      (Holds-append_right m p (table_entry_bytes e.entry) (imports_bytes es) h),
)

-- A file with the headers `hdr` and `hs`, the code section `c`, and the import section `s`.
pub record IsFile (file : List ℕ) (hdr : Header) (hs : List SectionHeader) (c s : SectionHeader)
    (code unused : List ℕ) (es : List Import) : Type 0 where
  pub image : IsImage hdr hs
  pub accepted : IsAccepted hdr
  pub head : HasPart file 0 (image_bytes hdr hs)
  pub head_fits : 32 + length hs * 32 ≤ length file
  pub code_found : first_of_type section_code hs ≡ some c
  pub code_part : HasPart file c.offset code
  pub code_size : length code ≡ c.size
  pub table_found : first_of_type section_import hs ≡ some s
  pub unused_length : length unused ≡ 3
  pub words : AreWords (length es ∷ unused)
  pub table_head : HasPart file s.offset (words_bytes (length es ∷ unused))
  pub table_part : HasPart file (s.offset + 16) (imports_bytes es)
  pub table_fits : s.offset + 16 + length es * 16 ≤ length file
  pub imports : AreImports es

-- The memory `m` has room for the code and the thunks beside the range from `lo` to `hi`, where the
-- file and the system's names are; and the host has a function for every import.
pub record HasRoom (host : CcosHost) (lo hi : ℕ) (m : Memory) (f size : ℕ) (c s : SectionHeader)
    (es : List Import) : Type 0 where
  pub below : lo ≤ f
  pub above : f + size ≤ hi
  pub top : hi ≤ word_mod
  pub code_room : Mapped m c.load_address c.size
  pub code_top : c.load_address + c.size ≤ word_mod
  pub code_apart : (c.load_address + c.size ≤ lo) ⊎ (hi ≤ c.load_address)
  pub thunks_fit : ThunksFit lo hi m es
  pub resolved : Resolves host lo hi m (f + s.offset + 16 + length es * 16) es

-- A file in memory with room can be loaded.
pub file-IsLoadable :
    (host : CcosHost) (lo hi : ℕ) (m : Memory) (f : ℕ) (file : List ℕ) (hdr : Header)
    (hs : List SectionHeader) (c s : SectionHeader) (code unused : List ℕ) (es : List Import)
    → Holds m f file
    → IsFile file hdr hs c s code unused es
    → HasRoom host lo hi m f (length file) c s es
    → IsLoadable host lo hi m f hdr hs c code es
file-IsLoadable host lo hi m f file hdr hs c s code unused es h is room =
    let part = λ (offset : ℕ) (bs : List ℕ). Holds-HasPart m f offset file bs h in
    let at_start : f + 0 ≡ f = omega arith in
    let head =
      subst (λ (a : ℕ). Holds m a (image_bytes hdr hs)) at_start
        (part 0 (image_bytes hdr hs) is.head) in
    let table : f + (s.offset + 16) ≡ f + s.offset + 16 = omega arith in
    let entries =
      subst (λ (a : ℕ). Holds m a (imports_bytes es)) table
        (part (s.offset + 16) (imports_bytes es) is.table_part) in
    record {
      image = image_bytes-ImageAt m f hdr hs is.image head;
      accepted = is.accepted;
      below = room.below;
      above = omega (arith, is.head_fits, room.above);
      top = room.top;
      code_fits = record {
        found = is.code_found;
        bytes = part c.offset code is.code_part;
        size = is.code_size;
        room = room.code_room;
        top = room.code_top;
        apart = room.code_apart;
      };
      thunks_fit = room.thunks_fit;
      imports = present s unused is.table_found (record {
        unused_length = is.unused_length;
        words = is.words;
        head = part s.offset (words_bytes (length es ∷ unused)) is.table_head;
        below = omega (arith, room.below);
        above = omega (arith, is.table_fits, room.above);
        entries = imports_bytes-ImportsAt m (f + s.offset + 16) es is.imports entries;
        resolved = room.resolved;
      });
    }
