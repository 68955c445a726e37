-- ===== src/Dl/Format/Tables.antt =====
-- The bytes of section headers, of the tables of imports and exports and of resources, and how
-- the program reads them.
use ga330_libretro.Common.{
  ℕ, ◌+◌, ◌≡◌, refl, List, [], ◌∷◌, ◌++◌, length, arith, ap, ◌∙◌, length-append,
}
use ga330_libretro.Machine.{Machine, ok, u32_at, u32_bytes}
use ga330_libretro.Machine.Access.{Holds, load_bytes-Holds}
use ga330_libretro.Machine.Words.{IsWord, u32_at-append}
use ga330_libretro.Dl.Format.{
  words_bytes, SectionHeader, section_header_of, load_section_header, TableHeader, table_header_of,
  load_table_header, TableEntry, table_entry_of, load_table_entry, ResourceEntry, resource_entry_of,
  resource_entry_bytes, load_resource_entry, filename_length,
}
use ga330_libretro.Dl.Format.Layout.{AreWords, four, take-append}

abbrev pub section_header_bytes : SectionHeader → List ℕ
section_header_bytes h =
    h.fourcc
    ++ words_bytes
        (h.type ∷ h.offset ∷ h.size ∷ h.unk_0 ∷ h.entry_point ∷ h.load_address ∷ h.alloc_size ∷ [])

abbrev pub table_header_bytes : TableHeader → List ℕ
table_header_bytes h = words_bytes (h.num_entries ∷ h.unused)

abbrev pub table_entry_bytes : TableEntry → List ℕ
table_entry_bytes e = words_bytes (e.name_offset ∷ e.unk_4 ∷ e.unk_8 ∷ e.address ∷ [])

pub record IsSectionHeader (h : SectionHeader) : Type 0 where
  pub fourcc : length h.fourcc ≡ 4
  pub words :
      AreWords
        (h.type ∷ h.offset ∷ h.size ∷ h.unk_0 ∷ h.entry_point ∷ h.load_address ∷ h.alloc_size ∷ [])

pub record IsTableEntry (e : TableEntry) : Type 0 where
  pub words : AreWords (e.name_offset ∷ e.unk_4 ∷ e.unk_8 ∷ e.address ∷ [])

pub record IsResourceEntry (e : ResourceEntry) : Type 0 where
  pub filename : length e.filename ≡ filename_length
  pub words : AreWords (e.size ∷ e.offset ∷ [])

section_header_of_cells :
    (c0 c1 c2 c3 t o s u e l a : ℕ)
    → AreWords (t ∷ o ∷ s ∷ u ∷ e ∷ l ∷ a ∷ [])
    → section_header_of ((c0 ∷ c1 ∷ c2 ∷ c3 ∷ []) ++ words_bytes (t ∷ o ∷ s ∷ u ∷ e ∷ l ∷ a ∷ []))
      ≡ record {
        fourcc = c0 ∷ c1 ∷ c2 ∷ c3 ∷ [];
        type = t;
        offset = o;
        size = s;
        unk_0 = u;
        entry_point = e;
        load_address = l;
        alloc_size = a;
      }
section_header_of_cells c0 c1 c2 c3 t o s u e l a w = ground arith

section_header_of_fields :
    (c : List ℕ) (t o s u e l a : ℕ)
    → length c ≡ 4
    → AreWords (t ∷ o ∷ s ∷ u ∷ e ∷ l ∷ a ∷ [])
    → (section_header_of (c ++ words_bytes (t ∷ o ∷ s ∷ u ∷ e ∷ l ∷ a ∷ [])) ≡ record {
      fourcc = c;
      type = t;
      offset = o;
      size = s;
      unk_0 = u;
      entry_point = e;
      load_address = l;
      alloc_size = a;
    })
      × (length (c ++ words_bytes (t ∷ o ∷ s ∷ u ∷ e ∷ l ∷ a ∷ [])) ≡ 32)
section_header_of_fields c t o s u e l a h w =
    let (c0, c1, c2, c3, f) = four c h in
    rw f (section_header_of_cells c0 c1 c2 c3 t o s u e l a w, refl)

pub length-section_header_bytes :
    (h : SectionHeader) → IsSectionHeader h → length (section_header_bytes h) ≡ 32
length-section_header_bytes h ish =
    (section_header_of_fields h.fourcc h.type h.offset h.size h.unk_0 h.entry_point h.load_address
      h.alloc_size ish.fourcc ish.words).1

pub load_section_header-Holds :
    (p : ℕ) (h : SectionHeader) (μ : Machine)
    → IsSectionHeader h
    → Holds μ.mem p (section_header_bytes h)
    → load_section_header p μ ≡ ok h μ
unfolding load_section_header
load_section_header-Holds p h μ ish at_p =
    let r =
      section_header_of_fields h.fourcc h.type h.offset h.size h.unk_0 h.entry_point h.load_address
        h.alloc_size ish.fourcc ish.words in
    rw (load_bytes-Holds p 32 (section_header_bytes h) μ at_p r.1)
      (ap (λ (x : SectionHeader). ok x μ) r.0)

pub table_header_of_fields :
    (n : ℕ) (u : List ℕ)
    → length u ≡ 3
    → AreWords (n ∷ u)
    → (table_header_of (words_bytes (n ∷ u)) ≡ record { num_entries = n; unused = u })
      × (length (words_bytes (n ∷ u)) ≡ 16)
table_header_of_fields n (a ∷ b ∷ c ∷ []) h w = (ground arith, refl)
table_header_of_fields n [] h w = ground arith
table_header_of_fields n (a ∷ []) h w = ground arith
table_header_of_fields n (a ∷ b ∷ []) h w = ground arith
table_header_of_fields n (a ∷ b ∷ c ∷ d ∷ u) h w = ground arith

pub load_table_header-Holds :
    (p n : ℕ) (u : List ℕ) (μ : Machine)
    → length u ≡ 3
    → AreWords (n ∷ u)
    → Holds μ.mem p (words_bytes (n ∷ u))
    → load_table_header p μ ≡ ok (record { num_entries = n; unused = u }) μ
unfolding load_table_header
load_table_header-Holds p n u μ h w at_p =
    let r = table_header_of_fields n u h w in
    rw (load_bytes-Holds p 16 (words_bytes (n ∷ u)) μ at_p r.1)
      (ap (λ (x : TableHeader). ok x μ) r.0)

table_entry_of_cells :
    (n u v a : ℕ)
    → AreWords (n ∷ u ∷ v ∷ a ∷ [])
    → table_entry_of (words_bytes (n ∷ u ∷ v ∷ a ∷ []))
      ≡ record { name_offset = n; unk_4 = u; unk_8 = v; address = a }
table_entry_of_cells n u v a w = ground arith

pub load_table_entry-Holds :
    (p : ℕ) (e : TableEntry) (μ : Machine)
    → IsTableEntry e
    → Holds μ.mem p (table_entry_bytes e)
    → load_table_entry p μ ≡ ok e μ
unfolding load_table_entry
load_table_entry-Holds p e μ ise at_p =
    rw (load_bytes-Holds p 16 (table_entry_bytes e) μ at_p refl) (
      ap (λ (x : TableEntry). ok x μ)
        (table_entry_of_cells e.name_offset e.unk_4 e.unk_8 e.address ise.words))

-- The words behind the name of a resource.
words_behind :
    (f : List ℕ) (n s o : ℕ)
    → length f ≡ n
    → IsWord s
    → IsWord o
    → (u32_at (f ++ (u32_bytes s ++ u32_bytes o)) n ≡ s)
      × (u32_at (f ++ (u32_bytes s ++ u32_bytes o)) (n + 4) ≡ o)
words_behind f n s o h hs ho =
    let rest = u32_bytes s ++ u32_bytes o in
    let at_0 : length f + 0 ≡ n = omega arith in
    let at_4 : length f + 4 ≡ n + 4 = omega arith in
    let size : u32_at rest 0 ≡ s = omega arith in
    let place : u32_at rest 4 ≡ o = omega arith in
    ((rw at_0 at (u32_at-append f rest 0)) ∙ size, (rw at_4 at (u32_at-append f rest 4)) ∙ place)

resource_entry_of_fields :
    (f : List ℕ) (s o : ℕ)
    → length f ≡ filename_length
    → IsWord s
    → IsWord o
    → resource_entry_of (f ++ (u32_bytes s ++ u32_bytes o))
      ≡ record { filename = f; size = s; offset = o }
resource_entry_of_fields f s o h hs ho =
    let w = words_behind f filename_length s o h hs ho in
    let named = take-append f (u32_bytes s ++ u32_bytes o) filename_length h in
    λ i. record { filename = named i; size = w.0 i; offset = w.1 i }

-- A resource's entry that is written out is read back as it was.
pub resource_entry_of-resource_entry_bytes :
    (e : ResourceEntry)
    → IsResourceEntry e
    → (resource_entry_of (resource_entry_bytes e) ≡ e) × (length (resource_entry_bytes e) ≡ 508)
resource_entry_of-resource_entry_bytes e ise = (
  resource_entry_of_fields e.filename e.size e.offset ise.filename ise.words.0 ise.words.1.0,
  omega (arith, length-append e.filename (u32_bytes e.size ++ u32_bytes e.offset), ise.filename),
)

pub load_resource_entry-Holds :
    (p : ℕ) (e : ResourceEntry) (μ : Machine)
    → IsResourceEntry e
    → Holds μ.mem p (resource_entry_bytes e)
    → load_resource_entry p μ ≡ ok e μ
unfolding load_resource_entry
load_resource_entry-Holds p e μ ise at_p =
    let r = resource_entry_of-resource_entry_bytes e ise in
    rw (load_bytes-Holds p 508 (resource_entry_bytes e) μ at_p r.1)
      (ap (λ (x : ResourceEntry). ok x μ) r.0)
