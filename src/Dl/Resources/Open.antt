-- ===== src/Dl/Resources/Open.antt =====
-- `dl_res_open` against a lookup in the list of resources.
use ga330_libretro.Common.{
  ℕ, ◌+◌, ◌<◌, ◌≡◌, refl, Option, none, some, List, [], ◌∷◌, arith, length, list_eq, if◌then◌else◌,
  Option-cases, inl, inr,
}
use ga330_libretro.Machine.{word_mod, Memory, Machine, Run, ok, wrap, load32}
use ga330_libretro.Machine.Access.{Holds, Mapped}
use ga330_libretro.Machine.Words.{IsWord, HoldsWord, load32-HoldsWord}
use ga330_libretro.Libc.{string_at, array}
use ga330_libretro.Libc.Strings.{Spells, CString, strcmp_is_zero-list_eq}
use ga330_libretro.Host.{CcosHost}
use ga330_libretro.Dl.Format.{
  Header, SectionHeader, ResourceEntry, resource_entry_bytes, section_resources,
}
use ga330_libretro.Dl.Format.Tables.{IsResourceEntry, load_resource_entry-Holds}
use ga330_libretro.Dl.Handle.{DlAt, DlAt-file_bytes, DlAt-num_sections}
use ga330_libretro.Dl.Loader.Sections.{first_of_type, find_section-all}
use ga330_libretro.Dl.Loader.Image.{ImageAt}
use ga330_libretro.Dl.Resources.{find_resource, new_res, dl_res_open}
use ga330_libretro.Dl.Resources.Handle.{res_filled, fill_res-res_filled}

-- An entry and its name.
pub record Resource : Type 0 where
  pub entry : ResourceEntry
  pub name : List ℕ

-- The entries stand one behind the other from `p` on; each name is a C string in its field.
abbrev pub ResourcesAt : Memory → ℕ → List Resource → Type 0
ResourcesAt m p [] = Unit
ResourcesAt m p (x ∷ xs) =
    IsResourceEntry x.entry
    × Holds m p (resource_entry_bytes x.entry)
    × Spells (array x.entry.filename) 0 x.name
    × (length x.name < word_mod)
    × ResourcesAt m (p + 508) xs

-- The first resource with the name.
abbrev pub resource_named : List ℕ → List Resource → Option ResourceEntry
resource_named s [] = none
resource_named s (x ∷ xs) = if list_eq x.name s then some x.entry else resource_named s xs

pub find_resource-resource_named :
    (name : ℕ) (s : List ℕ) (xs : List Resource) (p : ℕ) (μ : Machine)
    → CString μ.mem name s
    → ResourcesAt μ.mem p xs
    → find_resource name (length xs) p μ ≡ ok (resource_named s xs) μ
unfolding find_resource
find_resource-resource_named name s [] p μ named at_p = refl
find_resource-resource_named name s (x ∷ xs) p μ named at_p = ground (
  arith,
  load_resource_entry-Holds p x.entry μ at_p.0 at_p.1,
  strcmp_is_zero-list_eq (λ m. array x.entry.filename) (λ m. string_at m name) x.name s μ at_p.3
      at_p.2 named,
  find_resource-resource_named name s xs (p + 508) μ named at_p.4,
)

-- The file has no resources, or a section with a table of them.
pub data HasResources (m : Memory) (f : ℕ) (hs : List SectionHeader) (xs : List Resource)
    : Option SectionHeader → Type 0 where
  absent : first_of_type section_resources hs ≡ none → xs ≡ [] → HasResources m f hs xs none
  present :
      (s : SectionHeader)
      → first_of_type section_resources hs ≡ some s
      → IsWord (length xs)
      → HoldsWord m (f + s.offset) (length xs)
      → ResourcesAt m (f + s.offset + 4) xs
      → HasResources m f hs xs (some s)

-- What opening amounts to, given the section and the entry that is found.
abbrev pub open_found : CcosHost → ℕ → Option SectionHeader → Option ResourceEntry → Machine → Run ℕ
open_found host dl none hit μ = ok 0 μ
open_found host dl (some s) none μ = ok 0 μ
open_found host dl (some s) (some ent) μ = new_res host dl s ent μ

module _ (host : CcosHost) (dl f size : ℕ) (hdr : Header) (hs : List SectionHeader)
    (xs : List Resource) where
  -- `dl_res_open` makes a handle for the first resource with the name; where there is none, the
  -- result is `NULL`, and nothing is allocated or written.
  pub dl_res_open-resource_named :
      (unk_4 name : ℕ) (s : List ℕ) (section : Option SectionHeader) (μ : Machine)
      → IsWord f
      → DlAt μ.mem dl f size hdr
      → ImageAt μ.mem f hdr hs
      → HasResources μ.mem f hs xs section
      → CString μ.mem name s
      → dl_res_open host dl unk_4 name μ ≡ open_found host dl section (resource_named s xs) μ
  unfolding dl_res_open
  dl_res_open-resource_named unk_4 name s section μ fits at_dl image (absent none_found empty)
        named =
      rw
        (
          DlAt-num_sections dl f size hdr image.header μ at_dl,
          find_section-all (load32 dl) section_resources hdr.num_sections f hs none μ
              (DlAt-file_bytes dl f size hdr image.header μ fits at_dl) image.count image.sections
              none_found,
        )
        refl
  dl_res_open-resource_named unk_4 name s section μ fits at_dl image
        (present sec found counted count_at entries) named =
      let base = DlAt-file_bytes dl f size hdr image.header μ fits at_dl in
      rw
        (
          DlAt-num_sections dl f size hdr image.header μ at_dl,
          find_section-all (load32 dl) section_resources hdr.num_sections f hs (some sec) μ base
              image.count image.sections found,
          base,
          load32-HoldsWord (f + sec.offset) (length xs) μ count_at counted,
          find_resource-resource_named name s xs (f + sec.offset + 4) μ named entries,
        )
        (elim (Option-cases (resource_named s xs)) [ inl e ↦ rw e refl | inr (a, e) ↦ rw e refl ])

-- A new handle starts at the resource: with what `malloc` returns mapped, it is filled in there.
pub new_res-res_filled :
    (host : CcosHost) (dl res : ℕ) (s : SectionHeader) (ent : ResourceEntry) (μ μ' : Machine)
    → IsResourceEntry ent
    → host.malloc 520 μ ≡ ok res μ'
    → Mapped μ'.mem res 520
    → new_res host dl s ent μ
      ≡ ok res (record μ' { mem = res_filled μ'.mem res (wrap (s.offset + ent.offset)) dl ent })
unfolding new_res
new_res-res_filled host dl res s ent μ μ' ise allocated room =
    rw (allocated, fill_res-res_filled res (wrap (s.offset + ent.offset)) dl ent ise μ' room) refl
