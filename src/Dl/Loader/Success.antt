-- ===== src/Dl/Loader/Success.antt =====
-- `ccdl_from_memory` on a file that can be loaded.
use ga330_libretro.Common.{ℕ, ◌+◌, ◌*◌, ◌≤◌, ◌≡◌, refl, some, List, ◌∷◌, arith, length}
use ga330_libretro.Common.Signed.{ℤ, pos}
use ga330_libretro.Machine.{word_mod, Memory, Machine, ok, Cmd, poke, memcpy, ◌>>=◌, ◌>>◌, pure}
use ga330_libretro.Machine.Access.{
  Mapped, SameOn, load_bytes-Holds, store_bytes-Mapped, Holds-frame,
}
use ga330_libretro.Machine.Frame.{SameOn-poke}
use ga330_libretro.Host.{CcosHost}
use ga330_libretro.Dl.Format.{Header, SectionHeader, words_bytes, section_code, section_import}
use ga330_libretro.Dl.Format.Layout.{load_header-Holds}
use ga330_libretro.Dl.Format.Tables.{load_table_header-Holds, table_header_of_fields}
use ga330_libretro.Dl.Loader.{
  load_code, resolve_imports, fill_dl, load_image, load_sections, ccdl_from_memory,
}
use ga330_libretro.Dl.Loader.Outcome.{accepted-tests}
use ga330_libretro.Dl.Loader.Sections.{
  find_section-first_of_type, find_section-all, SectionsAt-frame,
}
use ga330_libretro.Dl.Loader.Link.{Import, ThunksFit, ThunksFit-poke, linked, link_imports-linked}
use ga330_libretro.Dl.Loader.Image.{
  ImageAt, CodeFits, ImportsFit, absent, present, IsLoadable, loaded,
}

module _ (host : CcosHost) (lo hi f : ℕ) (m : Memory) where
  load_code-poke :
      (hs : List SectionHeader) (c : SectionHeader) (code : List ℕ) (μ : Machine)
      → CodeFits lo hi μ.mem f hs c code
      → load_code f c μ ≡ ok tt (record μ { mem = poke μ.mem c.load_address code })
  unfolding load_code memcpy
  load_code-poke hs c code μ fit =
      let room : Mapped μ.mem c.load_address (length code) = rw fit.size fit.room in
      rw (load_bytes-Holds (f + c.offset) c.size code μ fit.bytes fit.size)
        (store_bytes-Mapped c.load_address code μ room)

  -- The imports are resolved in a memory that agrees with `m` on what is read.
  resolve_imports-linked :
      (hdr : Header) (hs : List SectionHeader) (es : List Import) (μ : Machine)
      → SameOn lo hi m μ.mem
      → ImageAt m f hdr hs
      → lo ≤ f
      → f + 32 + length hs * 32 ≤ hi
      → hi ≤ word_mod
      → ThunksFit lo hi μ.mem es
      → ImportsFit host lo hi m f hs es
      → resolve_imports host f hdr μ ≡ ok tt (record μ { mem = linked μ.mem es })
  unfolding resolve_imports
  resolve_imports-linked hdr hs es μ same image below above top fit (absent none_found empty) =
      let at_f =
        SectionsAt-frame m μ.mem f lo hi 0 hs same below (omega arith) top image.sections in
      rw
        (
          image.count,
          find_section-first_of_type (pure f) section_import hs 0 f μ refl at_f,
          none_found,
          empty,
        )
        refl
  resolve_imports-linked hdr hs es μ same image below above top fit (present s unused found table) =
      let at_f =
        SectionsAt-frame m μ.mem f lo hi 0 hs same below (omega arith) top image.sections in
      let sized = (table_header_of_fields (length es) unused table.unused_length table.words).1 in
      let head =
        Holds-frame m μ.mem (f + s.offset) lo hi (words_bytes (length es ∷ unused)) same table.below
          (omega (arith, sized, table.above)) top table.head in
      rw
        (
          image.count,
          find_section-first_of_type (pure f) section_import hs 0 f μ refl at_f,
          found,
          load_table_header-Holds (f + s.offset) (length es) unused μ table.unused_length
              table.words head,
        )
        (link_imports-linked host lo hi m (f + s.offset + 16 + length es * 16) (f + s.offset + 16)
          es μ same (omega (arith, table.below)) table.above top table.entries fit table.resolved)

-- What comes after the image is in place: the call of the entry point, and the `DL_t`.
abbrev pub start_image : CcosHost → ℕ → ℕ → ℕ → Header → SectionHeader → Cmd ℤ
start_image host dl f size hdr c = do
  r ← host.call c.entry_point 0 0
  fill_dl dl f size hdr
  pure (pos 0)

module _ (host : CcosHost) (lo hi dl f size : ℕ) (hdr : Header) (hs : List SectionHeader)
    (c : SectionHeader) (code : List ℕ) (es : List Import) where
  load_image-loaded :
      (μ : Machine)
      → IsLoadable host lo hi μ.mem f hdr hs c code es
      → load_image host dl f size hdr c μ
        ≡ start_image host dl f size hdr c (record μ { mem = loaded μ.mem c code es })
  unfolding load_image
  load_image-loaded μ ready =
      let fit = ready.code_fits in
      let μ1 : Machine = record μ { mem = poke μ.mem c.load_address code } in
      let same =
        SameOn-poke lo hi μ.mem c.load_address code (omega (arith, fit.size, fit.top))
          (ground (arith, fit.size, fit.apart)) in
      let fit' = ThunksFit-poke lo hi μ.mem c.load_address code es ready.thunks_fit in
      rw
        (
          load_code-poke host lo hi f μ.mem hs c code μ fit,
          resolve_imports-linked host lo hi f μ.mem hdr hs es μ1 same ready.image ready.below
              ready.above ready.top fit' ready.imports,
        )
        refl

  load_sections-loaded :
      (μ : Machine)
      → IsLoadable host lo hi μ.mem f hdr hs c code es
      → load_sections host dl f size hdr μ
        ≡ start_image host dl f size hdr c (record μ { mem = loaded μ.mem c code es })
  unfolding load_sections
  load_sections-loaded μ ready =
      rw
        (find_section-all (pure f) section_code hdr.num_sections f hs (some c) μ refl
          ready.image.count ready.image.sections ready.code_fits.found)
        (load_image-loaded μ ready)

  -- On a loadable file, `ccdl_from_memory` calls the entry point when memory is as before but for
  -- the code at its load address and the thunks, and fills the `DL_t` when the call returns.
  pub ccdl_from_memory-loaded :
      (μ : Machine)
      → IsLoadable host lo hi μ.mem f hdr hs c code es
      → ccdl_from_memory host dl f size μ
        ≡ start_image host dl f size hdr c (record μ { mem = loaded μ.mem c code es })
  unfolding ccdl_from_memory
  ccdl_from_memory-loaded μ ready =
      let tests = accepted-tests hdr ready.accepted in
      rw (load_header-Holds f hdr μ ready.image.header ready.image.header_at, tests.0, tests.1)
        (load_sections-loaded μ ready)
