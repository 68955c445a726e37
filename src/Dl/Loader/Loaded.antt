-- ===== src/Dl/Loader/Loaded.antt =====
-- Memory at the moment when the application's entry point is called, and after it has returned.
use ga330_libretro.Common.{
  ℕ, ◌+◌, ◌≤◌, ◌<◌, ◌≡◌, refl, ◌⊎◌, inl, inr, List, [], ◌∷◌, arith, length, get_elem?,
}
use ga330_libretro.Common.Signed.{pos}
use ga330_libretro.Machine.{word_mod, Memory, Machine, ok}
use ga330_libretro.Machine.Access.{Mapped, SameOn}
use ga330_libretro.Host.{CcosHost}
use ga330_libretro.Dl.Format.{Header, SectionHeader}
use ga330_libretro.Dl.Handle.{DlAt, filled, fill_dl-filled, DlAt-filled, filled-SameOn}
use ga330_libretro.Dl.Loader.{ccdl_from_memory}
use ga330_libretro.Dl.Loader.Link.{Import, ThunksAt}
use ga330_libretro.Dl.Loader.Image.{IsLoadable, loaded}
use ga330_libretro.Dl.Loader.Success.{ccdl_from_memory-loaded}

-- The address is in no thunk.
abbrev pub OutsideThunks : ℕ → List Import → Type 0
OutsideThunks x [] = Unit
OutsideThunks x (e ∷ es) = ((x < e.entry.address) ⊎ (e.entry.address + 8 ≤ x)) × OutsideThunks x es

-- Memory `m'` is `m` with the thunks and the code in place.
pub record IsInPlace (m m' : Memory) (c : SectionHeader) (code : List ℕ) (es : List Import)
    : Type 0 where
  pub thunks : ThunksAt m' es
  pub code_at :
      (i : ℕ)
      → i < length code
      → OutsideThunks (c.load_address + i) es
      → m' (c.load_address + i) ≡ get_elem? code i
  pub rest :
      (x : ℕ)
      → (x < c.load_address) ⊎ (c.load_address + length code ≤ x)
      → OutsideThunks x es
      → m' x ≡ m x

module _ (host : CcosHost) (lo hi dl f size : ℕ) (hdr : Header) (hs : List SectionHeader)
    (c : SectionHeader) (code : List ℕ) (es : List Import) where
  -- When the entry point returns, the loader returns 0, the `DL_t` describes the file, and beside
  -- it memory is as the application left it.
  pub ccdl_from_memory-DlAt :
      (r : ℕ) (μ μ2 : Machine)
      → IsLoadable host lo hi μ.mem f hdr hs c code es
      → host.call c.entry_point 0 0 (record μ { mem = loaded μ.mem c code es }) ≡ ok r μ2
      → Mapped μ2.mem dl 40
      → dl + 40 ≤ word_mod
      → (m : Memory) × (ccdl_from_memory host dl f size μ ≡ ok (pos 0) (record μ2 { mem = m }))
        × DlAt m dl f size hdr
        × SameOn 0 dl μ2.mem m
        × SameOn (dl + 40) word_mod μ2.mem m
  ccdl_from_memory-DlAt r μ μ2 ready called room top =
      let ish = ready.image.header in
      (
        filled μ2.mem dl f size hdr,
        rw
            (
              ccdl_from_memory-loaded host lo hi dl f size hdr hs c code es μ ready,
              called,
              fill_dl-filled dl f size hdr ish μ2 room,
            )
            refl,
        DlAt-filled dl f size hdr ish μ2.mem top,
        filled-SameOn dl f size hdr ish μ2.mem 0 dl top (inr (omega arith)),
        filled-SameOn dl f size hdr ish μ2.mem (dl + 40) word_mod top (inl (omega arith)),
      )
