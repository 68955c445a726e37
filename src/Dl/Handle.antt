-- ===== src/Dl/Handle.antt =====
-- A `DL_t` in memory: `fill_dl` writes one, and the functions of dl.c read its fields.
use ga330_libretro.Common.{ℕ, ◌+◌, ◌≤◌, ◌≡◌, ◌⊎◌, inr, [], ◌∷◌, arith, length}
use ga330_libretro.Machine.{word_mod, Memory, Machine, ok, poke, u32_bytes, load32}
use ga330_libretro.Machine.Access.{
  Holds, Mapped, SameOn, Holds-poke, Mapped-poke, Mapped-part, Mapped-first, store_bytes-Mapped,
  Holds-append_left, Holds-append_right,
}
use ga330_libretro.Machine.Frame.{SameOn-trans, SameOn-poke, Holds-poke-Apart}
use ga330_libretro.Machine.Words.{HoldsWord, IsWord, load32-HoldsWord, store32-Mapped}
use ga330_libretro.Dl.Format.{Header, header_bytes, words_bytes}
use ga330_libretro.Dl.Format.Layout.{IsHeader, header_of-header_bytes}
use ga330_libretro.Dl.Loader.{fill_dl}

-- At `dl` stands a `DL_t` for the file at `f`.
pub record DlAt (m : Memory) (dl f size : ℕ) (hdr : Header) : Type 0 where
  pub file_bytes : HoldsWord m dl f
  pub file_size : HoldsWord m (dl + 4) size
  pub hdr_bytes : Holds m (dl + 8) (header_bytes hdr)

-- The memory after the three stores.
abbrev pub filled : Memory → ℕ → ℕ → ℕ → Header → Memory
filled m dl f size hdr =
    poke (poke (poke m dl (u32_bytes f)) (dl + 4) (u32_bytes size)) (dl + 8) (header_bytes hdr)

module _ (dl f size : ℕ) (hdr : Header) (ish : IsHeader hdr) where
  pub fill_dl-filled :
      (μ : Machine)
      → Mapped μ.mem dl 40
      → fill_dl dl f size hdr μ ≡ ok tt (record μ { mem = filled μ.mem dl f size hdr })
  unfolding fill_dl
  fill_dl-filled μ room =
      let m1 = poke μ.mem dl (u32_bytes f) in
      let m2 = poke m1 (dl + 4) (u32_bytes size) in
      let room1 = Mapped-poke μ.mem dl (u32_bytes f) dl 40 room in
      let room2 = Mapped-poke m1 (dl + 4) (u32_bytes size) dl 40 room1 in
      let sized = (header_of-header_bytes hdr ish).1 in
      let last : Mapped m2 (dl + 8) (length (header_bytes hdr)) =
        rw sized (Mapped-part m2 dl 8 32 room2) in
      rw
        (
          store32-Mapped dl f μ (Mapped-first μ.mem dl 40 4 (omega arith) room),
          store32-Mapped (dl + 4) size (record μ { mem = m1 })
              (Mapped-first m1 (dl + 4) 36 4 (omega arith) (Mapped-part m1 dl 4 36 room1)),
        )
        (store_bytes-Mapped (dl + 8) (header_bytes hdr) (record μ { mem = m2 }) last)

  -- What stands there afterwards is the `DL_t`.
  pub DlAt-filled : (m : Memory) → dl + 40 ≤ word_mod → DlAt (filled m dl f size hdr) dl f size hdr
  DlAt-filled m top =
      let m1 = poke m dl (u32_bytes f) in
      let m2 = poke m1 (dl + 4) (u32_bytes size) in
      let sized = (header_of-header_bytes hdr ish).1 in
      let fits : dl + 8 + length (header_bytes hdr) ≤ word_mod = omega arith in
      record {
        file_bytes =
            Holds-poke-Apart m2 (dl + 8) (header_bytes hdr) dl (u32_bytes f) fits (omega arith)
              (inr (omega arith))
              (Holds-poke-Apart m1 (dl + 4) (u32_bytes size) dl (u32_bytes f) (omega arith)
                (omega arith) (inr (omega arith)) (Holds-poke m dl (u32_bytes f) (omega arith)));
        file_size =
            Holds-poke-Apart m2 (dl + 8) (header_bytes hdr) (dl + 4) (u32_bytes size) fits
              (omega arith) (inr (omega arith))
              (Holds-poke m1 (dl + 4) (u32_bytes size) (omega arith));
        hdr_bytes = Holds-poke m2 (dl + 8) (header_bytes hdr) (omega arith);
      }

  -- Nothing else changes.
  pub filled-SameOn :
      (m : Memory) (lo hi : ℕ)
      → dl + 40 ≤ word_mod
      → (dl + 40 ≤ lo) ⊎ (hi ≤ dl)
      → SameOn lo hi m (filled m dl f size hdr)
  filled-SameOn m lo hi top apart =
      let m1 = poke m dl (u32_bytes f) in
      let m2 = poke m1 (dl + 4) (u32_bytes size) in
      let sized = (header_of-header_bytes hdr ish).1 in
      SameOn-trans lo hi m m2 (filled m dl f size hdr)
        (SameOn-trans lo hi m m1 m2
          (SameOn-poke lo hi m dl (u32_bytes f) (omega arith) (ground (arith, apart)))
          (SameOn-poke lo hi m1 (dl + 4) (u32_bytes size) (omega arith) (ground (arith, apart))))
        (SameOn-poke lo hi m2 (dl + 8) (header_bytes hdr) (omega arith)
          (ground (arith, apart, sized)))

  -- `dl->file_bytes` and `dl->hdr.num_sections` are read back.
  pub DlAt-file_bytes : (μ : Machine) → IsWord f → DlAt μ.mem dl f size hdr → load32 dl μ ≡ ok f μ
  DlAt-file_bytes μ fits at_dl = load32-HoldsWord dl f μ at_dl.file_bytes fits

  pub DlAt-num_sections :
      (μ : Machine) → DlAt μ.mem dl f size hdr → load32 (dl + 20) μ ≡ ok hdr.num_sections μ
  DlAt-num_sections μ at_dl =
      let behind =
        Holds-append_right μ.mem (dl + 8) hdr.sign
          (words_bytes (hdr.version ∷ hdr.unk_8 ∷ hdr.num_sections ∷ hdr.unk_16)) at_dl.hdr_bytes in
      let at_20 =
        Holds-append_right μ.mem (dl + 8 + length hdr.sign)
          (words_bytes (hdr.version ∷ hdr.unk_8 ∷ [])) (words_bytes (hdr.num_sections ∷ hdr.unk_16))
          behind in
      let word =
        Holds-append_left μ.mem (dl + 8 + length hdr.sign + 8) (u32_bytes hdr.num_sections)
          (words_bytes hdr.unk_16) at_20 in
      let e : dl + 8 + length hdr.sign + 8 ≡ dl + 20 = omega (arith, ish.sign) in
      load32-HoldsWord (dl + 20) hdr.num_sections μ (rw e at word) ish.num_sections
