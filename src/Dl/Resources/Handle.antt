-- ===== src/Dl/Resources/Handle.antt =====
-- A `DL_res_t` in memory.
use ga330_libretro.Common.{ℕ, ◌+◌, ◌≤◌, ◌≡◌, ◌⊎◌, inl, inr, ◌++◌, arith, length}
use ga330_libretro.Machine.{word_mod, Memory, Machine, ok, poke, u32_bytes}
use ga330_libretro.Machine.Access.{
  Holds, Mapped, SameOn, Holds-poke, Mapped-poke, Mapped-part, Mapped-first, store_bytes-Mapped,
  Holds-append_left, Holds-append_right,
}
use ga330_libretro.Machine.Frame.{SameOn-trans, SameOn-poke, Holds-poke-Apart}
use ga330_libretro.Machine.Words.{HoldsWord, load32-HoldsWord, store32-Mapped}
use ga330_libretro.Dl.Format.{ResourceEntry, resource_entry_bytes}
use ga330_libretro.Dl.Format.Tables.{IsResourceEntry, resource_entry_of-resource_entry_bytes}
use ga330_libretro.Dl.Resources.{fill_res, dl_res_get_size}

-- At `res` stands the state of a resource that is open: where it starts in the file, where the
-- next read starts, the file's handle, and the entry.
pub record ResAt (m : Memory) (res start current dl : ℕ) (ent : ResourceEntry) : Type 0 where
  pub start_file_offset : HoldsWord m res start
  pub current_file_offset : HoldsWord m (res + 4) current
  pub dl_at : HoldsWord m (res + 8) dl
  pub ent_at : Holds m (res + 12) (resource_entry_bytes ent)

-- The memory after the four stores of `fill_res`.
abbrev pub res_filled : Memory → ℕ → ℕ → ℕ → ResourceEntry → Memory
res_filled m res start dl ent =
    poke
      (poke (poke (poke m (res + 4) (u32_bytes start)) res (u32_bytes start)) (res + 8)
        (u32_bytes dl))
      (res + 12) (resource_entry_bytes ent)

module _ (res start dl : ℕ) (ent : ResourceEntry) (ise : IsResourceEntry ent) where
  pub fill_res-res_filled :
      (μ : Machine)
      → Mapped μ.mem res 520
      → fill_res res start dl ent μ ≡ ok tt (record μ { mem = res_filled μ.mem res start dl ent })
  unfolding fill_res
  fill_res-res_filled μ room =
      let m1 = poke μ.mem (res + 4) (u32_bytes start) in
      let m2 = poke m1 res (u32_bytes start) in
      let m3 = poke m2 (res + 8) (u32_bytes dl) in
      let room1 = Mapped-poke μ.mem (res + 4) (u32_bytes start) res 520 room in
      let room2 = Mapped-poke m1 res (u32_bytes start) res 520 room1 in
      let room3 = Mapped-poke m2 (res + 8) (u32_bytes dl) res 520 room2 in
      let sized = (resource_entry_of-resource_entry_bytes ent ise).1 in
      let last : Mapped m3 (res + 12) (length (resource_entry_bytes ent)) =
        rw sized (Mapped-part m3 res 12 508 room3) in
      rw
        (
          store32-Mapped (res + 4) start μ
              (Mapped-first μ.mem (res + 4) 516 4 (omega arith) (Mapped-part μ.mem res 4 516 room)),
          store32-Mapped res start (record μ { mem = m1 })
              (Mapped-first m1 res 520 4 (omega arith) room1),
          store32-Mapped (res + 8) dl (record μ { mem = m2 })
              (Mapped-first m2 (res + 8) 512 4 (omega arith) (Mapped-part m2 res 8 512 room2)),
        )
        (store_bytes-Mapped (res + 12) (resource_entry_bytes ent) (record μ { mem = m3 }) last)

  pub ResAt-res_filled :
      (m : Memory)
      → res + 520 ≤ word_mod
      → ResAt (res_filled m res start dl ent) res start start dl ent
  ResAt-res_filled m top =
      let m1 = poke m (res + 4) (u32_bytes start) in
      let m2 = poke m1 res (u32_bytes start) in
      let m3 = poke m2 (res + 8) (u32_bytes dl) in
      let bs = resource_entry_bytes ent in
      let sized : length bs ≡ 508 = (resource_entry_of-resource_entry_bytes ent ise).1 in
      let fits : res + 12 + length bs ≤ word_mod = omega arith in
      record {
        start_file_offset =
            Holds-poke-Apart m3 (res + 12) bs res (u32_bytes start) fits (omega arith)
              (inr (omega arith))
              (Holds-poke-Apart m2 (res + 8) (u32_bytes dl) res (u32_bytes start) (omega arith)
                (omega arith) (inr (omega arith))
                (Holds-poke m1 res (u32_bytes start) (omega arith)));
        current_file_offset =
            Holds-poke-Apart m3 (res + 12) bs (res + 4) (u32_bytes start) fits (omega arith)
              (inr (omega arith))
              (Holds-poke-Apart m2 (res + 8) (u32_bytes dl) (res + 4) (u32_bytes start)
                (omega arith) (omega arith) (inr (omega arith))
                (Holds-poke-Apart m1 res (u32_bytes start) (res + 4) (u32_bytes start) (omega arith)
                  (omega arith) (inl (omega arith))
                  (Holds-poke m (res + 4) (u32_bytes start) (omega arith))));
        dl_at =
            Holds-poke-Apart m3 (res + 12) bs (res + 8) (u32_bytes dl) fits (omega arith)
              (inr (omega arith)) (Holds-poke m2 (res + 8) (u32_bytes dl) (omega arith));
        ent_at = Holds-poke m3 (res + 12) bs (omega arith);
      }

  pub res_filled-SameOn :
      (m : Memory) (lo hi : ℕ)
      → res + 520 ≤ word_mod
      → (res + 520 ≤ lo) ⊎ (hi ≤ res)
      → SameOn lo hi m (res_filled m res start dl ent)
  res_filled-SameOn m lo hi top apart =
      let m1 = poke m (res + 4) (u32_bytes start) in
      let m2 = poke m1 res (u32_bytes start) in
      let m3 = poke m2 (res + 8) (u32_bytes dl) in
      let sized = (resource_entry_of-resource_entry_bytes ent ise).1 in
      SameOn-trans lo hi m m3 (res_filled m res start dl ent)
        (SameOn-trans lo hi m m2 m3
          (SameOn-trans lo hi m m1 m2
            (SameOn-poke lo hi m (res + 4) (u32_bytes start) (omega arith) (ground (arith, apart)))
            (SameOn-poke lo hi m1 res (u32_bytes start) (omega arith) (ground (arith, apart))))
          (SameOn-poke lo hi m2 (res + 8) (u32_bytes dl) (omega arith) (ground (arith, apart))))
        (SameOn-poke lo hi m3 (res + 12) (resource_entry_bytes ent) (omega arith)
          (ground (arith, apart, sized)))

-- The size is the entry's.
pub dl_res_get_size-size :
    (res start current dl : ℕ) (ent : ResourceEntry) (μ : Machine)
    → IsResourceEntry ent
    → ResAt μ.mem res start current dl ent
    → dl_res_get_size res μ ≡ ok ent.size μ
unfolding dl_res_get_size
dl_res_get_size-size res start current dl ent μ ise at_res =
    let behind =
      Holds-append_right μ.mem (res + 12) ent.filename (u32_bytes ent.size ++ u32_bytes ent.offset)
        at_res.ent_at in
    let word =
      Holds-append_left μ.mem (res + 12 + length ent.filename) (u32_bytes ent.size)
        (u32_bytes ent.offset) behind in
    let e : res + 12 + length ent.filename ≡ res + 12 + 500 = omega (arith, ise.filename) in
    load32-HoldsWord (res + 12 + 500) ent.size μ (rw e at word) ise.words.0

pub Mapped-res_filled :
    (res start dl : ℕ) (ent : ResourceEntry) (m : Memory) (b n : ℕ)
    → Mapped m b n
    → Mapped (res_filled m res start dl ent) b n
Mapped-res_filled res start dl ent m b n h =
    let m1 = poke m (res + 4) (u32_bytes start) in
    let m2 = poke m1 res (u32_bytes start) in
    let m3 = poke m2 (res + 8) (u32_bytes dl) in
    Mapped-poke m3 (res + 12) (resource_entry_bytes ent) b n (
      Mapped-poke m2 (res + 8) (u32_bytes dl) b n (
        Mapped-poke m1 res (u32_bytes start) b n (Mapped-poke m (res + 4) (u32_bytes start) b n h)))
