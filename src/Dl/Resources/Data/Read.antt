-- ===== src/Dl/Resources/Data/Read.antt =====
-- One read from a resource.
use ga330_libretro.Common.{ℕ, ◌+◌, ◌*◌, ◌≤◌, ◌<◌, ◌≡◌, refl, ◌⊎◌, List, arith, length}
use ga330_libretro.Machine.{word_mod, Memory, Machine, ok, poke, wrap, u32_bytes, memcpy}
use ga330_libretro.Machine.Access.{
  Holds, Mapped, SameOn, load_bytes-Holds, store_bytes-Mapped, Mapped-poke, Mapped-first,
  Holds-poke, Mapped-of_Holds, Holds-frame,
}
use ga330_libretro.Machine.Frame.{SameOn-trans, SameOn-poke, Holds-poke-Apart}
use ga330_libretro.Machine.Words.{HoldsWord, IsWord, load32-HoldsWord, store32-Mapped}
use ga330_libretro.Dl.Resources.{dl_res_get_data}
use ga330_libretro.Dl.Resources.Data.Decode.{
  decoded, decode_loop-decoded, decoded-SameOn, flip_first, Holds-decoded, Mapped-decoded,
}

-- The handle at `res` stands at `current` in a file at `f`, where the bytes `bs` follow, and there
-- is room for them in a buffer that does not overlap the handle.
pub record CanRead (m : Memory) (res current dl f buffer size count : ℕ) (bs : List ℕ)
    : Type 0 where
  pub current_at : HoldsWord m (res + 4) current
  pub dl_at : HoldsWord m (res + 8) dl
  pub file_at : HoldsWord m dl f
  pub current_word : IsWord current
  pub dl_word : IsWord dl
  pub f_word : IsWord f
  pub bytes : Holds m (f + current) bs
  pub bytes_length : length bs ≡ size * count
  pub no_overflow : size * count < word_mod
  pub enough : count ≤ size * count
  pub room : Mapped m buffer (size * count)
  pub top : buffer + size * count ≤ word_mod
  pub res_top : res + 520 ≤ word_mod
  pub apart : (buffer + size * count ≤ res) ⊎ (res + 520 ≤ buffer)

-- The memory after the copy, and after the handle is moved on.
abbrev pub copied : Memory → ℕ → ℕ → ℕ → List ℕ → ℕ → Memory
copied m res current buffer bs n =
    poke (poke m buffer bs) (res + 4) (u32_bytes (wrap (current + n)))

abbrev pub after_read : Memory → ℕ → ℕ → ℕ → ℕ → List ℕ → ℕ → Memory
after_read m res current buffer count bs n =
    decoded (copied m res current buffer bs n) buffer (buffer + count)

module _ (res current dl f buffer size count : ℕ) (bs : List ℕ) where
  memcpy-poke :
      (μ : Machine)
      → CanRead μ.mem res current dl f buffer size count bs
      → memcpy buffer (f + current) (size * count) μ
        ≡ ok tt (record μ { mem = poke μ.mem buffer bs })
  unfolding memcpy
  memcpy-poke μ ready =
      let room : Mapped μ.mem buffer (length bs) = rw (ready.bytes_length) ready.room in
      rw (load_bytes-Holds (f + current) (size * count) bs μ ready.bytes ready.bytes_length)
        (store_bytes-Mapped buffer bs μ room)

  -- The read returns the number of bytes.
  pub dl_res_get_data-after_read :
      (μ : Machine)
      → CanRead μ.mem res current dl f buffer size count bs
      → dl_res_get_data res buffer size count μ
        ≡ ok
            (size * count)
            (record μ { mem = after_read μ.mem res current buffer count bs (size * count) })
  unfolding dl_res_get_data
  dl_res_get_data-after_read μ ready =
      let n = size * count in
      let whole : wrap (size * count) ≡ size * count = omega (arith, ready.no_overflow) in
      let μ1 : Machine = record μ { mem = poke μ.mem buffer bs } in
      let μ2 : Machine = record μ { mem = copied μ.mem res current buffer bs n } in
      let word = u32_bytes (wrap (current + n)) in
      let current_at =
        Holds-poke-Apart μ.mem buffer bs (res + 4) (u32_bytes current)
          (omega (arith, ready.top, ready.bytes_length)) (omega (arith, ready.res_top))
          (ground (arith, ready.apart, ready.bytes_length)) ready.current_at in
      let slot =
        Mapped-poke μ.mem buffer bs (res + 4) 4
          (Mapped-of_Holds μ.mem (res + 4) (u32_bytes current) ready.current_at) in
      let room1 = Mapped-poke μ.mem buffer bs buffer n ready.room in
      let room2 = Mapped-poke μ1.mem (res + 4) word buffer n room1 in
      let start : buffer + 0 ≡ buffer = omega arith in
      let room3 : Mapped μ2.mem (buffer + 0) count =
        rw start (Mapped-first μ2.mem buffer n count ready.enough room2) in
      rw
        (
          whole,
          load32-HoldsWord (res + 8) dl μ ready.dl_at ready.dl_word,
          load32-HoldsWord dl f μ ready.file_at ready.f_word,
          load32-HoldsWord (res + 4) current μ ready.current_at ready.current_word,
          memcpy-poke μ ready,
          load32-HoldsWord (res + 4) current μ1 current_at ready.current_word,
          store32-Mapped (res + 4) (wrap (current + n)) μ1 slot,
          decode_loop-decoded buffer count 0 μ2 (omega (arith, ready.top, ready.enough)) room3,
          start,
        )
        refl

  -- The buffer's first `count` bytes are those of the file with bit 6 flipped, and the others are
  -- as in the file.
  pub after_read-Holds :
      (m : Memory)
      → CanRead m res current dl f buffer size count bs
      → Holds (after_read m res current buffer count bs (size * count)) buffer (flip_first count bs)
  after_read-Holds m ready =
      let word = u32_bytes (wrap (current + size * count)) in
      Holds-decoded (copied m res current buffer bs (size * count)) buffer (buffer + count) buffer
        count bs refl (omega arith) (omega (arith, ready.top, ready.bytes_length))
        (Holds-poke-Apart (poke m buffer bs) (res + 4) word buffer bs (omega (arith, ready.res_top))
          (omega (arith, ready.top, ready.bytes_length))
          (ground (arith, ready.apart, ready.bytes_length))
          (Holds-poke m buffer bs (omega (arith, ready.top, ready.bytes_length))))

  -- What stands neither in the buffer nor in the handle's position is as it was.
  pub after_read-SameOn :
      (m : Memory) (lo hi : ℕ)
      → CanRead m res current dl f buffer size count bs
      → (buffer + size * count ≤ lo) ⊎ (hi ≤ buffer)
      → (res + 8 ≤ lo) ⊎ (hi ≤ res + 4)
      → SameOn lo hi m (after_read m res current buffer count bs (size * count))
  after_read-SameOn m lo hi ready apart apart' =
      let word = u32_bytes (wrap (current + size * count)) in
      let m1 = poke m buffer bs in
      let m2 = copied m res current buffer bs (size * count) in
      SameOn-trans lo hi m m2 (after_read m res current buffer count bs (size * count))
        (SameOn-trans lo hi m m1 m2
          (SameOn-poke lo hi m buffer bs (omega (arith, ready.top, ready.bytes_length))
            (ground (arith, apart, ready.bytes_length)))
          (SameOn-poke lo hi m1 (res + 4) word (omega (arith, ready.res_top))
            (ground (arith, apart'))))
        (decoded-SameOn m2 buffer (buffer + count) lo hi (ground (arith, apart, ready.enough)))

  -- The handle's position is moved on by the number of bytes.
  pub after_read-current :
      (m : Memory)
      → CanRead m res current dl f buffer size count bs
      → HoldsWord
          (after_read m res current buffer count bs (size * count))
          (res + 4)
          (wrap (current + size * count))
  after_read-current m ready =
      let word = u32_bytes (wrap (current + size * count)) in
      let m2 = copied m res current buffer bs (size * count) in
      Holds-frame m2 (after_read m res current buffer count bs (size * count)) (res + 4) (res + 4)
        (res + 8) word
        (decoded-SameOn m2 buffer (buffer + count) (res + 4) (res + 8)
          (ground (arith, ready.apart, ready.enough)))
        (omega arith) (omega arith) (omega (arith, ready.res_top))
        (Holds-poke (poke m buffer bs) (res + 4) word (omega arith))

  pub Mapped-after_read :
      (m : Memory) (b n : ℕ)
      → Mapped m b n
      → Mapped (after_read m res current buffer count bs (size * count)) b n
  Mapped-after_read m b n room =
      let word = u32_bytes (wrap (current + size * count)) in
      Mapped-decoded (copied m res current buffer bs (size * count)) buffer (buffer + count) b n
        (Mapped-poke (poke m buffer bs) (res + 4) word b n (Mapped-poke m buffer bs b n room))
