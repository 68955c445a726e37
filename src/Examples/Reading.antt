-- ===== src/Examples/Reading.antt =====
-- Reads from the open resource of the small file.
use ga330_libretro.Common.{ℕ, ◌+◌, ◌*◌, ◌≤◌, ◌≡◌, refl, sym, inl, inr, [], ◌∷◌, arith}
use ga330_libretro.Machine.{Memory, Machine, ok, poke, wrap, is_mapped, u32_bytes}
use ga330_libretro.Machine.Access.{Holds, Mapped}
use ga330_libretro.Machine.Words.{HoldsWord}
use ga330_libretro.Dl.Resources.{dl_res_get_data}
use ga330_libretro.Dl.Resources.Handle.{res_filled}
use ga330_libretro.Dl.Resources.Data.Read.{CanRead}
use ga330_libretro.Dl.Resources.Data.Laws.{
  HasRead, dl_res_get_data-HasRead, dl_res_get_data-encoded_tail, IsQuiet, read_twice,
  dl_res_get_data_twice,
}
use ga330_libretro.Examples.Resources.{open_memory}
use ga330_libretro.Examples.{my_resource, encoded, file_at, holds_test, Holds-of_test}

-- The handle is at 0x10000400 and the buffer at 0x10000700.
abbrev reading_memory : Memory
reading_memory = res_filled open_memory 0x10000400 761 0x10000900 my_resource

abbrev reading : Machine
reading = record { mem = reading_memory; log = [] }

my_reading :
    (size count : ℕ)
    → size * count ≡ 3
    → count ≤ 3
    → CanRead reading_memory 0x10000400 761 0x10000900 file_at 0x10000700 size count encoded
unfolding holds_test poke is_mapped
my_reading size count three below =
    let room : Mapped reading_memory 0x10000700 3 = refl in
    record {
      current_at = Holds-of_test reading_memory 0x10000404 (u32_bytes 761) refl;
      dl_at = Holds-of_test reading_memory 0x10000408 (u32_bytes 0x10000900) refl;
      file_at = Holds-of_test reading_memory 0x10000900 (u32_bytes file_at) refl;
      current_word = omega arith;
      dl_word = omega arith;
      f_word = omega arith;
      bytes = Holds-of_test reading_memory (file_at + 761) encoded refl;
      bytes_length = sym three;
      no_overflow = omega arith;
      enough = omega arith;
      room = rw three room;
      top = omega arith;
      res_top = omega arith;
      apart = inr (omega arith);
    }

dl_res_get_data-HasRead_example :
    HasRead reading 0x10000400 761 0x10000700 1 3 encoded
      (dl_res_get_data 0x10000400 0x10000700 1 3 reading)
dl_res_get_data-HasRead_example =
    dl_res_get_data-HasRead 0x10000400 761 0x10000900 file_at 0x10000700 1 3 encoded reading
      (my_reading 1 3 refl (omega arith))

-- One item of three bytes: the second byte stays encoded.
dl_res_get_data-encoded_tail_example :
    (m : Memory) × (dl_res_get_data 0x10000400 0x10000700 3 1 reading
      ≡ ok 3 (record { mem = m; log = [] }))
    × (m (wrap 0x10000701) ≡ reading_memory (wrap (file_at + 762)))
dl_res_get_data-encoded_tail_example =
    dl_res_get_data-encoded_tail 0x10000400 761 0x10000900 file_at 0x10000700 3 1 encoded 1 reading
      (my_reading 3 1 refl (omega arith)) (omega arith) (omega arith)

my-IsQuiet : IsQuiet 0x10000400 761 0x10000900 file_at 0x10000700 3
my-IsQuiet = record {
  position = omega arith;
  bytes_top = omega arith;
  bytes_buffer = inl (omega arith);
  bytes_handle = inl (omega arith);
  dl_top = omega arith;
  dl_buffer = inl (omega arith);
  dl_handle = inl (omega arith);
}

dl_res_get_data_twice_example :
    (m : Memory) × (read_twice 0x10000400 0x10000700 1 2 reading
      ≡ ok 2 (record { mem = m; log = [] }))
    × Holds m 0x10000700 (0x48 ∷ 0x69 ∷ 0x21 ∷ [])
    × HoldsWord m 0x10000404 764
dl_res_get_data_twice_example =
    dl_res_get_data_twice 0x10000400 761 0x10000900 file_at 0x10000700 (0x08 ∷ [])
      (0x29 ∷ 0x61 ∷ []) reading_memory (my_reading 1 3 refl (omega arith)) my-IsQuiet []
