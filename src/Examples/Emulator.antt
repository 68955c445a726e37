-- ===== src/Examples/Emulator.antt =====
-- The emulator's files, with a disk on which every file has the same three bytes.
use ga330_libretro.Common.{
  ◌≢◌, ℕ, ◌+◌, ◌≡◌, refl, none, some, List, [], ◌∷◌, ◌++◌, take, drop, length, arith,
}
use ga330_libretro.Common.Table.{find}
use ga330_libretro.Emu.Filesystem.{
  Streams, Filesystem, Files, new_filesystem, opened, open_file, read_file,
}
use ga330_libretro.Emu.Filesystem.Handles.{reads}
use ga330_libretro.Emu.Filesystem.Steps.{open_new, here, step, Reaches-IsSound, open_file-squatted}

-- A stream is the bytes that are left; the world counts the files that were opened.
abbrev pub my_lib : Streams (List ℕ) ℕ
my_lib = record {
  closed = [];
  open_in = λ path w. (some (1 ∷ 2 ∷ 3 ∷ []), w + 1);
  open_trunc = λ path w. (some [], w + 1);
  close = λ s w. (tt, [], w);
  read = λ n s w. (take n s, drop n s, w);
  write = λ bytes s w. (tt, s ++ bytes, w);
  seekg = λ offset origin s w. (tt, s, w);
  seekp = λ offset origin s w. (tt, s, w);
  tellg = λ s w. (length s, s, w);
}

abbrev my_path : List ℕ
my_path = b'A' ∷ b':' ∷ b'\\' ∷ b'x' ∷ []

abbrev my_mode : List ℕ
my_mode = b'r' ∷ b'b' ∷ []

abbrev my_files : Filesystem (List ℕ)
my_files = record { next_handle = 2; drives = []; open_files = (1, 7 ∷ []) ∷ [] }

abbrev my_opened : Files (List ℕ) ℕ
my_opened = (open_file my_lib my_path my_mode (new_filesystem, 0)).1

Reaches-IsSound_example :
    (fs' : Filesystem (List ℕ)) × (open_file my_lib my_path my_mode my_opened ≡ (2, (fs', 2)))
    × (find 2 my_opened.0.open_files ≡ none)
    × (find 2 fs'.open_files ≡ some (1 ∷ 2 ∷ 3 ∷ []))
    × ((i : ℕ) → i ≢ 2 → find i fs'.open_files ≡ find i my_opened.0.open_files)
unfolding open_file opened
Reaches-IsSound_example =
    Reaches-IsSound my_lib 0 2 my_opened my_path my_mode (1 ∷ 2 ∷ 3 ∷ [])
      (step _ my_opened here (open_new my_path my_mode new_filesystem 0 (omega arith)))
      (omega arith) (reads [] _ _ refl)

open_file-squatted_example :
    (let r = open_file my_lib my_path my_mode (read_file my_lib 2 4 (my_files, 0)).1 in
      (r.0 ≡ 2) × (find 2 r.1.0.open_files ≡ some []))
open_file-squatted_example =
    open_file-squatted my_lib my_files 0 0 1 [] (1 ∷ 2 ∷ 3 ∷ []) [] my_path my_mode 4 refl refl
      (reads [] _ _ refl)
