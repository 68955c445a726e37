-- ===== src/Emu/Filesystem.antt =====
-- src/filesystem.cpp: the files that the emulator has open for the application, by their handles.
-- `std::fstream` and the disk are the C++ library's and the system's, a parameter: `S` is a stream,
-- and `W` what lies outside of the program.
pub mod Handles
pub mod Names
pub mod Steps
use ga330_libretro.Common.{
  ℕ, ◌+◌, ◌-◌, ◌^◌, Bool, Option, none, some, List, [], ◌∷◌, map, take, list_eq, ◌==◌,
  if◌then◌else◌,
}
use ga330_libretro.Common.Table.{find, assign, erase}
use ga330_libretro.Machine.{wrap}

-- `std::ios_base::beg`, `cur`, `end`
pub data Origin : Type 0 where
  beg cur end : Origin

-- What a function of `std::fstream` does: it has a result, and changes the stream and the world.
abbrev pub StreamOp : Type 0 → Type 0 → Type 0 → Type 0
StreamOp S W A = S → W → A × S × W

pub record Streams (S W : Type 0) : Type 0 where
  -- a stream without a file, as the default constructor makes it
  pub closed : S
  -- `std::fstream f(path, mode)`, and whether it is open
  pub open_in : List ℕ → W → Option S × W
  pub open_trunc : List ℕ → W → Option S × W
  pub close : StreamOp S W (Unit {0})
  -- `read` for a number of bytes: those that were read, as many as `gcount` says
  pub read : ℕ → StreamOp S W (List ℕ)
  pub write : List ℕ → StreamOp S W (Unit {0})
  pub seekg : ℕ → Origin → StreamOp S W (Unit {0})
  pub seekp : ℕ → Origin → StreamOp S W (Unit {0})
  pub tellg : StreamOp S W ℕ

-- The keys of `open_files` and `next_handle` are patterns of `int`s.
pub record Filesystem (S : Type 0) : Type 0 where
  pub next_handle : ℕ
  pub drives : List (ℕ × List ℕ)
  pub open_files : List (ℕ × S)

abbrev pub new_filesystem : {S : Type 0} → Filesystem S
new_filesystem = record { next_handle = 1; drives = []; open_files = [] }

-- `emplace` leaves an entry that is there.
unfoldable pub define_drive : {S : Type 0} → ℕ → List ℕ → Filesystem S → Filesystem S
define_drive letter path fs = elim (find letter fs.drives) [
  | some there ↦ fs
  | none ↦ record fs { drives = (letter, path) ∷ fs.drives }
]

-- The three replacements, one after the other.
abbrev pub replace : ℕ → ℕ → List ℕ → List ℕ
replace old new = map (λ c. if c == old then new else c)

unfoldable pub sanitize : List ℕ → List ℕ
sanitize path = replace b':' b'_' (replace b'/' b'$' (replace b'\\' b'$' path))

abbrev pub no_file : ℕ
no_file = 2 ^ 32 - 1

-- A state of the emulator's files: the table and the world.
abbrev pub Files : Type 0 → Type 0 → Type 0
Files S W = Filesystem S × W

module _ {S W : Type 0} (lib : Streams S W) where
  -- `open_files[handle]`, which makes a stream without a file where there is none, and what is
  -- done with it.
  unfoldable pub at_file : {A : Type 0} → ℕ → StreamOp S W A → Files S W → A × Files S W
  at_file handle op (fs, w) =
      let stream : S = elim (find handle fs.open_files) [ some s ↦ s | none ↦ lib.closed ] in
      let (a, s, w') = op stream w in
      (a, (record fs { open_files = assign handle s fs.open_files }, w'))

  -- `emplace` moves the stream into the table where the handle is free; where it is not, the
  -- stream is destroyed, which closes it.
  unfoldable pub opened : Option S × W → Filesystem S → ℕ × Files S W
  opened (none, w) fs = (no_file, (fs, w))
  opened (some s, w) fs =
      let h = fs.next_handle in
      let fs' : Filesystem S = record fs { next_handle = wrap (h + 1) } in
      elim (find h fs.open_files) [
        | none ↦ (h, (record fs' { open_files = (h, s) ∷ fs.open_files }, w))
        | some there ↦ let (u, s', w') = lib.close s w in (h, (fs', w'))
      ]

  unfoldable pub open_file : List ℕ → List ℕ → Files S W → ℕ × Files S W
  open_file path mode (fs, w) =
      let path_str = sanitize path in
      if list_eq (take 2 mode) (b'r' ∷ b'b' ∷ [])
      then opened (lib.open_in path_str w) fs
      else if list_eq (take 2 mode) (b'w' ∷ b'b' ∷ [])
      then opened (lib.open_trunc path_str w) fs
      else (no_file, (fs, w))

  unfoldable pub close_file : ℕ → Files S W → Files S W
  close_file handle files =
      let (u, (fs, w)) = at_file handle lib.close files in
      (record fs { open_files = erase handle fs.open_files }, w)

  -- The bytes that were read are the front of the caller's buffer.
  unfoldable pub read_file : ℕ → ℕ → Files S W → List ℕ × Files S W
  read_file handle size = at_file handle (lib.read size)

  -- `SEEK_SET`, `SEEK_CUR` and `SEEK_END` are 0, 1 and 2; any other mode does nothing.
  abbrev pub origin_of : ℕ → Option Origin
  origin_of c_mode =
      if c_mode == 0
      then some beg
      else if c_mode == 1
      then some cur
      else if c_mode == 2
      then some end
      else none

  abbrev pub seek_both : ℕ → Option Origin → StreamOp S W (Unit {0})
  seek_both offset none s w = (tt, s, w)
  seek_both offset (some origin) s w =
      let (u, s1, w1) = lib.seekg offset origin s w in lib.seekp offset origin s1 w1

  unfoldable pub seek_file : ℕ → ℕ → ℕ → Files S W → Files S W
  seek_file handle offset c_mode files =
      (at_file handle (seek_both offset (origin_of c_mode)) files).1

  -- The position, of 64 bits, becomes an `int`.
  unfoldable pub tell_file : ℕ → Files S W → ℕ × Files S W
  tell_file handle files = let (p, files') = at_file handle lib.tellg files in (wrap p, files')

  -- The result is all of the input, whatever was written.
  unfoldable pub write_file : ℕ → List ℕ → Files S W → List ℕ × Files S W
  write_file handle input files = (input, (at_file handle (lib.write input) files).1)
