-- ===== src/Emu/Filesystem/Handles.antt =====
-- The handles that are given out, and the streams behind them.
use ga330_libretro.Common.{
  ℕ, ◌+◌, ◌<◌, ◌^◌, ◌≡◌, ◌≢◌, refl, none, some, false, List, [], ◌∷◌, take, list_eq, arith,
}
use ga330_libretro.Common.Table.{
  find, assign, Keys, Keys-assign, Keys-map, find-none, find-assign_other,
}
use ga330_libretro.Machine.{wrap}
use ga330_libretro.Emu.Filesystem.{
  StreamOp, Streams, Filesystem, Files, sanitize, at_file, no_file, opened, open_file,
}

-- Every handle in the table has been given out.
abbrev pub IsSound : {S : Type 0} → Filesystem S → Type 0
IsSound fs = Keys (λ j. j < fs.next_handle) fs.open_files

module _ {S W : Type 0} (lib : Streams S W) where
  -- The C++ library opens the stream `s` for a path and a mode.
  pub data Opens (w : W) (path : List ℕ) : List ℕ → S → W → Type 0 where
    reads :
        (rest : List ℕ) (s : S) (w' : W)
        → lib.open_in (sanitize path) w ≡ (some s, w')
        → Opens w path (b'r' ∷ b'b' ∷ rest) s w'
    writes :
        (rest : List ℕ) (s : S) (w' : W)
        → lib.open_trunc (sanitize path) w ≡ (some s, w')
        → Opens w path (b'w' ∷ b'b' ∷ rest) s w'

  -- There is no file of the name to read from, none can be written to, or the mode is another.
  pub data Refuses (w : W) (path : List ℕ) : List ℕ → W → Type 0 where
    no_source :
        (rest : List ℕ) (w' : W)
        → lib.open_in (sanitize path) w ≡ (none, w')
        → Refuses w path (b'r' ∷ b'b' ∷ rest) w'
    no_target :
        (rest : List ℕ) (w' : W)
        → lib.open_trunc (sanitize path) w ≡ (none, w')
        → Refuses w path (b'w' ∷ b'b' ∷ rest) w'
    other_mode :
        (mode : List ℕ)
        → list_eq (take 2 mode) (b'r' ∷ b'b' ∷ []) ≡ false
        → list_eq (take 2 mode) (b'w' ∷ b'b' ∷ []) ≡ false
        → Refuses w path mode w

  pub open_file-Refuses :
      (fs : Filesystem S) (w w' : W) (path mode : List ℕ)
      → Refuses w path mode w'
      → open_file lib path mode (fs, w) ≡ (no_file, (fs, w'))
  unfolding open_file opened
  open_file-Refuses fs w w' path mode (no_source rest _ e) = rw e refl
  open_file-Refuses fs w w' path mode (no_target rest _ e) = rw e refl
  open_file-Refuses fs w w' path mode (other_mode _ e e') = rw (e, e') refl

  pub open_file-Opens :
      (fs : Filesystem S) (w w' : W) (path mode : List ℕ) (s : S)
      → Opens w path mode s w'
      → open_file lib path mode (fs, w) ≡ opened lib (some s, w') fs
  unfolding open_file
  open_file-Opens fs w w' path mode s (reads rest _ _ e) = rw e refl
  open_file-Opens fs w w' path mode s (writes rest _ _ e) = rw e refl

  -- The table and the world when the stream of a handle has become `t`.
  abbrev pub moved : ℕ → S → W → Filesystem S → Files S W
  moved handle t w fs = (record fs { open_files = assign handle t fs.open_files }, w)

  -- What is done with a handle that stands in the table is done with its stream.
  pub at_file-find :
      {A : Type 0} (handle : ℕ) (op : StreamOp S W A) (fs : Filesystem S) (w w' : W) (s t : S)
      (a : A)
      → find handle fs.open_files ≡ some s
      → op s w ≡ (a, t, w')
      → at_file lib handle op (fs, w) ≡ (a, moved handle t w' fs)
  unfolding at_file
  at_file-find handle op fs w w' s t a found did = rw (found, did) refl

  pub at_file-IsSound :
      {A : Type 0} (h : ℕ) (op : StreamOp S W A) (fs : Filesystem S) (w : W)
      → h < fs.next_handle
      → IsSound fs
      → IsSound (at_file lib h op (fs, w)).1.0
  unfolding at_file
  at_file-IsSound h op fs w below sound = Keys-assign _ h _ fs.open_files below sound

  pub at_file-find_other :
      {A : Type 0} (h i : ℕ) (op : StreamOp S W A) (fs : Filesystem S) (w : W)
      → i ≢ h
      → find i (at_file lib h op (fs, w)).1.0.open_files ≡ find i fs.open_files
  unfolding at_file
  at_file-find_other h i op fs w ne = find-assign_other h i _ fs.open_files ne

  -- An open file gets the next handle, which none has had, and its own stream under it; the other
  -- streams stay, as long as handles have not run out.
  pub open_file-find :
      (fs : Filesystem S) (w w' : W) (path mode : List ℕ) (s : S)
      → IsSound fs
      → fs.next_handle + 1 < 2 ^ 31
      → Opens w path mode s w'
      → (fs' : Filesystem S) × (open_file lib path mode (fs, w) ≡ (fs.next_handle, (fs', w')))
        × (find fs.next_handle fs.open_files ≡ none)
        × (find fs.next_handle fs'.open_files ≡ some s)
        × ((i : ℕ) → i ≢ fs.next_handle → find i fs'.open_files ≡ find i fs.open_files)
        × (fs'.next_handle ≡ fs.next_handle + 1)
        × IsSound fs'
  unfolding opened
  open_file-find fs w w' path mode s sound room opens =
      let free =
        find-none fs.next_handle fs.open_files
          (Keys-map _ _ fs.open_files (λ j below. omega arith) sound) in
      let next : wrap (fs.next_handle + 1) ≡ fs.next_handle + 1 = omega arith in
      (
        record fs {
          next_handle = fs.next_handle + 1;
          open_files = (fs.next_handle, s) ∷ fs.open_files;
        },
        rw (open_file-Opens fs w w' path mode s opens, opened, free, next) refl,
        free,
        ground arith,
        (λ i ne. ground arith),
        refl,
        (omega arith, Keys-map _ _ fs.open_files (λ j below. omega arith) sound),
      )
