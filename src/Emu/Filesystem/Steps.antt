-- ===== src/Emu/Filesystem/Steps.antt =====
-- What an application can do to the emulator's files, step by step.
use ga330_libretro.Common.{
  ℕ, ◌+◌, ◌<◌, ◌^◌, ◌≡◌, ◌≢◌, refl, Option, none, some, List, [], ◌∷◌, arith, Option-cases,
  Bool-cases, list_eq, take, inl, inr, ◌∙◌,
}
use ga330_libretro.Common.Table.{
  find, assign, Keys-assign, Keys-erase, Keys-map, find-none, find-assign, find-erase_other,
}
use ga330_libretro.Machine.{wrap}
use ga330_libretro.Emu.Filesystem.{
  Streams, Filesystem, Files, new_filesystem, define_drive, at_file, opened, open_file, close_file,
  read_file, seek_file, tell_file, write_file, sanitize,
}
use ga330_libretro.Emu.Filesystem.Handles.{
  IsSound, Opens, open_file-Opens, open_file-find, at_file-IsSound, at_file-find_other,
}

module _ {S W : Type 0} (lib : Streams S W) where
  -- A call for a handle is one for a handle that has been given out, though the file may be closed
  -- by now; a file may be opened as long as there are handles.
  pub data Step : Files S W → Files S W → Type 0 where
    define :
        (letter : ℕ) (path : List ℕ) (fs : Filesystem S) (w : W)
        → Step (fs, w) (define_drive letter path fs, w)
    open_new :
        (path mode : List ℕ) (fs : Filesystem S) (w : W)
        → fs.next_handle + 1 < 2 ^ 31
        → Step (fs, w) (open_file lib path mode (fs, w)).1
    close :
        (h : ℕ) (fs : Filesystem S) (w : W)
        → h < fs.next_handle
        → Step (fs, w) (close_file lib h (fs, w))
    read :
        (h size : ℕ) (fs : Filesystem S) (w : W)
        → h < fs.next_handle
        → Step (fs, w) (read_file lib h size (fs, w)).1
    seek :
        (h offset mode : ℕ) (fs : Filesystem S) (w : W)
        → h < fs.next_handle
        → Step (fs, w) (seek_file lib h offset mode (fs, w))
    tell :
        (h : ℕ) (fs : Filesystem S) (w : W)
        → h < fs.next_handle
        → Step (fs, w) (tell_file lib h (fs, w)).1
    write :
        (h : ℕ) (input : List ℕ) (fs : Filesystem S) (w : W)
        → h < fs.next_handle
        → Step (fs, w) (write_file lib h input (fs, w)).1

  pub data Reaches (start : Files S W) : Files S W → Type 0 where
    here : Reaches start start
    step : (a b : Files S W) → Reaches start a → Step a b → Reaches start b

  opened-IsSound :
      (o : Option S × W) (fs : Filesystem S)
      → fs.next_handle + 1 < 2 ^ 31
      → IsSound fs
      → IsSound (opened lib o fs).1.0
  unfolding opened
  opened-IsSound (none, w) fs room sound = sound
  opened-IsSound (some s, w) fs room sound =
      let next : wrap (fs.next_handle + 1) ≡ fs.next_handle + 1 = omega arith in
      let free =
        find-none fs.next_handle fs.open_files
          (Keys-map _ _ fs.open_files (λ j below. omega arith) sound) in
      rw (opened, free, next)
        (omega arith, Keys-map _ _ fs.open_files (λ j below. omega arith) sound)

  open_file-IsSound :
      (path mode : List ℕ) (fs : Filesystem S) (w : W)
      → fs.next_handle + 1 < 2 ^ 31
      → IsSound fs
      → IsSound (open_file lib path mode (fs, w)).1.0
  unfolding open_file
  open_file-IsSound path mode fs w room sound =
      elim (Bool-cases (list_eq (take 2 mode) (b'r' ∷ b'b' ∷ []))) [
        | inl e ↦ rw e (opened-IsSound (lib.open_in (sanitize path) w) fs room sound)
        | inr e ↦ elim (Bool-cases (list_eq (take 2 mode) (b'w' ∷ b'b' ∷ []))) [
          | inl e2 ↦ rw (e, e2) (opened-IsSound (lib.open_trunc (sanitize path) w) fs room sound)
          | inr e2 ↦ rw (e, e2) sound
        ]
      ]

  define_drive-IsSound :
      (letter : ℕ) (path : List ℕ) (fs : Filesystem S)
      → IsSound fs
      → IsSound (define_drive letter path fs)
  unfolding define_drive
  define_drive-IsSound letter path fs sound = elim (Option-cases (find letter fs.drives)) [
    | inl e ↦ rw (define_drive, e) sound
    | inr (there, e) ↦ rw (define_drive, e) sound
  ]

  close_file-IsSound :
      (h : ℕ) (fs : Filesystem S) (w : W)
      → h < fs.next_handle
      → IsSound fs
      → IsSound (close_file lib h (fs, w)).0
  unfolding close_file at_file
  close_file-IsSound h fs w below sound =
      Keys-erase _ h _ (Keys-assign _ h _ fs.open_files below sound)

  Step-IsSound : (a b : Files S W) → Step a b → IsSound a.0 → IsSound b.0
  unfolding read_file seek_file tell_file write_file
  Step-IsSound a b (define letter path fs w) sound = define_drive-IsSound letter path fs sound
  Step-IsSound a b (open_new path mode fs w room) sound =
      open_file-IsSound path mode fs w room sound
  Step-IsSound a b (close h fs w below) sound = close_file-IsSound h fs w below sound
  Step-IsSound a b (read h size fs w below) sound = at_file-IsSound lib h _ fs w below sound
  Step-IsSound a b (seek h offset mode fs w below) sound = at_file-IsSound lib h _ fs w below sound
  Step-IsSound a b (tell h fs w below) sound = at_file-IsSound lib h _ fs w below sound
  Step-IsSound a b (write h input fs w below) sound = at_file-IsSound lib h _ fs w below sound

  Reaches-Sound : (w : W) (b : Files S W) → Reaches (new_filesystem, w) b → IsSound b.0
  Reaches-Sound w b here = tt
  Reaches-Sound w b (step a _ r s) = Step-IsSound a b s (Reaches-Sound w a r)

  -- From the start on, as long as every call is for a handle that has been given out (which the
  -- code does not check) and handles have not run out: nothing is open under the next handle, and a
  -- file that the C++ library opens then gets this handle, its own stream under it, and leaves the
  -- streams of all other handles as they are.
  pub Reaches-IsSound :
      (w w' : W) (b : Files S W) (path mode : List ℕ) (s : S)
      → Reaches (new_filesystem, w) b
      → b.0.next_handle + 1 < 2 ^ 31
      → Opens lib b.1 path mode s w'
      → (fs' : Filesystem S) × (open_file lib path mode b ≡ (b.0.next_handle, (fs', w')))
        × (find b.0.next_handle b.0.open_files ≡ none)
        × (find b.0.next_handle fs'.open_files ≡ some s)
        × ((i : ℕ) → i ≢ b.0.next_handle → find i fs'.open_files ≡ find i b.0.open_files)
  Reaches-IsSound w w' b path mode s reached room opens =
      let (fs', called, free, found, others, next, sound) =
        open_file-find lib b.0 b.1 w' path mode s (Reaches-Sound w b reached) room opens in
      (fs', called, free, found, others)

  -- A call for one handle leaves the streams of the others alone.
  pub find-other_handle :
      (h i size offset mode : ℕ) (input : List ℕ) (fs : Filesystem S) (w : W)
      → i ≢ h
      → (find i (read_file lib h size (fs, w)).1.0.open_files ≡ find i fs.open_files)
        × (find i (write_file lib h input (fs, w)).1.0.open_files ≡ find i fs.open_files)
        × (find i (seek_file lib h offset mode (fs, w)).0.open_files ≡ find i fs.open_files)
        × (find i (tell_file lib h (fs, w)).1.0.open_files ≡ find i fs.open_files)
        × (find i (close_file lib h (fs, w)).0.open_files ≡ find i fs.open_files)
  unfolding read_file write_file seek_file tell_file close_file
  find-other_handle h i size offset mode input fs w ne = (
    at_file-find_other lib h i _ fs w ne,
    at_file-find_other lib h i _ fs w ne,
    at_file-find_other lib h i _ fs w ne,
    at_file-find_other lib h i _ fs w ne,
    find-erase_other h i _ ne ∙ at_file-find_other lib h i _ fs w ne,
  )

  -- A read for the handle that is given out next, before it is: the file that is opened then gets
  -- the handle, but not the place in the table, where the stream without a file stays.
  pub open_file-squatted :
      (fs : Filesystem S) (w w1 w2 : W) (bs : List ℕ) (s t : S) (path mode : List ℕ) (size : ℕ)
      → find fs.next_handle fs.open_files ≡ none
      → lib.read size lib.closed w ≡ (bs, t, w1)
      → Opens lib w1 path mode s w2
      → (let r = open_file lib path mode (read_file lib fs.next_handle size (fs, w)).1 in
          (r.0 ≡ fs.next_handle) × (find fs.next_handle r.1.0.open_files ≡ some t))
  unfolding read_file at_file opened
  open_file-squatted fs w w1 w2 bs s t path mode size free got opens =
      let next = find-assign fs.next_handle t fs.open_files in
      rw
        (
          free,
          got,
          open_file-Opens lib (record fs { open_files = assign fs.next_handle t fs.open_files }) w1
              w2 path mode s opens,
          opened,
          next,
        )
        (refl, next)
