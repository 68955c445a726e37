-- ===== src/Crossing/Files.antt =====
-- The file functions of minisys/minisys.c, with the handlers of src/api.cpp behind them.
use ga330_libretro.Common.{
  ℕ, ◌+◌, ◌*◌, ◌/◌, ◌≤◌, ◌<◌, ◌^◌, ◌≡◌, refl, ◌∙◌, some, List, length, arith,
}
use ga330_libretro.Common.Table.{find, find-assign}
use ga330_libretro.Machine.{word_mod, Memory, Machine, Cmd, ok, poke, u32_bytes}
use ga330_libretro.Machine.Access.{Mapped, SameOn}
use ga330_libretro.Minisys.Files.{fsys_fopen, fsys_fread}
use ga330_libretro.Minisys.Files.Handles.{
  HandleAt, HandleAt-frame, traced, fsys_fopen-HandleAt, fsys_fopen-null, fsys-HandleAt,
}
use ga330_libretro.Emu.Uc.{Unicorn}
use ga330_libretro.Emu.Action.{done}
use ga330_libretro.Emu.Host.{Host, System}
use ga330_libretro.Emu.Filesystem.{Streams, no_file}
use ga330_libretro.Emu.Filesystem.Handles.{IsSound, Opens, Refuses}
use ga330_libretro.Emu.Svc.{svc_fopen, svc_fread}
use ga330_libretro.Crossing.{Enter, entered, served_files}
use ga330_libretro.Crossing.Processor.{IsProcessor}
use ga330_libretro.Crossing.Transfers.{IsBuffer, svc_fread-served}
use ga330_libretro.Crossing.Open.{AreNames, svc_fopen-served, svc_fopen-refused}

module _ {U S W : Type 0} (uc : Unicorn U) (lib : Streams S W) (sys : System W)
    (enter : Enter U) where
  -- A read through the block of a handle of an open file.
  pub fsys_fread-block :
      (p fd buffer size count : ℕ) (s t : S) (w1 w2 : W) (bytes : List ℕ) (h1 : Host U S W)
      (m : Memory) (μ3 : Machine)
      → IsProcessor uc enter
      → find fd h1.files.0.open_files ≡ some s
      → h1.files.1 ≡ w1
      → HandleAt m p fd
      → p + 4 ≤ word_mod
      → SameOn p (p + 4) m μ3.mem
      → IsBuffer buffer size count
      → lib.read (size * count) s w1 ≡ (bytes, t, w2)
      → length bytes ≤ size * count
      → Mapped μ3.mem buffer (length bytes)
      → (h2 : Host U S W) × (svc_fread uc lib (entered uc enter h1 buffer size count fd μ3.mem)
          ≡ done tt h2)
        × (fsys_fread (served_files uc enter lib sys h1) buffer size count p μ3
            ≡ ok (length bytes / size) (record μ3 { mem = poke μ3.mem buffer bytes }))
        × (find fd h2.files.0.open_files ≡ some t)
        × (h2.files.1 ≡ w2)
  fsys_fread-block p fd buffer size count s t w1 w2 bytes h1 m μ3 is found world at_p top same area
        got short room =
      let at_p3 = HandleAt-frame m μ3.mem p fd same top at_p in
      let small : fd < word_mod = omega (arith, at_p.not_negative) in
      let (reads, writes, seeks, tells, closes) =
        fsys-HandleAt (served_files uc enter lib sys h1) p fd buffer size count 0 0 μ3 at_p3 in
      let (h2, ran2, files2, read) =
        svc_fread-served uc lib enter buffer size count fd s t w2 bytes h1 μ3 is found small area
          (rw world got) short room in
      (h2, ran2, reads ∙ read, rw files2 (find-assign fd t h1.files.0.open_files), rw files2 refl)

module _ {U S W : Type 0} (uc : Unicorn U) (lib : Streams S W) (sys : System W) (enter : Enter U)
    (malloc : ℕ → Cmd ℕ) where
  -- An application opens a file and reads from it, through minisys and the supervisor calls. The
  -- result of fsys_fopen is the address of a block that holds the emulator's next handle. Then,
  -- whatever happens to memory beside the block, fsys_fread leaves at the buffer the bytes that the
  -- file's stream gives, and changes no other memory; the result is the number of whole items. This
  -- is for a processor that passes registers and memory on, a file that the C++ library opens, an
  -- allocator that gives four bytes that are mapped, names shorter than 2 ^ 31 in memory, items of
  -- some bytes, a buffer that is mapped, as long as there are handles, and while the emulator's
  -- table has no handle in it that has not been given out, which the code does not check.
  pub fsys_fread-fsys_fopen_served :
      (path_at mode_at p : ℕ) (path mode : List ℕ) (s t : S) (w1 w2 : W) (h : Host U S W)
      (μ μ2 μ3 : Machine) (buffer size count : ℕ) (bytes : List ℕ)
      → IsProcessor uc enter
      → AreNames path_at mode_at path mode μ.mem
      → IsSound h.files.0
      → h.files.0.next_handle + 1 < 2 ^ 31
      → Opens lib h.files.1 path mode s w1
      → malloc 4 (traced μ) ≡ ok p μ2
      → Mapped μ2.mem p 4
      → p + 4 ≤ word_mod
      → SameOn p (p + 4) (poke μ2.mem p (u32_bytes h.files.0.next_handle)) μ3.mem
      → IsBuffer buffer size count
      → lib.read (size * count) s w1 ≡ (bytes, t, w2)
      → length bytes ≤ size * count
      → Mapped μ3.mem buffer (length bytes)
      → (h1 : Host U S W) × (svc_fopen uc lib (entered uc enter h path_at mode_at 0 0 μ.mem)
          ≡ done tt h1)
        × (fsys_fopen malloc (served_files uc enter lib sys h) path_at mode_at μ
            ≡ ok p (record μ2 { mem = poke μ2.mem p (u32_bytes h.files.0.next_handle) }))
        × (h2 : Host U S W) × (svc_fread uc lib
              (entered uc enter h1 buffer size count h.files.0.next_handle μ3.mem)
            ≡ done tt h2)
        × (fsys_fread (served_files uc enter lib sys h1) buffer size count p μ3
            ≡ ok (length bytes / size) (record μ3 { mem = poke μ3.mem buffer bytes }))
        × (find h.files.0.next_handle h2.files.0.open_files ≡ some t)
        × (h2.files.1 ≡ w2)
  fsys_fread-fsys_fopen_served path_at mode_at p path mode s t w1 w2 h μ μ2 μ3 buffer size count
        bytes is names sound handles opens allocated block top same area got short room =
      let fd = h.files.0.next_handle in
      let (h1, ran1, found, world, sound1, opened) =
        svc_fopen-served uc lib enter path_at mode_at path mode s w1 h (traced μ) is names sound
          handles opens in
      let emu = served_files uc enter lib sys h in
      let (made, at_p) =
        fsys_fopen-HandleAt malloc emu path_at mode_at fd μ (traced μ) p μ2 opened (omega arith)
          allocated block in
      let (h2, ran2, read, later, world2) =
        fsys_fread-block uc lib sys enter p fd buffer size count s t w1 w2 bytes h1
          (poke μ2.mem p (u32_bytes fd)) μ3 is found world at_p top same area got short room in
      (h1, ran1, made, h2, ran2, read, later, world2)

  -- A file that cannot be opened, or a mode that is neither of the two: the result of `fsys_fopen`
  -- is `NULL`, no memory is allocated or written to, and no handle is given out.
  pub fsys_fopen-null_served :
      (path_at mode_at : ℕ) (path mode : List ℕ) (w' : W) (h : Host U S W) (μ : Machine)
      → IsProcessor uc enter
      → AreNames path_at mode_at path mode μ.mem
      → Refuses lib h.files.1 path mode w'
      → (h' : Host U S W) × (svc_fopen uc lib (entered uc enter h path_at mode_at 0 0 μ.mem)
          ≡ done tt h')
        × (h'.files ≡ (h.files.0, w'))
        × (fsys_fopen malloc (served_files uc enter lib sys h) path_at mode_at μ ≡ ok 0 (traced μ))
  fsys_fopen-null_served path_at mode_at path mode w' h μ is names refuses =
      let (h', ran, files, refused) =
        svc_fopen-refused uc lib enter path_at mode_at path mode w' h (traced μ) is names refuses in
      (
        h',
        ran,
        files,
        fsys_fopen-null malloc (served_files uc enter lib sys h) path_at mode_at no_file μ
            (traced μ) refused (omega arith),
      )
