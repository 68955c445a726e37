-- ===== src/Crossing/SaveAndLoad.antt =====
-- An application that has a file open writes to it, goes back, reads, and closes it, by the functions
-- of minisys/minisys.c with the handlers of src/api.cpp behind them.
use ga330_libretro.Common.{
  ℕ, ◌+◌, ◌*◌, ◌/◌, ◌≤◌, ◌<◌, ◌≡◌, refl, ◌∙◌, some, none, List, length, arith,
}
use ga330_libretro.Common.Table.{find, find-assign}
use ga330_libretro.Machine.{word_mod, Machine, ok, poke}
use ga330_libretro.Machine.Access.{Holds, Mapped, SameOn}
use ga330_libretro.Machine.Frame.{Apart, SameOn-poke}
use ga330_libretro.Minisys.Files.{fsys_fread, fsys_fwrite, fsys_fseek, fsys_ftell, fsys_fclose}
use ga330_libretro.Minisys.Files.Handles.{HandleAt, HandleAt-frame, fsys-HandleAt}
use ga330_libretro.Emu.Uc.{Unicorn}
use ga330_libretro.Emu.Action.{done}
use ga330_libretro.Emu.Host.{Host, System}
use ga330_libretro.Emu.Filesystem.{Streams, Filesystem, seek_both, origin_of}
use ga330_libretro.Emu.Filesystem.Handles.{moved}
use ga330_libretro.Emu.Svc.{svc_fread, svc_fwrite, svc_fseek, svc_ftell, svc_fclose}
use ga330_libretro.Crossing.{Enter, entered, served_files}
use ga330_libretro.Crossing.Processor.{IsProcessor}
use ga330_libretro.Crossing.Transfers.{IsBuffer, svc_fread-served, svc_fwrite-served}
use ga330_libretro.Crossing.Handlers.{svc_fseek-served, svc_ftell-served, svc_fclose-served}

module _ {S W : Type 0} (lib : Streams S W) where
  -- The streams of a file that is written to, asked for its position, moved, and read.
  pub record Goes (size : ℕ) (offset whence : ℕ) (s0 : S) (w0 : W) (bytes : List ℕ) (pos : ℕ)
      (back : List ℕ) (s4 : S) (w4 w5 : W) : Type 0 where
    pub s1 : S
    pub s2 : S
    pub s3 : S
    pub s5 : S
    pub w1 : W
    pub w2 : W
    pub w3 : W
    pub written : lib.write bytes s0 w0 ≡ (tt, s1, w1)
    pub told : lib.tellg s1 w1 ≡ (pos, s2, w2)
    pub sought : seek_both lib offset (origin_of lib whence) s2 w2 ≡ (tt, s3, w3)
    pub read : lib.read size s3 w3 ≡ (back, s4, w4)
    pub closed : lib.close s4 w4 ≡ (tt, s5, w5)

module _ {U S W : Type 0} (uc : Unicorn U) (lib : Streams S W) (sys : System W)
    (enter : Enter U) where
  -- The stream behind a handle after a call, and the world.
  found-moved :
      (fd : ℕ) (t : S) (w : W) (fs : Filesystem S) (h : Host U S W)
      → h.files ≡ moved lib fd t w fs
      → (find fd h.files.0.open_files ≡ some t) × (h.files.1 ≡ w)
  found-moved fd t w fs h e = (rw e (find-assign fd t fs.open_files), rw e refl)

  -- The write, the position, and the move.
  saves :
      (p fd buffer size count offset whence pos : ℕ) (s0 s4 : S) (w4 w5 : W) (bytes got : List ℕ)
      (h : Host U S W) (μ : Machine)
      → IsProcessor uc enter
      → HandleAt μ.mem p fd
      → find fd h.files.0.open_files ≡ some s0
      → (goes : Goes lib (size * count) offset whence s0 h.files.1 bytes pos got s4 w4 w5)
      → IsBuffer buffer size count
      → Holds μ.mem buffer bytes
      → length bytes ≡ size * count
      → pos < word_mod
      → offset < word_mod
      → whence < word_mod
      → (let call = served_files uc enter lib sys in
          (h1 : Host U S W) × (svc_fwrite uc lib (entered uc enter h buffer size count fd μ.mem)
            ≡ done tt h1)
          × (fsys_fwrite (call h) buffer size count p μ ≡ ok count μ)
          × (h2 : Host U S W) × (svc_ftell uc lib (entered uc enter h1 fd 0 0 0 μ.mem) ≡ done tt h2)
          × (fsys_ftell (call h1) p μ ≡ ok pos μ)
          × (h3 : Host U S W) × (svc_fseek uc lib (entered uc enter h2 fd offset whence 0 μ.mem)
              ≡ done tt h3)
          × (fsys_fseek (call h2) p offset whence μ ≡ ok 0 μ)
          × (find fd h3.files.0.open_files ≡ some goes.s3)
          × (h3.files.1 ≡ goes.w3))
  saves p fd buffer size count offset whence pos s0 s4 w4 w5 bytes got h μ is at_p found goes area
        here whole pos_fits offset_fits whence_fits =
      let small : fd < word_mod = omega (arith, at_p.not_negative) in
      let handles = λ (k : Host U S W).
        fsys-HandleAt (served_files uc enter lib sys k) p fd buffer size count offset whence μ
          at_p in
      let (h1, ran1, files1, wrote) =
        svc_fwrite-served uc lib enter buffer size count fd s0 goes.s1 goes.w1 bytes h μ is found
          small area whole here goes.written in
      let (found1, world1) = found-moved fd goes.s1 goes.w1 h.files.0 h1 files1 in
      let (h2, ran2, files2, told) =
        svc_ftell-served uc lib enter fd pos goes.s1 goes.s2 goes.w2 h1 μ is found1 small
          (rw world1 goes.told) pos_fits in
      let (found2, world2) = found-moved fd goes.s2 goes.w2 h1.files.0 h2 files2 in
      let (h3, ran3, files3, sought) =
        svc_fseek-served uc lib enter fd offset whence goes.s2 goes.s3 goes.w3 h2 μ is found2 small
          offset_fits whence_fits (rw world2 goes.sought) in
      let (found3, world3) = found-moved fd goes.s3 goes.w3 h2.files.0 h3 files3 in
      let told_all = (handles h1).3 ∙ told in
      let sought_all = (handles h2).2 ∙ sought in
      (h1, ran1, (handles h).1 ∙ wrote, h2, ran2, told_all, h3, ran3, sought_all, found3, world3)

  -- The read, and the end.
  loads :
      (p fd back size count : ℕ) (s3 s4 s5 : S) (w4 w5 : W) (got : List ℕ) (h3 : Host U S W)
      (μ : Machine)
      → IsProcessor uc enter
      → HandleAt μ.mem p fd
      → p + 4 ≤ word_mod
      → find fd h3.files.0.open_files ≡ some s3
      → lib.read (size * count) s3 h3.files.1 ≡ (got, s4, w4)
      → lib.close s4 w4 ≡ (tt, s5, w5)
      → IsBuffer back size count
      → length got ≤ size * count
      → Mapped μ.mem back (length got)
      → Apart back (length got) p 4
      → (let call = served_files uc enter lib sys in
          let later : Machine = record μ { mem = poke μ.mem back got } in
          (h4 : Host U S W) × (svc_fread uc lib (entered uc enter h3 back size count fd μ.mem)
            ≡ done tt h4)
          × (fsys_fread (call h3) back size count p μ ≡ ok (length got / size) later)
          × (h5 : Host U S W) × (svc_fclose uc lib (entered uc enter h4 fd 0 0 0 later.mem)
              ≡ done tt h5)
          × (fsys_fclose (call h4) p later ≡ ok tt later)
          × (find fd h5.files.0.open_files ≡ none)
          × (h5.files.1 ≡ w5))
  loads p fd back size count s3 s4 s5 w4 w5 got h3 μ is at_p top found read closed area short room
        apart =
      let small : fd < word_mod = omega (arith, at_p.not_negative) in
      let call = served_files uc enter lib sys in
      let later : Machine = record μ { mem = poke μ.mem back got } in
      let fits : back + length got ≤ word_mod = omega (arith, area.fits, short) in
      let same : SameOn p (p + 4) μ.mem later.mem =
        SameOn-poke p (p + 4) μ.mem back got fits apart in
      let at_later = HandleAt-frame μ.mem later.mem p fd same top at_p in
      let (h4, ran4, files4, result) =
        svc_fread-served uc lib enter back size count fd s3 s4 w4 got h3 μ is found small area read
          short room in
      let (found4, world4) = found-moved fd s4 w4 h3.files.0 h4 files4 in
      let (h5, ran5, gone, world5, end) =
        svc_fclose-served uc lib enter fd s4 s5 w5 h4 later is found4 small (rw world4 closed) in
      (
        h4,
        ran4,
        (fsys-HandleAt (call h3) p fd back size count 0 0 μ at_p).0 ∙ result,
        h5,
        ran5,
        (fsys-HandleAt (call h4) p fd back size count 0 0 later at_later).4 ∙ end,
        gone,
        world5,
      )

  -- An application writes a buffer to an open file, asks for the position, moves it, reads to another
  -- buffer, and closes the file. Then the file's stream is given the bytes that are in the first
  -- buffer, the position that it gives is the second result, what is read from it is in the second
  -- buffer, and the file's handle is in the emulator's table no longer. No other memory changes, and the
  -- write and the read return the numbers of items. This is for items of some bytes, buffers in
  -- memory of which the second is mapped and apart from the handle's block.
  pub fsys_fclose-fsys_fwrite_served :
      (p fd buffer back size count offset whence pos : ℕ) (s0 s4 : S) (w4 w5 : W)
      (bytes got : List ℕ) (h : Host U S W) (μ : Machine)
      → IsProcessor uc enter
      → HandleAt μ.mem p fd
      → p + 4 ≤ word_mod
      → find fd h.files.0.open_files ≡ some s0
      → Goes lib (size * count) offset whence s0 h.files.1 bytes pos got s4 w4 w5
      → IsBuffer buffer size count
      → Holds μ.mem buffer bytes
      → length bytes ≡ size * count
      → pos < word_mod
      → offset < word_mod
      → whence < word_mod
      → IsBuffer back size count
      → length got ≤ size * count
      → Mapped μ.mem back (length got)
      → Apart back (length got) p 4
      → (let call = served_files uc enter lib sys in
          let later : Machine = record μ { mem = poke μ.mem back got } in
          (h1 : Host U S W) × (svc_fwrite uc lib (entered uc enter h buffer size count fd μ.mem)
            ≡ done tt h1)
          × (fsys_fwrite (call h) buffer size count p μ ≡ ok count μ)
          × (h2 : Host U S W) × (svc_ftell uc lib (entered uc enter h1 fd 0 0 0 μ.mem) ≡ done tt h2)
          × (fsys_ftell (call h1) p μ ≡ ok pos μ)
          × (h3 : Host U S W) × (svc_fseek uc lib (entered uc enter h2 fd offset whence 0 μ.mem)
              ≡ done tt h3)
          × (fsys_fseek (call h2) p offset whence μ ≡ ok 0 μ)
          × (h4 : Host U S W) × (svc_fread uc lib (entered uc enter h3 back size count fd μ.mem)
              ≡ done tt h4)
          × (fsys_fread (call h3) back size count p μ ≡ ok (length got / size) later)
          × (h5 : Host U S W) × (svc_fclose uc lib (entered uc enter h4 fd 0 0 0 later.mem)
              ≡ done tt h5)
          × (fsys_fclose (call h4) p later ≡ ok tt later)
          × (find fd h5.files.0.open_files ≡ none)
          × (h5.files.1 ≡ w5))
  fsys_fclose-fsys_fwrite_served p fd buffer back size count offset whence pos s0 s4 w4 w5 bytes got
        h μ is at_p top found goes area here whole pos_fits offset_fits whence_fits area' short room
        apart =
      let (h1, ran1, wrote, h2, ran2, told, h3, ran3, sought, found3, world3) =
        saves p fd buffer size count offset whence pos s0 s4 w4 w5 bytes got h μ is at_p found goes
          area here whole pos_fits offset_fits whence_fits in
      let (h4, ran4, result, h5, ran5, end, gone, world5) =
        loads p fd back size count goes.s3 s4 goes.s5 w4 w5 got h3 μ is at_p top found3
          (rw world3 goes.read) goes.closed area' short room apart in
      (
        h1, ran1, wrote, h2, ran2, told, h3, ran3, sought, h4, ran4, result, h5, ran5, end, gone,
        world5,
      )
