-- ===== src/Crossing/Transfers.antt =====
-- Reads and writes of a file that is open, as the ARM code sees them: the buffer is in its own
-- memory, and the stream is the emulator's.
use ga330_libretro.Common.{
  ℕ, ◌+◌, ◌*◌, ◌/◌, ◌≤◌, ◌<◌, ◌≡◌, ◌≢◌, refl, ◌∙◌, some, List, length, arith, inr, ◌==◌, false,
}
use native.Mathlib.Nat.{div-le_self, mul-div_cancel_left}
use ga330_libretro.Common.Table.{find}
use ga330_libretro.Machine.{word_mod, wrap, Machine, ok, poke}
use ga330_libretro.Machine.Access.{Holds, Mapped, read_bytes-Holds, poke-outside}
use ga330_libretro.Emu.Uc.{Unicorn, r0}
use ga330_libretro.Emu.Action.{done}
use ga330_libretro.Emu.Host.{Host, fetch}
use ga330_libretro.Emu.Filesystem.{Streams, read_file, write_file}
use ga330_libretro.Emu.Filesystem.Handles.{moved, at_file-find}
use ga330_libretro.Emu.Svc.{svc_fread, svc_fwrite}
use ga330_libretro.Crossing.{Enter, entered, served}
use ga330_libretro.Crossing.Processor.{IsProcessor, served-done, served-same}

-- A buffer for `count` items of some bytes lies in the address space.
pub record IsBuffer (buffer size count : ℕ) : Type 0 where
  pub not_empty : size ≢ 0
  pub size_fits : size < word_mod
  pub count_fits : count < word_mod
  pub fits : buffer + size * count < word_mod

module _ {U S W : Type 0} (uc : Unicorn U) (lib : Streams S W) (enter : Enter U) where
  -- The bytes that the stream gives are written to the buffer.
  pub svc_fread-served :
      (buffer size count fd : ℕ) (s t : S) (w' : W) (bytes : List ℕ) (h : Host U S W) (μ : Machine)
      → IsProcessor uc enter
      → find fd h.files.0.open_files ≡ some s
      → fd < word_mod
      → IsBuffer buffer size count
      → lib.read (size * count) s h.files.1 ≡ (bytes, t, w')
      → length bytes ≤ size * count
      → Mapped μ.mem buffer (length bytes)
      → (h' : Host U S W) × (svc_fread uc lib (entered uc enter h buffer size count fd μ.mem)
          ≡ done tt h')
        × (h'.files ≡ moved lib fd t w' h.files.0)
        × (served uc enter (svc_fread uc lib) h buffer size count fd μ
            ≡ ok (length bytes / size) (record μ { mem = poke μ.mem buffer bytes }))
  unfolding svc_fread read_file
  svc_fread-served buffer size count fd s t w' bytes h μ is found small area got short room =
      let bound = area.fits in
      let n : wrap (size * count) ≡ size * count = omega (arith, bound) in
      let got' : lib.read (wrap (size * count)) s h.files.1 ≡ (bytes, t, w') = rw n got in
      let top : buffer + length bytes ≤ word_mod = omega (arith, bound, short) in
      let args =
        is.registers buffer size count fd μ.mem (omega (arith, bound)) area.size_fits
          area.count_fits small in
      let u = enter buffer size count fd μ.mem in
      let (u', stored, here) =
        is.writes buffer bytes u μ.mem (is.memory buffer size count fd μ.mem) top room in
      let after = moved lib fd t w' h.files.0 in
      let h' : Host U S W = record h {
        engine = uc.reg_write r0 (length bytes / size) u';
        files = after;
      } in
      let ran : svc_fread uc lib (entered uc enter h buffer size count fd μ.mem) ≡ done tt h' =
        let test : (size == 0) ≡ false = ground (arith, area.not_empty) in
        rw
          (
            args.in_r0,
            args.in_r1,
            args.in_r2,
            args.in_r3,
            at_file-find lib fd _ h.files.0 h.files.1 w' s t bytes found got',
            stored,
            test,
          )
          refl in
      let items : length bytes / size < word_mod =
        omega (arith, bound, short, div-le_self (length bytes) size) in
      (
        h',
        ran,
        refl,
        served-done uc enter (svc_fread uc lib) h h' buffer size count fd (length bytes / size) u'
            (poke μ.mem buffer bytes) μ is.lawful ran refl items here
            λ x above. poke-outside μ.mem buffer bytes x top (inr (omega arith)),
      )

  -- The bytes of the buffer are given to the stream.
  pub svc_fwrite-served :
      (buffer size count fd : ℕ) (s t : S) (w' : W) (bytes : List ℕ) (h : Host U S W) (μ : Machine)
      → IsProcessor uc enter
      → find fd h.files.0.open_files ≡ some s
      → fd < word_mod
      → IsBuffer buffer size count
      → length bytes ≡ size * count
      → Holds μ.mem buffer bytes
      → lib.write bytes s h.files.1 ≡ (tt, t, w')
      → (h' : Host U S W) × (svc_fwrite uc lib (entered uc enter h buffer size count fd μ.mem)
          ≡ done tt h')
        × (h'.files ≡ moved lib fd t w' h.files.0)
        × (served uc enter (svc_fwrite uc lib) h buffer size count fd μ ≡ ok count μ)
  unfolding svc_fwrite write_file
  svc_fwrite-served buffer size count fd s t w' bytes h μ is found small area whole here did =
      let bound = area.fits in
      let args =
        is.registers buffer size count fd μ.mem (omega (arith, bound)) area.size_fits
          area.count_fits small in
      let u = enter buffer size count fd μ.mem in
      let n : wrap (size * count) ≡ length bytes = rw whole (omega (arith, bound)) in
      let taken : uc.mem_read buffer (length bytes) u ≡ some bytes =
        is.memory buffer size count fd μ.mem buffer (length bytes) (omega (arith, bound, whole))
        ∙ read_bytes-Holds μ.mem buffer bytes here in
      let items : length bytes / size ≡ count =
        rw whole (mul-div_cancel_left count (omega (arith, area.not_empty))) in
      let h' : Host U S W = record h {
        engine = uc.reg_write r0 count u;
        files = moved lib fd t w' h.files.0;
      } in
      let ran : svc_fwrite uc lib (entered uc enter h buffer size count fd μ.mem) ≡ done tt h' =
        let test : (size == 0) ≡ false = ground (arith, area.not_empty) in
        rw
          (
            args.in_r0,
            args.in_r1,
            args.in_r2,
            args.in_r3,
            n,
            fetch,
            taken,
            at_file-find lib fd _ h.files.0 h.files.1 w' s t tt found did,
            items,
            test,
          )
          refl in
      (
        h',
        ran,
        refl,
        served-same uc enter (svc_fwrite uc lib) h h' buffer size count fd count μ is ran refl
            area.count_fits,
      )
