-- ===== src/Crossing/Handlers.antt =====
-- The position, the move and the end of a file that is open, as the ARM code sees them: arguments,
-- result and memory are its own, and the stream is the emulator's.
use ga330_libretro.Common.{ℕ, ◌<◌, ◌≡◌, refl, ap, some, none, arith}
use ga330_libretro.Common.Table.{find, find-erase, erase}
use ga330_libretro.Machine.{word_mod, wrap, Machine, ok, Run, and_then, ◌>>=◌, pure}
use ga330_libretro.Emu.Uc.{Unicorn, r0}
use ga330_libretro.Emu.Action.{done}
use ga330_libretro.Emu.Host.{Host}
use ga330_libretro.Emu.Filesystem.{Streams, tell_file, seek_file, close_file, seek_both, origin_of}
use ga330_libretro.Emu.Filesystem.Handles.{moved, at_file-find}
use ga330_libretro.Emu.Svc.{svc_ftell, svc_fseek, svc_fclose}
use ga330_libretro.Crossing.{Enter, entered, served}
use ga330_libretro.Crossing.Processor.{IsProcessor, served-same}

module _ {U S W : Type 0} (uc : Unicorn U) (lib : Streams S W) (enter : Enter U) where
  pub svc_fseek-served :
      (fd offset whence : ℕ) (s t : S) (w' : W) (h : Host U S W) (μ : Machine)
      → IsProcessor uc enter
      → find fd h.files.0.open_files ≡ some s
      → fd < word_mod
      → offset < word_mod
      → whence < word_mod
      → seek_both lib offset (origin_of lib whence) s h.files.1 ≡ (tt, t, w')
      → (h' : Host U S W) × (svc_fseek uc lib (entered uc enter h fd offset whence 0 μ.mem)
          ≡ done tt h')
        × (h'.files ≡ moved lib fd t w' h.files.0)
        × (served uc enter (svc_fseek uc lib) h fd offset whence 0 μ ≡ ok 0 μ)
  unfolding svc_fseek seek_file
  svc_fseek-served fd offset whence s t w' h μ is found small offset_fits whence_fits did =
      let args =
        is.registers fd offset whence 0 μ.mem small offset_fits whence_fits (omega arith) in
      let u = enter fd offset whence 0 μ.mem in
      let h' : Host U S W = record h {
        engine = uc.reg_write r0 0 u;
        files = moved lib fd t w' h.files.0;
      } in
      let ran : svc_fseek uc lib (entered uc enter h fd offset whence 0 μ.mem) ≡ done tt h' =
        rw
          (
            args.in_r0,
            args.in_r1,
            args.in_r2,
            seek_file,
            at_file-find lib fd (seek_both lib offset (origin_of lib whence)) h.files.0 h.files.1 w'
                s t tt found did,
          )
          refl in
      (
        h',
        ran,
        refl,
        served-same uc enter (svc_fseek uc lib) h h' fd offset whence 0 0 μ is ran refl
            (omega arith),
      )

  pub svc_ftell-served :
      (fd pos : ℕ) (s t : S) (w' : W) (h : Host U S W) (μ : Machine)
      → IsProcessor uc enter
      → find fd h.files.0.open_files ≡ some s
      → fd < word_mod
      → lib.tellg s h.files.1 ≡ (pos, t, w')
      → pos < word_mod
      → (h' : Host U S W) × (svc_ftell uc lib (entered uc enter h fd 0 0 0 μ.mem) ≡ done tt h')
        × (h'.files ≡ moved lib fd t w' h.files.0)
        × (served uc enter (svc_ftell uc lib) h fd 0 0 0 μ ≡ ok pos μ)
  unfolding svc_ftell tell_file
  svc_ftell-served fd pos s t w' h μ is found small did pos_fits =
      let args = is.registers fd 0 0 0 μ.mem small (omega arith) (omega arith) (omega arith) in
      let u = enter fd 0 0 0 μ.mem in
      let whole : wrap pos ≡ pos = omega (arith, pos_fits) in
      let h' : Host U S W = record h {
        engine = uc.reg_write r0 pos u;
        files = moved lib fd t w' h.files.0;
      } in
      let ran : svc_ftell uc lib (entered uc enter h fd 0 0 0 μ.mem) ≡ done tt h' =
        rw
          (
            args.in_r0,
            at_file-find lib fd lib.tellg h.files.0 h.files.1 w' s t pos found did,
            whole,
          )
          refl in
      (
        h',
        ran,
        refl,
        served-same uc enter (svc_ftell uc lib) h h' fd 0 0 0 pos μ is ran refl pos_fits,
      )

  -- After the call the handle is in the table no longer.
  pub svc_fclose-served :
      (fd : ℕ) (s t : S) (w' : W) (h : Host U S W) (μ : Machine)
      → IsProcessor uc enter
      → find fd h.files.0.open_files ≡ some s
      → fd < word_mod
      → lib.close s h.files.1 ≡ (tt, t, w')
      → (h' : Host U S W) × (svc_fclose uc lib (entered uc enter h fd 0 0 0 μ.mem) ≡ done tt h')
        × (find fd h'.files.0.open_files ≡ none)
        × (h'.files.1 ≡ w')
        × ((served uc enter (svc_fclose uc lib) h fd 0 0 0 >>= λ r. pure (tt {0})) μ
            ≡ ok (tt {0}) μ)
  unfolding svc_fclose close_file
  svc_fclose-served fd s t w' h μ is found small did =
      let args = is.registers fd 0 0 0 μ.mem small (omega arith) (omega arith) (omega arith) in
      let u = enter fd 0 0 0 μ.mem in
      let fs = (moved lib fd t w' h.files.0).0 in
      let h' : Host U S W = record h {
        engine = uc.reg_write r0 0 u;
        files = (record fs { open_files = erase fd fs.open_files }, w');
      } in
      let ran : svc_fclose uc lib (entered uc enter h fd 0 0 0 μ.mem) ≡ done tt h' =
        rw (args.in_r0, at_file-find lib fd _ h.files.0 h.files.1 w' s t tt found did) refl in
      (
        h',
        ran,
        find-erase fd fs.open_files,
        refl,
        ap (λ (r : Run ℕ). and_then r (λ x. pure (tt {0})))
            (served-same uc enter (svc_fclose uc lib) h h' fd 0 0 0 0 μ is ran refl (omega arith)),
      )
