-- ===== src/Emu/Svc/Session.antt =====
-- An application that opens a file and reads from it, by supervisor calls.
use ga330_libretro.Common.{
  ℕ, ◌+◌, ◌*◌, ◌/◌, ◌<◌, ◌^◌, ◌≡◌, ◌≢◌, refl, ◌∙◌, some, List, ◌∷◌, length, arith,
}
use ga330_libretro.Common.Table.{find}
use ga330_libretro.Machine.{wrap}
use ga330_libretro.Emu.Uc.{Unicorn, IsLawful, r0, r1, r2, r3}
use ga330_libretro.Emu.Action.{done}
use ga330_libretro.Emu.Host.{opening, Host}
use ga330_libretro.Emu.Filesystem.{Streams, Filesystem, at_file, read_file}
use ga330_libretro.Emu.Filesystem.Handles.{IsSound, Opens, open_file-find}
use ga330_libretro.Emu.Svc.{svc_fopen, svc_fread}
use ga330_libretro.Emu.Svc.Files.{Text, svc_fopen-Text, svc_fread-read_file}

module _ {U S W : Type 0} (uc : Unicorn U) (lib : Streams S W) where
  -- A read through a handle that stands in the table is a read of its stream.
  read_file-find :
      (handle size : ℕ) (fs : Filesystem S) (w w' : W) (s t : S) (bytes : List ℕ)
      → find handle fs.open_files ≡ some s
      → lib.read size s w ≡ (bytes, t, w')
      → (fs' : Filesystem S) × (read_file lib handle size (fs, w) ≡ (bytes, (fs', w')))
  unfolding read_file at_file
  read_file-find handle size fs w w' s t bytes found got =
      ((read_file lib handle size (fs, w)).1.0, rw (found, got) refl)

  -- A file is opened by the path and the mode that stand in the guest's memory, and then, with the
  -- engine in any state `u`, read through the handle that the first call returned. The handle is
  -- in `r0` after the first call. After the second one the bytes that the stream gives are at the
  -- address that was in `r0`, and the number of whole items is in `r0`; for strings shorter than
  -- 2 ^ 31, items of some bytes, memory that can be written to, and as long as there are handles.
  pub svc_fread-svc_fopen :
      (path mode bytes : List ℕ) (s t : S) (w1 w2 : W) (h : Host U S W) (u u' : U)
      → IsLawful uc
      → IsSound h.files.0
      → h.files.0.next_handle + 1 < 2 ^ 31
      → length path < 2 ^ 31
      → length mode < 2 ^ 31
      → Text uc h.engine (uc.reg_read r0 h.engine) 0 path
      → Text uc h.engine (uc.reg_read r1 h.engine) 0 mode
      → Opens lib h.files.1 path mode s w1
      → uc.reg_read r1 u ≢ 0
      → uc.reg_read r3 u ≡ h.files.0.next_handle
      → lib.read (wrap (uc.reg_read r1 u * uc.reg_read r2 u)) s w1 ≡ (bytes, t, w2)
      → length bytes < 2 ^ 32
      → uc.mem_write (uc.reg_read r0 u) bytes u ≡ (0, u')
      → (h1 : Host U S W) × (svc_fopen uc lib h ≡ done tt h1)
        × (uc.reg_read r0 h1.engine ≡ h.files.0.next_handle)
        × (h2 : Host U S W) × (svc_fread uc lib (record h1 { engine = u }) ≡ done tt h2)
        × (uc.mem_read (uc.reg_read r0 u) (length bytes) h2.engine ≡ some bytes)
        × (uc.reg_read r0 h2.engine ≡ length bytes / uc.reg_read r1 u)
  svc_fread-svc_fopen path mode bytes s t w1 w2 h u u' law sound room short_path short_mode at_path
        at_mode opens ne same got short stored =
      let (fs1, opened, free, found, others, next, sound1) =
        open_file-find lib h.files.0 h.files.1 w1 path mode s sound room opens in
      let h1 : Host U S W = record {
        engine = uc.reg_write r0 h.files.0.next_handle h.engine;
        files = (fs1, w1);
        out = opening path mode ∷ h.out;
      } in
      let (fs2, read) =
        read_file-find h.files.0.next_handle (wrap (uc.reg_read r1 u * uc.reg_read r2 u)) fs1 w1 w2
          s t bytes found got in
      let (u2, ran, in_memory, items) =
        svc_fread-read_file uc lib bytes (fs2, w2) u' (record h1 { engine = u }) law ne
          (rw same read) short stored in
      (
        h1,
        svc_fopen-Text uc lib path mode h short_path short_mode at_path at_mode ∙ (rw opened refl),
        law.reg_same r0 h.files.0.next_handle h.engine (omega arith),
        record h1 { engine = u2; files = (fs2, w2) },
        ran,
        in_memory,
        items,
      )
