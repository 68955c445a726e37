-- ===== src/Minisys/Files/Handles.antt =====
-- The block behind the address that `fsys_fopen` returns, and the other file functions on it.
use ga330_libretro.Common.{ℕ, ◌+◌, ◌^◌, ◌≤◌, ◌<◌, ◌≡◌, refl, arith, ◌∷◌}
use ga330_libretro.Machine.{Memory, Machine, word_mod, ok, Cmd, poke, u32_bytes, diag}
use ga330_libretro.Machine.Access.{Mapped, SameOn, Holds-frame}
use ga330_libretro.Machine.Words.{HoldsWord, HoldsWord-poke, load32-HoldsWord, store32-Mapped}
use ga330_libretro.Host.{ccos_diag}
use ga330_libretro.Minisys.Files.{
  EmuFiles, wrap_fd, fsys_fopen, fsys_fopen_w, fsys_fclose, fsys_fread, fsys_fseek, fsys_ftell,
  fsys_fwrite,
}

-- At `p` stands a handle that `fsys_fopen` can have made.
pub record HandleAt (m : Memory) (p fd : ℕ) : Type 0 where
  pub word : HoldsWord m p fd
  pub not_negative : fd < 2 ^ 31

wrap_fd-poke :
    (malloc : ℕ → Cmd ℕ) (fd p : ℕ) (μ μ' : Machine)
    → fd < 2 ^ 31
    → malloc 4 μ ≡ ok p μ'
    → Mapped μ'.mem p 4
    → wrap_fd malloc fd μ ≡ ok p (record μ' { mem = poke μ'.mem p (u32_bytes fd) })
unfolding wrap_fd
wrap_fd-poke malloc fd p μ μ' small allocated room = ground (arith, store32-Mapped p fd μ' room)

wrap_fd-null :
    (malloc : ℕ → Cmd ℕ) (fd : ℕ) (μ : Machine) → 2 ^ 31 ≤ fd → wrap_fd malloc fd μ ≡ ok 0 μ
unfolding wrap_fd
wrap_fd-null malloc fd μ negative = ground arith

-- With the trace that `fsys_fopen` prints.
abbrev pub traced : Machine → Machine
traced μ = record μ { log = diag "STUB fsys_fopen" 107 ∷ μ.log }

module _ (malloc : ℕ → Cmd ℕ) (emu : EmuFiles) (path mode fd : ℕ) (μ μ1 : Machine) where
  -- When the emulator opens the file, the result is the address of a block with its handle.
  pub fsys_fopen-HandleAt :
      (p : ℕ) (μ2 : Machine)
      → emu.fopen path mode (traced μ) ≡ ok fd μ1
      → fd < 2 ^ 31
      → malloc 4 μ1 ≡ ok p μ2
      → Mapped μ2.mem p 4
      → (fsys_fopen malloc emu path mode μ
          ≡ ok p (record μ2 { mem = poke μ2.mem p (u32_bytes fd) }))
        × HandleAt (poke μ2.mem p (u32_bytes fd)) p fd
  unfolding fsys_fopen ccos_diag
  fsys_fopen-HandleAt p μ2 opened small allocated room = (
    rw opened (wrap_fd-poke malloc fd p μ1 μ2 small allocated room),
    record { word = HoldsWord-poke μ2.mem p fd; not_negative = small },
  )

  -- When the emulator refuses, the result is `NULL` and no memory is allocated.
  pub fsys_fopen-null :
      emu.fopen path mode (traced μ) ≡ ok fd μ1
      → 2 ^ 31 ≤ fd
      → fsys_fopen malloc emu path mode μ ≡ ok 0 μ1
  unfolding fsys_fopen ccos_diag
  fsys_fopen-null refused negative = rw refused (wrap_fd-null malloc fd μ1 negative)

abbrev pub traced_wide : Machine → Machine
traced_wide μ = record μ { log = diag "STUB fsys_fopenW" 122 ∷ μ.log }

-- The same for the wide name.
pub fsys_fopen_w-HandleAt :
    (malloc : ℕ → Cmd ℕ) (emu : EmuFiles) (path mode fd p : ℕ) (μ μ1 μ2 : Machine)
    → emu.fopen_w path mode (traced_wide μ) ≡ ok fd μ1
    → fd < 2 ^ 31
    → malloc 4 μ1 ≡ ok p μ2
    → Mapped μ2.mem p 4
    → (fsys_fopen_w malloc emu path mode μ
        ≡ ok p (record μ2 { mem = poke μ2.mem p (u32_bytes fd) }))
      × HandleAt (poke μ2.mem p (u32_bytes fd)) p fd
unfolding fsys_fopen_w ccos_diag
fsys_fopen_w-HandleAt malloc emu path mode fd p μ μ1 μ2 opened small allocated room = (
  rw opened (wrap_fd-poke malloc fd p μ1 μ2 small allocated room),
  record { word = HoldsWord-poke μ2.mem p fd; not_negative = small },
)

-- Each file function hands the emulator the handle that stands at its argument.
pub fsys-HandleAt :
    (emu : EmuFiles) (p fd buffer size count offset whence : ℕ) (μ : Machine)
    → HandleAt μ.mem p fd
    → (fsys_fread emu buffer size count p μ ≡ emu.fread buffer size count fd μ)
      × (fsys_fwrite emu buffer size count p μ ≡ emu.fwrite buffer size count fd μ)
      × (fsys_fseek emu p offset whence μ ≡ emu.fseek fd offset whence μ)
      × (fsys_ftell emu p μ ≡ emu.ftell fd μ)
      × (fsys_fclose emu p μ ≡ emu.fclose fd μ)
unfolding fsys_fread fsys_fwrite fsys_fseek fsys_ftell fsys_fclose
fsys-HandleAt emu p fd buffer size count offset whence μ h =
    let found = load32-HoldsWord p fd μ h.word (omega (arith, h.not_negative)) in
    (rw found refl, rw found refl, rw found refl, rw found refl, rw found refl)

pub HandleAt-frame :
    (m m' : Memory) (p fd : ℕ)
    → SameOn p (p + 4) m m'
    → p + 4 ≤ word_mod
    → HandleAt m p fd
    → HandleAt m' p fd
HandleAt-frame m m' p fd same top h = record {
  word = Holds-frame m m' p p (p + 4) (u32_bytes fd) same (omega arith) (omega arith) top h.word;
  not_negative = h.not_negative;
}

-- An application opens a file, and the emulator gives it a handle: the result is the address of a
-- block that holds the handle, and no other memory is written to. From then on, whatever happens
-- to memory beside the block, each of the file functions that is given this address is the
-- emulator's function on the handle.
pub fsys_fread-fsys_fopen :
    (malloc : ℕ → Cmd ℕ) (emu : EmuFiles) (path mode fd p : ℕ) (μ μ1 μ2 μ3 : Machine)
    (buffer size count offset whence : ℕ)
    → emu.fopen path mode (traced μ) ≡ ok fd μ1
    → fd < 2 ^ 31
    → malloc 4 μ1 ≡ ok p μ2
    → Mapped μ2.mem p 4
    → p + 4 ≤ word_mod
    → SameOn p (p + 4) (poke μ2.mem p (u32_bytes fd)) μ3.mem
    → (fsys_fopen malloc emu path mode μ ≡ ok p (record μ2 { mem = poke μ2.mem p (u32_bytes fd) }))
      × (fsys_fread emu buffer size count p μ3 ≡ emu.fread buffer size count fd μ3)
      × (fsys_fwrite emu buffer size count p μ3 ≡ emu.fwrite buffer size count fd μ3)
      × (fsys_fseek emu p offset whence μ3 ≡ emu.fseek fd offset whence μ3)
      × (fsys_ftell emu p μ3 ≡ emu.ftell fd μ3)
      × (fsys_fclose emu p μ3 ≡ emu.fclose fd μ3)
fsys_fread-fsys_fopen malloc emu path mode fd p μ μ1 μ2 μ3 buffer size count offset whence opened
      small allocated room top same =
    let (ran, at_p) =
      fsys_fopen-HandleAt malloc emu path mode fd μ μ1 p μ2 opened small allocated room in
    let at_p3 = HandleAt-frame (poke μ2.mem p (u32_bytes fd)) μ3.mem p fd same top at_p in
    let (reads, writes, seeks, tells, closes) =
      fsys-HandleAt emu p fd buffer size count offset whence μ3 at_p3 in
    (ran, reads, writes, seeks, tells, closes)
