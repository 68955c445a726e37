-- ===== src/Crossing/Wide.antt =====
-- `fsys_fopenW` of minisys/minisys.c, with `Svc_GemeiEmu_fopenW` of src/api.cpp behind it.
use ga330_libretro.Common.{
  ℕ, ◌+◌, ◌*◌, ◌/◌, ◌≤◌, ◌<◌, ◌^◌, ◌≡◌, ◌≢◌, refl, ◌∙◌, some, List, [], ◌∷◌, length, arith,
}
use ga330_libretro.Common.Table.{find}
use ga330_libretro.Machine.{word_mod, Memory, wrap, Machine, Cmd, ok, poke, u32_bytes}
use ga330_libretro.Machine.Access.{Holds, Mapped, SameOn, read_bytes-Holds}
use ga330_libretro.Libc.Strings.{CString}
use ga330_libretro.Minisys.Files.{fsys_fopen_w, fsys_fread}
use ga330_libretro.Minisys.Files.Handles.{traced_wide, fsys_fopen_w-HandleAt}
use ga330_libretro.Emu.Uc.{Unicorn, r0, r1}
use ga330_libretro.Emu.Action.{done}
use ga330_libretro.Emu.Host.{opening_wide, Host, System}
use ga330_libretro.Emu.Filesystem.{Streams, open_file}
use ga330_libretro.Emu.Filesystem.Handles.{IsSound, Opens, open_file-find}
use ga330_libretro.Emu.Svc.{svc_fopen_w, svc_fread}
use ga330_libretro.Emu.Svc.Files.{Text}
use ga330_libretro.Emu.Svc.Wide.{unit_bytes, WideText, svc_fopen_w-WideText}
use ga330_libretro.Crossing.{Enter, entered, served, served_files}
use ga330_libretro.Crossing.Processor.{IsMemory, IsProcessor, served-same, Text-CString}
use ga330_libretro.Crossing.Transfers.{IsBuffer}
use ga330_libretro.Crossing.Files.{fsys_fread-block}

-- From index `i` on, at `addr`, stand the units `s`, none of them 0, and then a 0.
abbrev pub WideAt : Memory → ℕ → ℕ → List ℕ → Type 0
WideAt m addr i [] = Holds m (addr + i * 2) (unit_bytes 0)
WideAt m addr i (c ∷ cs) =
    Holds m (addr + i * 2) (unit_bytes c) × (c ≢ 0) × WideAt m addr (i + 1) cs

-- The path is a wide string in memory, and the mode a string, shorter than the emulator's loops can
-- count.
pub record AreWideNames (path_at mode_at : ℕ) (path mode : List ℕ) (m : Memory) : Type 0 where
  pub path_fits : path_at + 2 * length path + 2 ≤ word_mod
  pub mode_fits : mode_at < word_mod
  pub short_path : length path < 2 ^ 30
  pub short_mode : length mode < 2 ^ 31
  pub path_there : WideAt m path_at 0 path
  pub mode_there : CString m mode_at mode

module _ {U : Type 0} (uc : Unicorn U) (u : U) (m : Memory) (here : IsMemory uc u m) where
  mem_read-unit :
      (a c : ℕ)
      → a + 2 ≤ word_mod
      → Holds m a (unit_bytes c)
      → uc.mem_read (wrap a) 2 u ≡ some (unit_bytes c)
  mem_read-unit a c fits there =
      let reduced : wrap a ≡ a = omega arith in
      rw reduced (here a 2 fits ∙ read_bytes-Holds m a (unit_bytes c) there)

  WideText-WideAt :
      (addr i : ℕ) (s : List ℕ)
      → addr + i * 2 + 2 * length s + 2 ≤ word_mod
      → WideAt m addr i s
      → WideText uc u addr i s
  WideText-WideAt addr i [] fits there = mem_read-unit (addr + i * 2) 0 (omega arith) there
  WideText-WideAt addr i (c ∷ cs) fits there = (
    mem_read-unit (addr + i * 2) c (omega arith) there.0,
    there.1,
    WideText-WideAt addr (i + 1) cs (omega arith) there.2,
  )

module _ {U S W : Type 0} (uc : Unicorn U) (lib : Streams S W) (sys : System W)
    (enter : Enter U) where
  svc_fopen_w-AreWideNames :
      (path_at mode_at : ℕ) (path mode : List ℕ) (h : Host U S W) (μ : Machine)
      → IsProcessor uc enter
      → AreWideNames path_at mode_at path mode μ.mem
      → (let r = open_file lib (sys.path_of_wide path) mode h.files in
          svc_fopen_w uc lib sys (entered uc enter h path_at mode_at 0 0 μ.mem)
          ≡ done tt (record {
            engine = uc.reg_write r0 r.0 (enter path_at mode_at 0 0 μ.mem);
            files = r.1;
            out = opening_wide path mode ∷ h.out;
          }))
  svc_fopen_w-AreWideNames path_at mode_at path mode h μ is names =
      let u = enter path_at mode_at 0 0 μ.mem in
      let bound = names.path_fits in
      let args =
        is.registers path_at mode_at 0 0 μ.mem (omega (arith, bound)) names.mode_fits (omega arith)
          (omega arith) in
      let here = is.memory path_at mode_at 0 0 μ.mem in
      let at_path : WideText uc u (uc.reg_read r0 u) 0 path =
        rw args.in_r0 (
          WideText-WideAt uc u μ.mem here path_at 0 path (omega (arith, bound)) names.path_there) in
      let at_mode : Text uc u (uc.reg_read r1 u) 0 mode =
        rw args.in_r1 (Text-CString uc u μ.mem mode_at mode here names.mode_there) in
      svc_fopen_w-WideText uc lib sys path mode (entered uc enter h path_at mode_at 0 0 μ.mem)
        names.short_path names.short_mode at_path at_mode

  svc_fopen_w-served :
      (path_at mode_at : ℕ) (path mode : List ℕ) (s : S) (w' : W) (h : Host U S W) (μ : Machine)
      → IsProcessor uc enter
      → AreWideNames path_at mode_at path mode μ.mem
      → IsSound h.files.0
      → h.files.0.next_handle + 1 < 2 ^ 31
      → Opens lib h.files.1 (sys.path_of_wide path) mode s w'
      → (h' : Host U S W) × (svc_fopen_w uc lib sys (entered uc enter h path_at mode_at 0 0 μ.mem)
          ≡ done tt h')
        × (find h.files.0.next_handle h'.files.0.open_files ≡ some s)
        × (h'.files.1 ≡ w')
        × (served uc enter (svc_fopen_w uc lib sys) h path_at mode_at 0 0 μ
            ≡ ok h.files.0.next_handle μ)
  svc_fopen_w-served path_at mode_at path mode s w' h μ is names sound room opens =
      let u = enter path_at mode_at 0 0 μ.mem in
      let (fs', got, free, found, others, next, sound') =
        open_file-find lib h.files.0 h.files.1 w' (sys.path_of_wide path) mode s sound room opens in
      let h' : Host U S W = record {
        engine = uc.reg_write r0 h.files.0.next_handle u;
        files = (fs', w');
        out = opening_wide path mode ∷ h.out;
      } in
      let ran : svc_fopen_w uc lib sys (entered uc enter h path_at mode_at 0 0 μ.mem) ≡ done tt h' =
        svc_fopen_w-AreWideNames path_at mode_at path mode h μ is names ∙ (rw got refl) in
      (
        h',
        ran,
        found,
        refl,
        served-same uc enter (svc_fopen_w uc lib sys) h h' path_at mode_at 0 0 h.files.0.next_handle
            μ is ran refl (omega arith),
      )

  -- The same by a wide name: an application opens a file whose name is a string of 16-bit units,
  -- and reads from it. The emulator opens the path that the C++ library makes of the units. The
  -- result of fsys_fopenW is the address of a block that holds the emulator's next handle; then,
  -- whatever happens to memory beside the block, fsys_fread leaves at the buffer the bytes that the
  -- file's stream gives, and changes no other memory; the result is the number of whole items. This
  -- is for a processor that passes registers and memory on, a file that the C++ library opens, an
  -- allocator that gives four bytes that are mapped, names of fewer than 2 ^ 30 units in memory,
  -- items of some bytes, a buffer that is mapped, as long as there are handles, and while the
  -- emulator's table has no handle in it that has not been given out, which the code does not
  -- check.
  pub fsys_fread-fsys_fopen_w_served :
      (malloc : ℕ → Cmd ℕ) (path_at mode_at p : ℕ) (path mode : List ℕ) (s t : S) (w1 w2 : W)
      (h : Host U S W) (μ μ2 μ3 : Machine) (buffer size count : ℕ) (bytes : List ℕ)
      → IsProcessor uc enter
      → AreWideNames path_at mode_at path mode μ.mem
      → IsSound h.files.0
      → h.files.0.next_handle + 1 < 2 ^ 31
      → Opens lib h.files.1 (sys.path_of_wide path) mode s w1
      → malloc 4 (traced_wide μ) ≡ ok p μ2
      → Mapped μ2.mem p 4
      → p + 4 ≤ word_mod
      → SameOn p (p + 4) (poke μ2.mem p (u32_bytes h.files.0.next_handle)) μ3.mem
      → IsBuffer buffer size count
      → lib.read (size * count) s w1 ≡ (bytes, t, w2)
      → length bytes ≤ size * count
      → Mapped μ3.mem buffer (length bytes)
      → (h1 : Host U S W) × (svc_fopen_w uc lib sys (entered uc enter h path_at mode_at 0 0 μ.mem)
          ≡ done tt h1)
        × (fsys_fopen_w malloc (served_files uc enter lib sys h) path_at mode_at μ
            ≡ ok p (record μ2 { mem = poke μ2.mem p (u32_bytes h.files.0.next_handle) }))
        × (h2 : Host U S W) × (svc_fread uc lib
              (entered uc enter h1 buffer size count h.files.0.next_handle μ3.mem)
            ≡ done tt h2)
        × (fsys_fread (served_files uc enter lib sys h1) buffer size count p μ3
            ≡ ok (length bytes / size) (record μ3 { mem = poke μ3.mem buffer bytes }))
        × (find h.files.0.next_handle h2.files.0.open_files ≡ some t)
        × (h2.files.1 ≡ w2)
  fsys_fread-fsys_fopen_w_served malloc path_at mode_at p path mode s t w1 w2 h μ μ2 μ3 buffer size
        count bytes is names sound handles opens allocated block top same area got short room =
      let fd = h.files.0.next_handle in
      let (h1, ran1, found, world, opened) =
        svc_fopen_w-served path_at mode_at path mode s w1 h (traced_wide μ) is names sound handles
          opens in
      let (made, at_p) =
        fsys_fopen_w-HandleAt malloc (served_files uc enter lib sys h) path_at mode_at fd p μ
          (traced_wide μ) μ2 opened (omega arith) allocated block in
      let (h2, ran2, read, later, world2) =
        fsys_fread-block uc lib sys enter p fd buffer size count s t w1 w2 bytes h1
          (poke μ2.mem p (u32_bytes fd)) μ3 is found world at_p top same area got short room in
      (h1, ran1, made, h2, ran2, read, later, world2)
