-- ===== src/Examples/Crossing.antt =====
-- The file functions of minisys on the small engine.
use ga330_libretro.Common.{
  ℕ, ◌+◌, ◌≤◌, ◌<◌, ◌≡◌, refl, sym, ◌∙◌, ap, some, none, List, [], ◌∷◌, length, arith, inl, true,
  leb, ◌%◌, ◌^◌, ◌-◌,
}
use ga330_libretro.Common.Signed.{pos}
use ga330_libretro.Machine.{word_mod, Memory, Machine, Cmd, ok, pure, poke, is_mapped, u32_bytes}
use ga330_libretro.Machine.Access.{Mapped, SameOn}
use ga330_libretro.Machine.Frame.{
  SameOn-refl, SameOn-poke_both, read_bytes-SameOn, is_mapped-SameOn,
}
use ga330_libretro.Common.Table.{find}
use ga330_libretro.Minisys.Files.{
  EmuFiles, fsys_fopen, fsys_fread, fsys_fwrite, fsys_fseek, fsys_ftell, fsys_fclose,
}
use ga330_libretro.Minisys.Files.Handles.{HandleAt, traced}
use ga330_libretro.Emu.Action.{done}
use ga330_libretro.Emu.Host.{Host, System}
use ga330_libretro.Emu.Filesystem.{new_filesystem}
use ga330_libretro.Emu.Filesystem.Handles.{reads, other_mode}
use ga330_libretro.Emu.Svc.{svc_fopen, svc_fread, svc_fwrite, svc_fseek, svc_ftell, svc_fclose}
use ga330_libretro.Crossing.{Enter, entered, served_files}
use ga330_libretro.Crossing.Processor.{IsMemory, IsProcessor, read_bytes-byte}
use ga330_libretro.Crossing.Transfers.{IsBuffer}
use ga330_libretro.Crossing.Open.{AreNames}
use ga330_libretro.Crossing.Files.{fsys_fread-fsys_fopen_served, fsys_fopen-null_served}
use ga330_libretro.Crossing.SaveAndLoad.{Goes, fsys_fclose-fsys_fwrite_served}
use ga330_libretro.Examples.Chip.{Chip, chip, write_mem, chip-IsLawful}
use ga330_libretro.Examples.Calls.{registers, ram, my_host}
use ga330_libretro.Examples.Emulator.{my_lib}

abbrev pub enter : Enter Chip
enter a b c d m = record { regs = registers a b c d; mem = m }

-- The two memories agree, when the engine's reads are those of the ARM code.
SameOn-IsMemory : (u : Chip) (m : Memory) → IsMemory chip u m → SameOn 0 word_mod m u.mem
SameOn-IsMemory u m here x low below =
    let reduced : x % word_mod ≡ x = omega arith in
    sym (read_bytes-byte u.mem x (u.mem x) (ap u.mem reduced))
    ∙ rw (here x 1 (omega arith)) (read_bytes-byte m x (m x) (ap m reduced))

write_mem-IsMemory :
    (a : ℕ) (bs : List ℕ) (u : Chip) (m : Memory)
    → IsMemory chip u m
    → a + length bs ≤ word_mod
    → Mapped m a (length bs)
    → (u' : Chip) × (write_mem a bs u ≡ (0, u')) × IsMemory chip u' (poke m a bs)
unfolding write_mem
write_mem-IsMemory a bs u m here top room =
    let same = SameOn-IsMemory u m here in
    let fits : leb (length bs) word_mod ≡ true = ground arith in
    let there : is_mapped u.mem a (length bs) ≡ true =
      is_mapped-SameOn m u.mem a (length bs) same ∙ room in
    (
      record u { mem = poke u.mem a bs },
      rw (fits, there) refl,
      λ b n low.
          read_bytes-SameOn (poke m a bs) (poke u.mem a bs) b n
            (SameOn-poke_both 0 word_mod m u.mem a bs same),
    )

pub chip-IsProcessor : IsProcessor chip enter
chip-IsProcessor = record {
  lawful = chip-IsLawful;
  registers = λ a b c d m fits0 fits1 fits2 fits3. record {
    in_r0 = refl;
    in_r1 = refl;
    in_r2 = refl;
    in_r3 = refl;
  };
  memory = λ a b c d m x n low. refl;
  writes = write_mem-IsMemory;
}

abbrev pub my_machine : Machine
my_machine = record { mem = ram; log = [] }

abbrev pub my_malloc : ℕ → Cmd ℕ
my_malloc n = pure 0x10000400

abbrev pub my_system : System ℕ
my_system = record {
  clock = λ w. pos 0;
  clock_max = 2 ^ 63 - 1;
  clocks_per_sec = 1000;
  sleep_for = λ ms w. w;
  path_of_wide = λ units. units;
  get_keypad_state = λ w. 0;
}

abbrev pub my_emu : Host Chip (List ℕ) ℕ → EmuFiles
my_emu = served_files chip enter my_lib my_system

abbrev pub first_host : Host Chip (List ℕ) ℕ
first_host = my_host (enter 0 0 0 0 ram)

-- The file "x" to read from.
my_names : AreNames 0x10000010 0x10000020 (b'x' ∷ []) (b'r' ∷ b'b' ∷ []) ram
unfolding poke
my_names = record {
  path_fits = omega arith;
  mode_fits = omega arith;
  short_path = omega arith;
  short_mode = omega arith;
  path_there = (refl, omega arith, refl);
  mode_there = (refl, omega arith, (refl, omega arith, refl));
}

-- With "x" for the mode too.
bad_names : AreNames 0x10000010 0x10000010 (b'x' ∷ []) (b'x' ∷ []) ram
unfolding poke
bad_names = record {
  path_fits = omega arith;
  mode_fits = omega arith;
  short_path = omega arith;
  short_mode = omega arith;
  path_there = (refl, omega arith, refl);
  mode_there = (refl, omega arith, refl);
}

pub two_bytes : (buffer : ℕ) → buffer < 0x20000000 → IsBuffer buffer 1 2
two_bytes buffer low = record {
  not_empty = omega arith;
  size_fits = omega arith;
  count_fits = omega arith;
  fits = omega arith;
}

-- Memory with the block at 0x10000400, as `fsys_fopen` leaves it.
abbrev with_block : Machine
with_block = record { mem = poke ram 0x10000400 (u32_bytes 1); log = (traced my_machine).log }

fsys_fread-fsys_fopen_served_example :
    (h1 : Host Chip (List ℕ) ℕ) × (svc_fopen chip my_lib
        (entered chip enter first_host 0x10000010 0x10000020 0 0 ram)
      ≡ done tt h1)
    × (fsys_fopen my_malloc (my_emu first_host) 0x10000010 0x10000020 my_machine
        ≡ ok 0x10000400 with_block)
    × (h2 : Host Chip (List ℕ) ℕ) × (svc_fread chip my_lib
          (entered chip enter h1 0x10000200 1 2 1 with_block.mem)
        ≡ done tt h2)
    × (fsys_fread (my_emu h1) 0x10000200 1 2 0x10000400 with_block
        ≡ ok 2 (record with_block { mem = poke with_block.mem 0x10000200 (1 ∷ 2 ∷ []) }))
    × (find 1 h2.files.0.open_files ≡ some (3 ∷ []))
    × (h2.files.1 ≡ 1)
unfolding is_mapped poke
fsys_fread-fsys_fopen_served_example =
    fsys_fread-fsys_fopen_served chip my_lib my_system enter my_malloc 0x10000010 0x10000020
      0x10000400 (b'x' ∷ []) (b'r' ∷ b'b' ∷ []) (1 ∷ 2 ∷ 3 ∷ []) (3 ∷ []) 1 1 first_host my_machine
      (traced my_machine) with_block 0x10000200 1 2 (1 ∷ 2 ∷ []) chip-IsProcessor my_names tt
      (omega arith) (reads [] _ _ refl) refl refl (omega arith)
      (SameOn-refl 0x10000400 0x10000404 with_block.mem) (two_bytes 0x10000200 (omega arith)) refl
      (omega arith) refl

fsys_fopen-null_served_example :
    (h' : Host Chip (List ℕ) ℕ) × (svc_fopen chip my_lib
        (entered chip enter first_host 0x10000010 0x10000010 0 0 ram)
      ≡ done tt h')
    × (h'.files ≡ (new_filesystem, 0))
    × (fsys_fopen my_malloc (my_emu first_host) 0x10000010 0x10000010 my_machine
        ≡ ok 0 (traced my_machine))
fsys_fopen-null_served_example =
    fsys_fopen-null_served chip my_lib my_system enter my_malloc 0x10000010 0x10000010 (b'x' ∷ [])
      (b'x' ∷ []) 0 first_host my_machine chip-IsProcessor bad_names
      (other_mode (b'x' ∷ []) refl refl)

-- A file that is empty is open, and the string "rb" is written to it.
abbrev busy_host : Host Chip (List ℕ) ℕ
busy_host = record first_host {
  files = (record { next_handle = 2; drives = []; open_files = (1, []) ∷ [] }, 0);
}

my_stream : Goes my_lib 2 0 0 [] 0 (b'r' ∷ b'b' ∷ []) 2 (b'r' ∷ b'b' ∷ []) [] 0 0
my_stream = record {
  s1 = b'r' ∷ b'b' ∷ [];
  s2 = b'r' ∷ b'b' ∷ [];
  s3 = b'r' ∷ b'b' ∷ [];
  s5 = [];
  w1 = 0;
  w2 = 0;
  w3 = 0;
  written = refl;
  told = refl;
  sought = refl;
  read = refl;
  closed = refl;
}

my_handle : HandleAt with_block.mem 0x10000400 1
unfolding poke
my_handle = record { word = (refl, (refl, (refl, (refl, tt)))); not_negative = omega arith }

abbrev copied : Machine
copied = record with_block { mem = poke with_block.mem 0x10000200 (b'r' ∷ b'b' ∷ []) }

fsys_fclose-fsys_fwrite_served_example :
    (h1 : Host Chip (List ℕ) ℕ) × (svc_fwrite chip my_lib
        (entered chip enter busy_host 0x10000020 1 2 1 with_block.mem)
      ≡ done tt h1)
    × (fsys_fwrite (my_emu busy_host) 0x10000020 1 2 0x10000400 with_block ≡ ok 2 with_block)
    × (h2 : Host Chip (List ℕ) ℕ) × (svc_ftell chip my_lib
          (entered chip enter h1 1 0 0 0 with_block.mem)
        ≡ done tt h2)
    × (fsys_ftell (my_emu h1) 0x10000400 with_block ≡ ok 2 with_block)
    × (h3 : Host Chip (List ℕ) ℕ) × (svc_fseek chip my_lib
          (entered chip enter h2 1 0 0 0 with_block.mem)
        ≡ done tt h3)
    × (fsys_fseek (my_emu h2) 0x10000400 0 0 with_block ≡ ok 0 with_block)
    × (h4 : Host Chip (List ℕ) ℕ) × (svc_fread chip my_lib
          (entered chip enter h3 0x10000200 1 2 1 with_block.mem)
        ≡ done tt h4)
    × (fsys_fread (my_emu h3) 0x10000200 1 2 0x10000400 with_block ≡ ok 2 copied)
    × (h5 : Host Chip (List ℕ) ℕ) × (svc_fclose chip my_lib
          (entered chip enter h4 1 0 0 0 copied.mem)
        ≡ done tt h5)
    × (fsys_fclose (my_emu h4) 0x10000400 copied ≡ ok tt copied)
    × (find 1 h5.files.0.open_files ≡ none)
    × (h5.files.1 ≡ 0)
unfolding is_mapped poke
fsys_fclose-fsys_fwrite_served_example =
    fsys_fclose-fsys_fwrite_served chip my_lib my_system enter 0x10000400 1 0x10000020 0x10000200 1
      2 0 0 2 [] [] 0 0 (b'r' ∷ b'b' ∷ []) (b'r' ∷ b'b' ∷ []) busy_host with_block chip-IsProcessor
      my_handle (omega arith) refl my_stream (two_bytes 0x10000020 (omega arith)) (refl, (refl, tt))
      refl (omega arith) (omega arith) (omega arith) (two_bytes 0x10000200 (omega arith))
      (omega arith) refl (inl (omega arith))
