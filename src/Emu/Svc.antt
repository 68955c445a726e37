-- ===== src/Emu/Svc.antt =====
-- src/api.cpp: what a supervisor call of the ARM code does in the emulator. The arguments are in
-- registers `r0` to `r3`, the result goes to `r0`. The strings that `getchar`-like loops build are
-- lists of bytes, or of 16-bit units.
pub mod Files
pub mod Session
pub mod Wide
use ga330_libretro.Common.{
  ℕ, zero, suc, ◌+◌, ◌-◌, ◌*◌, ◌/◌, ◌^◌, ◌%◌, Bool, true, false, Option, none, some, List, [], ◌∷◌,
  ◌++◌, map, reverse, length, if◌then◌else◌, ◌==◌, ltb, leb,
}
use ga330_libretro.Common.Signed.{ℤ, pos, negsuc}
use ga330_libretro.Machine.{wrap, byte, u32_at}
use ga330_libretro.Emu.Uc.{Unicorn, Reg, r0, r1, r2, r3, sp, lr, pc}
use ga330_libretro.Emu.Action.{Action, Outcome, done, undefined, pure, stuck, ◌>>=◌, ◌>>◌}
use ga330_libretro.Emu.Host.{
  Message, opening, opening_wide, panic_at, registers, address, char, sleeping, Host, System, print,
  on_files, reg, set_reg, fetch, put, stop,
}
use ga330_libretro.Emu.Filesystem.{
  Streams, open_file, close_file, read_file, seek_file, tell_file, write_file,
}
use ga330_libretro.Emu.Debug.{stack_trace}

-- The words that the stack walk reads.
abbrev pub read_mem32 : {U : Type 0} → Unicorn U → U → ℕ → Option ℕ
read_mem32 uc u a = elim (uc.mem_read a 4 u) [ none ↦ none | some bs ↦ some (u32_at bs 0) ]

-- `clock() * 1000 / CLOCKS_PER_SEC` is of type `clock_t`: a product that does not fit is undefined,
-- the division goes towards 0, and the result becomes a `uint32_t`.
unfoldable pub time_ms : ℕ → ℕ → ℤ → Option ℕ
time_ms clock_max clocks_per_sec (pos n) =
    if leb (n * 1000) clock_max then some (wrap (n * 1000 / clocks_per_sec)) else none
time_ms clock_max clocks_per_sec (negsuc n) =
    if leb ((n + 1) * 1000) (clock_max + 1)
    then some (wrap (2 ^ 32 - wrap ((n + 1) * 1000 / clocks_per_sec)))
    else none

module _ {U S W : Type 0} (uc : Unicorn U) where
  -- The loop over `i`, an `int`, with the rounds that are left before `i` is out of range.
  unfoldable pub get_string_loop : ℕ → ℕ → ℕ → Action (Host U S W) (List ℕ)
  get_string_loop zero addr i = stuck
  get_string_loop (suc rounds) addr i = do
    c ← fetch uc (wrap (addr + i)) 1
    elim (byte c 0 == 0) [
      | true ↦ pure []
      | false ↦ do ss ← get_string_loop rounds addr (i + 1); pure (byte c 0 ∷ ss)
    ]

  unfoldable pub get_string : ℕ → Action (Host U S W) (List ℕ)
  get_string addr = get_string_loop (2 ^ 31) addr 0

  -- `i * 2` is an `int` too.
  unfoldable pub get_wstring_loop : ℕ → ℕ → ℕ → Action (Host U S W) (List ℕ)
  get_wstring_loop zero addr i = stuck
  get_wstring_loop (suc rounds) addr i = do
    c ← fetch uc (wrap (addr + i * 2)) 2
    let unit = byte c 0 + 2 ^ 8 * byte c 1
    elim (unit == 0) [
      | true ↦ pure []
      | false ↦ do ss ← get_wstring_loop rounds addr (i + 1); pure (unit ∷ ss)
    ]

  unfoldable pub get_wstring : ℕ → Action (Host U S W) (List ℕ)
  get_wstring addr = get_wstring_loop (2 ^ 30) addr 0

  module _ (lib : Streams S W) where
    unfoldable pub svc_fopen : Action (Host U S W) (Unit {0})
    svc_fopen = do
      path_at ← reg uc r0
      mode_at ← reg uc r1
      path ← get_string path_at
      mode ← get_string mode_at
      print (opening path mode)
      ret ← on_files (open_file lib path mode)
      set_reg uc r0 ret

    unfoldable pub svc_fopen_w : System W → Action (Host U S W) (Unit {0})
    svc_fopen_w sys = do
      path_at ← reg uc r0
      mode_at ← reg uc r1
      path ← get_wstring path_at
      mode ← get_string mode_at
      print (opening_wide path mode)
      ret ← on_files (open_file lib (sys.path_of_wide path) mode)
      set_reg uc r0 ret

    -- `size * count` is of type `uint32_t`, and `size` divides at the end.
    unfoldable pub svc_fread : Action (Host U S W) (Unit {0})
    svc_fread = do
      buffer_address ← reg uc r0
      size ← reg uc r1
      count ← reg uc r2
      file_handle ← reg uc r3
      bytes ← on_files (read_file lib file_handle (wrap (size * count)))
      put uc buffer_address bytes
      if size == 0 then stuck else set_reg uc r0 (length bytes / size)

    unfoldable pub svc_fseek : Action (Host U S W) (Unit {0})
    svc_fseek = do
      file_handle ← reg uc r0
      offset ← reg uc r1
      c_mode ← reg uc r2
      on_files (λ files. (tt, seek_file lib file_handle offset c_mode files))
      set_reg uc r0 0

    unfoldable pub svc_fclose : Action (Host U S W) (Unit {0})
    svc_fclose = do
      file_handle ← reg uc r0
      on_files (λ files. (tt, close_file lib file_handle files))
      set_reg uc r0 0

    unfoldable pub svc_ftell : Action (Host U S W) (Unit {0})
    svc_ftell = do
      file_handle ← reg uc r0
      ret ← on_files (tell_file lib file_handle)
      set_reg uc r0 ret

    -- Where the guest's memory cannot be read, the program writes what its buffer happened to hold,
    -- which is taken as undefined here.
    unfoldable pub svc_fwrite : Action (Host U S W) (Unit {0})
    svc_fwrite = do
      buffer_address ← reg uc r0
      size ← reg uc r1
      count ← reg uc r2
      file_handle ← reg uc r3
      bytes ← fetch uc buffer_address (wrap (size * count))
      written ← on_files (write_file lib file_handle bytes)
      if size == 0 then stuck else set_reg uc r0 (length written / size)

  unfoldable pub svc_new_frame : Action (Host U S W) (Unit {0})
  svc_new_frame = stop uc

  unfoldable pub svc_panic : Action (Host U S W) (Unit {0})
  svc_panic = do
    pc_value ← reg uc pc
    print (panic_at pc_value)
    lr_value ← reg uc lr
    sp_value ← reg uc sp
    print (registers pc_value lr_value sp_value)
    (λ h.
        let lines = map address (stack_trace (read_mem32 uc h.engine) pc_value lr_value sp_value) in
        done tt (record h { out = reverse lines ++ h.out }))
    stop uc

  -- `char c = r0`
  unfoldable pub svc_putc : Action (Host U S W) (Unit {0})
  svc_putc = do c ← reg uc r0; print (char (c % 2 ^ 8))

  module _ (sys : System W) where
    unfoldable pub svc_get_key_pad : Action (Host U S W) (Unit {0})
    svc_get_key_pad h = set_reg uc r0 (sys.get_keypad_state h.files.1) h

    unfoldable pub svc_get_time_ms : Action (Host U S W) (Unit {0})
    svc_get_time_ms h = elim (time_ms sys.clock_max sys.clocks_per_sec (sys.clock h.files.1)) [
      | none ↦ undefined
      | some ms ↦ set_reg uc r0 ms h
    ]

    unfoldable pub svc_sleep_ms : Action (Host U S W) (Unit {0})
    svc_sleep_ms = do
      ms ← reg uc r0
      if ltb 100 ms then print (sleeping ms) else pure tt
      (λ h. done tt (record h { files = (h.files.0, sys.sleep_for ms h.files.1) }))
