-- ===== src/Emu/Host.antt =====
-- What the emulator has beside the processor: its files, its output, and the system that it runs
-- on.
use ga330_libretro.Common.{ℕ, none, some, List, ◌∷◌}
use ga330_libretro.Common.Signed.{ℤ}
use ga330_libretro.Emu.Uc.{Unicorn, Reg, MemType}
use ga330_libretro.Emu.Action.{Action, done, undefined}
use ga330_libretro.Emu.Filesystem.{Files}

-- A line that the emulator prints, by the `printf` that prints it.
pub data Message : Type 0 where
  opening : List ℕ → List ℕ → Message
  opening_wide : List ℕ → List ℕ → Message
  panic_at : ℕ → Message
  registers : ℕ → ℕ → ℕ → Message
  address : ℕ → Message
  char : ℕ → Message
  sleeping : ℕ → Message
  trace : ℕ → Message
  invalid_access : MemType → ℕ → ℕ → ℕ → Message
  failed : ℕ → Message
  at_pc : ℕ → Message
  emulation_start : Message
  emulation_done : ℕ → Message

-- `U` is the processor with the memory of the guest, `S` a stream, and `W` the system around the
-- emulator.
pub record Host (U S W : Type 0) : Type 0 where
  pub engine : U
  pub files : Files S W
  pub out : List Message

-- The system: `clock` and `CLOCKS_PER_SEC` of the C library, with the largest number of its type
-- `clock_t`, which is taken to be a signed type in two's complement; `sleep_for` of the C++ library,
-- the conversion of a wide string to a path, and the keypad of the program that the emulator is
-- linked into (`get_keypad_state`).
pub record System (W : Type 0) : Type 0 where
  pub clock : W → ℤ
  pub clock_max : ℕ
  pub clocks_per_sec : ℕ
  pub sleep_for : ℕ → W → W
  pub path_of_wide : List ℕ → List ℕ
  pub get_keypad_state : W → ℕ

module _ {U S W : Type 0} where
  abbrev pub print : Message → Action (Host U S W) (Unit {0})
  print line h = done tt (record h { out = line ∷ h.out })

  abbrev pub on_files : {A : Type 0} → (Files S W → A × Files S W) → Action (Host U S W) A
  on_files f h = let (a, files') = f h.files in done a (record h { files = files' })

  module _ (uc : Unicorn U) where
    abbrev pub reg : Reg → Action (Host U S W) ℕ
    reg r h = done (uc.reg_read r h.engine) h

    abbrev pub set_reg : Reg → ℕ → Action (Host U S W) (Unit {0})
    set_reg r v h = done tt (record h { engine = uc.reg_write r v h.engine })

    -- A read into a variable that has no value before: a read that fails leaves it so, and what is
    -- done with it is undefined.
    abbrev pub fetch : ℕ → ℕ → Action (Host U S W) (List ℕ)
    fetch a n h = elim (uc.mem_read a n h.engine) [ none ↦ undefined | some bs ↦ done bs h ]

    -- A write to the guest's memory, the result of which is not looked at.
    abbrev pub put : ℕ → List ℕ → Action (Host U S W) (Unit {0})
    put a bs h = done tt (record h { engine = (uc.mem_write a bs h.engine).1 })

    abbrev pub stop : Action (Host U S W) (Unit {0})
    stop h = done tt (record h { engine = uc.emu_stop h.engine })
