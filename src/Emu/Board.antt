-- ===== src/Emu/Board.antt =====
-- src/ccdl.cpp: the machine that the emulator sets up, and its run.
pub mod Map
pub mod Dispatch
use ga330_libretro.Common.{
  ℕ, zero, suc, ◌+◌, ◌-◌, ◌*◌, ◌/◌, ◌^◌, ◌%◌, Bool, true, false, Option, none, some, List, [], ◌∷◌,
  ◌++◌, length, take, get_elem?, if◌then◌else◌, ◌==◌,
}
use ga330_libretro.Common.Signed.{ℤ, pos, negsuc}
use ga330_libretro.Machine.{wrap, u32_at}
use ga330_libretro.Emu.Uc.{Unicorn, Reg, r0, r1, sp, pc, HookKind, mem_invalid, intr, MemType}
use ga330_libretro.Emu.Action.{Action, Outcome, done, undefined, pure, stuck, ◌>>=◌, ◌>>◌}
use ga330_libretro.Emu.Host.{
  Message, trace, invalid_access, failed, at_pc, emulation_start, emulation_done, Host, print, reg,
  set_reg,
}

abbrev pub ram_address : ℕ
ram_address = 0x10000000

abbrev pub ram_size : ℕ
ram_size = 0x04000000

abbrev pub stack_bottom : ℕ
stack_bottom = 0x1ff00000

abbrev pub stack_top : ℕ
stack_top = 0x20000000

abbrev pub minisys_addr : ℕ
minisys_addr = 0x20000000

abbrev pub minisys_size : ℕ
minisys_size = 0x40000

abbrev pub framebuf_addr : ℕ
framebuf_addr = 0x80000000

-- `x & ~4095` for a positive `x`
abbrev pub framebuf_size : ℕ
framebuf_size = (320 * 240 * 2 + 4095) / 4096 * 4096

abbrev pub app_load_address : ℕ
app_load_address = 0x30000000

abbrev pub app_max_size : ℕ
app_max_size = 0x04000000

-- `UC_PROT_READ`, `UC_PROT_WRITE` and `UC_PROT_ALL` are 1, 2 and 7.
abbrev pub prot_read_write : ℕ
prot_read_write = 3

abbrev pub prot_write : ℕ
prot_write = 2

abbrev pub prot_all : ℕ
prot_all = 7

-- What is mapped, in the order of the calls: an address, a size and permissions.
pub record Region : Type 0 where
  pub from : ℕ
  pub size : ℕ
  pub prot : ℕ

abbrev pub minisys_region : Region
minisys_region = record { from = minisys_addr; size = minisys_size; prot = prot_all }

abbrev pub stack_region : Region
stack_region = record {
  from = stack_bottom;
  size = stack_top - stack_bottom;
  prot = prot_read_write;
}

abbrev pub ram_region : Region
ram_region = record { from = ram_address; size = ram_size; prot = prot_all }

abbrev pub framebuf_region : Region
framebuf_region = record { from = framebuf_addr; size = framebuf_size; prot = prot_write }

abbrev pub app_region : Region
app_region = record { from = app_load_address; size = app_max_size; prot = prot_all }

abbrev pub io_region : Region
io_region = record { from = 0x04088000; size = 0x1000; prot = prot_read_write }

-- A call that sets the machine up; the result of an unchecked one is not looked at.
pub data Setup : Type 0 where
  map_region : Region → Setup
  write : ℕ → List ℕ → Setup
  unchecked : Setup → Setup
  hook : HookKind → Setup

-- The calls behind `uc_open`, for a buffer with minisys and one with the application.
abbrev pub setup : List ℕ → List ℕ → List Setup
setup msbuffer app =
    map_region minisys_region
    ∷ write minisys_addr msbuffer
    ∷ map_region stack_region
    ∷ map_region ram_region
    ∷ map_region framebuf_region
    ∷ map_region app_region
    ∷ write app_load_address app
    ∷ unchecked (map_region io_region)
    ∷ hook mem_invalid
    ∷ hook intr
    ∷ []

-- `SvcHandler`
abbrev pub SvcHandler : Type 0 → Type 0 → Type 0 → Type 0
SvcHandler U S W = Action (Host U S W) (Unit {0})

module _ {U S W : Type 0} where
  unfoldable pub hook_code : ℕ → ℕ → Action (Host U S W) (Unit {0})
  hook_code address size = print (trace address)

  -- The access is reported, and the emulation ends, whatever its kind.
  unfoldable pub hook_mem_invalid : MemType → ℕ → ℕ → ℕ → Action (Host U S W) Bool
  hook_mem_invalid type addr size value = do print (invalid_access type addr size value); pure false

module _ {U S W : Type 0} (uc : Unicorn U) where
  -- The handler whose number is in the last two bytes of the instruction before `pc`. A number past
  -- the end of the table is not checked for.
  unfoldable pub hook_intr : List (SvcHandler U S W) → ℕ → Action (Host U S W) (Unit {0})
  hook_intr svc_handler_table intno h =
      let before = wrap (uc.reg_read pc h.engine + 2 ^ 32 - 4) in
      let num : ℕ = elim (uc.mem_read before 4 h.engine) [
        | none ↦ 0xcccccccc
        | some bs ↦ u32_at bs 0
      ] in
      elim (get_elem? svc_handler_table (num % 2 ^ 16)) [
        | none ↦ undefined
        | some handler ↦ handler h
      ]
