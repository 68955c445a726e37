-- ===== src/Emu/Uc.antt =====
-- The ARM processor that the emulator runs on. It is a library (unicorn), so it is a parameter: what
-- the emulator calls of it, and the part of its documentation that the emulator relies on.
use ga330_libretro.Common.{ℕ, ◌<◌, ◌^◌, ◌≡◌, ◌≢◌, Option, some, List, length}

pub data Reg : Type 0 where
  r0 r1 r2 r3 sp lr pc : Reg

-- What a hook is called for.
pub data HookKind : Type 0 where
  mem_invalid intr : HookKind

-- The kinds of invalid access that the emulator tells apart.
pub data MemType : Type 0 where
  read_unmapped write_unmapped fetch_prot write_prot read_prot other : MemType

-- An operation that can fail has the code of the error as its result, 0 for `UC_ERR_OK`; a read
-- that fails gives nothing.
pub record Unicorn (U : Type 0) : Type 0 where
  pub open_arm : U → ℕ × U
  pub reg_read : Reg → U → ℕ
  pub reg_write : Reg → ℕ → U → U
  pub mem_read : ℕ → ℕ → U → Option (List ℕ)
  pub mem_write : ℕ → List ℕ → U → ℕ × U
  -- the address, the size and the permissions
  pub mem_map : ℕ → ℕ → ℕ → U → ℕ × U
  pub hook_add : HookKind → U → ℕ × U
  pub emu_stop : U → U

-- A register keeps the word that is written to it, and memory the bytes; one write does not change
-- what another left, and neither do a mapping and a hook.
pub record IsLawful {U : Type 0} (uc : Unicorn U) : Type 0 where
  pub reg_same : (r : Reg) (v : ℕ) (u : U) → v < 2 ^ 32 → uc.reg_read r (uc.reg_write r v u) ≡ v
  pub reg_other :
      (q r : Reg) (v : ℕ) (u : U) → q ≢ r → uc.reg_read q (uc.reg_write r v u) ≡ uc.reg_read q u
  pub reg_mem :
      (r : Reg) (v a n : ℕ) (u : U) → uc.mem_read a n (uc.reg_write r v u) ≡ uc.mem_read a n u
  pub mem_same :
      (a : ℕ) (bs : List ℕ) (u u' : U)
      → uc.mem_write a bs u ≡ (0, u')
      → uc.mem_read a (length bs) u' ≡ some bs
  pub mem_reg :
      (q : Reg) (a : ℕ) (bs : List ℕ) (u : U)
      → uc.reg_read q (uc.mem_write a bs u).1 ≡ uc.reg_read q u
  pub map_mem :
      (b size prot a n : ℕ) (bs : List ℕ) (u : U)
      → uc.mem_read a n u ≡ some bs
      → uc.mem_read a n (uc.mem_map b size prot u).1 ≡ some bs
  pub hook_mem :
      (k : HookKind) (a n : ℕ) (u : U) → uc.mem_read a n (uc.hook_add k u).1 ≡ uc.mem_read a n u
