-- ===== src/Emu/Debug.antt =====
-- `aarch32_walk_stack` of src/debug.cpp, and its use in `Svc_GemeiEmu_panic` of src/api.cpp.
pub mod Walk
use ga330_libretro.Common.{
  ℕ, zero, suc, ◌+◌, Bool, true, false, ◌&&◌, ◌||◌, Option, none, some, List, [], ◌∷◌, ◌++◌, ltb,
  leb, if◌then◌else◌,
}
use ga330_libretro.Machine.{wrap}

-- The callback keeps a state of its own, `St`, and says whether to go on. Memory is only read.
module _ {St : Type 0} (read_mem32 : ℕ → Option ℕ) (is_code_address : ℕ → Bool)
    (callback : ℕ → St → Bool × St) where
  -- The loop with `rounds` of its rounds left.
  unfoldable pub walk_loop : ℕ → ℕ → St → St
  walk_loop zero sp st = st
  walk_loop (suc rounds) sp st = elim (read_mem32 sp) [
    | none ↦ st
    | some rd ↦
        let (go_on, st') : Bool × St = if is_code_address rd then callback rd st else (true, st) in
        if go_on then walk_loop rounds (wrap (sp + 4)) st' else st'
  ]

  -- What the callback says of `pc` and `lr` is not looked at.
  unfoldable pub aarch32_walk_stack : ℕ → ℕ → ℕ → St → St
  aarch32_walk_stack pc lr sp st = walk_loop 1024 sp (callback lr (callback pc st).1).1

-- The addresses of the application and of minisys.
abbrev pub panic_is_code_address : ℕ → Bool
panic_is_code_address address =
    leb 0x10000000 address && ltb address 0x14000000
    || leb 0x20000000 address && ltb address 0x20040000

-- What a panic prints under "Stack trace:", an address per line.
abbrev pub panic_callback : ℕ → List ℕ → Bool × List ℕ
panic_callback address out = (true, out ++ (address ∷ []))

unfoldable pub stack_trace : (ℕ → Option ℕ) → ℕ → ℕ → ℕ → List ℕ
stack_trace read_mem32 pc lr sp =
    aarch32_walk_stack read_mem32 panic_is_code_address panic_callback pc lr sp []
