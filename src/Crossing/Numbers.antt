-- ===== src/Crossing/Numbers.antt =====
-- A call through the thunk that make-thunks.py makes, and the table of handlers that it makes.
use ga330_libretro.Common.{
  ℕ, ◌+◌, ◌-◌, ◌^◌, ◌<◌, ◌≡◌, ◌∙◌, ap, some, List, ◌∷◌, ◌++◌, String, map, get_elem?, length, arith,
}
use ga330_libretro.Machine.{word_mod, Machine, wrap, u32_bytes}
use ga330_libretro.Machine.Access.{read_bytes-Holds}
use ga330_libretro.Machine.Words.{HoldsWord}
use ga330_libretro.Emu.Uc.{Unicorn, pc}
use ga330_libretro.Emu.Action.{Outcome}
use ga330_libretro.Emu.Host.{Host}
use ga330_libretro.Emu.Board.{SvcHandler, hook_intr}
use ga330_libretro.Emu.Board.Dispatch.{svc_instruction}
use ga330_libretro.Build.Thunks.{Row, emu, own, svc, thunks, svc_handler_names}
use ga330_libretro.Build.Thunks.Numbers.{emu_count, hook_intr-thunks}
use ga330_libretro.Crossing.{Enter, entered, resumed, served}
use ga330_libretro.Crossing.Processor.{IsProcessor}

-- A call of a function of the emulator, through the thunk that the build makes for it: when the
-- supervisor call of the thunk stands in memory, and the processor stops behind it, the call is
-- served by the handler of the function, for any rows and with fewer than 2 ^ 16 functions of the
-- emulator before this one.
pub served-hook_intr :
    {U S W : Type 0} (uc : Unicorn U) (enter : Enter U) (handler_of : String → SvcHandler U S W)
    (pre post : List Row) (row : Row) (intno k at a b c d : ℕ) (h : Host U S W) (μ : Machine)
    → IsProcessor uc enter
    → row.kind ≡ emu
    → emu_count pre < 2 ^ 16
    → get_elem? (thunks 0 (pre ++ row ∷ post)) (length pre)
      ≡ some (own row.name, some (svc k row.prototype))
    → HoldsWord μ.mem at (svc_instruction k)
    → at + 4 < word_mod
    → uc.reg_read pc (enter a b c d μ.mem) ≡ at + 4
    → served uc enter
        (hook_intr uc (map handler_of (svc_handler_names (pre ++ row ∷ post))) intno)
        h
        a
        b
        c
        d
        μ
      ≡ served uc enter (handler_of row.name) h a b c d μ
served-hook_intr uc enter handler_of pre post row intno k at a b c d h μ is emulated few thunk there
      fits at_pc =
    let before : wrap (at + 4 + 2 ^ 32 - 4) ≡ at = omega arith in
    let taken : uc.mem_read at 4 (enter a b c d μ.mem) ≡ some (u32_bytes (svc_instruction k)) =
      is.memory a b c d μ.mem at 4 (omega arith)
      ∙ read_bytes-Holds μ.mem at (u32_bytes (svc_instruction k)) there in
    ap (λ (o : Outcome _ _). resumed uc enter o μ)
      (hook_intr-thunks uc handler_of pre post row intno k (entered uc enter h a b c d μ.mem)
        emulated few thunk (rw (at_pc, before) taken))
