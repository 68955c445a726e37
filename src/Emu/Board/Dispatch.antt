-- ===== src/Emu/Board/Dispatch.antt =====
-- From a supervisor call in the guest's memory to its handler.
use ga330_libretro.Common.{
  ℕ, ◌+◌, ◌-◌, ◌%◌, ◌^◌, ◌<◌, ◌≡◌, refl, Option, none, some, List, get_elem?, arith, Option-cases,
  inl, inr,
}
use ga330_libretro.Machine.{wrap, u32_at, u32_bytes}
use ga330_libretro.Emu.Uc.{Unicorn, pc}
use ga330_libretro.Emu.Action.{Action, stuck}
use ga330_libretro.Emu.Host.{Host}
use ga330_libretro.Emu.Board.{hook_intr}

-- The instruction `svc n`, for every processor state.
abbrev pub svc_instruction : ℕ → ℕ
svc_instruction n = 0xef000000 + n

abbrev pub handler_or_stuck : {H : Type 0} → Option (Action H (Unit {0})) → Action H (Unit {0})
handler_or_stuck none = stuck
handler_or_stuck (some handler) = handler

-- When the instruction before `pc` is `svc n`, handler `n` runs; where the table has no such
-- handler, the behaviour is undefined.
pub hook_intr-get_elem? :
    {U S W : Type 0} (uc : Unicorn U) (table : List (Action (Host U S W) (Unit {0}))) (intno n : ℕ)
    (h : Host U S W)
    → n < 2 ^ 16
    → uc.mem_read (wrap (uc.reg_read pc h.engine + 2 ^ 32 - 4)) 4 h.engine
      ≡ some (u32_bytes (svc_instruction n))
    → hook_intr uc table intno h ≡ handler_or_stuck (get_elem? table n) h
unfolding hook_intr
hook_intr-get_elem? uc table intno n h small at_pc =
    let number : u32_at (u32_bytes (svc_instruction n)) 0 % 2 ^ 16 ≡ n = omega arith in
    elim (Option-cases (get_elem? table n)) [
      | inl e ↦ rw (hook_intr, at_pc, number, e) refl
      | inr (handler, e) ↦ rw (hook_intr, at_pc, number, e) refl
    ]
