-- ===== src/Minisys/Devices/Keypad.antt =====
-- What `kbd_get_status` leaves in memory.
use ga330_libretro.Common.{ℕ, ◌+◌, ◌≤◌, ◌≡◌, ◌⊎◌, inr, arith}
use ga330_libretro.Machine.{word_mod, Memory, Machine, ok, poke, u32_bytes}
use ga330_libretro.Machine.Access.{
  Mapped, SameOn, Mapped-poke, Mapped-part, Mapped-first, Holds-poke,
}
use ga330_libretro.Machine.Frame.{SameOn-trans, SameOn-poke, Holds-poke-Apart}
use ga330_libretro.Machine.Words.{HoldsWord, store32-Mapped}
use ga330_libretro.Minisys.Devices.{EmuDevices, kbd_get_status}

abbrev status_written : Memory → ℕ → ℕ → Memory
status_written m outputs keys =
    poke (poke (poke m outputs (u32_bytes 0)) (outputs + 4) (u32_bytes 0)) (outputs + 8)
      (u32_bytes keys)

-- `kbd_get_status` writes the words 0, 0 and the keypad's state, and nothing outside of the three
-- words; the keypad is read when the first two are written.
pub kbd_get_status_lem :
    (emu : EmuDevices) (outputs keys lo hi : ℕ) (μ : Machine)
    → Mapped μ.mem outputs 12
    → outputs + 12 ≤ word_mod
    → ((ν : Machine) → emu.get_key_pad ν ≡ ok keys ν)
    → (outputs + 12 ≤ lo) ⊎ (hi ≤ outputs)
    → (m : Memory) × (kbd_get_status emu outputs μ ≡ ok tt (record μ { mem = m }))
      × HoldsWord m outputs 0
      × HoldsWord m (outputs + 4) 0
      × HoldsWord m (outputs + 8) keys
      × SameOn lo hi μ.mem m
unfolding kbd_get_status
kbd_get_status_lem emu outputs keys lo hi μ room top pressed apart =
    let zero_word = u32_bytes 0 in
    let m1 = poke μ.mem outputs zero_word in
    let m2 = poke m1 (outputs + 4) zero_word in
    let m3 = status_written μ.mem outputs keys in
    let room1 = Mapped-poke μ.mem outputs zero_word outputs 12 room in
    let room2 = Mapped-poke m1 (outputs + 4) zero_word outputs 12 room1 in
    (
      m3,
      rw
          (
            store32-Mapped outputs 0 μ (Mapped-first μ.mem outputs 12 4 (omega arith) room),
            store32-Mapped (outputs + 4) 0 (record μ { mem = m1 })
                (Mapped-first m1 (outputs + 4) 8 4 (omega arith)
                  (Mapped-part m1 outputs 4 8 room1)),
            pressed (record μ { mem = m2 }),
          )
          (store32-Mapped (outputs + 8) keys (record μ { mem = m2 })
            (Mapped-part m2 outputs 8 4 room2)),
      Holds-poke-Apart m2 (outputs + 8) (u32_bytes keys) outputs zero_word (omega arith)
          (omega arith) (inr (omega arith))
          (Holds-poke-Apart m1 (outputs + 4) zero_word outputs zero_word (omega arith) (omega arith)
            (inr (omega arith)) (Holds-poke μ.mem outputs zero_word (omega arith))),
      Holds-poke-Apart m2 (outputs + 8) (u32_bytes keys) (outputs + 4) zero_word (omega arith)
          (omega arith) (inr (omega arith)) (Holds-poke m1 (outputs + 4) zero_word (omega arith)),
      Holds-poke m2 (outputs + 8) (u32_bytes keys) (omega arith),
      SameOn-trans lo hi μ.mem m2 m3
          (SameOn-trans lo hi μ.mem m1 m2
            (SameOn-poke lo hi μ.mem outputs zero_word (omega arith) (ground (arith, apart)))
            (SameOn-poke lo hi m1 (outputs + 4) zero_word (omega arith) (ground (arith, apart))))
          (SameOn-poke lo hi m2 (outputs + 8) (u32_bytes keys) (omega arith)
            (ground (arith, apart))),
    )
