-- ===== src/Crossing/Devices.antt =====
-- The keypad and the clock of minisys/minisys.c, with the handlers of src/api.cpp behind them, and the
-- keypad of src/libretro-main.cpp behind these.
use ga330_libretro.Common.{ℕ, ◌+◌, ◌≤◌, ◌<◌, ◌≡◌, refl, ◌∙◌, Bool, ◌⊎◌, arith}
use ga330_libretro.Machine.{word_mod, Memory, Machine, ok}
use ga330_libretro.Machine.Access.{Mapped, SameOn}
use ga330_libretro.Machine.Words.{HoldsWord}
use ga330_libretro.Minisys.Devices.{kbd_get_status}
use ga330_libretro.Minisys.Devices.Keypad.{kbd_get_status_lem}
use ga330_libretro.Emu.Uc.{Unicorn, r0}
use ga330_libretro.Emu.Host.{Host, System}
use ga330_libretro.Emu.Svc.{svc_get_key_pad}
use ga330_libretro.Retro.{Button, a, b, x, up, down, left, right, get_keypad_state}
use ga330_libretro.Retro.Keypad.{weight, get_keypad_state_lem}
use ga330_libretro.Crossing.{Enter, served_devices}
use ga330_libretro.Crossing.Processor.{IsProcessor, served-same}

weight-bound : (pressed : Bool) (mask : ℕ) → weight pressed mask ≤ mask
weight-bound pressed mask = ground arith

get_keypad_state-bound : (p : Button → Bool) → get_keypad_state p < word_mod
get_keypad_state-bound p = rw (get_keypad_state_lem p) (
    omega (
      arith,
      weight-bound (p a) 0x80000000,
      weight-bound (p b) 0x8000,
      weight-bound (p x) 0x20000000,
      weight-bound (p up) 0x100000,
      weight-bound (p down) 0x8000000,
      weight-bound (p left) 0x10000000,
      weight-bound (p right) 0x40000,
    ))

module _ {U S W : Type 0} (uc : Unicorn U) (sys : System W) (enter : Enter U) where
  get_key_pad-served :
      (h : Host U S W) (μ : Machine)
      → IsProcessor uc enter
      → sys.get_keypad_state h.files.1 < word_mod
      → (served_devices uc enter sys h).get_key_pad μ ≡ ok (sys.get_keypad_state h.files.1) μ
  unfolding svc_get_key_pad
  get_key_pad-served h μ is fits =
      let keys = sys.get_keypad_state h.files.1 in
      served-same uc enter (svc_get_key_pad uc sys) h
        (record h { engine = uc.reg_write r0 keys (enter 0 0 0 0 μ.mem) }) 0 0 0 0 keys μ is refl
        refl fits

  -- The buttons that the player holds are what an application reads: `kbd_get_status` leaves the words
  -- 0 and 0, and the sum of the weights of the buttons for which the frontend's callback answers that
  -- they are pressed, and writes nothing outside of the three words. The emulator asks the core it
  -- is linked into.
  pub kbd_get_status-get_keypad_state :
      (pressed : W → Button → Bool) (outputs lo hi : ℕ) (h : Host U S W) (μ : Machine)
      → IsProcessor uc enter
      → ((w : W) → sys.get_keypad_state w ≡ get_keypad_state (pressed w))
      → Mapped μ.mem outputs 12
      → outputs + 12 ≤ word_mod
      → (outputs + 12 ≤ lo) ⊎ (hi ≤ outputs)
      → (let p = pressed h.files.1 in
          (m : Memory) × (kbd_get_status (served_devices uc enter sys h) outputs μ
            ≡ ok tt (record μ { mem = m }))
          × HoldsWord m outputs 0
          × HoldsWord m (outputs + 4) 0
          × HoldsWord m (outputs + 8) (
              weight (p a) 0x80000000
              + weight (p b) 0x8000
              + weight (p x) 0x20000000
              + weight (p up) 0x100000
              + weight (p down) 0x8000000
              + weight (p left) 0x10000000
              + weight (p right) 0x40000)
          × SameOn lo hi μ.mem m)
  kbd_get_status-get_keypad_state pressed outputs lo hi h μ is linked room top apart =
      let p = pressed h.files.1 in
      let keys = linked h.files.1 ∙ get_keypad_state_lem p in
      let fits : sys.get_keypad_state h.files.1 < word_mod =
        rw (linked h.files.1) (get_keypad_state-bound p) in
      kbd_get_status_lem (served_devices uc enter sys h) outputs _ lo hi μ room top
        (λ ν. rw (← keys) (get_key_pad-served h ν is fits)) apart
