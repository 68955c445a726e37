-- ===== src/Examples/Devices.antt =====
-- The keypad, the clock and the numbers of the supervisor calls, on the small engine.
use ga330_libretro.Common.{ℕ, ◌+◌, ◌-◌, ◌^◌, ◌≡◌, refl, Bool, true, false, [], ◌∷◌, map, arith, inl}
use ga330_libretro.Common.Signed.{pos}
use ga330_libretro.Machine.{word_mod, Memory, ok, poke, is_mapped, wrap}
use ga330_libretro.Machine.Access.{SameOn}
use ga330_libretro.Machine.Words.{HoldsWord}
use ga330_libretro.Minisys.Devices.{kbd_get_status, os_time_get, os_time_dly}
use ga330_libretro.Emu.Action.{done}
use ga330_libretro.Emu.Host.{Host, System}
use ga330_libretro.Emu.Board.{hook_intr}
use ga330_libretro.Emu.Svc.{svc_putc, svc_sleep_ms}
use ga330_libretro.Build.Thunks.{emu, abort, thunks, svc_handler_names}
use ga330_libretro.Retro.{Button, a, b, x, up, down, left, right, r, l, start, get_keypad_state}
use ga330_libretro.Crossing.{entered, served, served_devices}
use ga330_libretro.Crossing.Devices.{kbd_get_status-get_keypad_state}
use ga330_libretro.Crossing.Clock.{os_time_get-os_time_dly}
use ga330_libretro.Crossing.Numbers.{served-hook_intr}
use ga330_libretro.Examples.Chip.{Chip, chip}
use ga330_libretro.Examples.Calls.{ram, my_rows, my_handler}
use ga330_libretro.Examples.Crossing.{enter, chip-IsProcessor, first_host, my_machine}

-- The player holds A and the right button.
abbrev held : ℕ → Button → Bool
held w a = true
held w b = false
held w x = false
held w up = false
held w down = false
held w left = false
held w right = true
held w r = false
held w l = false
held w start = false

-- The world is what the clock shows; a delay moves it by a tick for each millisecond, of which 2000
-- are a second.
abbrev slow_system : System ℕ
slow_system = record {
  clock = λ w. pos (w + 0xfffffffff);
  clock_max = 2 ^ 63 - 1;
  clocks_per_sec = 2000;
  sleep_for = λ ms w. w + ms;
  path_of_wide = λ units. units;
  get_keypad_state = λ w. get_keypad_state (held w);
}

kbd_get_status-get_keypad_state_example :
    (m : Memory) × (kbd_get_status
        (served_devices chip enter slow_system first_host)
        0x10000700
        my_machine
      ≡ ok tt (record my_machine { mem = m }))
    × HoldsWord m 0x10000700 0
    × HoldsWord m 0x10000704 0
    × HoldsWord m 0x10000708 0x80040000
    × SameOn 0x1000070c word_mod ram m
unfolding is_mapped poke
kbd_get_status-get_keypad_state_example =
    kbd_get_status-get_keypad_state chip slow_system enter held 0x10000700 0x1000070c word_mod
      first_host my_machine chip-IsProcessor (λ w. refl) refl (omega arith) (inl (omega arith))

-- The readings are 10 milliseconds apart after a delay of 20, for which the clock moves by 20 ticks.
os_time_get-os_time_dly_example :
    (t1 : ℕ) × (os_time_get (served_devices chip enter slow_system first_host) my_machine
      ≡ ok t1 my_machine)
    × (h' : Host Chip _ ℕ) × (svc_sleep_ms chip slow_system
          (entered chip enter first_host 20 0 0 0 ram)
        ≡ done tt h')
    × (os_time_dly (served_devices chip enter slow_system first_host) 20 my_machine
        ≡ ok tt my_machine)
    × (t2 : ℕ) × (os_time_get (served_devices chip enter slow_system h') my_machine
        ≡ ok t2 my_machine)
    × (wrap (t2 + 2 ^ 32 - t1) ≡ 10)
os_time_get-os_time_dly_example =
    os_time_get-os_time_dly chip slow_system enter 20 (first_host.files.1 + 0xfffffffff)
      (first_host.files.1 + 20 + 0xfffffffff) first_host my_machine chip-IsProcessor (omega arith)
      refl (omega arith) refl (omega arith) (omega arith) (omega arith)

served-hook_intr_example :
    served chip enter
      (hook_intr chip (map my_handler (svc_handler_names my_rows)) 2)
      first_host
      b'x'
      0
      0
      0
      my_machine
    ≡ served chip enter (svc_putc chip) first_host b'x' 0 0 0 my_machine
unfolding poke thunks
served-hook_intr_example =
    served-hook_intr chip enter my_handler
      (record { name = "GemeiEmu_newFrame"; kind = emu; prototype = "void GemeiEmu_newFrame(void)" }
        ∷ record { name = "abort"; kind = abort; prototype = "" }
        ∷ [])
      [] record { name = "GemeiEmu_putc"; kind = emu; prototype = "void GemeiEmu_putc(int c)" } 2 1
      0x10000100 b'x' 0 0 0 first_host my_machine chip-IsProcessor refl (omega arith) refl
      (refl, (refl, (refl, (refl, tt)))) (omega arith) refl
