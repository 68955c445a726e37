-- ===== src/Retro.antt =====
-- src/libretro-main.cpp: `Core` has the callbacks and the run of the core, and here are the keypad and
-- the saved states. `Api` is the part of include/libretro.h that the core uses.
pub mod Api
pub mod State
pub mod Core
pub mod Run
pub mod Emulated
pub mod Failed
pub mod Keypad
pub mod Saves
use ga330_libretro.Common.{
  ℕ, zero, suc, Bool, true, false, ◌&&◌, not, Option, none, some, List, [], ◌∷◌, if◌then◌else◌, ltb,
  ◌==◌, ◌%◌, ◌^◌, get_or, String,
}
use Prim.Native.Nat.{bit_or, bit_and}

-- The buttons of `RETRO_DEVICE_JOYPAD` that the keypad asks for, `RETRO_DEVICE_ID_JOYPAD_A` and so
-- on.
pub data Button : Type 0 where
  a b x up down left right r l start : Button

-- `if (input_state_cb(...)) st |= mask;`
abbrev pub press : Bool → ℕ → ℕ → ℕ
press pressed mask st = if pressed then bit_or st mask else st

-- The pattern of the `int`. `R`, `L` and `START` are asked for, and their answers not used.
unfoldable pub get_keypad_state : (Button → Bool) → ℕ
get_keypad_state input_state =
    let st = press (input_state a) 0x80000000 0 in
    let st = press (input_state b) 0x00008000 st in
    let st = press (input_state x) 0x20000000 st in
    let st = press (input_state up) 0x00100000 st in
    let st = press (input_state down) 0x08000000 st in
    let st = press (input_state left) 0x10000000 st in press (input_state right) 0x00040000 st

-- `x_coord` and `y_coord`
pub record Coords : Type 0 where
  pub x_coord : ℕ
  pub y_coord : ℕ

unfoldable pub retro_reset : Coords → Coords
retro_reset c = record { x_coord = 0; y_coord = 0 }

abbrev pub retro_serialize_size : ℕ
retro_serialize_size = 2

-- The bytes that are written, where there is room for them; else the result is `false`.
unfoldable pub retro_serialize : ℕ → Coords → Option (List ℕ)
retro_serialize size c =
    if ltb size 2 then none else some (c.x_coord % 2 ^ 8 ∷ c.y_coord % 2 ^ 8 ∷ [])

unfoldable pub retro_unserialize : List ℕ → ℕ → Coords → Bool × Coords
retro_unserialize data_ size c = if ltb size 2 then (false, c) else (
  true,
  record { x_coord = bit_and (get_or data_ 0 0) 31; y_coord = bit_and (get_or data_ 1 0) 31 },
)
