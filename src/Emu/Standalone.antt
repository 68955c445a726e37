-- ===== src/Emu/Standalone.antt =====
-- src/standalone-main.cpp: the emulator without a frontend.
use ga330_libretro.Common.{ℕ, List, [], ◌∷◌}
use ga330_libretro.Common.Signed.{ℤ, pos, negsuc}
use ga330_libretro.Emu.Action.{Action, pure, ◌>>=◌}
use ga330_libretro.Emu.Uc.{Unicorn}
use ga330_libretro.Emu.Rom.{Board, Surroundings, load_rom}

module _ {U S W : Type 0} (uc : Unicorn U) (env : Surroundings U S W) where
  -- `argv`, of which the first is the program's name. The message goes to `std::cerr`.
  unfoldable pub main :
      (List ℕ → Board U S W → Board U S W) → List (List ℕ) → Action (Board U S W) ℤ
  main usage (program ∷ rom ∷ []) = do rc ← load_rom uc env rom; pure (pos 0)
  main usage [] = λ b. pure (negsuc 0) (usage [] b)
  main usage (program ∷ []) = λ b. pure (negsuc 0) (usage program b)
  main usage (program ∷ rom ∷ more ∷ rest) = λ b. pure (negsuc 0) (usage program b)

-- No keypad is there.
abbrev pub get_keypad_state : ℕ
get_keypad_state = 0
