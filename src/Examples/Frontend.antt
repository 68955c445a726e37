-- ===== src/Examples/Frontend.antt =====
-- The libretro core on the small engine: a game is started, and the processor stops in a frame.
use ga330_libretro.Common.{ℕ, ◌≡◌, refl, false, true, some, none, List, [], ◌∷◌, arith}
use ga330_libretro.Emu.Action.{done}
use ga330_libretro.Emu.Host.{failed, at_pc, emulation_done}
use ga330_libretro.Emu.Rom.{Board, picture}
use ga330_libretro.Retro.Api.{GameInfo}
use ga330_libretro.Retro.State.{Core, Program, new_core}
use ga330_libretro.Retro.Run.{frames}
use ga330_libretro.Retro.Emulated.{Console, attached, machine}
use ga330_libretro.Retro.Failed.{frames-failed}
use ga330_libretro.Examples.Chip.{Chip, chip}
use ga330_libretro.Examples.Boot.{my_env, my_board, my_bytes}
use ga330_libretro.Examples.Startup.{entry_host}
use ga330_libretro.Examples.Core.{my_frontend}

abbrev my_console : Console Chip (List ℕ) ℕ ℕ
my_console = record { board = my_board; viewer = 5 }

-- The same when `uc_open` has succeeded before.
abbrev open_console : Console Chip (List ℕ) ℕ ℕ
open_console = record { board = record my_board { opened = true }; viewer = 5 }

abbrev attached_core : Core (Console Chip (List ℕ) ℕ ℕ)
attached_core = record new_core {
  frame_buf = some [];
  environ_cb = some (attached my_frontend).environment;
  video_cb = some (attached my_frontend).video_refresh;
  audio_cb = some (attached my_frontend).audio_sample;
  input_poll_cb = some (attached my_frontend).input_poll;
  input_state_cb = some (attached my_frontend).input_state;
}

-- The engine stops with the error 6 in the first of four frames.
frames-failed_example :
    (q : Program (Console Chip (List ℕ) ℕ ℕ)) × (frames
        (machine chip (λ v. my_env 6) (λ fmt va v. v))
        (attached my_frontend)
        4
        (record { core = attached_core; world = open_console })
      ≡ done tt q)
    × (q.world.board ≡ record {
      host = record my_board.host { out = failed 6 ∷ at_pc 0 ∷ [] };
      aborted = true;
      opened = true;
    })
    × (q.world.viewer ≡ 9)
unfolding picture
frames-failed_example =
    frames-failed chip (λ v. my_env 6) (λ fmt va v. v) my_frontend 3 6 [] my_board.host
      (record { core = attached_core; world = open_console })
      record {
        frame_buf = refl;
        environ = refl;
        video = refl;
        audio = refl;
        poll = refl;
        state = refl;
      }
      refl refl refl (omega arith)

abbrev my_game : GameInfo
my_game = record { path = some (b'a' ∷ []); contents = none; size = 0; meta = none }

-- The machine behind `load_rom`, where the processor has stopped at once.
abbrev loaded_board : Board Chip (List ℕ) ℕ
loaded_board = record {
  host = record (entry_host my_bytes) { out = emulation_done 4 ∷ (entry_host my_bytes).out };
  aborted = false;
  opened = true;
}
