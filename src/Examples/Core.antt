-- ===== src/Examples/Core.antt =====
-- The libretro core with some buttons pressed, a state saved, a game started and frames run.
use ga330_libretro.Common.{◌+◌, ℕ, ◌≡◌, refl, Bool, true, false, some, none, List, [], ◌∷◌, arith}
use ga330_libretro.Retro.{
  Button, a, b, x, up, down, left, right, r, l, start, Coords, retro_serialize, retro_unserialize,
}
use ga330_libretro.Common.Signed.{pos}
use ga330_libretro.Emu.Action.{done, undefined}
use ga330_libretro.Retro.State.{Emulator, Core, Program, new_core}
use ga330_libretro.Retro.Core.{retro_run, retro_load_game, retro_load_game_special}
use ga330_libretro.Retro.Run.{Frontend, Framed, retro_run-frame}
use ga330_libretro.Retro.Saves.{restored, initial, retro_unserialize-retro_serialize}

abbrev my_buttons : Button → Bool
my_buttons a = true
my_buttons b = false
my_buttons x = false
my_buttons up = true
my_buttons down = false
my_buttons left = false
my_buttons right = true
my_buttons r = true
my_buttons l = false
my_buttons start = true

abbrev my_coords : Coords
my_coords = record { x_coord = 3; y_coord = 31 }

retro_unserialize-retro_serialize_example :
    (bs : List ℕ) × (retro_serialize 2 my_coords ≡ some bs)
    × (retro_unserialize bs 2 (record { x_coord = 9; y_coord = 0 }) ≡ (true, my_coords))
unfolding retro_unserialize
retro_unserialize-retro_serialize_example =
    retro_unserialize-retro_serialize my_coords (record { x_coord = 9; y_coord = 0 }) 2 2
      (restored (record { x_coord = 0; y_coord = 0 }) (35 ∷ 255 ∷ []) 2 initial (omega arith)
        (omega arith))
      (omega arith) (omega arith)

-- The world counts the frames that were shown; the machine's picture is a single byte.
abbrev my_emulator : Emulator ℕ
my_emulator = record {
  load_rom = λ path w. done (pos 0) w;
  ccdl_run_frame = λ w. done tt w;
  ccdl_get_framebuffer = λ buffer w. done (w ∷ []) w;
  print_error = λ fmt va w. w;
}

abbrev pub my_frontend : Frontend ℕ
my_frontend = record {
  environment =
      λ command w. (record { known = true; log = λ level fmt va v. v; updated = false }, w);
  video_refresh = λ pixels width height pitch w. w + 1;
  audio_sample = λ left right w. w;
  audio_sample_batch = λ samples n w. (n, w);
  input_poll = λ w. w;
  input_state = λ port device index id w. 0;
}

abbrev my_program : Program ℕ
my_program = record { core = new_core; world = 5 }

abbrev wired_core : Core ℕ
wired_core = record new_core {
  frame_buf = some [];
  environ_cb = some my_frontend.environment;
  video_cb = some my_frontend.video_refresh;
  audio_cb = some my_frontend.audio_sample;
  input_poll_cb = some my_frontend.input_poll;
  input_state_cb = some my_frontend.input_state;
}

retro_run-frame_example :
    Framed my_frontend wired_core
      (done (5 ∷ []) 5)
      (retro_run my_emulator (record { core = wired_core; world = 5 }))
retro_run-frame_example =
    retro_run-frame my_emulator my_frontend [] (record { core = wired_core; world = 5 })
      record {
        frame_buf = refl;
        environ = refl;
        video = refl;
        audio = refl;
        poll = refl;
        state = refl;
      }

-- With RGB565 and the type and number that it asks for, the special start reads a null pointer.
retro_load_game_special_test :
    retro_load_game_special my_emulator 0x200 none 2 (record { core = wired_core; world = 5 })
    ≡ undefined
unfolding retro_load_game_special retro_load_game
retro_load_game_special_test = refl

-- A game that is started.
retro_load_game_test :
    retro_load_game my_emulator
      (some (record { path = some (7 ∷ []); contents = none; size = 0; meta = none }))
      (record { core = wired_core; world = 5 })
    ≡ done true (record { core = wired_core; world = 5 })
unfolding retro_load_game
retro_load_game_test = refl
