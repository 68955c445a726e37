-- ===== src/Retro/State.antt =====
-- The static variables of src/libretro-main.cpp, what it is linked with, and its constants.
use ga330_libretro.Common.{ℕ, zero, suc, false, Option, none, some, List, [], ◌∷◌, String}
use ga330_libretro.Common.Signed.{ℤ}
use ga330_libretro.Emu.Action.{Action}
use ga330_libretro.Retro.{Button, a, b, x, up, down, left, right, r, l, start, Coords}
use ga330_libretro.Retro.Api.{
  api_version, region_ntsc, JoypadId, joypad_a, joypad_b, joypad_x, joypad_up, joypad_down,
  joypad_left, joypad_right, joypad_r, joypad_l, joypad_start, SystemInfo, SystemAvInfo, LogPrintf,
  Environment, VideoRefresh, AudioSample, AudioSampleBatch, InputPoll, InputState,
}

-- The functions of src/ccdl.hpp, and `vfprintf` to the standard error output.
pub record Emulator (F : Type 0) : Type 0 where
  pub load_rom : Option (List ℕ) → Action F ℤ
  pub ccdl_run_frame : Action F (Unit {0})
  pub ccdl_get_framebuffer : List ℕ → Action F (List ℕ)
  pub print_error : String → List ℕ → F → F

-- The static variables; a callback that has not been set is a null pointer.
pub record Core (F : Type 0) : Type 0 where
  pub frame_buf : Option (List ℕ)
  pub log_cb : Option (LogPrintf F)
  pub video_cb : Option (VideoRefresh F)
  pub audio_cb : Option (AudioSample F)
  pub audio_batch_cb : Option (AudioSampleBatch F)
  pub environ_cb : Option (Environment F)
  pub input_poll_cb : Option (InputPoll F)
  pub input_state_cb : Option (InputState F)
  pub coords : Coords

-- The core, and all that is outside of it.
pub record Program (F : Type 0) : Type 0 where
  pub core : Core F
  pub world : F

-- Before the frontend has called anything.
abbrev pub new_core : {F : Type 0} → Core F
new_core = record {
  frame_buf = none;
  log_cb = none;
  video_cb = none;
  audio_cb = none;
  audio_batch_cb = none;
  environ_cb = none;
  input_poll_cb = none;
  input_state_cb = none;
  coords = record { x_coord = 0; y_coord = 0 };
}

abbrev pub retro_get_memory_data : ℕ → Option (List ℕ)
retro_get_memory_data id = none

abbrev pub retro_get_memory_size : ℕ → ℕ
retro_get_memory_size id = 0

abbrev pub retro_api_version : ℕ
retro_api_version = api_version

abbrev pub retro_get_region : ℕ
retro_get_region = region_ntsc

-- `calloc`
unfoldable pub zeros : ℕ → List ℕ
zeros zero = []
zeros (suc n) = 0 ∷ zeros n

abbrev pub joypad_of : Button → JoypadId
joypad_of a = joypad_a
joypad_of b = joypad_b
joypad_of x = joypad_x
joypad_of up = joypad_up
joypad_of down = joypad_down
joypad_of left = joypad_left
joypad_of right = joypad_right
joypad_of r = joypad_r
joypad_of l = joypad_l
joypad_of start = joypad_start

abbrev pub system_info : SystemInfo
system_info = record {
  library_name = some "GA330";
  library_version = some "v1";
  valid_extensions = none;
  need_fullpath = false;
  block_extract = false;
}

abbrev pub system_av_info : SystemAvInfo
system_av_info = record {
  geometry = record {
    base_width = 320;
    base_height = 240;
    max_width = 320;
    max_height = 240;
    aspect_ratio = (4, 3);
  };
  timing = record { fps = (60, 1); sample_rate = (0, 1) };
}
