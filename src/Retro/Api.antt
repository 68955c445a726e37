-- ===== src/Retro/Api.antt =====
-- The part of include/libretro.h that the core implements and calls: the structures that it fills,
-- the callbacks of the frontend, and the functions of a core. `F` is everything outside of the
-- core, the frontend and the emulator.
use ga330_libretro.Common.{ℕ, Bool, Option, List, String}
use ga330_libretro.Emu.Action.{Action}

pub data LogLevel : Type 0 where
  log_debug log_info log_warn log_error : LogLevel

pub data PixelFormat : Type 0 where
  format_0rgb1555 format_xrgb8888 format_rgb565 : PixelFormat

abbrev pub api_version : ℕ
api_version = 1

abbrev pub device_joypad : ℕ
device_joypad = 1

abbrev pub region_ntsc : ℕ
region_ntsc = 0

-- The buttons of a joypad.
pub data JoypadId : Type 0 where
  joypad_b joypad_y joypad_select joypad_start joypad_up joypad_down joypad_left joypad_right :
      JoypadId
  joypad_a joypad_x joypad_l joypad_r joypad_l2 joypad_r2 joypad_l3 joypad_r3 : JoypadId

abbrev pub joypad_number : JoypadId → ℕ
joypad_number joypad_b = 0
joypad_number joypad_y = 1
joypad_number joypad_select = 2
joypad_number joypad_start = 3
joypad_number joypad_up = 4
joypad_number joypad_down = 5
joypad_number joypad_left = 6
joypad_number joypad_right = 7
joypad_number joypad_a = 8
joypad_number joypad_x = 9
joypad_number joypad_l = 10
joypad_number joypad_r = 11
joypad_number joypad_l2 = 12
joypad_number joypad_r2 = 13
joypad_number joypad_l3 = 14
joypad_number joypad_r3 = 15

-- A string that may be a null pointer is an option.
pub record SystemInfo : Type 0 where
  pub library_name : Option String
  pub library_version : Option String
  pub valid_extensions : Option String
  pub need_fullpath : Bool
  pub block_extract : Bool

-- `aspect_ratio`, `fps` and `sample_rate` are fractions: a numerator and a denominator.
pub record GameGeometry : Type 0 where
  pub base_width : ℕ
  pub base_height : ℕ
  pub max_width : ℕ
  pub max_height : ℕ
  pub aspect_ratio : ℕ × ℕ

pub record SystemTiming : Type 0 where
  pub fps : ℕ × ℕ
  pub sample_rate : ℕ × ℕ

pub record SystemAvInfo : Type 0 where
  pub geometry : GameGeometry
  pub timing : SystemTiming

pub record GameInfo : Type 0 where
  pub path : Option (List ℕ)
  pub contents : Option (List ℕ)
  pub size : ℕ
  pub meta : Option String

-- The commands of the environment callback that the core uses, with what `data` points to.
pub data EnvironmentCommand : Type 0 where
  set_pixel_format : PixelFormat → EnvironmentCommand
  get_variable_update : EnvironmentCommand
  set_support_no_game : Bool → EnvironmentCommand
  get_log_interface : EnvironmentCommand

-- The frontend's logging function, for a format and its numbers.
abbrev pub LogPrintf : Type 0 → Type 0
LogPrintf F = LogLevel → String → List ℕ → F → F

-- What the environment callback returns and writes: whether the command is known, the logging
-- function, and the flag of a variable update.
pub record Reply (F : Type 0) : Type 0 where
  pub known : Bool
  pub log : LogPrintf F
  pub updated : Bool

abbrev pub Environment : Type 0 → Type 0
Environment F = EnvironmentCommand → F → Reply F × F

-- The bytes of the pixels, the width, the height, and the bytes between two lines.
abbrev pub VideoRefresh : Type 0 → Type 0
VideoRefresh F = List ℕ → ℕ → ℕ → ℕ → F → F

abbrev pub AudioSample : Type 0 → Type 0
AudioSample F = ℕ → ℕ → F → F

abbrev pub AudioSampleBatch : Type 0 → Type 0
AudioSampleBatch F = List ℕ → ℕ → F → ℕ × F

abbrev pub InputPoll : Type 0 → Type 0
InputPoll F = F → F

-- The port, the device, the index and the button; the state is read, and nothing changes.
abbrev pub InputState : Type 0 → Type 0
InputState F = ℕ → ℕ → ℕ → ℕ → F → ℕ

-- The functions of a core, on a state `H`.
pub record RetroCore (H F : Type 0) : Type 0 where
  pub set_environment : Environment F → Action H (Unit {0})
  pub set_video_refresh : VideoRefresh F → Action H (Unit {0})
  pub set_audio_sample : AudioSample F → Action H (Unit {0})
  pub set_audio_sample_batch : AudioSampleBatch F → Action H (Unit {0})
  pub set_input_poll : InputPoll F → Action H (Unit {0})
  pub set_input_state : InputState F → Action H (Unit {0})
  pub init : Action H (Unit {0})
  pub deinit : Action H (Unit {0})
  pub version : ℕ
  pub get_system_info : SystemInfo
  pub get_system_av_info : SystemAvInfo
  pub set_controller_port_device : ℕ → ℕ → Action H (Unit {0})
  pub reset : Action H (Unit {0})
  pub run : Action H (Unit {0})
  pub serialize_size : ℕ
  pub serialize : ℕ → Action H (Option (List ℕ))
  pub unserialize : List ℕ → ℕ → Action H Bool
  pub cheat_reset : Action H (Unit {0})
  pub cheat_set : ℕ → Bool → Action H (Unit {0})
  pub load_game : Option GameInfo → Action H Bool
  pub load_game_special : ℕ → Option GameInfo → ℕ → Action H Bool
  pub unload_game : Action H (Unit {0})
  pub get_region : ℕ
  pub get_memory_data : ℕ → Option (List ℕ)
  pub get_memory_size : ℕ → ℕ
