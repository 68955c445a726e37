-- ===== src/Retro/Core.antt =====
-- The core of src/libretro-main.cpp: its static variables, the callbacks that the frontend sets, and
-- the functions that the frontend calls.
use ga330_libretro.Common.{
  ℕ, ◌*◌, Bool, true, false, ◌&&◌, not, Option, none, some, List, [], ◌∷◌, if◌then◌else◌, ◌==◌,
}
use ga330_libretro.Emu.Action.{Action, Outcome, done, undefined, pure, stuck, ◌>>=◌, ◌>>◌}
use ga330_libretro.Retro.{
  get_keypad_state, retro_reset, retro_serialize, retro_serialize_size, retro_unserialize,
}
use ga330_libretro.Retro.State.{
  Emulator, Core, Program, retro_get_memory_data, retro_get_memory_size, retro_api_version,
  retro_get_region, zeros, joypad_of, system_info, system_av_info,
}
use ga330_libretro.Retro.Api.{
  log_info, format_rgb565, device_joypad, joypad_up, joypad_number, GameInfo, set_pixel_format,
  get_variable_update, set_support_no_game, get_log_interface, LogPrintf, Environment, VideoRefresh,
  AudioSample, AudioSampleBatch, InputPoll, InputState, RetroCore,
}

module _ {F : Type 0} where
  -- A call through a pointer, which may be null.
  abbrev pub through : {T A : Type 0} → Option T → (T → F → A × F) → Action (Program F) A
  through none f p = undefined
  through (some cb) f p = let (v, w) = f cb p.world in done v (record p { world = w })

  abbrev pub gets : {A : Type 0} → (Program F → A) → Action (Program F) A
  gets f p = done (f p) p

  abbrev pub set_core : (Core F → Core F) → Action (Program F) (Unit {0})
  set_core f p = done tt (record p { core = f p.core })

  -- The outcome of the world, with the core around it.
  abbrev pub around : {A : Type 0} → Program F → Outcome F A → Outcome (Program F) A
  around p undefined = undefined
  around p (done a w) = done a (record p { world = w })

  abbrev pub on_world : {A : Type 0} → Action F A → Action (Program F) A
  on_world m p = around p (m p.world)

  unfoldable pub retro_init : Action (Program F) (Unit {0})
  retro_init = set_core (λ c. record c { frame_buf = some (zeros (320 * 240 * 2)) })

  unfoldable pub retro_deinit : Action (Program F) (Unit {0})
  retro_deinit = set_core (λ c. record c { frame_buf = none })

  unfoldable pub retro_set_controller_port_device : ℕ → ℕ → Action (Program F) (Unit {0})
  retro_set_controller_port_device port device = do
    log ← gets (λ p. p.core.log_cb)
    through log
        (λ cb w. (tt, cb log_info "Plugging device %u into port %u.\n" (device ∷ port ∷ []) w))

  unfoldable pub retro_set_audio_sample : AudioSample F → Action (Program F) (Unit {0})
  retro_set_audio_sample cb = set_core (λ c. record c { audio_cb = some cb })

  unfoldable pub retro_set_audio_sample_batch : AudioSampleBatch F → Action (Program F) (Unit {0})
  retro_set_audio_sample_batch cb = set_core (λ c. record c { audio_batch_cb = some cb })

  unfoldable pub retro_set_input_poll : InputPoll F → Action (Program F) (Unit {0})
  retro_set_input_poll cb = set_core (λ c. record c { input_poll_cb = some cb })

  unfoldable pub retro_set_input_state : InputState F → Action (Program F) (Unit {0})
  retro_set_input_state cb = set_core (λ c. record c { input_state_cb = some cb })

  unfoldable pub retro_set_video_refresh : VideoRefresh F → Action (Program F) (Unit {0})
  retro_set_video_refresh cb = set_core (λ c. record c { video_cb = some cb })

  -- The answer of the second call is not used.
  unfoldable pub update_input : Action (Program F) (Unit {0})
  update_input = do
    poll ← gets (λ p. p.core.input_poll_cb)
    through poll (λ cb w. (tt, cb w))
    state ← gets (λ p. p.core.input_state_cb)
    pressed ← through state (λ cb w. (cb 0 device_joypad 0 (joypad_number joypad_up) w, w))
    pure tt

  -- `get_keypad_state` through the frontend's callback.
  unfoldable pub keypad : Action (Program F) ℕ
  keypad = do
    state ← gets (λ p. p.core.input_state_cb)
    through state (λ cb w. (
      get_keypad_state
          (λ button. not (cb 0 device_joypad 0 (joypad_number (joypad_of button)) w == 0)),
      w,
    ))

  abbrev pub check_variables : Action (Program F) (Unit {0})
  check_variables = pure tt

  unfoldable pub audio_callback : Action (Program F) (Unit {0})
  audio_callback = do audio ← gets (λ p. p.core.audio_cb); through audio (λ cb w. (tt, cb 0 0 w))

  unfoldable pub retro_unload_game : Action (Program F) (Unit {0})
  retro_unload_game = pure tt

  unfoldable pub retro_cheat_reset : Action (Program F) (Unit {0})
  retro_cheat_reset = pure tt

  unfoldable pub retro_cheat_set : ℕ → Bool → Action (Program F) (Unit {0})
  retro_cheat_set index enabled = pure tt

  module _ (emu : Emulator F) where
    unfoldable pub fallback_log : LogPrintf F
    fallback_log level fmt va = emu.print_error fmt va

    unfoldable pub retro_set_environment : Environment F → Action (Program F) (Unit {0})
    retro_set_environment cb = do
      set_core (λ c. record c { environ_cb = some cb })
      first ← through (some cb) (λ call w. call (set_support_no_game false) w)
      second ← through (some cb) (λ call w. call get_log_interface w)
      set_core (λ c. record c { log_cb = some (if second.known then second.log else fallback_log) })

    unfoldable pub retro_run : Action (Program F) (Unit {0})
    retro_run = do
      update_input
      on_world emu.ccdl_run_frame
      pixels ← gets (λ p. p.core.frame_buf)
      buffer ← through pixels (λ buffer w. (buffer, w))
      frame_buf ← on_world (emu.ccdl_get_framebuffer buffer)
      set_core (λ c. record c { frame_buf = some frame_buf })
      video ← gets (λ p. p.core.video_cb)
      through video (λ cb w. (tt, cb frame_buf 320 240 (320 * 2) w))
      audio_callback
      environ ← gets (λ p. p.core.environ_cb)
      update ← through environ (λ cb w. cb get_variable_update w)
      if update.known && update.updated then check_variables else pure tt

    -- The result of `load_rom` is not looked at.
    abbrev load : Option (List ℕ) → Action (Program F) Bool
    load path p = elim (emu.load_rom path p.world) [
      | undefined ↦ undefined
      | done rc w ↦ done true (record p { world = w })
    ]

    -- `info` is nothing for a null pointer.
    unfoldable pub retro_load_game : Option GameInfo → Action (Program F) Bool
    retro_load_game info = do
      environ ← gets (λ p. p.core.environ_cb)
      reply ← through environ (λ cb w. cb (set_pixel_format format_rgb565) w)
      log ← gets (λ p. p.core.log_cb)
      if not reply.known
          then (through log (λ cb w. (tt, cb log_info "RGB565 is not supported.\n" [] w))
              >> pure false)
          else elim info [ none ↦ stuck | some game ↦ check_variables >> load game.path ]

    unfoldable pub retro_load_game_special : ℕ → Option GameInfo → ℕ → Action (Program F) Bool
    retro_load_game_special type info num =
        if not (type == 0x200)
        then pure false
        else if not (num == 2)
        then pure false
        else retro_load_game none

    -- The core as the frontend sees it.
    abbrev pub core_functions : RetroCore (Program F) F
    core_functions = record {
      set_environment = retro_set_environment;
      set_video_refresh = retro_set_video_refresh;
      set_audio_sample = retro_set_audio_sample;
      set_audio_sample_batch = retro_set_audio_sample_batch;
      set_input_poll = retro_set_input_poll;
      set_input_state = retro_set_input_state;
      init = retro_init;
      deinit = retro_deinit;
      version = retro_api_version;
      get_system_info = system_info;
      get_system_av_info = system_av_info;
      set_controller_port_device = retro_set_controller_port_device;
      reset = set_core (λ c. record c { coords = retro_reset c.coords });
      run = retro_run;
      serialize_size = retro_serialize_size;
      serialize = λ size. gets (λ p. retro_serialize size p.core.coords);
      unserialize = λ bytes size p.
          let (ok, coords) = retro_unserialize bytes size p.core.coords in
          done ok (record p { core = record p.core { coords = coords } });
      cheat_reset = retro_cheat_reset;
      cheat_set = retro_cheat_set;
      load_game = retro_load_game;
      load_game_special = retro_load_game_special;
      unload_game = retro_unload_game;
      get_region = retro_get_region;
      get_memory_data = retro_get_memory_data;
      get_memory_size = retro_get_memory_size;
    }
