-- ===== src/Retro/Run.antt =====
-- A run of the core: one frame, and the frames behind the calls with which a frontend starts.
use ga330_libretro.Common.{
  ℕ, zero, suc, ◌*◌, ◌≡◌, refl, sym, subst, ap, inl, inr, Bool, Bool-cases, ◌&&◌, true, false, some,
  List, if◌then◌else◌,
}
use ga330_libretro.Common.Signed.{ℤ}
use ga330_libretro.Emu.Action.{
  Outcome, Action, Outcome-cases, undefined, done, pure, ◌>>◌, continue,
}
use ga330_libretro.Retro.Api.{
  Environment, VideoRefresh, AudioSample, AudioSampleBatch, InputPoll, InputState, Reply, GameInfo,
  set_pixel_format, format_rgb565, get_variable_update, set_support_no_game, get_log_interface,
}
use ga330_libretro.Retro.State.{Emulator, Core, Program, zeros}
use ga330_libretro.Retro.Core.{
  update_input, audio_callback, retro_init, fallback_log, retro_set_environment,
  retro_set_video_refresh, retro_set_audio_sample, retro_set_audio_sample_batch,
  retro_set_input_poll, retro_set_input_state, retro_run, retro_load_game,
}

-- The callbacks of a frontend.
pub record Frontend (F : Type 0) : Type 0 where
  pub environment : Environment F
  pub video_refresh : VideoRefresh F
  pub audio_sample : AudioSample F
  pub audio_sample_batch : AudioSampleBatch F
  pub input_poll : InputPoll F
  pub input_state : InputState F

-- The callbacks are set, and there is a frame buffer.
pub record IsWired {F : Type 0} (k : Frontend F) (c : Core F) (buffer : List ℕ) : Type 0 where
  pub frame_buf : c.frame_buf ≡ some buffer
  pub environ : c.environ_cb ≡ some k.environment
  pub video : c.video_cb ≡ some k.video_refresh
  pub audio : c.audio_cb ≡ some k.audio_sample
  pub poll : c.input_poll_cb ≡ some k.input_poll
  pub state : c.input_state_cb ≡ some k.input_state

abbrev wired : {F : Type 0} → Frontend F → List ℕ → Core F → Core F
wired k buffer c = record c {
  frame_buf = some buffer;
  environ_cb = some k.environment;
  video_cb = some k.video_refresh;
  audio_cb = some k.audio_sample;
  input_poll_cb = some k.input_poll;
  input_state_cb = some k.input_state;
}

wired-IsWired :
    {F : Type 0} (k : Frontend F) (buffer : List ℕ) (c : Core F)
    → IsWired k (wired k buffer c) buffer
wired-IsWired k buffer c = record {
  frame_buf = refl;
  environ = refl;
  video = refl;
  audio = refl;
  poll = refl;
  state = refl;
}

IsWired-wired :
    {F : Type 0} (k : Frontend F) (c : Core F) (buffer : List ℕ)
    → IsWired k c buffer
    → c ≡ wired k buffer c
IsWired-wired k c buffer h = λ i. record c {
  frame_buf = h.frame_buf i;
  environ_cb = h.environ i;
  video_cb = h.video i;
  audio_cb = h.audio i;
  input_poll_cb = h.poll i;
  input_state_cb = h.state i;
}

-- What is behind the picture of a frame: it stays in the frame buffer, the frontend is shown it, gets
-- one silent sample, and is asked for updates. Where the machine's behaviour is undefined, so is
-- the frame's.
pub data Framed {F : Type 0} (k : Frontend F) (core : Core F)
    : Outcome F (List ℕ) → Outcome (Program F) (Unit {0}) → Type 0 where
  shown :
      (pixels : List ℕ) (w : F)
      → IsWired k (record core { frame_buf = some pixels }) pixels
      → Framed k core (done pixels w) (
          done tt (record {
            core = record core { frame_buf = some pixels };
            world =
                (k.environment get_variable_update
                  (k.audio_sample 0 0 (k.video_refresh pixels 320 240 640 w))).1;
          }))
  lost : Framed k core undefined undefined

-- The frame when the picture is known.
pub Framed-done :
    {F : Type 0} (k : Frontend F) (core : Core F) (pixels : List ℕ) (w : F)
    (o : Outcome (Program F) (Unit {0}))
    → Framed k core (done pixels w) o
    → (after : Core F) × (o
        ≡ done tt (record {
          core = after;
          world =
              (k.environment get_variable_update
                (k.audio_sample 0 0 (k.video_refresh pixels 320 240 640 w))).1;
        }))
      × IsWired k after pixels
Framed-done k core _ _ _ (shown pixels w h) = (record core { frame_buf = some pixels }, refl, h)

pub Framed-undefined :
    {F : Type 0} (k : Frontend F) (core : Core F) (o : Outcome (Program F) (Unit {0}))
    → Framed k core undefined o
    → o ≡ undefined
Framed-undefined k core _ lost = refl

module _ {F : Type 0} (emu : Emulator F) (k : Frontend F) where
  -- The picture that the machine makes in a frame, behind the frontend's poll.
  abbrev pub frame_picture : List ℕ → Action F (List ℕ)
  frame_picture buffer w =
      continue (emu.ccdl_run_frame (k.input_poll w)) (λ done_with. emu.ccdl_get_framebuffer buffer)

  -- The answer to whether a variable has changed.
  abbrev updates : List ℕ → F → Bool
  updates pixels w =
      let shown_to = k.audio_sample 0 0 (k.video_refresh pixels 320 240 640 w) in
      let reply = (k.environment get_variable_update shown_to).0 in reply.known && reply.updated

  retro_run-wired :
      (buffer : List ℕ) (c : Core F) (w : F)
      → Framed k
          (wired k buffer c)
          (frame_picture buffer w)
          (retro_run emu (record { core = wired k buffer c; world = w }))
  unfolding retro_run update_input audio_callback
  retro_run-wired buffer c w = elim (Outcome-cases (emu.ccdl_run_frame (k.input_poll w))) [
    | inl e1 ↦ rw (retro_run, update_input, e1) lost
    | inr (u, w1, e1) ↦ elim (Outcome-cases (emu.ccdl_get_framebuffer buffer w1)) [
      | inl e2 ↦ rw (retro_run, update_input, e1, e2) lost
      | inr (pixels, w2, e2) ↦ elim (Bool-cases (updates pixels w2)) [
        | inl e3 ↦
            rw (retro_run, update_input, e1, e2, e3) (shown pixels w2 (wired-IsWired k pixels c))
        | inr e3 ↦
            rw (retro_run, update_input, e1, e2, e3) (shown pixels w2 (wired-IsWired k pixels c))
      ]
    ]
  ]

  -- With the callbacks set and a frame buffer, a frame polls the input, runs the machine, fetches
  -- its picture, shows it, sends one silent sample, and asks for updates, in this order and each
  -- once; the picture stays in the frame buffer, and the callbacks stay set. If the run of the
  -- machine or the fetch is undefined, as without an engine, so is the frame.
  pub retro_run-frame :
      (buffer : List ℕ) (p : Program F)
      → IsWired k p.core buffer
      → Framed k p.core (frame_picture buffer p.world) (retro_run emu p)
  unfolding retro_run update_input audio_callback
  retro_run-frame buffer p h =
      subst
        (λ c.
          Framed k c (frame_picture buffer p.world)
            (retro_run emu (record { core = c; world = p.world })))
        (sym (IsWired-wired k p.core buffer h)) (retro_run-wired buffer p.core p.world)

  -- A game is loaded, whatever `load_rom` returns.
  pub retro_load_game-load_rom :
      (game : GameInfo) (path buffer : List ℕ) (rc : ℤ) (r : Reply F) (w w2 : F) (p : Program F)
      → IsWired k p.core buffer
      → k.environment (set_pixel_format format_rgb565) p.world ≡ (r, w)
      → r.known ≡ true
      → game.path ≡ some path
      → emu.load_rom (some path) w ≡ done rc w2
      → retro_load_game emu (some game) p ≡ done true (record p { world = w2 })
  unfolding retro_load_game
  retro_load_game-load_rom game path buffer rc r w w2 p h asked known at_path loaded =
      rw (h.environ, asked, known, at_path)
        (ap
          (λ (o : Outcome F ℤ). elim o as (λ x. Outcome (Program F) Bool) [
            | undefined ↦ undefined
            | done rc' w' ↦
                done true (record p {
                  core = record p.core { environ_cb = some k.environment };
                  world = w';
                })
          ])
          loaded)

  -- What a frontend calls before the first frame.
  unfoldable pub start_up : Action (Program F) (Unit {0})
  start_up = do
    retro_set_environment emu k.environment
    retro_set_video_refresh k.video_refresh
    retro_set_audio_sample k.audio_sample
    retro_set_audio_sample_batch k.audio_sample_batch
    retro_set_input_poll k.input_poll
    retro_set_input_state k.input_state
    retro_init

  unfoldable pub frames : ℕ → Action (Program F) (Unit {0})
  frames zero = pure tt
  frames (suc n) = retro_run emu >> frames n

  unfoldable pub started : Program F → Program F
  started p =
      let first = k.environment (set_support_no_game false) p.world in
      let second = k.environment get_log_interface first.1 in
      record {
        core = record p.core {
          frame_buf = some (zeros (320 * 240 * 2));
          log_cb = some (if second.0.known then second.0.log else fallback_log emu);
          video_cb = some k.video_refresh;
          audio_cb = some k.audio_sample;
          audio_batch_cb = some k.audio_sample_batch;
          environ_cb = some k.environment;
          input_poll_cb = some k.input_poll;
          input_state_cb = some k.input_state;
        };
        world = second.1;
      }

  pub start_up-started :
      (p : Program F)
      → (start_up p ≡ done tt (started p)) × IsWired k (started p).core (zeros (320 * 240 * 2))
  unfolding started start_up retro_set_environment retro_set_video_refresh retro_set_audio_sample
      retro_set_audio_sample_batch retro_set_input_poll retro_set_input_state retro_init
  start_up-started p = (
    refl,
    record {
      frame_buf = refl;
      environ = refl;
      video = refl;
      audio = refl;
      poll = refl;
      state = refl;
    },
  )
