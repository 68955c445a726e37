-- ===== src/Retro/Emulated.antt =====
-- The core of src/libretro-main.cpp on the machine of src/ccdl.cpp: what a frontend gets to see.
use ga330_libretro.Common.{
  ℕ, zero, suc, ◌≡◌, refl, subst, ◌∙◌, ap, Bool, true, false, Bool-cases, inl, inr, Option, none,
  some, List, String,
}
use ga330_libretro.Common.Signed.{ℤ}
use ga330_libretro.Emu.Action.{Action, Outcome, done, undefined, ◌>>=◌, ◌>>◌, continue}
use ga330_libretro.Emu.Uc.{Unicorn}
use ga330_libretro.Emu.Rom
use ga330_libretro.Emu.Rom.{Board, Surroundings}
use ga330_libretro.Emu.Rom.Frames.{
  next_board, next_board-opened, ccdl_run_frame-opened, ccdl_get_framebuffer-opened,
}
use ga330_libretro.Retro.Api.{
  Reply, GameInfo, get_variable_update, set_support_no_game, get_log_interface,
}
use ga330_libretro.Retro.State.{Emulator, Program}
use ga330_libretro.Retro.Core.{retro_run, retro_load_game}
use ga330_libretro.Retro.Run.{
  Frontend, IsWired, Framed, Framed-done, Framed-undefined, frame_picture, retro_run-frame,
  start_up, frames,
}

-- The machine, and the frontend with its user.
pub record Console (U S W V : Type 0) : Type 0 where
  pub board : Board U S W
  pub viewer : V

module _ {U S W V : Type 0} where
  -- A callback of the frontend does not touch the machine.
  abbrev pub beside : {A : Type 0} → (V → A × V) → Console U S W V → A × Console U S W V
  beside f c = let (a, v) = f c.viewer in (a, record c { viewer = v })

  abbrev pub on_viewer : (V → V) → Console U S W V → Console U S W V
  on_viewer f c = record c { viewer = f c.viewer }

  abbrev pub with_log : Reply V → Reply (Console U S W V)
  with_log r = record {
    known = r.known;
    log = λ level fmt va. on_viewer (r.log level fmt va);
    updated = r.updated;
  }

  abbrev pub attached : Frontend V → Frontend (Console U S W V)
  attached k = record {
    environment = λ command c.
        let (r, v) = k.environment command c.viewer in (with_log r, record c { viewer = v });
    video_refresh =
        λ pixels width height pitch. on_viewer (k.video_refresh pixels width height pitch);
    audio_sample = λ left right. on_viewer (k.audio_sample left right);
    audio_sample_batch = λ samples n. beside (k.audio_sample_batch samples n);
    input_poll = on_viewer k.input_poll;
    input_state = λ port device index id c. k.input_state port device index id c.viewer;
  }

-- What is around the processor may depend on the frontend, which says what keys are pressed.
module _ {U S W V : Type 0} (uc : Unicorn U) (env : V → Surroundings U S W)
    (print_error : String → List ℕ → V → V) where
  -- The outcome of the machine, beside the frontend.
  abbrev pub behind : {A : Type 0} → V → Outcome (Board U S W) A → Outcome (Console U S W V) A
  behind v undefined = undefined
  behind v (done a b) = done a (record { board = b; viewer = v })

  abbrev pub load : Option (List ℕ) → Action (Console U S W V) ℤ
  load none c = undefined
  load (some path) c = behind c.viewer (Rom.load_rom uc (env c.viewer) path c.board)

  -- src/ccdl.cpp as the core uses it.
  abbrev pub machine : Emulator (Console U S W V)
  machine = record {
    load_rom = load;
    ccdl_run_frame = λ c. behind c.viewer (Rom.ccdl_run_frame uc (env c.viewer) c.board);
    ccdl_get_framebuffer =
        λ buffer c. behind c.viewer (Rom.ccdl_get_framebuffer uc (env c.viewer) buffer c.board);
    print_error = λ fmt va. on_viewer (print_error fmt va);
  }

  module _ (k : Frontend V) where
    -- Frames of a machine with an engine, each with its picture for the frontend, which is polled
    -- before and asked for updates behind it. Where the frame buffer cannot be read, the last picture
    -- stays.
    unfoldable pub played : ℕ → List ℕ → Console U S W V → Console U S W V
    played zero last c = c
    played (suc n) last c =
        let v = k.input_poll c.viewer in
        let b = next_board uc (env v) c.board in
        let pixels = Rom.picture uc (env v) last b in
        let shown_to = k.audio_sample 0 0 (k.video_refresh pixels 320 240 640 v) in
        played n pixels
          (record { board = b; viewer = (k.environment get_variable_update shown_to).1 })

    -- The machine's picture in a frame, with an engine.
    picture-opened :
        (last : List ℕ) (c : Console U S W V)
        → c.board.opened ≡ true
        → (let v = k.input_poll c.viewer in
            let b = next_board uc (env v) c.board in
            frame_picture machine (attached k) last c
            ≡ done (Rom.picture uc (env v) last b) (record { board = b; viewer = v }))
    picture-opened last c has =
        let v = k.input_poll c.viewer in
        let b = next_board uc (env v) c.board in
        let fetch = λ (u : Unit {0}) (x : Console U S W V). machine.ccdl_get_framebuffer last x in
        ap (λ o. continue (behind v o) fetch) (ccdl_run_frame-opened uc (env v) c.board has)
        ∙ ap (behind v) (
            ccdl_get_framebuffer-opened uc (env v) last b
              (next_board-opened uc (env v) c.board ∙ has))

    -- Without an engine, there is no picture.
    picture-closed :
        (last : List ℕ) (c : Console U S W V)
        → c.board.opened ≡ false
        → frame_picture machine (attached k) last c ≡ undefined
    unfolding Rom.ccdl_run_frame Rom.ccdl_get_framebuffer
    picture-closed last c not_open = elim (Bool-cases c.board.aborted) [
      | inl e ↦ rw (Rom.ccdl_run_frame, e, Rom.ccdl_get_framebuffer, not_open) refl
      | inr e ↦ rw (Rom.ccdl_run_frame, e, not_open) refl
    ]

    pub frames-played :
        (n : ℕ) (last : List ℕ) (p : Program (Console U S W V))
        → IsWired (attached k) p.core last
        → p.world.board.opened ≡ true
        → (q : Program (Console U S W V)) × (frames machine (attached k) n p ≡ done tt q)
          × (q.world ≡ played n last p.world)
    unfolding frames played
    frames-played zero last p h has = (p, refl, refl)
    frames-played (suc n) last p h has =
        let v = k.input_poll p.world.viewer in
        let b = next_board uc (env v) p.world.board in
        let pixels = Rom.picture uc (env v) last b in
        let (core, ran, wired) =
          Framed-done (attached k) p.core pixels (record { board = b; viewer = v })
            (retro_run machine p)
            (subst (λ o. Framed (attached k) p.core o (retro_run machine p))
              (picture-opened last p.world has) (retro_run-frame machine (attached k) last p h)) in
        let shown_to = k.audio_sample 0 0 (k.video_refresh pixels 320 240 640 v) in
        let c : Console U S W V = record {
          board = b;
          viewer = (k.environment get_variable_update shown_to).1;
        } in
        let (q, rest, end) =
          frames-played n pixels (record { core = core; world = c }) wired
            (next_board-opened uc (env v) p.world.board ∙ has) in
        (q, rw (frames, ◌>>=◌, continue, ran) rest, end)

    pub frames-closed :
        (n : ℕ) (last : List ℕ) (p : Program (Console U S W V))
        → IsWired (attached k) p.core last
        → p.world.board.opened ≡ false
        → frames machine (attached k) (suc n) p ≡ undefined
    unfolding frames
    frames-closed n last p h not_open =
        let ran = Framed-undefined (attached k) p.core (retro_run machine p) (
          subst (λ o. Framed (attached k) p.core o (retro_run machine p))
            (picture-closed last p.world not_open)
            (retro_run-frame machine (attached k) last p h)) in
        rw (frames, ◌>>=◌, continue, ran) refl

    -- Frames end with what `played` gives, if there is an engine; otherwise they are undefined.
    abbrev pub Plays :
        Bool
        → ℕ
        → List ℕ
        → Console U S W V
        → Outcome (Program (Console U S W V)) (Unit {0})
        → Type 0
    Plays true n last c o =
        (q : Program (Console U S W V)) × (o ≡ done tt q) × (q.world ≡ played n last c)
    Plays false n last c o = o ≡ undefined

    -- The viewer behind the calls with which a frontend starts.
    abbrev introduced : V → V
    introduced v =
        (k.environment get_log_interface (k.environment (set_support_no_game false) v).1).1

    -- What a frontend does: it starts the core, loads a game, and runs frames.
    pub play : GameInfo → ℕ → Action (Program (Console U S W V)) (Unit {0})
    play game n =
        start_up machine (attached k)
        >> (retro_load_game machine (some game) >>= λ loaded. frames machine (attached k) n)
