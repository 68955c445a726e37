-- ===== src/Retro/Failed.antt =====
-- The core on a machine whose run has failed.
use ga330_libretro.Common.{ℕ, zero, suc, ◌≡◌, ◌≢◌, refl, ◌∙◌, ap, true, false, List, String}
use ga330_libretro.Emu.Action.{done}
use ga330_libretro.Emu.Uc.{Unicorn, pc}
use ga330_libretro.Emu.Host.{Host}
use ga330_libretro.Emu.Rom.{Board, Surroundings, picture}
use ga330_libretro.Emu.Rom.Frames.{
  next_board-aborted, failed_board, next_board-failed, same_picture,
}
use ga330_libretro.Retro.Api.{get_variable_update}
use ga330_libretro.Retro.State.{Program}
use ga330_libretro.Retro.Run.{Frontend, IsWired, frames}
use ga330_libretro.Retro.Emulated.{Console, attached, machine, played, frames-played}

-- What a frontend does that is shown the same picture in each of some frames.
module _ {V : Type 0} (k : Frontend V) (pixels : List ℕ) where
  abbrev pub shown : V → V
  shown v =
      (k.environment get_variable_update
        (k.audio_sample 0 0 (k.video_refresh pixels 320 240 640 v))).1

  abbrev pub watch : ℕ → V → V
  watch zero v = v
  watch (suc n) v = watch n (shown (k.input_poll v))

module _ {U S W V : Type 0} (uc : Unicorn U) (env : V → Surroundings U S W)
    (print_error : String → List ℕ → V → V) (k : Frontend V) where
  -- The picture of the machine, which stays the same when it is taken again.
  abbrev IsLast : List ℕ → Board U S W → Type 0
  IsLast last b = (e : Surroundings U S W) → picture uc e last b ≡ last

  played-aborted :
      (n : ℕ) (pixels : List ℕ) (b : Board U S W) (v : V)
      → b.aborted ≡ true
      → IsLast pixels b
      → played uc env print_error k n pixels (record { board = b; viewer = v })
        ≡ record { board = b; viewer = watch k pixels n v }
  unfolding played
  played-aborted zero pixels b v stopped last = refl
  played-aborted (suc n) pixels b v stopped last =
      rw (next_board-aborted uc (env (k.input_poll v)) b stopped, last (env (k.input_poll v)))
        (played-aborted n pixels b (shown k pixels (k.input_poll v)) stopped last)

  -- When the processor of a machine that has an engine stops with an error in a frame, the frontend
  -- is shown the machine's picture at that point, in this frame and in all later ones; the error is
  -- printed once, and the machine stays as it is.
  pub frames-failed :
      (n err : ℕ) (last : List ℕ) (h : Host U S W) (p : Program (Console U S W V))
      → IsWired (attached k) p.core last
      → p.world.board.opened ≡ true
      → p.world.board.aborted ≡ false
      → (env (k.input_poll p.world.viewer)).emu_start
          (uc.reg_read pc p.world.board.host.engine)
          p.world.board.host
        ≡ (err, h)
      → err ≢ 0
      → (q : Program (Console U S W V)) × (frames
            (machine uc env print_error)
            (attached k)
            (suc n)
            p
          ≡ done tt q)
        × (q.world.board ≡ failed_board uc (env (k.input_poll p.world.viewer)) err p.world.board h)
        × (q.world.viewer
            ≡ watch k
                (picture uc
                  (env (k.input_poll p.world.viewer))
                  last
                  (failed_board uc (env (k.input_poll p.world.viewer)) err p.world.board h))
                (suc n)
                p.world.viewer)
  unfolding played
  frames-failed n err last h p wired has runs ran ne =
      let v = k.input_poll p.world.viewer in
      let b = failed_board uc (env v) err p.world.board h in
      let pixels = picture uc (env v) last b in
      let (q, done_all, end) = frames-played uc env print_error k (suc n) last p wired has in
      let first = next_board-failed uc (env v) err p.world.board h runs ran ne in
      let rest =
        played-aborted n pixels b (shown k pixels v) refl (λ e. same_picture uc (env v) e last b) in
      let all : played uc env print_error k (suc n) last p.world
          ≡ record { board = b; viewer = watch k pixels (suc n) p.world.viewer } =
        rw first rest in
      let end_all = end ∙ all in
      (
        q,
        done_all,
        ap (λ (c : Console U S W V). c.board) end_all,
        ap (λ (c : Console U S W V). c.viewer) end_all,
      )
