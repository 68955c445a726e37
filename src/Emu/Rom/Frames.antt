-- ===== src/Emu/Rom/Frames.antt =====
-- A frame of the machine: with an engine, and when its run fails.
use ga330_libretro.Common.{
  ℕ, ◌*◌, ◌≡◌, ◌≢◌, refl, sym, ◌∙◌, ap, Bool, true, false, none, some, List, ◌∷◌, arith, ◌==◌,
  Bool-cases, Option-cases, inl, inr, if◌then◌else◌,
}
use ga330_libretro.Emu.Action.{done}
use ga330_libretro.Emu.Uc.{Unicorn, pc}
use ga330_libretro.Emu.Host.{Host, failed, at_pc}
use ga330_libretro.Emu.Board.{framebuf_addr}
use ga330_libretro.Emu.Rom.{
  Board, Surroundings, resume, ccdl_run_frame, picture, ccdl_get_framebuffer,
}

module _ {U S W : Type 0} (uc : Unicorn U) (env : Surroundings U S W) where
  -- The machine behind a frame.
  abbrev pub next_board : Board U S W → Board U S W
  next_board b = if b.aborted then b else resume uc env b

  resume-opened : (b : Board U S W) → (resume uc env b).opened ≡ b.opened
  unfolding resume
  resume-opened b =
      elim (Bool-cases ((env.emu_start (uc.reg_read pc b.host.engine) b.host).0 == 0)) [
        | inl e ↦ rw (resume, e) refl
        | inr e ↦ rw (resume, e) refl
      ]

  pub next_board-opened : (b : Board U S W) → (next_board b).opened ≡ b.opened
  next_board-opened b =
      let end = λ (c : Bool). (if c then b else resume uc env b).opened in
      elim (Bool-cases b.aborted) [ inl e ↦ ap end e | inr e ↦ ap end e ∙ resume-opened b ]

  pub ccdl_run_frame-opened :
      (b : Board U S W) → b.opened ≡ true → ccdl_run_frame uc env b ≡ done tt (next_board b)
  unfolding ccdl_run_frame
  ccdl_run_frame-opened b has = elim (Bool-cases b.aborted) [
    | inl e ↦ rw (ccdl_run_frame, e) refl
    | inr e ↦ rw (ccdl_run_frame, e, has) refl
  ]

  pub ccdl_get_framebuffer-opened :
      (last : List ℕ) (b : Board U S W)
      → b.opened ≡ true
      → ccdl_get_framebuffer uc env last b ≡ done (picture uc env last b) b
  unfolding ccdl_get_framebuffer
  ccdl_get_framebuffer-opened last b has = rw (ccdl_get_framebuffer, has) refl

  pub next_board-aborted : (b : Board U S W) → b.aborted ≡ true → next_board b ≡ b
  next_board-aborted b e = rw e refl

  -- The machine when the processor has stopped with an error, in the host `h`.
  abbrev pub failed_board : ℕ → Board U S W → Host U S W → Board U S W
  failed_board err b h = record b {
    host = record h { out = failed err ∷ at_pc (uc.reg_read pc b.host.engine) ∷ h.out };
    aborted = true;
  }

  pub next_board-failed :
      (err : ℕ) (b : Board U S W) (h : Host U S W)
      → b.aborted ≡ false
      → env.emu_start (uc.reg_read pc b.host.engine) b.host ≡ (err, h)
      → err ≢ 0
      → next_board b ≡ failed_board err b h
  unfolding resume
  next_board-failed err b h runs ran ne =
      let test : (err == 0) ≡ false = ground arith in rw (runs, resume, ran, test) refl

  picture-none :
      (last : List ℕ) (b : Board U S W)
      → uc.mem_read framebuf_addr (320 * 240 * 2) b.host.engine ≡ none
      → picture uc env last b ≡ last
  unfolding picture
  picture-none last b e = rw (picture, e) refl

  picture-some :
      (last bytes : List ℕ) (b : Board U S W)
      → uc.mem_read framebuf_addr (320 * 240 * 2) b.host.engine ≡ some bytes
      → picture uc env last b ≡ bytes
  unfolding picture
  picture-some last bytes b e = rw (picture, e) refl

-- A second look at the same machine shows the same picture.
pub same_picture :
    {U S W : Type 0} (uc : Unicorn U) (env env' : Surroundings U S W) (last : List ℕ)
    (b : Board U S W)
    → picture uc env' (picture uc env last b) b ≡ picture uc env last b
same_picture uc env env' last b =
    elim (Option-cases (uc.mem_read framebuf_addr (320 * 240 * 2) b.host.engine)) [
      | inl e ↦ picture-none uc env' (picture uc env last b) b e
      | inr (bytes, e) ↦
          picture-some uc env' (picture uc env last b) bytes b e
          ∙ sym (picture-some uc env last bytes b e)
    ]
