-- ===== src/Emu/Rom/Calls.antt =====
-- The calls that set the machine up: all of them, or those up to the first that fails.
use ga330_libretro.Common.{ℕ, zero, suc, ◌≡◌, ◌≢◌, refl, ◌∙◌, ap, true, List, [], ◌∷◌, ◌++◌, length}
use ga330_libretro.Common.Signed.{negsuc}
use ga330_libretro.Emu.Uc.{Unicorn}
use ga330_libretro.Emu.Action.{done}
use ga330_libretro.Emu.Host.{failed}
use ga330_libretro.Emu.Board.{Setup, setup}
use ga330_libretro.Emu.Rom.{
  Board, Surroundings, do_setup, run_setup, err_check, boot, launch, after_open, set_up,
}

module _ {U : Type 0} (uc : Unicorn U) where
  -- The calls succeed one after the other, and lead from one engine to the other.
  abbrev pub Succeeds : List Setup → U → U → Type 0
  Succeeds [] u w = u ≡ w
  Succeeds (s ∷ rest) u w = (v : U) × (do_setup uc s u ≡ (0, v)) × Succeeds rest v w

  pub run_setup-Succeeds :
      (xs : List Setup) (u w : U) → Succeeds xs u w → run_setup uc xs u ≡ (0, w)
  unfolding run_setup
  run_setup-Succeeds [] u w h = rw h refl
  run_setup-Succeeds (s ∷ rest) u w h = rw h.1 (run_setup-Succeeds rest h.0 w h.2)

  err_check_fails : (err : ℕ) (u : U) (k : U → ℕ × U) → err ≢ 0 → err_check (err, u) k ≡ (err, u)
  err_check_fails zero u k ne = absurd (ne refl)
  err_check_fails (suc e) u k ne = refl

  -- The calls up to one that fails.
  pub run_setup-fails :
      (xs : List Setup) (s : Setup) (ys : List Setup) (err : ℕ) (u v w : U)
      → Succeeds xs u v
      → do_setup uc s v ≡ (err, w)
      → err ≢ 0
      → run_setup uc (xs ++ s ∷ ys) u ≡ (err, w)
  unfolding run_setup
  run_setup-fails [] s ys err u v w h e ne = rw (h, e) (err_check_fails err w (run_setup uc ys) ne)
  run_setup-fails (x ∷ xs) s ys err u v w h e ne =
      rw h.1 (run_setup-fails xs s ys err h.0 v w h.2 e ne)

module _ {U S W : Type 0} (uc : Unicorn U) (env : Surroundings U S W) where
  pub set_up-Succeeds :
      (msbuffer app : List ℕ) (b : Board U S W) (u v : U)
      → uc.open_arm b.host.engine ≡ (0, u)
      → Succeeds uc (setup msbuffer app) u v
      → set_up uc env msbuffer app b
        ≡ boot uc env (length app) (record b { host = record b.host { engine = v }; opened = true })
  unfolding set_up after_open launch
  set_up-Succeeds msbuffer app b u v opened h =
      ap (λ (r : ℕ × U). after_open uc env r msbuffer app b) opened
      ∙ ap (λ (r : ℕ × U). launch uc env r (length app) (record b { opened = true }))
          (run_setup-Succeeds uc (setup msbuffer app) u v h)

  launch_fails :
      (err size : ℕ) (b : Board U S W) (w : U)
      → err ≢ 0
      → launch uc env (err, w) size b
        ≡ done
            (negsuc 0)
            (record b { host = record b.host { engine = w; out = failed err ∷ b.host.out } })
  unfolding launch
  launch_fails zero size b w ne = absurd (ne refl)
  launch_fails (suc e) size b w ne = refl

  -- When uc_open succeeds and a later call of the setup whose result is looked at fails, the error
  -- is printed and -1 is the result; the calls behind it are not made, and the processor does not
  -- run. The static pointer is then that of the new engine.
  pub set_up-fails :
      (msbuffer app : List ℕ) (xs : List Setup) (s : Setup) (ys : List Setup) (err : ℕ)
      (b : Board U S W) (u v w : U)
      → setup msbuffer app ≡ xs ++ s ∷ ys
      → uc.open_arm b.host.engine ≡ (0, u)
      → Succeeds uc xs u v
      → do_setup uc s v ≡ (err, w)
      → err ≢ 0
      → set_up uc env msbuffer app b
        ≡ done (negsuc 0) (record b {
          host = record b.host { engine = w; out = failed err ∷ b.host.out };
          opened = true;
        })
  unfolding set_up after_open
  set_up-fails msbuffer app xs s ys err b u v w calls opened h e ne =
      let with_engine : Board U S W = record b { opened = true } in
      let ran : run_setup uc (setup msbuffer app) u ≡ (err, w) =
        rw calls (run_setup-fails uc xs s ys err u v w h e ne) in
      ap (λ (r : ℕ × U). after_open uc env r msbuffer app b) opened
      ∙ ap (λ (r : ℕ × U). launch uc env r (length app) with_engine) ran
      ∙ launch_fails err (length app) with_engine w ne
