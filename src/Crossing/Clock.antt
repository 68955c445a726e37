-- ===== src/Crossing/Clock.antt =====
-- The clock and the delay of minisys/minisys.c, with the handlers of src/api.cpp behind them.
use ga330_libretro.Common.{
  ℕ, ◌+◌, ◌-◌, ◌*◌, ◌/◌, ◌^◌, ◌≤◌, ◌<◌, ◌≡◌, refl, ap, ◌∙◌, ◌∷◌, arith, if◌then◌else◌, ltb, leb,
  true, Bool-cases, inl, inr,
}
use ga330_libretro.Common.Signed.{pos}
use ga330_libretro.Machine.{word_mod, wrap, Machine, ok}
use ga330_libretro.Minisys.Devices.{os_time_get, os_time_dly}
use ga330_libretro.Emu.Uc.{Unicorn, r0}
use ga330_libretro.Emu.Action.{done}
use ga330_libretro.Emu.Host.{Host, System, sleeping}
use ga330_libretro.Emu.Filesystem.{Files}
use ga330_libretro.Emu.Svc.{time_ms, svc_get_time_ms, svc_sleep_ms}
use ga330_libretro.Crossing.{Enter, entered, served_devices}
use ga330_libretro.Crossing.Processor.{IsProcessor, served-same, served-kept}

-- A count of the C library's clock in milliseconds.
abbrev pub milliseconds : {W : Type 0} → System W → ℕ → ℕ
milliseconds sys n = n * 1000 / sys.clocks_per_sec

-- Two readings that may have wrapped between them.
difference : (t u : ℕ) → t ≤ u → u < t + 2 ^ 32 → wrap (wrap u + 2 ^ 32 - wrap t) ≡ u - t
difference t u forward near = omega arith

module _ {U S W : Type 0} (uc : Unicorn U) (sys : System W) (enter : Enter U) where
  os_time_get-served :
      (n : ℕ) (w : W) (h : Host U S W) (μ : Machine)
      → IsProcessor uc enter
      → h.files.1 ≡ w
      → sys.clock w ≡ pos n
      → n * 1000 ≤ sys.clock_max
      → os_time_get (served_devices uc enter sys h) μ ≡ ok (wrap (milliseconds sys n)) μ
  unfolding os_time_get svc_get_time_ms time_ms
  os_time_get-served n w h μ is world shows fits =
      let now = milliseconds sys n in
      let here : sys.clock h.files.1 ≡ pos n = ap sys.clock world ∙ shows in
      let inside : leb (n * 1000) sys.clock_max ≡ true = ground arith in
      let h' : Host U S W = record h {
        engine = uc.reg_write r0 (wrap now) (enter 0 0 0 0 μ.mem);
      } in
      served-same uc enter (svc_get_time_ms uc sys) h h' 0 0 0 0 (wrap now) μ is
        (rw (svc_get_time_ms, here, time_ms, inside) refl) refl (omega arith)

  os_time_dly-served :
      (ms : ℕ) (h : Host U S W) (μ : Machine)
      → IsProcessor uc enter
      → ms < word_mod
      → (h' : Host U S W) × (svc_sleep_ms uc sys (entered uc enter h ms 0 0 0 μ.mem) ≡ done tt h')
        × (os_time_dly (served_devices uc enter sys h) ms μ ≡ ok tt μ)
        × (h'.files ≡ (h.files.0, sys.sleep_for ms h.files.1))
  unfolding os_time_dly svc_sleep_ms
  os_time_dly-served ms h μ is fits =
      let args = is.registers ms 0 0 0 μ.mem fits (omega arith) (omega arith) (omega arith) in
      let files : Files S W = (h.files.0, sys.sleep_for ms h.files.1) in
      let u = enter ms 0 0 0 μ.mem in
      let h' : Host U S W = record {
        engine = u;
        files = files;
        out = if ltb 100 ms then sleeping ms ∷ h.out else h.out;
      } in
      let ran : svc_sleep_ms uc sys (entered uc enter h ms 0 0 0 μ.mem) ≡ done tt h' =
        elim (Bool-cases (ltb 100 ms)) [
          | inl long ↦ rw (args.in_r0, long) refl
          | inr short ↦ rw (args.in_r0, short) refl
        ] in
      (h', ran, served-kept uc enter (svc_sleep_ms uc sys) h h' ms 0 0 0 μ is ran refl, refl)

  -- An application reads the clock, waits for any time, and reads the clock again: as uint32_ts,
  -- the difference of the two readings is the number of milliseconds by which the clock of the C
  -- library has moved while the emulator slept, whatever was asked for. This is for a processor
  -- that passes registers and memory on, and a clock that is available at both readings (its count
  -- is not negative), whose count times 1000 is within clock_t both times, that does not go back,
  -- and that moves by fewer than 2 ^ 32 milliseconds.
  pub os_time_get-os_time_dly :
      (ms n1 n2 : ℕ) (h : Host U S W) (μ : Machine)
      → IsProcessor uc enter
      → ms < word_mod
      → sys.clock h.files.1 ≡ pos n1
      → n1 * 1000 ≤ sys.clock_max
      → sys.clock (sys.sleep_for ms h.files.1) ≡ pos n2
      → n2 * 1000 ≤ sys.clock_max
      → milliseconds sys n1 ≤ milliseconds sys n2
      → milliseconds sys n2 < milliseconds sys n1 + 2 ^ 32
      → (t1 : ℕ) × (os_time_get (served_devices uc enter sys h) μ ≡ ok t1 μ)
        × (h' : Host U S W) × (svc_sleep_ms uc sys (entered uc enter h ms 0 0 0 μ.mem) ≡ done tt h')
        × (os_time_dly (served_devices uc enter sys h) ms μ ≡ ok tt μ)
        × (t2 : ℕ) × (os_time_get (served_devices uc enter sys h') μ ≡ ok t2 μ)
        × (wrap (t2 + 2 ^ 32 - t1) ≡ milliseconds sys n2 - milliseconds sys n1)
  os_time_get-os_time_dly ms n1 n2 h μ is fits now now_fits later later_fits forward near =
      let (h', ran, waited, files) = os_time_dly-served ms h μ is fits in
      (
        wrap (milliseconds sys n1),
        os_time_get-served n1 h.files.1 h μ is refl now now_fits,
        h',
        ran,
        waited,
        wrap (milliseconds sys n2),
        os_time_get-served n2 (sys.sleep_for ms h.files.1) h' μ is
            (ap (λ (f : Files S W). f.1) files) later later_fits,
        difference (milliseconds sys n1) (milliseconds sys n2) forward near,
      )
