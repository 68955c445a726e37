-- ===== src/Emu/Svc/Wide.antt =====
-- `get_wstring` and `Svc_GemeiEmu_fopenW` of src/api.cpp: the name of the file is a string of 16-bit
-- units.
use ga330_libretro.Common.{
  ℕ, zero, suc, ◌+◌, ◌*◌, ◌/◌, ◌%◌, ◌<◌, ◌^◌, ◌≡◌, ◌≢◌, refl, ap, false, some, List, [], ◌∷◌,
  length, arith, ◌==◌,
}
use ga330_libretro.Machine.{wrap}
use ga330_libretro.Emu.Uc.{Unicorn, r0, r1}
use ga330_libretro.Emu.Action.{done, ◌>>=◌, continue}
use ga330_libretro.Emu.Host.{opening_wide, Host, System, fetch}
use ga330_libretro.Emu.Filesystem.{Streams, open_file}
use ga330_libretro.Emu.Svc.{get_wstring_loop, get_wstring, svc_fopen_w}
use ga330_libretro.Emu.Svc.Files.{Text, get_string-Text}

-- The two bytes of a unit.
abbrev pub unit_bytes : ℕ → List ℕ
unit_bytes c = (c % 2 ^ 8) ∷ (c / 2 ^ 8) ∷ []

-- From index `i` on, at `addr` in the guest's memory, stand the units of the string and a 0.
abbrev pub WideText : {U : Type 0} → Unicorn U → U → ℕ → ℕ → List ℕ → Type 0
WideText uc u addr i [] = uc.mem_read (wrap (addr + i * 2)) 2 u ≡ some (unit_bytes 0)
WideText uc u addr i (c ∷ cs) =
    (uc.mem_read (wrap (addr + i * 2)) 2 u ≡ some (unit_bytes c))
    × (c ≢ 0)
    × WideText uc u addr (i + 1) cs

module _ {U S W : Type 0} (uc : Unicorn U) where
  get_wstring_loop-WideText :
      (rounds addr i : ℕ) (s : List ℕ) (h : Host U S W)
      → length s < rounds
      → WideText uc h.engine addr i s
      → get_wstring_loop uc rounds addr i h ≡ done s h
  unfolding get_wstring_loop
  get_wstring_loop-WideText zero addr i s h room text = elim room [ ]
  get_wstring_loop-WideText (suc n) addr i [] h room text =
      rw (get_wstring_loop, ◌>>=◌, continue, fetch, text) refl
  get_wstring_loop-WideText (suc n) addr i (c ∷ cs) h room text =
      let unit : c % 2 ^ 8 + 2 ^ 8 * (c / 2 ^ 8) ≡ c = omega arith in
      let test : (c == 0) ≡ false = ground arith in
      rw
        (
          get_wstring_loop,
          ◌>>=◌,
          continue,
          fetch,
          text.0,
          unit,
          test,
          get_wstring_loop-WideText n addr (i + 1) cs h (omega arith) text.2,
        )
        (ap (λ (v : ℕ). done (v ∷ cs) h) unit)

  pub svc_fopen_w-WideText :
      (lib : Streams S W) (sys : System W) (path mode : List ℕ) (h : Host U S W)
      → length path < 2 ^ 30
      → length mode < 2 ^ 31
      → WideText uc h.engine (uc.reg_read r0 h.engine) 0 path
      → Text uc h.engine (uc.reg_read r1 h.engine) 0 mode
      → (let r = open_file lib (sys.path_of_wide path) mode h.files in
          svc_fopen_w uc lib sys h
          ≡ done tt (record {
            engine = uc.reg_write r0 r.0 h.engine;
            files = r.1;
            out = opening_wide path mode ∷ h.out;
          }))
  unfolding svc_fopen_w get_wstring
  svc_fopen_w-WideText lib sys path mode h short_path short_mode at_path at_mode =
      rw
        (
          get_wstring_loop-WideText (2 ^ 30) (uc.reg_read r0 h.engine) 0 path h short_path at_path,
          get_string-Text uc (uc.reg_read r1 h.engine) mode h short_mode at_mode,
        )
        refl
