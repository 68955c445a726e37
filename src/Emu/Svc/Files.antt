-- ===== src/Emu/Svc/Files.antt =====
-- The supervisor calls on files, from the strings in the guest's memory to the bytes in it.
use ga330_libretro.Common.{
  ℕ, zero, suc, ◌+◌, ◌*◌, ◌/◌, ◌<◌, ◌^◌, ◌≡◌, ◌≢◌, refl, ◌∙◌, false, some, List, [], ◌∷◌, length,
  arith, ◌==◌,
}
use native.Mathlib.Nat.{div-le_self}
use ga330_libretro.Machine.{wrap}
use ga330_libretro.Emu.Uc.{Unicorn, IsLawful, r0, r1, r2, r3}
use ga330_libretro.Emu.Action.{done, undefined, ◌>>=◌, continue}
use ga330_libretro.Emu.Host.{opening, Host, fetch}
use ga330_libretro.Emu.Filesystem.{Streams, Files, open_file, read_file}
use ga330_libretro.Emu.Svc.{get_string_loop, get_string, svc_fopen, svc_fread}

-- From index `i` on, at `addr` in the guest's memory, stand the bytes of the string and a 0.
abbrev pub Text : {U : Type 0} → Unicorn U → U → ℕ → ℕ → List ℕ → Type 0
Text uc u addr i [] = uc.mem_read (wrap (addr + i)) 1 u ≡ some (0 ∷ [])
Text uc u addr i (c ∷ cs) =
    (uc.mem_read (wrap (addr + i)) 1 u ≡ some (c ∷ [])) × (c ≢ 0) × Text uc u addr (i + 1) cs

module _ {U S W : Type 0} (uc : Unicorn U) where
  get_string_loop-Text :
      (rounds addr i : ℕ) (s : List ℕ) (h : Host U S W)
      → length s < rounds
      → Text uc h.engine addr i s
      → get_string_loop uc rounds addr i h ≡ done s h
  unfolding get_string_loop
  get_string_loop-Text zero addr i s h room text = elim room [ ]
  get_string_loop-Text (suc n) addr i [] h room text =
      rw (get_string_loop, ◌>>=◌, continue, fetch, text) refl
  get_string_loop-Text (suc n) addr i (c ∷ cs) h room text =
      let test : (c == 0) ≡ false = ground arith in
      rw
        (
          get_string_loop,
          ◌>>=◌,
          continue,
          fetch,
          text.0,
          test,
          get_string_loop-Text n addr (i + 1) cs h (omega arith) text.2,
        )
        refl

  pub get_string-Text :
      (addr : ℕ) (s : List ℕ) (h : Host U S W)
      → length s < 2 ^ 31
      → Text uc h.engine addr 0 s
      → get_string uc addr h ≡ done s h
  unfolding get_string
  get_string-Text addr s h room text = get_string_loop-Text (2 ^ 31) addr 0 s h room text

  module _ (lib : Streams S W) where
    pub svc_fopen-Text :
        (path mode : List ℕ) (h : Host U S W)
        → length path < 2 ^ 31
        → length mode < 2 ^ 31
        → Text uc h.engine (uc.reg_read r0 h.engine) 0 path
        → Text uc h.engine (uc.reg_read r1 h.engine) 0 mode
        → (let r = open_file lib path mode h.files in
            svc_fopen uc lib h
            ≡ done tt (record {
              engine = uc.reg_write r0 r.0 h.engine;
              files = r.1;
              out = opening path mode ∷ h.out;
            }))
    unfolding svc_fopen
    svc_fopen-Text path mode h short_path short_mode at_path at_mode =
        rw
          (
            get_string-Text (uc.reg_read r0 h.engine) path h short_path at_path,
            get_string-Text (uc.reg_read r1 h.engine) mode h short_mode at_mode,
          )
          refl

    -- A read whose items have no bytes divides by zero, whatever the file and the rest.
    pub svc_fread-undefined :
        (h : Host U S W) → uc.reg_read r1 h.engine ≡ 0 → svc_fread uc lib h ≡ undefined
    unfolding svc_fread
    svc_fread-undefined h e = rw e refl

    -- With items of some bytes, and a buffer that can be written to: the bytes are in the guest's
    -- memory, and the number of whole items in `r0`.
    pub svc_fread-read_file :
        (bytes : List ℕ) (files' : Files S W) (u' : U) (h : Host U S W)
        → IsLawful uc
        → uc.reg_read r1 h.engine ≢ 0
        → read_file lib
            (uc.reg_read r3 h.engine)
            (wrap (uc.reg_read r1 h.engine * uc.reg_read r2 h.engine))
            h.files
          ≡ (bytes, files')
        → length bytes < 2 ^ 32
        → uc.mem_write (uc.reg_read r0 h.engine) bytes h.engine ≡ (0, u')
        → (u : U) × (svc_fread uc lib h ≡ done tt (record h { engine = u; files = files' }))
          × (uc.mem_read (uc.reg_read r0 h.engine) (length bytes) u ≡ some bytes)
          × (uc.reg_read r0 u ≡ length bytes / uc.reg_read r1 h.engine)
    unfolding svc_fread
    svc_fread-read_file bytes files' u' h law ne got short stored =
        let size = uc.reg_read r1 h.engine in
        let test : (size == 0) ≡ false = ground arith in
        let fits : length bytes / size < 2 ^ 32 = omega (arith, div-le_self (length bytes) size) in
        (
          uc.reg_write r0 (length bytes / size) u',
          rw (got, stored, test) refl,
          law.reg_mem r0 (length bytes / size) (uc.reg_read r0 h.engine) (length bytes) u'
              ∙ law.mem_same (uc.reg_read r0 h.engine) bytes h.engine u' stored,
          law.reg_same r0 (length bytes / size) u' fits,
        )
