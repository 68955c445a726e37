-- ===== src/Crossing/Processor.antt =====
-- The memory of the engine and the memory that the ARM code works on.
use ga330_libretro.Common.{
  ℕ, ◌+◌, ◌≤◌, ◌<◌, ◌≡◌, refl, fun_ext, ◌∙◌, sym, ap, true, Option, none, some, List, [], ◌∷◌,
  length, arith, ltb, inl, inr, get_elem?, Bool-cases,
}
use ga330_libretro.Machine.{word_mod, Memory, wrap, poke, Machine, ok, ◌>>=◌, pure, read_bytes}
use ga330_libretro.Machine.Access.{Mapped, read_bytes-Holds}
use ga330_libretro.Libc.{string_at}
use ga330_libretro.Libc.Strings.{Spells, CString}
use ga330_libretro.Emu.Uc.{Unicorn, IsLawful, Reg, r0, r1, r2, r3}
use ga330_libretro.Emu.Action.{Action, done}
use ga330_libretro.Emu.Host.{Host}
use ga330_libretro.Emu.Svc.Files.{Text}
use ga330_libretro.Crossing.{Enter, entered, served, guest_memory}

-- What the engine has in its memory is what the ARM code has in its own.
abbrev pub IsMemory : {U : Type 0} → Unicorn U → U → Memory → Type 0
IsMemory uc u m = (a n : ℕ) → a + n ≤ word_mod → uc.mem_read a n u ≡ read_bytes m a n

-- The arguments of a call are in the registers.
pub record HasArgs {U : Type 0} (uc : Unicorn U) (u : U) (a b c d : ℕ) : Type 0 where
  pub in_r0 : uc.reg_read r0 u ≡ a
  pub in_r1 : uc.reg_read r1 u ≡ b
  pub in_r2 : uc.reg_read r2 u ≡ c
  pub in_r3 : uc.reg_read r3 u ≡ d

-- The processor passes registers and memory on, and a write to its memory that is mapped succeeds
-- and changes the bytes that are written.
pub record IsProcessor {U : Type 0} (uc : Unicorn U) (enter : Enter U) : Type 0 where
  pub lawful : IsLawful uc
  pub registers :
      (a b c d : ℕ) (m : Memory)
      → a < word_mod
      → b < word_mod
      → c < word_mod
      → d < word_mod
      → HasArgs uc (enter a b c d m) a b c d
  pub memory : (a b c d : ℕ) (m : Memory) → IsMemory uc (enter a b c d m) m
  pub writes :
      (a : ℕ) (bs : List ℕ) (u : U) (m : Memory)
      → IsMemory uc u m
      → a + length bs ≤ word_mod
      → Mapped m a (length bs)
      → (u' : U) × (uc.mem_write a bs u ≡ (0, u')) × IsMemory uc u' (poke m a bs)

pub read_bytes-byte :
    (m : Memory) (a : ℕ) (o : Option ℕ)
    → m (wrap a) ≡ o
    → elim (read_bytes m a 1) [ none ↦ none | some bs ↦ get_elem? bs 0 ] ≡ o
unfolding read_bytes
read_bytes-byte m a none e = rw e refl
read_bytes-byte m a (some b) e = rw e refl

-- One byte, at an address that is reduced already.
read_bytes-string_at :
    (m : Memory) (addr i b : ℕ)
    → string_at m addr i ≡ some b
    → read_bytes m (wrap (addr + i)) 1 ≡ some (b ∷ [])
read_bytes-string_at m addr i b e =
    let reduced : wrap (wrap (addr + i)) ≡ wrap (addr + i) = omega arith in
    read_bytes-Holds m (wrap (addr + i)) (b ∷ []) (ap m reduced ∙ e, tt)

module _ {U : Type 0} (uc : Unicorn U) where
  pub IsMemory-reg_write :
      (r : Reg) (v : ℕ) (u : U) (m : Memory)
      → IsLawful uc
      → IsMemory uc u m
      → IsMemory uc (uc.reg_write r v u) m
  IsMemory-reg_write r v u m law h a n fits = law.reg_mem r v a n u ∙ h a n fits

  guest_memory-byte :
      (u : U) (m beyond : Memory) (x : ℕ)
      → IsMemory uc u m
      → x < word_mod
      → guest_memory uc u beyond x ≡ m x
  guest_memory-byte u m beyond x h below =
      let inside : ltb x word_mod ≡ true = ground arith in
      let here : wrap x ≡ x = omega arith in
      rw (inside, h x 1 (omega arith)) (read_bytes-byte m x (m x) (ap m here))

  pub guest_memory-IsMemory :
      (u : U) (m beyond : Memory)
      → IsMemory uc u m
      → ((x : ℕ) → word_mod ≤ x → m x ≡ beyond x)
      → guest_memory uc u beyond ≡ m
  guest_memory-IsMemory u m beyond h same = fun_ext λ x. elim (Bool-cases (ltb x word_mod)) [
    | inl t ↦ guest_memory-byte u m beyond x h (ground arith)
    | inr f ↦ rw f (sym (same x (ground arith)))
  ]

  Text-Spells :
      (u : U) (m : Memory) (addr i : ℕ) (s : List ℕ)
      → IsMemory uc u m
      → Spells (string_at m addr) i s
      → Text uc u addr i s
  Text-Spells u m addr i [] h spells =
      h (wrap (addr + i)) 1 (omega arith) ∙ read_bytes-string_at m addr i 0 spells
  Text-Spells u m addr i (c ∷ cs) h spells = (
    h (wrap (addr + i)) 1 (omega arith) ∙ read_bytes-string_at m addr i c spells.0,
    spells.1,
    Text-Spells u m addr (i + 1) cs h spells.2,
  )

  -- A string in the memory of the ARM code is the text that the emulator reads.
  pub Text-CString :
      (u : U) (m : Memory) (addr : ℕ) (s : List ℕ)
      → IsMemory uc u m
      → CString m addr s
      → Text uc u addr 0 s
  Text-CString u m addr s = Text-Spells u m addr 0 s

module _ {U S W : Type 0} (uc : Unicorn U) (enter : Enter U) where
  -- A call of which the handler ends with a result in `r0`, and memory as `m'`.
  pub served-done :
      (handler : Action (Host U S W) (Unit {0})) (h h' : Host U S W) (a b c d v : ℕ) (u : U)
      (m' : Memory) (μ : Machine)
      → IsLawful uc
      → handler (entered uc enter h a b c d μ.mem) ≡ done tt h'
      → h'.engine ≡ uc.reg_write r0 v u
      → v < word_mod
      → IsMemory uc u m'
      → ((x : ℕ) → word_mod ≤ x → m' x ≡ μ.mem x)
      → served uc enter handler h a b c d μ ≡ ok v (record μ { mem = m' })
  served-done handler h h' a b c d v u m' μ law ran left small here beyond =
      let after = IsMemory-reg_write uc r0 v u m' law here in
      let memory = guest_memory-IsMemory uc (uc.reg_write r0 v u) m' μ.mem after beyond in
      rw (ran, left, law.reg_same r0 v u small, memory) refl

  -- A call that leaves memory as it is.
  pub served-same :
      (handler : Action (Host U S W) (Unit {0})) (h h' : Host U S W) (a b c d v : ℕ) (μ : Machine)
      → IsProcessor uc enter
      → handler (entered uc enter h a b c d μ.mem) ≡ done tt h'
      → h'.engine ≡ uc.reg_write r0 v (enter a b c d μ.mem)
      → v < word_mod
      → served uc enter handler h a b c d μ ≡ ok v μ
  served-same handler h h' a b c d v μ is ran left small =
      served-done handler h h' a b c d v (enter a b c d μ.mem) μ.mem μ is.lawful ran left small
        (is.memory a b c d μ.mem) (λ x above. refl)

  -- A call whose handler does not change the processor, and whose result is not used.
  pub served-kept :
      (handler : Action (Host U S W) (Unit {0})) (h h' : Host U S W) (a b c d : ℕ) (μ : Machine)
      → IsProcessor uc enter
      → handler (entered uc enter h a b c d μ.mem) ≡ done tt h'
      → h'.engine ≡ enter a b c d μ.mem
      → (served uc enter handler h a b c d >>= λ r. pure (tt {0})) μ ≡ ok (tt {0}) μ
  served-kept handler h h' a b c d μ is ran kept =
      let memory =
        guest_memory-IsMemory uc (enter a b c d μ.mem) μ.mem μ.mem (is.memory a b c d μ.mem)
          (λ x above. refl) in
      rw (ran, kept, memory) refl
