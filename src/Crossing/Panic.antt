-- ===== src/Crossing/Panic.antt =====
-- `Svc_GemeiEmu_panic` of src/api.cpp on the memory of the ARM code: the trace of its stack.
use ga330_libretro.Common.{
  ℕ, zero, suc, ◌+◌, ◌%◌, ◌<◌, ◌≡◌, refl, sym, ◌∙◌, ap, Option, none, some, List, [], ◌∷◌, ◌++◌,
  map, reverse, arith, Option-cases, inl, inr,
}
use mathlib.Core.List.{append-nil, append_assoc}
use ga330_libretro.Machine.{word_mod, Memory, wrap, read_bytes, u32_at}
use ga330_libretro.Emu.Uc.{Unicorn, pc, lr, sp}
use ga330_libretro.Emu.Action.{done}
use ga330_libretro.Emu.Host.{Host, panic_at, registers, address}
use ga330_libretro.Emu.Debug.{panic_is_code_address, panic_callback, stack_trace}
use ga330_libretro.Emu.Debug.Walk.{
  StackWords, enough, ends, word, visit, filter, aarch32_walk_stack-visit,
}
use ga330_libretro.Emu.Svc.{read_mem32, svc_panic}
use ga330_libretro.Crossing.Processor.{IsMemory}

-- The words from `at` up to the first that cannot be read, and no more than `n`.
unfoldable pub stack_words : (ℕ → Option ℕ) → ℕ → ℕ → List ℕ
stack_words read zero at = []
stack_words read (suc n) at = elim (read at) [
  | none ↦ []
  | some w ↦ w ∷ stack_words read n (wrap (at + 4))
]

-- A word of the ARM code's memory.
abbrev pub word_at : Memory → ℕ → Option ℕ
word_at m a = elim (read_bytes m a 4) [ none ↦ none | some bs ↦ some (u32_at bs 0) ]

stack_words-StackWords :
    (read : ℕ → Option ℕ) (n at : ℕ) → StackWords read n at (stack_words read n at)
unfolding stack_words
stack_words-StackWords read zero at = enough at
stack_words-StackWords read (suc n) at = elim (Option-cases (read at)) [
  | inl e ↦ rw (stack_words, e) (ends n at e)
  | inr (w, e) ↦
      rw (stack_words, e) (word n at w _ e (stack_words-StackWords read n (wrap (at + 4))))
]

visit-panic_callback : (xs out : List ℕ) → visit panic_callback xs out ≡ out ++ xs
visit-panic_callback [] out = sym (append-nil out)
visit-panic_callback (x ∷ xs) out =
    visit-panic_callback xs (out ++ x ∷ []) ∙ append_assoc out (x ∷ []) xs

module _ {U : Type 0} (uc : Unicorn U) where
  stack_words-IsMemory :
      (u : U) (m : Memory) (n at : ℕ)
      → IsMemory uc u m
      → at % 4 ≡ 0
      → at < word_mod
      → stack_words (read_mem32 uc u) n at ≡ stack_words (word_at m) n at
  unfolding stack_words
  stack_words-IsMemory u m zero at here aligned below = refl
  stack_words-IsMemory u m (suc n) at here aligned below =
      let same : uc.mem_read at 4 u ≡ read_bytes m at 4 = here at 4 (omega (arith, aligned)) in
      let rest =
        stack_words-IsMemory u m n (wrap (at + 4)) here (omega (arith, aligned)) (omega arith) in
      elim (Option-cases (read_bytes m at 4)) [
        | inl e ↦ rw (stack_words, read_mem32, word_at, same, e) refl
        | inr (bs, e) ↦
            rw (stack_words, read_mem32, word_at, same, e)
              (ap (λ (ws : List ℕ). u32_at bs 0 ∷ ws) rest)
      ]

module _ {U S W : Type 0} (uc : Unicorn U) where
  -- When the ARM code panics, the emulator prints `pc`, `lr` and `sp`, and a line for each address in the
  -- trace: `pc`, `lr`, and the words of the ARM code's stack that are addresses of code, from `sp` up
  -- to the first word that cannot be read, and at most 1024 words; then it stops the processor. This
  -- is for a stack pointer that is aligned.
  pub svc_panic-stack_words :
      (h : Host U S W) (m : Memory)
      → IsMemory uc h.engine m
      → uc.reg_read sp h.engine % 4 ≡ 0
      → uc.reg_read sp h.engine < word_mod
      → (let at_pc = uc.reg_read pc h.engine in
          let at_lr = uc.reg_read lr h.engine in
          let at_sp = uc.reg_read sp h.engine in
          let code = filter panic_is_code_address (stack_words (word_at m) 1024 at_sp) in
          svc_panic uc h
          ≡ done tt (record h {
            engine = uc.emu_stop h.engine;
            out =
                reverse (map address (at_pc ∷ at_lr ∷ code))
                ++ registers at_pc at_lr at_sp ∷ panic_at at_pc ∷ h.out;
          }))
  unfolding svc_panic stack_trace
  svc_panic-stack_words h m here aligned below =
      let at_pc = uc.reg_read pc h.engine in
      let at_lr = uc.reg_read lr h.engine in
      let at_sp = uc.reg_read sp h.engine in
      let read = read_mem32 uc h.engine in
      let walked : stack_trace read at_pc at_lr at_sp
          ≡ at_pc ∷ at_lr ∷ filter panic_is_code_address (stack_words (word_at m) 1024 at_sp) =
        aarch32_walk_stack-visit read panic_is_code_address panic_callback at_pc at_lr at_sp
          (stack_words read 1024 at_sp) [] (stack_words-StackWords read 1024 at_sp)
        ∙ visit-panic_callback (filter panic_is_code_address (stack_words read 1024 at_sp))
            (at_pc ∷ at_lr ∷ [])
        ∙ ap (λ (ws : List ℕ). at_pc ∷ at_lr ∷ filter panic_is_code_address ws)
            (stack_words-IsMemory uc h.engine m 1024 at_sp here aligned below) in
      rw walked refl
