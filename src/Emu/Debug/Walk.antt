-- ===== src/Emu/Debug/Walk.antt =====
-- The stack walk against a list of the words on the stack.
use ga330_libretro.Common.{
  ℕ, zero, suc, ◌+◌, ◌≡◌, refl, Bool, Option, none, some, List, [], ◌∷◌, if◌then◌else◌, inl, inr,
  Bool-cases,
}
use ga330_libretro.Machine.{wrap}
use ga330_libretro.Emu.Debug.{walk_loop, aarch32_walk_stack}

abbrev pub filter : (ℕ → Bool) → List ℕ → List ℕ
filter p [] = []
filter p (x ∷ xs) = let rest = filter p xs in if p x then x ∷ rest else rest

-- The words from `sp` on: those in the list can be read, and the word behind them cannot be, unless
-- they are as many as `rounds`.
pub data StackWords (read_mem32 : ℕ → Option ℕ) : ℕ → ℕ → List ℕ → Type 0 where
  enough : (sp : ℕ) → StackWords read_mem32 zero sp []
  ends : (rounds sp : ℕ) → read_mem32 sp ≡ none → StackWords read_mem32 (suc rounds) sp []
  word :
      (rounds sp w : ℕ) (ws : List ℕ)
      → read_mem32 sp ≡ some w
      → StackWords read_mem32 rounds (wrap (sp + 4)) ws
      → StackWords read_mem32 (suc rounds) sp (w ∷ ws)

-- The callback for one address after the other, until it says to stop.
abbrev pub visit : {St : Type 0} → (ℕ → St → Bool × St) → List ℕ → St → St
visit callback [] st = st
visit callback (x ∷ xs) st = let r = callback x st in if r.0 then visit callback xs r.1 else r.1

module _ {St : Type 0} (read_mem32 : ℕ → Option ℕ) (is_code_address : ℕ → Bool)
    (callback : ℕ → St → Bool × St) where
  walk_loop-visit :
      (rounds sp : ℕ) (ws : List ℕ) (st : St)
      → StackWords read_mem32 rounds sp ws
      → walk_loop read_mem32 is_code_address callback rounds sp st
        ≡ visit callback (filter is_code_address ws) st
  unfolding walk_loop
  walk_loop-visit rounds sp ws st (enough _) = refl
  walk_loop-visit rounds sp ws st (ends n _ e) = rw (walk_loop, e) refl
  walk_loop-visit rounds sp ws st (word n _ w rest e h) = elim (Bool-cases (is_code_address w)) [
    | inr other ↦ rw (walk_loop, e, other) (walk_loop-visit n (wrap (sp + 4)) rest st h)
    | inl code ↦
        rw (walk_loop, e, code)
          (elim (Bool-cases (callback w st).0) [
            | inr stop ↦ rw stop refl
            | inl go_on ↦ rw go_on (walk_loop-visit n (wrap (sp + 4)) rest (callback w st).1 h)
          ])
  ]

  -- The walk hands the callback `pc` and `lr`, and then the words on the stack that are addresses
  -- of code, in order, until it says to stop; the walk ends behind 1024 words, or at a word that
  -- cannot be read.
  pub aarch32_walk_stack-visit :
      (pc lr sp : ℕ) (ws : List ℕ) (st : St)
      → StackWords read_mem32 1024 sp ws
      → aarch32_walk_stack read_mem32 is_code_address callback pc lr sp st
        ≡ visit callback (filter is_code_address ws) (callback lr (callback pc st).1).1
  unfolding aarch32_walk_stack
  aarch32_walk_stack-visit pc lr sp ws st h =
      walk_loop-visit 1024 sp ws (callback lr (callback pc st).1).1 h
