-- ===== src/Retro/Saves.antt =====
-- Saved states.
use ga330_libretro.Common.{
  ℕ, zero, suc, ◌≤◌, ◌<◌, ◌≡◌, refl, Bool, true, false, ◌&&◌, some, List, [], ◌∷◌, arith, ltb, ◌==◌,
  ==_iff, ◌%◌, ◌^◌, get_or, inl, inr, Bool-cases,
}
use Prim.Native.Nat.{bit_and}
use ga330_libretro.Retro.{Coords, retro_reset, retro_serialize, retro_unserialize}

abbrev all_below : ℕ → (ℕ → Bool) → Bool
all_below zero f = true
all_below (suc n) f = all_below n f && f n

all_below_lem : (n : ℕ) (f : ℕ → Bool) → all_below n f ≡ true → (i : ℕ) → i < n → f i ≡ true
all_below_lem zero f h i below = elim below [ ]
all_below_lem (suc n) f h i below = elim (Bool-cases (i == n)) [
  | inl e ↦ (let same : i ≡ n = (==_iff i n).0 e in rw same (ground arith))
  | inr e ↦ all_below_lem n f (ground arith) i (ground arith)
]

-- Five bits of a byte.
masked_test : all_below 256 (λ n. ltb (bit_and n 31) 32) ≡ true
masked_test = refl

kept_test : all_below 32 (λ n. bit_and (n % 2 ^ 8) 31 == n) ≡ true
kept_test = refl

masked_small : (n : ℕ) → n < 256 → bit_and n 31 < 32
masked_small n h =
    let e = all_below_lem 256 (λ n. ltb (bit_and n 31) 32) masked_test n h in ground arith

kept : (n : ℕ) → n < 32 → bit_and (n % 2 ^ 8) 31 ≡ n
kept n h = (==_iff _ _).0 (all_below_lem 32 (λ n. bit_and (n % 2 ^ 8) 31 == n) kept_test n h)

-- What the coordinates can be: 0 at first and after a reset, and what a saved state of bytes says.
pub data Reachable : Coords → Type 0 where
  initial : Reachable (record { x_coord = 0; y_coord = 0 })
  reset : (c : Coords) → Reachable c → Reachable (retro_reset c)
  restored :
      (c : Coords) (data_ : List ℕ) (size : ℕ)
      → Reachable c
      → get_or data_ 0 0 < 256
      → get_or data_ 1 0 < 256
      → Reachable (retro_unserialize data_ size c).1

abbrev IsSmall : Coords → Type 0
IsSmall c = (c.x_coord < 32) × (c.y_coord < 32)

Reachable-IsSmall : (c : Coords) → Reachable c → IsSmall c
unfolding retro_reset retro_unserialize
Reachable-IsSmall c initial = (omega arith, omega arith)
Reachable-IsSmall c (reset _ h) = (omega arith, omega arith)
Reachable-IsSmall c (restored old data_ size h first second) = elim (Bool-cases (ltb size 2)) [
  | inl e ↦ rw e (Reachable-IsSmall old h)
  | inr e ↦ rw e (masked_small (get_or data_ 0 0) first, masked_small (get_or data_ 1 0) second)
]

-- In every state that the core can be in, saving with room for two bytes and restoring in any
-- later state gives the coordinates back.
pub retro_unserialize-retro_serialize :
    (c c' : Coords) (size size' : ℕ)
    → Reachable c
    → 2 ≤ size
    → 2 ≤ size'
    → (bs : List ℕ) × (retro_serialize size c ≡ some bs)
      × (retro_unserialize bs size' c' ≡ (true, c))
unfolding retro_serialize retro_unserialize
retro_unserialize-retro_serialize c c' size size' h room room' =
    let small = Reachable-IsSmall c h in
    let fits : ltb size 2 ≡ false = ground arith in
    let fits' : ltb size' 2 ≡ false = ground arith in
    (
      c.x_coord % 2 ^ 8 ∷ c.y_coord % 2 ^ 8 ∷ [],
      rw fits refl,
      rw (fits', kept c.x_coord small.0, kept c.y_coord small.1) refl,
    )
