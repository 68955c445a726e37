-- ===== src/Retro/Keypad.antt =====
-- The keypad's state, button by button.
use ga330_libretro.Common.{
  ℕ, zero, suc, ◌+◌, ◌≡◌, refl, Bool, true, false, ◌&&◌, List, [], ◌∷◌, if◌then◌else◌, ◌==◌, ==_iff,
  get_or, length, arith,
}
use ga330_libretro.Retro.{Button, a, b, x, up, down, left, right, r, l, start, get_keypad_state}

-- The weight of a button that is pressed.
abbrev pub weight : Bool → ℕ → ℕ
weight pressed mask = if pressed then mask else 0

abbrev all_of : ℕ → (List Bool → Bool) → Bool
all_of zero f = f []
all_of (suc n) f = all_of n (λ bs. f (true ∷ bs)) && all_of n (λ bs. f (false ∷ bs))

-- A test that holds of all lists of `n` answers.
all_of_lem :
    (n : ℕ) (f : List Bool → Bool)
    → all_of n f ≡ true
    → (bs : List Bool) → length bs ≡ n
    → f bs ≡ true
all_of_lem zero f h [] e = h
all_of_lem zero f h (c ∷ bs) e = ground arith
all_of_lem (suc n) f h [] e = ground arith
all_of_lem (suc n) f h (true ∷ bs) e =
    all_of_lem n (λ cs. f (true ∷ cs)) (ground arith) bs (omega arith)
all_of_lem (suc n) f h (false ∷ bs) e =
    all_of_lem n (λ cs. f (false ∷ cs)) (ground arith) bs (omega arith)

abbrev answers : List Bool → Button → Bool
answers bs a = get_or bs 0 false
answers bs b = get_or bs 1 false
answers bs x = get_or bs 2 false
answers bs up = get_or bs 3 false
answers bs down = get_or bs 4 false
answers bs left = get_or bs 5 false
answers bs right = get_or bs 6 false
answers bs r = false
answers bs l = false
answers bs start = false

abbrev sum_of : (Button → Bool) → ℕ
sum_of p =
    weight (p a) 0x80000000
    + weight (p b) 0x8000
    + weight (p x) 0x20000000
    + weight (p up) 0x100000
    + weight (p down) 0x8000000
    + weight (p left) 0x10000000
    + weight (p right) 0x40000

keypad_test : all_of 7 (λ bs. get_keypad_state (answers bs) == sum_of (answers bs)) ≡ true
unfolding get_keypad_state
keypad_test = refl

-- The state is the sum of the weights of the buttons that are pressed; the other buttons add
-- nothing.
pub get_keypad_state_lem :
    (p : Button → Bool)
    → get_keypad_state p
      ≡ weight (p a) 0x80000000
        + weight (p b) 0x8000
        + weight (p x) 0x20000000
        + weight (p up) 0x100000
        + weight (p down) 0x8000000
        + weight (p left) 0x10000000
        + weight (p right) 0x40000
unfolding get_keypad_state
get_keypad_state_lem p = (==_iff _ _).0 (
    all_of_lem 7 (λ bs. get_keypad_state (answers bs) == sum_of (answers bs)) keypad_test
      (p a ∷ p b ∷ p x ∷ p up ∷ p down ∷ p left ∷ p right ∷ []) refl)
