-- ===== src/Emu/Action.antt =====
-- C++ code that changes a state `H`: it ends with a value and the new state, or its behaviour is
-- undefined (a null pointer that is read, a division by 0, a value that was never set).

use ga330_libretro.Common.{◌≡◌, ◌⊎◌, refl, inl, inr}

pub data Outcome (H A : Type 0) : Type 0 where
  done : A → H → Outcome H A
  undefined : Outcome H A

abbrev pub Action : Type 0 → Type 0 → Type 0
Action H A = H → Outcome H A

abbrev pub pure : {H A : Type 0} → A → Action H A
pure a h = done a h

abbrev pub stuck : {H A : Type 0} → Action H A
stuck h = undefined

pub Outcome-cases :
    {H A : Type 0} (o : Outcome H A) → (o ≡ undefined) ⊎ ((a : A) × (h : H) × (o ≡ done a h))
Outcome-cases (done a h) = inr (a, h, refl)
Outcome-cases undefined = inl refl

module _ {H A B : Type 0} where
  abbrev pub continue : Outcome H A → (A → Action H B) → Outcome H B
  continue (done a h) k = k a h
  continue undefined k = undefined

  infixl 5 ◌>>=◌ ◌>>◌
  abbrev pub ◌>>=◌ : Action H A → (A → Action H B) → Action H B
  m >>= k = λ h. continue (m h) k

  abbrev pub ◌>>◌ : Action H A → Action H B → Action H B
  m >> n = m >>= λ _. n
