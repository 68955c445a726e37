-- ===== src/Machine/Words.antt =====
-- Words in memory: four bytes, least significant first.
use ga330_libretro.Common.{ℕ, ◌+◌, ◌<◌, ◌≡◌, refl, List, [], ◌∷◌, arith, length, get_or, ◌++◌, suc}
use ga330_libretro.Machine.{word_mod, Memory, poke, Machine, ok, u32_at, u32_bytes, load32, store32}
use ga330_libretro.Machine.Access.{Holds, Mapped, Holds-poke, load_bytes-Holds, store_bytes-Mapped}

-- At `a` the memory holds the word `w`.
abbrev pub HoldsWord : Memory → ℕ → ℕ → Type 0
HoldsWord m a w = Holds m a (u32_bytes w)

-- A value of a `uint32_t`, a byte.
abbrev pub IsWord : ℕ → Type 0
IsWord w = w < word_mod

pub u32_at-u32_bytes : (w : ℕ) → IsWord w → u32_at (u32_bytes w) 0 ≡ w
u32_at-u32_bytes w h = omega arith

pub get_or-append : (xs ys : List ℕ) (i d : ℕ) → get_or (xs ++ ys) (length xs + i) d ≡ get_or ys i d
get_or-append [] ys i d = let e : 0 + i ≡ i = omega arith in rw e refl
get_or-append (x ∷ xs) ys i d =
    let e : suc (length xs) + i ≡ suc (length xs + i) = omega arith in
    rw e (get_or-append xs ys i d)

-- A word that stands behind `xs` in a buffer.
pub u32_at-append : (xs ys : List ℕ) (i : ℕ) → u32_at (xs ++ ys) (length xs + i) ≡ u32_at ys i
u32_at-append xs ys i = ground (
  arith,
  get_or-append xs ys i 0,
  get_or-append xs ys (i + 1) 0,
  get_or-append xs ys (i + 2) 0,
  get_or-append xs ys (i + 3) 0,
)

pub load32-HoldsWord :
    (a w : ℕ) (μ : Machine) → HoldsWord μ.mem a w → IsWord w → load32 a μ ≡ ok w μ
unfolding load32
load32-HoldsWord a w μ h fits =
    ground (arith, load_bytes-Holds a 4 (u32_bytes w) μ h refl, u32_at-u32_bytes w fits)

pub store32-Mapped :
    (a w : ℕ) (μ : Machine)
    → Mapped μ.mem a 4
    → store32 a w μ ≡ ok tt (record μ { mem = poke μ.mem a (u32_bytes w) })
unfolding store32
store32-Mapped a w μ h = store_bytes-Mapped a (u32_bytes w) μ h

pub HoldsWord-poke : (m : Memory) (a w : ℕ) → HoldsWord (poke m a (u32_bytes w)) a w
HoldsWord-poke m a w = Holds-poke m a (u32_bytes w) (omega arith)
