-- ===== src/Machine/Frame.antt =====
-- What a write leaves alone.
use ga330_libretro.Common.{
  Option, none, some, ap, get_elem?, ℕ, zero, suc, ◌≡◌, ◌+◌, ◌≤◌, ◌⊎◌, refl, List, arith, length,
  ◌∙◌,
}
use ga330_libretro.Machine.{word_mod, Memory, wrap, offset, poke, read_bytes, is_mapped}
use ga330_libretro.Machine.Access.{Holds, SameOn, poke-outside, Holds-frame}

-- Two ranges of addresses have no address in common.
abbrev pub Apart : ℕ → ℕ → ℕ → ℕ → Type 0
Apart a n b k = (a + n ≤ b) ⊎ (b + k ≤ a)

pub SameOn-refl : (lo hi : ℕ) (m : Memory) → SameOn lo hi m m
SameOn-refl lo hi m x p q = refl

pub SameOn-trans :
    (lo hi : ℕ) (m m' m'' : Memory) → SameOn lo hi m m' → SameOn lo hi m' m'' → SameOn lo hi m m''
SameOn-trans lo hi m m' m'' h k x p q = k x p q ∙ h x p q

pub SameOn-poke :
    (lo hi : ℕ) (m : Memory) (a : ℕ) (bs : List ℕ)
    → a + length bs ≤ word_mod
    → (a + length bs ≤ lo) ⊎ (hi ≤ a)
    → SameOn lo hi m (poke m a bs)
SameOn-poke lo hi m a bs fits apart x p q = poke-outside m a bs x fits (ground (arith, apart))

pub Holds-poke-Apart :
    (m : Memory) (a : ℕ) (bs : List ℕ) (b : ℕ) (cs : List ℕ)
    → a + length bs ≤ word_mod
    → b + length cs ≤ word_mod
    → Apart a (length bs) b (length cs)
    → Holds m b cs
    → Holds (poke m a bs) b cs
Holds-poke-Apart m a bs b cs fits top apart =
    Holds-frame m (poke m a bs) b b (b + length cs) cs
      (SameOn-poke b (b + length cs) m a bs fits apart) (omega arith) (omega arith) top

-- Memories that agree on all addresses are read in the same way.
pub read_bytes-SameOn :
    (m m' : Memory) (a n : ℕ) → SameOn 0 word_mod m m' → read_bytes m' a n ≡ read_bytes m a n
unfolding read_bytes
read_bytes-SameOn m m' a zero same = refl
read_bytes-SameOn m m' a (suc n) same =
    ground (arith, same (wrap a) (omega arith) (omega arith), read_bytes-SameOn m m' (a + 1) n same)

pub is_mapped-SameOn :
    (m m' : Memory) (a n : ℕ) → SameOn 0 word_mod m m' → is_mapped m' a n ≡ is_mapped m a n
unfolding is_mapped
is_mapped-SameOn m m' a zero same = refl
is_mapped-SameOn m m' a (suc n) same =
    ground (arith, same (wrap a) (omega arith) (omega arith), is_mapped-SameOn m m' (a + 1) n same)

pub SameOn-poke_both :
    (lo hi : ℕ) (m m' : Memory) (a : ℕ) (bs : List ℕ)
    → SameOn lo hi m m'
    → SameOn lo hi (poke m a bs) (poke m' a bs)
unfolding poke
SameOn-poke_both lo hi m m' a bs same x p q =
    ap (λ (o : Option ℕ). elim (get_elem? bs (offset a x)) [ none ↦ o | some b ↦ some b ])
      (same x p q)
