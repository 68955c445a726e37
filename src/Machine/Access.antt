-- ===== src/Machine/Access.antt =====
-- Reads and writes of byte ranges (the memory of `Machine`), as equations on what memory holds.
use ga330_libretro.Common.{
  ℕ, zero, suc, ◌+◌, ◌≤◌, ◌<◌, ◌≡◌, refl, true, some, List, [], ◌∷◌, ◌++◌, arith, ◌⊎◌, length,
  get_elem?, get_elem?-none, get_elem?-some, ◌∙◌, ap,
}
use ga330_libretro.Machine.{
  word_mod, Memory, wrap, offset, read_bytes, is_mapped, poke, Machine, ok, load_bytes, store_bytes,
}

-- From `a` on the memory holds `bs`.
abbrev pub Holds : Memory → ℕ → List ℕ → Type 0
Holds m a [] = Unit
Holds m a (b ∷ bs) = (m (wrap a) ≡ some b) × Holds m (a + 1) bs

-- The `n` bytes from `a` on are mapped.
abbrev pub Mapped : Memory → ℕ → ℕ → Type 0
Mapped m a n = is_mapped m a n ≡ true

-- The memories agree on the addresses from `lo` to `hi`.
abbrev pub SameOn : ℕ → ℕ → Memory → Memory → Type 0
SameOn lo hi m m' = (x : ℕ) → lo ≤ x → x < hi → m' x ≡ m x

pub read_bytes-Holds :
    (m : Memory) (a : ℕ) (bs : List ℕ) → Holds m a bs → read_bytes m a (length bs) ≡ some bs
unfolding read_bytes
read_bytes-Holds m a [] h = refl
read_bytes-Holds m a (b ∷ bs) h = rw (h.0, read_bytes-Holds m (a + 1) bs h.1) refl

pub Holds-read_bytes :
    (m : Memory) (a n : ℕ) (bs : List ℕ)
    → read_bytes m a n ≡ some bs
    → Holds m a bs × (length bs ≡ n)
unfolding read_bytes
Holds-read_bytes m a zero [] h = (tt, refl)
Holds-read_bytes m a zero (b ∷ bs) h = ground arith
Holds-read_bytes m a (suc n) [] h = ground arith
Holds-read_bytes m a (suc n) (b ∷ bs) h = ground (arith, Holds-read_bytes m (a + 1) n bs)

pub Holds-of_pointwise :
    (m : Memory) (a : ℕ) (bs : List ℕ)
    → ((i : ℕ) → i < length bs → m (wrap (a + i)) ≡ get_elem? bs i)
    → Holds m a bs
Holds-of_pointwise m a [] h = tt
Holds-of_pointwise m a (b ∷ bs) h = (
  ap (λ (k : ℕ). m (wrap k)) (omega arith) ∙ h 0 (omega arith),
  Holds-of_pointwise m (a + 1) bs
      λ i p. ap (λ (k : ℕ). m (wrap k)) (omega arith) ∙ h (suc i) (omega arith),
)

pub pointwise_of_Holds :
    (m : Memory) (a : ℕ) (bs : List ℕ) (i : ℕ)
    → Holds m a bs
    → i < length bs
    → m (wrap (a + i)) ≡ get_elem? bs i
pointwise_of_Holds m a [] i h p = elim p [ ]
pointwise_of_Holds m a (b ∷ bs) zero h p = ap (λ (k : ℕ). m (wrap k)) (omega arith) ∙ h.0
pointwise_of_Holds m a (b ∷ bs) (suc i) h p =
    ap (λ (k : ℕ). m (wrap k)) (omega arith) ∙ pointwise_of_Holds m (a + 1) bs i h.1 (omega arith)

pub offset-wrap : (a i : ℕ) → i < word_mod → offset a (wrap (a + i)) ≡ i
offset-wrap a i p = ground arith

-- What was written is what is read back, also across the end of the address space.
pub Holds-poke :
    (m : Memory) (a : ℕ) (bs : List ℕ) → length bs ≤ word_mod → Holds (poke m a bs) a bs
unfolding poke
Holds-poke m a bs fits =
    Holds-of_pointwise (poke m a bs) a bs
      λ i p. ground (arith, offset-wrap a i (omega arith), get_elem?-some bs i 0 p)

pub poke-outside :
    (m : Memory) (a : ℕ) (bs : List ℕ) (x : ℕ)
    → a + length bs ≤ word_mod
    → (x < a) ⊎ (a + length bs ≤ x)
    → poke m a bs x ≡ m x
unfolding poke
poke-outside m a bs x fits out = ground (arith, get_elem?-none bs (offset a x) (ground arith))

pub Mapped-poke :
    (m : Memory) (a : ℕ) (bs : List ℕ) (b n : ℕ) → Mapped m b n → Mapped (poke m a bs) b n
unfolding is_mapped poke
Mapped-poke m a bs b zero h = refl
Mapped-poke m a bs b (suc n) h = ground (arith, Mapped-poke m a bs (b + 1) n)

pub Mapped-of_Holds : (m : Memory) (a : ℕ) (bs : List ℕ) → Holds m a bs → Mapped m a (length bs)
unfolding is_mapped
Mapped-of_Holds m a [] h = refl
Mapped-of_Holds m a (b ∷ bs) h = ground (arith, Mapped-of_Holds m (a + 1) bs h.1)

pub Holds-frame :
    (m m' : Memory) (a lo hi : ℕ) (bs : List ℕ)
    → SameOn lo hi m m'
    → lo ≤ a
    → a + length bs ≤ hi
    → hi ≤ word_mod
    → Holds m a bs
    → Holds m' a bs
Holds-frame m m' a lo hi [] same below above top h = tt
Holds-frame m m' a lo hi (b ∷ bs) same below above top h = (
  same (wrap a) (omega arith) (omega arith) ∙ h.0,
  Holds-frame m m' (a + 1) lo hi bs same (omega arith) (omega arith) top h.1,
)

pub load_bytes-Holds :
    (a n : ℕ) (bs : List ℕ) (μ : Machine)
    → Holds μ.mem a bs
    → length bs ≡ n
    → load_bytes a n μ ≡ ok bs μ
unfolding load_bytes
load_bytes-Holds a n bs μ h e = ground (arith, read_bytes-Holds μ.mem a bs h)

pub store_bytes-Mapped :
    (a : ℕ) (bs : List ℕ) (μ : Machine)
    → Mapped μ.mem a (length bs)
    → store_bytes a bs μ ≡ ok tt (record μ { mem = poke μ.mem a bs })
unfolding store_bytes
store_bytes-Mapped a bs μ h = rw h refl

-- A range is its parts.
pub Holds-append :
    (m : Memory) (a : ℕ) (xs ys : List ℕ)
    → Holds m a xs
    → Holds m (a + length xs) ys
    → Holds m a (xs ++ ys)
Holds-append m a [] ys h k = let e : a + 0 ≡ a = omega arith in rw e at k
Holds-append m a (x ∷ xs) ys h k =
    let e : a + suc (length xs) ≡ a + 1 + length xs = omega arith in
    (h.0, Holds-append m (a + 1) xs ys h.1 (rw e at k))

pub Holds-append_left : (m : Memory) (a : ℕ) (xs ys : List ℕ) → Holds m a (xs ++ ys) → Holds m a xs
Holds-append_left m a [] ys h = tt
Holds-append_left m a (x ∷ xs) ys h = (h.0, Holds-append_left m (a + 1) xs ys h.1)

pub Holds-append_right :
    (m : Memory) (a : ℕ) (xs ys : List ℕ) → Holds m a (xs ++ ys) → Holds m (a + length xs) ys
Holds-append_right m a [] ys h = let e : a + 0 ≡ a = omega arith in rw e h
Holds-append_right m a (x ∷ xs) ys h =
    let e : a + suc (length xs) ≡ a + 1 + length xs = omega arith in
    rw e (Holds-append_right m (a + 1) xs ys h.1)

pub Mapped-part : (m : Memory) (a n k : ℕ) → Mapped m a (n + k) → Mapped m (a + n) k
unfolding is_mapped
Mapped-part m a zero k h =
    let e : a + 0 ≡ a = omega arith in let f : 0 + k ≡ k = omega arith in rw e (rw f at h)
Mapped-part m a (suc n) k h =
    let e : a + suc n ≡ a + 1 + n = omega arith in
    let f : suc n + k ≡ suc (n + k) = omega arith in
    let h' : is_mapped m a (suc (n + k)) ≡ true = rw f at h in
    rw e (Mapped-part m (a + 1) n k (ground arith))

pub Mapped-first : (m : Memory) (a n k : ℕ) → k ≤ n → Mapped m a n → Mapped m a k
unfolding is_mapped
Mapped-first m a n zero below h = refl
Mapped-first m a zero (suc k) below h = elim below [ ]
Mapped-first m a (suc n) (suc k) below h = ground (arith, Mapped-first m (a + 1) n k (omega arith))
