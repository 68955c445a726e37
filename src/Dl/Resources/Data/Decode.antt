-- ===== src/Dl/Resources/Data/Decode.antt =====
-- The loop that flips bit 6 of the bytes of a buffer.
use mathlib.Core.Option
use ga330_libretro.Common.{
  ℕ, zero, suc, ◌+◌, ◌≤◌, ◌<◌, ◌≡◌, refl, ◌&&◌, some, List, [], ◌∷◌, arith, length, inl, fun_ext,
  ap, ◌∙◌, leb, ltb, ◌⊎◌, if◌then◌else◌, map,
}
use ga330_libretro.Machine.{word_mod, Memory, Machine, ok, poke, wrap, is_mapped}
use ga330_libretro.Machine.Access.{
  Holds, Mapped, SameOn, load_bytes-Holds, store_bytes-Mapped, Mapped-poke, Mapped-first,
  Holds-frame,
}
use ga330_libretro.Dl.Resources.{flip, decode_loop}

-- The memory with the bytes from `lo` to `hi` flipped.
unfoldable pub decoded : Memory → ℕ → ℕ → Memory
decoded m lo hi x = if leb lo x && ltb x hi then Option.map flip (m x) else m x

pub Mapped-get : (m : Memory) (a n : ℕ) → Mapped m a (suc n) → (v : ℕ) × (m (wrap a) ≡ some v)
unfolding is_mapped
Mapped-get m a n h = ground arith

pub Mapped-rest : (m : Memory) (a n : ℕ) → Mapped m a (suc n) → Mapped m (a + 1) n
unfolding is_mapped
Mapped-rest m a n h = ground arith

pub poke-one :
    (m : Memory) (a w x : ℕ)
    → a < word_mod
    → poke m a (w ∷ []) x ≡ (if leb a x && leb x a then some w else m x)
unfolding poke
poke-one m a w x top = ground arith

decoded-poke :
    (m : Memory) (a hi v : ℕ)
    → a < word_mod
    → m a ≡ some v
    → a < hi
    → (x : ℕ) → decoded (poke m a (flip v ∷ [])) (a + 1) hi x ≡ decoded m a hi x
unfolding decoded
decoded-poke m a hi v top at_a below x = ground (arith, poke-one m a (flip v) x top)

-- The loop flips every byte of its range once.
pub decode_loop-decoded :
    (buffer n i : ℕ) (μ : Machine)
    → buffer + i + n ≤ word_mod
    → Mapped μ.mem (buffer + i) n
    → decode_loop buffer n i μ
      ≡ ok tt (record μ { mem = decoded μ.mem (buffer + i) (buffer + i + n) })
unfolding decode_loop
decode_loop-decoded buffer zero i μ top room =
    let same : decoded μ.mem (buffer + i) (buffer + i + 0) ≡ μ.mem =
      fun_ext λ x. unfold decoded in ground arith in
    rw same refl
decode_loop-decoded buffer (suc n) i μ top room =
    let (v, at_v) = Mapped-get μ.mem (buffer + i) n room in
    let at_v' : μ.mem (buffer + i) ≡ some v = ap μ.mem (omega arith) ∙ at_v in
    let m' = poke μ.mem (buffer + i) (flip v ∷ []) in
    let μ' : Machine = record μ { mem = m' } in
    let shift : buffer + i + 1 ≡ buffer + (i + 1) = omega arith in
    let room' : Mapped m' (buffer + (i + 1)) n = rw shift at (
      Mapped-poke μ.mem (buffer + i) (flip v ∷ []) (buffer + i + 1) n
        (Mapped-rest μ.mem (buffer + i) n room)) in
    let rest = decode_loop-decoded buffer n (i + 1) μ' (omega arith) room' in
    let hi : buffer + (i + 1) + n ≡ buffer + i + suc n = omega arith in
    let same : decoded m' (buffer + (i + 1)) (buffer + (i + 1) + n)
        ≡ decoded μ.mem (buffer + i) (buffer + i + suc n) =
      fun_ext λ x.
        rw (hi, ← shift)
          (decoded-poke μ.mem (buffer + i) (buffer + i + suc n) v (omega arith) at_v' (omega arith)
            x) in
    rw
      (
        load_bytes-Holds (buffer + i) 1 (v ∷ []) μ (at_v, tt) refl,
        store_bytes-Mapped (buffer + i) (flip v ∷ []) μ
            (Mapped-first μ.mem (buffer + i) (suc n) 1 (omega arith) room),
      )
      (rest ∙ ap (λ (mem : Memory). ok tt (record μ { mem = mem })) same)

-- Outside of the range nothing changes.
pub decoded-SameOn :
    (m : Memory) (a b lo hi : ℕ) → (b ≤ lo) ⊎ (hi ≤ a) → SameOn lo hi m (decoded m a b)
unfolding decoded
decoded-SameOn m a b lo hi apart x p q = ground (arith, apart)

-- The first `k` bytes flipped and the others as they were.
abbrev pub flip_first : ℕ → List ℕ → List ℕ
flip_first zero bs = bs
flip_first (suc k) [] = []
flip_first (suc k) (b ∷ bs) = flip b ∷ flip_first k bs

pub length-flip_first : (k : ℕ) (bs : List ℕ) → length (flip_first k bs) ≡ length bs
length-flip_first zero bs = refl
length-flip_first (suc k) [] = refl
length-flip_first (suc k) (b ∷ bs) = ap suc (length-flip_first k bs)

-- With as many as there are bytes, all are flipped.
pub flip_first-length : (bs : List ℕ) → flip_first (length bs) bs ≡ map flip bs
flip_first-length [] = refl
flip_first-length (b ∷ bs) = ap (λ (t : List ℕ). flip b ∷ t) (flip_first-length bs)

pub Holds-decoded :
    (m : Memory) (lo hi a k : ℕ) (bs : List ℕ)
    → hi ≡ a + k
    → lo ≤ a
    → a + length bs ≤ word_mod
    → Holds m a bs
    → Holds (decoded m lo hi) a (flip_first k bs)
unfolding decoded
Holds-decoded m lo hi a zero bs end below top h =
    Holds-frame m (decoded m lo hi) a a (a + length bs) bs
      (decoded-SameOn m lo hi a (a + length bs) (inl (omega arith))) (omega arith) (omega arith) top
      h
Holds-decoded m lo hi a (suc k) [] end below top h = tt
Holds-decoded m lo hi a (suc k) (b ∷ bs) end below top h = (
  ground (arith, h.0),
  Holds-decoded m lo hi (a + 1) k bs (omega arith) (omega arith) (omega arith) h.1,
)

pub Mapped-decoded : (m : Memory) (lo hi b n : ℕ) → Mapped m b n → Mapped (decoded m lo hi) b n
unfolding is_mapped decoded
Mapped-decoded m lo hi b zero h = refl
Mapped-decoded m lo hi b (suc n) h = ground (arith, Mapped-decoded m lo hi (b + 1) n)
