-- ===== src/Dl/Format/Layout.antt =====
-- The bytes of the file's header.
use ga330_libretro.Common.{ℕ, zero, suc, ◌≡◌, refl, List, [], ◌∷◌, ◌++◌, take, length, arith, ap}
use ga330_libretro.Machine.{Machine, ok}
use ga330_libretro.Machine.Access.{Holds, load_bytes-Holds}
use ga330_libretro.Machine.Words.{IsWord}
use ga330_libretro.Dl.Format.{Header, header_of, header_bytes, words_bytes, load_header}

abbrev pub AreWords : List ℕ → Type 0
AreWords [] = Unit
AreWords (w ∷ ws) = IsWord w × AreWords ws

-- The fields have the sizes of their C types.
pub record IsHeader (h : Header) : Type 0 where
  pub sign : length h.sign ≡ 4
  pub version : IsWord h.version
  pub unk_8 : IsWord h.unk_8
  pub num_sections : IsWord h.num_sections
  pub unk_16_length : length h.unk_16 ≡ 4
  pub unk_16 : AreWords h.unk_16

pub take-append : (xs ys : List ℕ) (n : ℕ) → length xs ≡ n → take n (xs ++ ys) ≡ xs
take-append [] ys zero e = refl
take-append [] ys (suc n) e = ground arith
take-append (x ∷ xs) ys zero e = ground arith
take-append (x ∷ xs) ys (suc n) e = ap (λ (t : List ℕ). x ∷ t) (take-append xs ys n (omega arith))

-- A list of four, taken apart.
pub four :
    (xs : List ℕ)
    → length xs ≡ 4
    → (a : ℕ) × (b : ℕ) × (c : ℕ) × (d : ℕ) × (xs ≡ a ∷ b ∷ c ∷ d ∷ [])
four (a ∷ b ∷ c ∷ d ∷ []) e = (a, b, c, d, refl)
four [] e = ground arith
four (a ∷ []) e = ground arith
four (a ∷ b ∷ []) e = ground arith
four (a ∷ b ∷ c ∷ []) e = ground arith
four (a ∷ b ∷ c ∷ d ∷ x ∷ xs) e = ground arith

header_of-header_bytes_cells :
    (s0 s1 s2 s3 v u n a b c d : ℕ)
    → AreWords (v ∷ u ∷ n ∷ a ∷ b ∷ c ∷ d ∷ [])
    → header_of ((s0 ∷ s1 ∷ s2 ∷ s3 ∷ []) ++ words_bytes (v ∷ u ∷ n ∷ a ∷ b ∷ c ∷ d ∷ []))
      ≡ record {
        sign = s0 ∷ s1 ∷ s2 ∷ s3 ∷ [];
        version = v;
        unk_8 = u;
        num_sections = n;
        unk_16 = a ∷ b ∷ c ∷ d ∷ [];
      }
header_of-header_bytes_cells s0 s1 s2 s3 v u n a b c d w = ground arith

header_of-header_bytes_fields :
    (s : List ℕ) (v u n : ℕ) (x : List ℕ)
    → length s ≡ 4
    → length x ≡ 4
    → AreWords (v ∷ u ∷ n ∷ x)
    → (header_of (s ++ words_bytes (v ∷ u ∷ n ∷ x))
        ≡ record { sign = s; version = v; unk_8 = u; num_sections = n; unk_16 = x })
      × (length (s ++ words_bytes (v ∷ u ∷ n ∷ x)) ≡ 32)
header_of-header_bytes_fields s v u n x es ex w =
    let (s0, s1, s2, s3, e) = four s es in
    let (a, b, c, d, f) = four x ex in
    let w' : AreWords (v ∷ u ∷ n ∷ a ∷ b ∷ c ∷ d ∷ []) = rw f at w in
    rw (e, f) (header_of-header_bytes_cells s0 s1 s2 s3 v u n a b c d w', refl)

-- A header that is written out is read back as it was.
pub header_of-header_bytes :
    (h : Header) → IsHeader h → (header_of (header_bytes h) ≡ h) × (length (header_bytes h) ≡ 32)
header_of-header_bytes h ish =
    header_of-header_bytes_fields h.sign h.version h.unk_8 h.num_sections h.unk_16 ish.sign
      ish.unk_16_length (ish.version, (ish.unk_8, (ish.num_sections, ish.unk_16)))

pub load_header-Holds :
    (p : ℕ) (h : Header) (μ : Machine)
    → IsHeader h
    → Holds μ.mem p (header_bytes h)
    → load_header p μ ≡ ok h μ
unfolding load_header
load_header-Holds p h μ ish at_p =
    let r = header_of-header_bytes h ish in
    rw (load_bytes-Holds p 32 (header_bytes h) μ at_p r.1) (ap (λ (x : Header). ok x μ) r.0)
