-- ===== src/Libc/Strings.antt =====
-- `strcmp` on the strings that stand in memory, as lists of bytes.
use ga330_libretro.Common.{
  ℕ, zero, suc, ◌+◌, ◌≤◌, ◌<◌, ◌≡◌, ◌≢◌, Bool, true, false, some, List, [], ◌∷◌, arith, length,
  list_eq, ◌∙◌,
}
use ga330_libretro.Machine.{word_mod, Memory, wrap, Machine, ok}
use ga330_libretro.Machine.Access.{SameOn}
use ga330_libretro.Libc.{
  Reader, string_at, Verdict, equal, differ, strcmp_loop, strcmp, strcmp_is_zero,
}

-- From index `i` on the reader gives the bytes `s`, none of them 0, and then a 0.
abbrev pub Spells : Reader → ℕ → List ℕ → Type 0
Spells r i [] = r i ≡ some 0
Spells r i (b ∷ bs) = (r i ≡ some b) × (b ≢ 0) × Spells r (i + 1) bs

-- At `p` stands the C string `s`.
abbrev pub CString : Memory → ℕ → List ℕ → Type 0
CString m p s = Spells (string_at m p) 0 s

abbrev pub verdict : Bool → Verdict
verdict true = equal
verdict false = differ

pub strcmp_loop-Spells :
    (k : ℕ) (r q : Reader) (i : ℕ) (s t : List ℕ)
    → length s < k
    → Spells r i s
    → Spells q i t
    → strcmp_loop k r q i ≡ verdict (list_eq s t)
unfolding strcmp_loop
strcmp_loop-Spells zero r q i s t fuel hs ht = elim fuel [ ]
strcmp_loop-Spells (suc k) r q i [] [] fuel hs ht = ground arith
strcmp_loop-Spells (suc k) r q i [] (c ∷ t) fuel hs ht = ground arith
strcmp_loop-Spells (suc k) r q i (b ∷ s) [] fuel hs ht = ground arith
strcmp_loop-Spells (suc k) r q i (b ∷ s) (c ∷ t) fuel hs ht =
    ground (arith, strcmp_loop-Spells k r q (i + 1) s t (omega arith) hs.2)

-- `strcmp` of two strings, with fewer bytes than there are addresses, says whether they are equal.
pub strcmp-list_eq :
    (r q : Reader) (s t : List ℕ)
    → length s < word_mod
    → Spells r 0 s
    → Spells q 0 t
    → strcmp r q ≡ verdict (list_eq s t)
unfolding strcmp
strcmp-list_eq r q s t fuel hs ht = strcmp_loop-Spells word_mod r q 0 s t fuel hs ht

pub strcmp_is_zero-list_eq :
    (a b : Memory → Reader) (s t : List ℕ) (μ : Machine)
    → length s < word_mod
    → Spells (a μ.mem) 0 s
    → Spells (b μ.mem) 0 t
    → strcmp_is_zero a b μ ≡ ok (list_eq s t) μ
unfolding strcmp_is_zero
strcmp_is_zero-list_eq a b s t μ fuel hs ht =
    ground (arith, strcmp-list_eq (a μ.mem) (b μ.mem) s t fuel hs ht)

Spells-frame :
    (lo hi : ℕ) (m m' : Memory) (p i : ℕ) (s : List ℕ)
    → SameOn lo hi m m'
    → lo ≤ p + i
    → p + i + length s < hi
    → hi ≤ word_mod
    → Spells (string_at m p) i s
    → Spells (string_at m' p) i s
Spells-frame lo hi m m' p i [] same below above top h =
    same (wrap (p + i)) (omega arith) (omega arith) ∙ h
Spells-frame lo hi m m' p i (b ∷ s) same below above top h = (
  same (wrap (p + i)) (omega arith) (omega arith) ∙ h.0,
  h.1,
  Spells-frame lo hi m m' p (i + 1) s same (omega arith) (omega arith) top h.2,
)

-- A C string stays, where memory does not change.
pub CString-frame :
    (lo hi : ℕ) (m m' : Memory) (p : ℕ) (s : List ℕ)
    → SameOn lo hi m m'
    → lo ≤ p
    → p + length s < hi
    → hi ≤ word_mod
    → CString m p s
    → CString m' p s
CString-frame lo hi m m' p s same below above top h =
    Spells-frame lo hi m m' p 0 s same (omega arith) (omega arith) top h
