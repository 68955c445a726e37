-- ===== src/Common/Table.antt =====
-- Tables with numbers as keys, for `std::unordered_map`: a list of entries, looked up from the
-- front.
use ga330_libretro.Common.{
  ℕ, ◌≡◌, ◌≢◌, refl, Option, none, some, List, [], ◌∷◌, if◌then◌else◌, ◌==◌, arith, inl, inr,
  Bool-cases,
}

module _ {ℓ} {A : Type ℓ} where
  abbrev pub find : ℕ → List (ℕ × A) → Option A
  find k [] = none
  find k ((j, a) ∷ t) = if j == k then some a else find k t

  -- `t[k] = a`
  abbrev pub assign : ℕ → A → List (ℕ × A) → List (ℕ × A)
  assign k a [] = (k, a) ∷ []
  assign k a ((j, b) ∷ t) = if j == k then (k, a) ∷ t else (j, b) ∷ assign k a t

  abbrev pub erase : ℕ → List (ℕ × A) → List (ℕ × A)
  erase k [] = []
  erase k ((j, b) ∷ t) = let rest = erase k t in if j == k then rest else (j, b) ∷ rest

  -- The keys satisfy the predicate.
  abbrev pub Keys : (ℕ → Type 0) → List (ℕ × A) → Type 0
  Keys P [] = Unit {0}
  Keys P ((j, b) ∷ t) = P j × Keys P t

  pub find-assign : (k : ℕ) (a : A) (t : List (ℕ × A)) → find k (assign k a t) ≡ some a
  find-assign k a [] = ground arith
  find-assign k a ((j, b) ∷ t) = ground (arith, find-assign k a t)

  pub find-assign_other :
      (k i : ℕ) (a : A) (t : List (ℕ × A)) → i ≢ k → find i (assign k a t) ≡ find i t
  find-assign_other k i a [] ne = ground arith
  find-assign_other k i a ((j, b) ∷ t) ne = ground (arith, find-assign_other k i a t ne)

  pub find-erase : (k : ℕ) (t : List (ℕ × A)) → find k (erase k t) ≡ none
  find-erase k [] = refl
  find-erase k ((j, b) ∷ t) = ground (arith, find-erase k t)

  pub find-erase_other : (k i : ℕ) (t : List (ℕ × A)) → i ≢ k → find i (erase k t) ≡ find i t
  find-erase_other k i [] ne = refl
  find-erase_other k i ((j, b) ∷ t) ne = ground (arith, find-erase_other k i t ne)

  pub Keys-assign :
      (P : ℕ → Type 0) (k : ℕ) (a : A) (t : List (ℕ × A)) → P k → Keys P t → Keys P (assign k a t)
  Keys-assign P k a [] p h = (p, tt)
  Keys-assign P k a ((j, b) ∷ t) p h = elim (Bool-cases (j == k)) [
    | inl e ↦ rw e (p, h.1)
    | inr e ↦ rw e (h.0, Keys-assign P k a t p h.1)
  ]

  pub Keys-erase : (P : ℕ → Type 0) (k : ℕ) (t : List (ℕ × A)) → Keys P t → Keys P (erase k t)
  Keys-erase P k [] h = tt
  Keys-erase P k ((j, b) ∷ t) h = elim (Bool-cases (j == k)) [
    | inl e ↦ rw e (Keys-erase P k t h.1)
    | inr e ↦ rw e (h.0, Keys-erase P k t h.1)
  ]

  pub Keys-map : (P Q : ℕ → Type 0) (t : List (ℕ × A)) → ((j : ℕ) → P j → Q j) → Keys P t → Keys Q t
  Keys-map P Q [] f h = tt
  Keys-map P Q ((j, b) ∷ t) f h = (f j h.0, Keys-map P Q t f h.1)

  -- A key that lies behind all keys is not in the table.
  pub find-none : (k : ℕ) (t : List (ℕ × A)) → Keys (λ j. j ≢ k) t → find k t ≡ none
  find-none k [] h = refl
  find-none k ((j, b) ∷ t) h = ground (arith, h.0, find-none k t h.1)
