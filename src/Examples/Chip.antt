-- ===== src/Examples/Chip.antt =====
-- A small engine in place of the processor: registers and memory, with no instructions. Reads and
-- writes fail on memory that is not mapped.
use ga330_libretro.Common.{
  ℕ, zero, suc, ◌+◌, ◌≡◌, ◌≢◌, refl, sym, subst, ◌∙◌, ap, ==_iff, ◌&&◌, none, some, List, [], ◌∷◌,
  length, leb, ltb, ◌==◌, ==_refl, if◌then◌else◌, arith, Bool-cases, inl, inr,
}
use ga330_libretro.Machine.{word_mod, Memory, poke, is_mapped, read_bytes}
use ga330_libretro.Machine.Access.{Holds, read_bytes-Holds, Holds-read_bytes, Holds-poke}
use ga330_libretro.Emu.Uc.{Unicorn, IsLawful, Reg, r0, r1, r2, r3, sp, lr, pc}

pub record Chip : Type 0 where
  pub regs : Reg → ℕ
  pub mem : Memory

abbrev number : Reg → ℕ
number r0 = 0
number r1 = 1
number r2 = 2
number r3 = 3
number sp = 4
number lr = 5
number pc = 6

abbrev pub mapped : ℕ → ℕ → Memory → Memory
mapped from size m x = elim (m x) [
  | some b ↦ some b
  | none ↦ if leb from x && ltb x (from + size) then some 0 else none
]

unfoldable pub write_mem : ℕ → List ℕ → Chip → ℕ × Chip
write_mem a bs c =
    if leb (length bs) word_mod && is_mapped c.mem a (length bs)
    then (0, record c { mem = poke c.mem a bs })
    else (8, c)

abbrev pub chip : Unicorn Chip
chip = record {
  open_arm = λ c. (0, c);
  reg_read = λ r c. c.regs r;
  reg_write = λ r v c. record c { regs = λ q. if number q == number r then v else c.regs q };
  mem_read = λ a n c. read_bytes c.mem a n;
  mem_write = write_mem;
  mem_map = λ from size prot c. (0, record c { mem = mapped from size c.mem });
  hook_add = λ kind c. (0, c);
  emu_stop = λ c. c;
}

reg_of : ℕ → Reg
reg_of zero = r0
reg_of (suc zero) = r1
reg_of (suc (suc zero)) = r2
reg_of (suc (suc (suc zero))) = r3
reg_of (suc (suc (suc (suc zero)))) = sp
reg_of (suc (suc (suc (suc (suc zero))))) = lr
reg_of (suc (suc (suc (suc (suc (suc n)))))) = pc

reg_of-number : (r : Reg) → reg_of (number r) ≡ r
unfolding reg_of
reg_of-number r0 = refl
reg_of-number r1 = refl
reg_of-number r2 = refl
reg_of-number r3 = refl
reg_of-number sp = refl
reg_of-number lr = refl
reg_of-number pc = refl

number_injective : (q r : Reg) → number q ≡ number r → q ≡ r
number_injective q r e = sym (reg_of-number q) ∙ ap reg_of e ∙ reg_of-number r

Holds-mapped :
    (m : Memory) (from size a : ℕ) (bs : List ℕ) → Holds m a bs → Holds (mapped from size m) a bs
Holds-mapped m from size a [] h = tt
Holds-mapped m from size a (b ∷ bs) h =
    (rw (mapped, h.0) refl, Holds-mapped m from size (a + 1) bs h.1)

read_bytes-mapped :
    (from size a n : ℕ) (bs : List ℕ) (m : Memory)
    → read_bytes m a n ≡ some bs
    → read_bytes (mapped from size m) a n ≡ some bs
read_bytes-mapped from size a n bs m e =
    let (h, same) = Holds-read_bytes m a n bs e in
    let read = read_bytes-Holds (mapped from size m) a bs (Holds-mapped m from size a bs h) in
    rw same at read

write_mem-read_bytes :
    (a : ℕ) (bs : List ℕ) (c c' : Chip)
    → write_mem a bs c ≡ (0, c')
    → read_bytes c'.mem a (length bs) ≡ some bs
unfolding write_mem
write_mem-read_bytes a bs c c' e =
    let written : Chip = record c { mem = poke c.mem a bs } in
    elim (Bool-cases (leb (length bs) word_mod && is_mapped c.mem a (length bs))) [
      | inl t ↦
          (let done : ◌≡◌ {A = ℕ × Chip} (0, written) (0, c') = rw (write_mem, t) at e in
            subst (λ (x : Chip). read_bytes x.mem a (length bs) ≡ some bs)
              (ap (λ (r : ℕ × Chip). r.1) done)
              (read_bytes-Holds written.mem a bs (Holds-poke c.mem a bs (ground arith))))
      | inr f ↦
          (let bad : ◌≡◌ {A = ℕ × Chip} (8, c) (0, c') = rw (write_mem, f) at e in
            let eight : ◌≡◌ {A = ℕ} 8 0 = ap (λ (r : ℕ × Chip). r.0) bad in absurd (omega arith))
    ]

write_mem-regs : (q : Reg) (a : ℕ) (bs : List ℕ) (c : Chip) → (write_mem a bs c).1.regs q ≡ c.regs q
unfolding write_mem
write_mem-regs q a bs c =
    elim (Bool-cases (leb (length bs) word_mod && is_mapped c.mem a (length bs))) [
      | inl t ↦ rw (write_mem, t) refl
      | inr f ↦ rw (write_mem, f) refl
    ]

set-same : (r : Reg) (v : ℕ) (c : Chip) → chip.reg_read r (chip.reg_write r v c) ≡ v
set-same r v c = rw (==_refl (number r)) refl

set-other :
    (q r : Reg) (v : ℕ) (c : Chip)
    → q ≢ r
    → chip.reg_read q (chip.reg_write r v c) ≡ chip.reg_read q c
set-other q r v c ne = elim (Bool-cases (number q == number r)) [
  | inl t ↦ absurd (ne (number_injective q r ((==_iff (number q) (number r)).0 t)))
  | inr f ↦ rw f refl
]

pub chip-IsLawful : IsLawful chip
chip-IsLawful = record {
  reg_same = λ r v u small. set-same r v u;
  reg_other = set-other;
  reg_mem = λ r v a n u. refl;
  mem_same = write_mem-read_bytes;
  mem_reg = write_mem-regs;
  map_mem = λ b size prot a n bs u e. read_bytes-mapped b size a n bs u.mem e;
  hook_mem = λ k a n u. refl;
}
