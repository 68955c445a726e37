-- ===== src/Machine.antt =====
-- The machine that the ARM side of the program (libccos, minisys) runs on: byte-addressed memory
-- with 32-bit addresses and little-endian words, and commands that use it. `src/ccdl.cpp` maps the
-- memory; an access outside of what is mapped ends the emulation (`hook_mem_invalid` returns
-- false), which is `fault` here.
pub mod Access
pub mod Frame
pub mod Words
use mathlib.Core.Option
use ga330_libretro.Common.{
  ℕ, zero, suc, ◌+◌, ◌-◌, ◌*◌, ◌/◌, ◌%◌, ◌^◌, ◌≡◌, Bool, true, false, ◌&&◌, Option, none, some,
  List, [], ◌∷◌, ◌++◌, String, if◌then◌else◌, leb, length, get_elem?, get_or,
}

-- The number of addresses, and of values of a `uint32_t`.
abbrev pub word_mod : ℕ
word_mod = 2 ^ 32

-- `none` is an address that nothing is mapped at.
abbrev pub Memory : Type 0
Memory = ℕ → Option ℕ

-- Pointer arithmetic wraps, so every access reduces its address.
abbrev pub wrap : ℕ → ℕ
wrap a = a % word_mod

-- How far the address `x` lies behind `a`, going round the end of the address space.
abbrev pub offset : ℕ → ℕ → ℕ
offset a x = if leb (wrap a) x then x - wrap a else x + word_mod - wrap a

unfoldable pub read_bytes : Memory → ℕ → ℕ → Option (List ℕ)
read_bytes m a zero = some []
read_bytes m a (suc n) = elim (m (wrap a)) [
  | none ↦ none
  | some b ↦ Option.map (λ bs. b ∷ bs) (read_bytes m (a + 1) n)
]

unfoldable pub is_mapped : Memory → ℕ → ℕ → Bool
is_mapped m a zero = true
is_mapped m a (suc n) = elim (m (wrap a)) [ none ↦ false | some b ↦ is_mapped m (a + 1) n ]

-- The memory with `bs` written from `a` on.
unfoldable pub poke : Memory → ℕ → List ℕ → Memory
poke m a bs x = elim (get_elem? bs (offset a x)) [ none ↦ m x | some b ↦ some b ]

-- What the program prints, oldest last: `ccos_diag` with its line, a stub's trace, a character.
pub data Event : Type 0 where
  diag : String → ℕ → Event
  panicked : String → ℕ → Event
  text : String → Event
  putc : ℕ → Event

pub record Machine : Type 0 where
  pub mem : Memory
  pub log : List Event

-- How a run of C code ends: normally, by an access to unmapped memory, by never returning, or in
-- `ccos_panic`.
pub data Run {ℓ} (A : Type ℓ) : Type ℓ where
  ok : A → Machine → Run A
  fault : Run A
  hang : Run A
  panic : List Event → Run A

abbrev pub Cmd {ℓ} : Type ℓ → Type ℓ
Cmd A = Machine → Run A

abbrev pub pure {ℓ} : {A : Type ℓ} → A → Cmd A
pure a μ = ok a μ

module _ {ℓ κ} {A : Type ℓ} {B : Type κ} where
  abbrev pub and_then : Run A → (A → Cmd B) → Run B
  and_then (ok a μ) k = k a μ
  and_then fault k = fault
  and_then hang k = hang
  and_then (panic log) k = panic log

  infixl 5 ◌>>=◌ ◌>>◌
  abbrev pub ◌>>=◌ : Cmd A → (A → Cmd B) → Cmd B
  m >>= k = λ μ. and_then (m μ) k

  abbrev pub ◌>>◌ : Cmd A → Cmd B → Cmd B
  m >> n = m >>= λ _. n

-- A read of memory: it faults, or has a value and changes nothing.
abbrev pub reading {ℓ} : {A : Type ℓ} → (Memory → Option A) → Cmd A
reading f μ = elim (f μ.mem) [ none ↦ fault | some a ↦ ok a μ ]

unfoldable pub load_bytes : ℕ → ℕ → Cmd (List ℕ)
load_bytes a n = reading (λ m. read_bytes m a n)

unfoldable pub store_bytes : ℕ → List ℕ → Cmd (Unit {0})
store_bytes a bs μ =
    if is_mapped μ.mem a (length bs) then ok tt (record μ { mem = poke μ.mem a bs }) else fault

-- `memcpy(dst, src, n)`; the regions do not overlap in a program whose behaviour is defined.
unfoldable pub memcpy : ℕ → ℕ → ℕ → Cmd (Unit {0})
memcpy dst src n = do bs ← load_bytes src n; store_bytes dst bs

unfoldable pub print : Event → Cmd (Unit {0})
print e μ = ok tt (record μ { log = e ∷ μ.log })

-- Byte `i` of a buffer that holds it.
abbrev pub byte : List ℕ → ℕ → ℕ
byte bs i = get_or bs i 0

-- The little-endian word at offset `i` of a buffer.
abbrev pub u32_at : List ℕ → ℕ → ℕ
u32_at bs i =
    byte bs i + 2 ^ 8 * byte bs (i + 1) + 2 ^ 16 * byte bs (i + 2) + 2 ^ 24 * byte bs (i + 3)

abbrev pub u32_bytes : ℕ → List ℕ
u32_bytes w = (w % 256) ∷ (w / 2 ^ 8 % 256) ∷ (w / 2 ^ 16 % 256) ∷ (w / 2 ^ 24 % 256) ∷ []

unfoldable pub load32 : ℕ → Cmd ℕ
load32 a = do bs ← load_bytes a 4; pure (u32_at bs 0)

unfoldable pub store32 : ℕ → ℕ → Cmd (Unit {0})
store32 a w = store_bytes a (u32_bytes w)
