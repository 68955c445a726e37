-- ===== src/Libc.antt =====
-- The C library functions that the program calls on its strings. A string is read byte by byte
-- through a function from the index, so one `strcmp` serves a string in memory and one in a local
-- array, where a read past the end is undefined behaviour.
pub mod Strings
use ga330_libretro.Common.{
  ℕ, zero, suc, ◌+◌, ◌≡◌, Bool, true, false, Option, none, some, List, if◌then◌else◌, ◌==◌,
  get_elem?,
}
use ga330_libretro.Machine.{word_mod, Memory, wrap, Machine, Run, ok, fault, hang, Cmd}

-- Byte `i` of a string, if it can be read.
abbrev pub Reader : Type 0
Reader = ℕ → Option ℕ

abbrev pub string_at : Memory → ℕ → Reader
string_at m p i = m (wrap (p + i))

abbrev pub array : List ℕ → Reader
array bs i = get_elem? bs i

-- How a comparison ends: the strings are the same, they differ, a byte cannot be read, or the
-- rounds are used up.
pub data Verdict : Type 0 where
  equal differ unreadable endless : Verdict

-- The loop of `strcmp`: on to the next byte while the two are the same and not 0.
unfoldable pub strcmp_loop : ℕ → Reader → Reader → ℕ → Verdict
strcmp_loop zero r s i = endless
strcmp_loop (suc k) r s i =
    let rest = strcmp_loop k r s (i + 1) in
    elim (r i) [
      | none ↦ unreadable
      | some b ↦ elim (s i) [
        | none ↦ unreadable
        | some c ↦ if b == c then (if b == 0 then equal else rest) else differ
      ]
    ]

-- After as many rounds as there are addresses both pointers are back where they began, so a
-- comparison that has not ended by then never does.
unfoldable pub strcmp : Reader → Reader → Verdict
unfolding strcmp_loop
strcmp r s = strcmp_loop word_mod r s 0

-- `strcmp(a, b) == 0`, as a command.
unfoldable pub strcmp_is_zero : (Memory → Reader) → (Memory → Reader) → Cmd Bool
unfolding strcmp
strcmp_is_zero a b μ = elim (strcmp (a μ.mem) (b μ.mem)) [
  | equal ↦ ok true μ
  | differ ↦ ok false μ
  | unreadable ↦ fault
  | endless ↦ hang
]
