-- ===== src/Build/Thunks/Numbers.antt =====
-- The numbers of supervisor calls, from a thunk in minisys to a handler in the emulator.
use ga330_libretro.Common.{
  ℕ, zero, suc, ◌+◌, ◌-◌, ◌^◌, ◌<◌, ◌≡◌, refl, sym, ◌∙◌, ap, true, Option, none, some, List, [],
  ◌∷◌, ◌++◌, String, map, get_elem?, length, arith, if◌then◌else◌, Bool-cases, inl, inr,
}
use ga330_libretro.Machine.{wrap, u32_bytes}
use ga330_libretro.Emu.Uc.{Unicorn, pc}
use ga330_libretro.Emu.Host.{Host}
use ga330_libretro.Emu.Board.{SvcHandler, hook_intr}
use ga330_libretro.Emu.Board.Dispatch.{svc_instruction, hook_intr-get_elem?}
use ga330_libretro.Build.Thunks.{
  Row, emu, is_emu, CName, own, Thunk, svc, panics, prints, allocates, nothing, thunk_of, c_name,
  thunks, svc_handler_names,
}

-- How many supervisor calls there are among the rows.
abbrev pub emu_count : List Row → ℕ
emu_count [] = 0
emu_count (row ∷ rows) = (if is_emu row.kind then 1 else 0) + emu_count rows

pub thunks-get_elem? :
    (n : ℕ) (pre post : List Row) (row : Row)
    → get_elem? (thunks n (pre ++ row ∷ post)) (length pre)
      ≡ some (c_name row, thunk_of (n + emu_count pre) row row.kind)
unfolding thunks
thunks-get_elem? n [] post row = let e : n + 0 ≡ n = omega arith in rw e refl
thunks-get_elem? n (r ∷ pre) post row = elim (Bool-cases (is_emu r.kind)) [
  | inl yes_emu ↦
      (let e : n + (1 + emu_count pre) ≡ n + 1 + emu_count pre = omega arith in
        rw (yes_emu, e) (thunks-get_elem? (n + 1) pre post row))
  | inr not_emu ↦
      (let e : n + (0 + emu_count pre) ≡ n + emu_count pre = omega arith in
        rw (not_emu, e) (thunks-get_elem? n pre post row))
]

svc_handler_names-get_elem? :
    (pre post : List Row) (row : Row)
    → is_emu row.kind ≡ true
    → get_elem? (svc_handler_names (pre ++ row ∷ post)) (emu_count pre) ≡ some row.name
unfolding svc_handler_names
svc_handler_names-get_elem? [] post row e = rw (svc_handler_names, e) refl
svc_handler_names-get_elem? (r ∷ pre) post row e = elim (Bool-cases (is_emu r.kind)) [
  | inl yes_emu ↦
      (let one : 1 + emu_count pre ≡ suc (emu_count pre) = omega arith in
        rw (svc_handler_names, yes_emu, one) (svc_handler_names-get_elem? pre post row e))
  | inr not_emu ↦
      (let same : 0 + emu_count pre ≡ emu_count pre = omega arith in
        rw (svc_handler_names, not_emu, same) (svc_handler_names-get_elem? pre post row e))
]

-- The number in a thunk that is a supervisor call.
abbrev number_in : Option (CName × Option Thunk) → ℕ
number_in none = 0
number_in (some (c, none)) = 0
number_in (some (c, some (svc n prototype))) = n
number_in (some (c, some (panics name))) = 0
number_in (some (c, some (prints name))) = 0
number_in (some (c, some (allocates name))) = 0
number_in (some (c, some nothing)) = 0

get_elem?-map {ℓ κ} :
    {A : Type ℓ} {B : Type κ} (f : A → B) (xs : List A) (i : ℕ) (a : A)
    → get_elem? xs i ≡ some a
    → get_elem? (map f xs) i ≡ some (f a)
get_elem?-map f [] i a e = ground arith
get_elem?-map f (x ∷ xs) zero a e = ground arith
get_elem?-map f (x ∷ xs) (suc i) a e = get_elem?-map f xs i a e

-- The thunk that the build makes for a function of the emulator is a supervisor call whose number,
-- in the instruction before `pc`, leads to the handler of that function in the table that the
-- build makes, for any rows and with fewer than 2 ^ 16 functions of the emulator before this one.
pub hook_intr-thunks :
    {U S W : Type 0} (uc : Unicorn U) (handler_of : String → SvcHandler U S W) (pre post : List Row)
    (row : Row) (intno k : ℕ) (h : Host U S W)
    → row.kind ≡ emu
    → emu_count pre < 2 ^ 16
    → get_elem? (thunks 0 (pre ++ row ∷ post)) (length pre)
      ≡ some (own row.name, some (svc k row.prototype))
    → uc.mem_read (wrap (uc.reg_read pc h.engine + 2 ^ 32 - 4)) 4 h.engine
      ≡ some (u32_bytes (svc_instruction k))
    → hook_intr uc (map handler_of (svc_handler_names (pre ++ row ∷ post))) intno h
      ≡ handler_of row.name h
hook_intr-thunks uc handler_of pre post row intno k h is few thunk at_pc =
    let made = sym (thunks-get_elem? 0 pre post row) ∙ thunk in
    let number : emu_count pre ≡ k = (let e = ap number_in (rw is at made) in omega (arith, e)) in
    let found =
      get_elem?-map handler_of (svc_handler_names (pre ++ row ∷ post)) (emu_count pre) row.name
        (svc_handler_names-get_elem? pre post row (rw is refl)) in
    hook_intr-get_elem? uc (map handler_of (svc_handler_names (pre ++ row ∷ post))) intno k h
      (omega arith) at_pc
    ∙ (rw (← number, found) refl)
