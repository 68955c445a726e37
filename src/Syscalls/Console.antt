-- ===== src/Syscalls/Console.antt =====
-- `_write` against a list of bytes.
use ga330_libretro.Common.{ℕ, ◌+◌, ◌<◌, ◌≡◌, ◌^◌, refl, List, [], ◌∷◌, arith, length}
use ga330_libretro.Machine.{Machine, ok, Event, putc, print}
use ga330_libretro.Machine.Access.{Holds, load_bytes-Holds}
use ga330_libretro.Syscalls.{write_loop, sys_write, rounds}

-- The log with the bytes printed, the last one on top.
abbrev pub printed : List ℕ → List Event → List Event
printed [] log = log
printed (b ∷ bs) log = printed bs (putc b ∷ log)

write_loop-printed :
    (ptr : ℕ) (bs : List ℕ) (μ : Machine)
    → Holds μ.mem ptr bs
    → write_loop (λ c. print (putc c)) (length bs) ptr μ
      ≡ ok tt (record μ { log = printed bs μ.log })
unfolding write_loop print
write_loop-printed ptr [] μ h = refl
write_loop-printed ptr (b ∷ bs) μ h =
    rw (load_bytes-Holds ptr 1 (b ∷ []) μ (h.0, tt) refl)
      (write_loop-printed (ptr + 1) bs (record μ { log = putc b ∷ μ.log }) h.1)

-- `_write` prints the `len` bytes at `ptr` in order, returns `len`, and changes no memory.
pub sys_write-printed :
    (file ptr : ℕ) (bs : List ℕ) (μ : Machine)
    → length bs < 2 ^ 31
    → Holds μ.mem ptr bs
    → sys_write (λ c. print (putc c)) file ptr (length bs) μ
      ≡ ok (length bs) (record μ { log = printed bs μ.log })
unfolding sys_write
sys_write-printed file ptr bs μ small h =
    let test : rounds (length bs) ≡ length bs = ground arith in
    rw (test, write_loop-printed ptr bs μ h) refl
