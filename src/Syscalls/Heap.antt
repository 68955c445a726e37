-- ===== src/Syscalls/Heap.antt =====
-- `_sbrk` as the break of a heap.
use ga330_libretro.Common.{
  ℕ, ◌+◌, ◌≤◌, ◌<◌, ◌≡◌, ◌≢◌, refl, subst, ◌⊎◌, inr, arith, ◌==◌, false, List, [], ◌∷◌,
}
use ga330_libretro.Machine.{word_mod, Memory, Machine, ok, Cmd, poke, u32_bytes, wrap, pure, ◌>>=◌}
use ga330_libretro.Machine.Access.{SameOn, Mapped-poke, Mapped-of_Holds}
use ga330_libretro.Machine.Frame.{SameOn-poke, SameOn-trans}
use ga330_libretro.Machine.Words.{
  HoldsWord, HoldsWord-poke, IsWord, load32-HoldsWord, store32-Mapped,
}
use ga330_libretro.Syscalls.{ram_start, sbrk}

-- The variable holds the break: 0 until the first call.
pub data BreakAt (m : Memory) (heap_end brk : ℕ) : Type 0 where
  fresh : HoldsWord m heap_end 0 → brk ≡ ram_start → BreakAt m heap_end brk
  moved : HoldsWord m heap_end brk → IsWord brk → brk ≢ 0 → BreakAt m heap_end brk

-- The calls of an allocator, one after the other, and where the blocks begin.
pub sbrk_all : ℕ → List ℕ → Cmd (List ℕ)
sbrk_all heap_end [] = pure []
sbrk_all heap_end (n ∷ ns) = do p ← sbrk heap_end n; ps ← sbrk_all heap_end ns; pure (p ∷ ps)

abbrev pub starts : ℕ → List ℕ → List ℕ
starts brk [] = []
starts brk (n ∷ ns) = brk ∷ starts (brk + n) ns

abbrev pub total : List ℕ → ℕ
total [] = 0
total (n ∷ ns) = n + total ns

module _ (heap_end : ℕ) (top : heap_end + 4 ≤ word_mod) where
  sbrk-stored :
      (stored incr : ℕ) (μ : Machine)
      → HoldsWord μ.mem heap_end stored
      → IsWord stored
      → stored ≢ 0
      → sbrk heap_end incr μ
        ≡ ok stored (record μ { mem = poke μ.mem heap_end (u32_bytes (wrap (stored + incr))) })
  unfolding sbrk
  sbrk-stored stored incr μ word fits ne =
      let test : (stored == 0) ≡ false = ground arith in
      let room = Mapped-of_Holds μ.mem heap_end (u32_bytes stored) word in
      rw
        (
          load32-HoldsWord heap_end stored μ word fits,
          test,
          load32-HoldsWord heap_end stored μ word fits,
          store32-Mapped heap_end (wrap (stored + incr)) μ room,
        )
        refl

  sbrk-first :
      (incr : ℕ) (μ : Machine)
      → HoldsWord μ.mem heap_end 0
      → sbrk heap_end incr μ
        ≡ ok ram_start (record μ {
          mem =
              poke
                (poke μ.mem heap_end (u32_bytes ram_start))
                heap_end
                (u32_bytes (wrap (ram_start + incr)));
        })
  unfolding sbrk
  sbrk-first incr μ word =
      let m1 = poke μ.mem heap_end (u32_bytes ram_start) in
      let room = Mapped-of_Holds μ.mem heap_end (u32_bytes 0) word in
      rw
        (
          load32-HoldsWord heap_end 0 μ word (omega arith),
          store32-Mapped heap_end ram_start μ room,
          load32-HoldsWord heap_end ram_start (record μ { mem = m1 })
              (HoldsWord-poke μ.mem heap_end ram_start) (omega arith),
          store32-Mapped heap_end (wrap (ram_start + incr)) (record μ { mem = m1 })
              (Mapped-poke μ.mem heap_end (u32_bytes ram_start) heap_end 4 room),
        )
        refl

  -- A call returns the break and moves it by `incr`, which may be negative, as long as it does not
  -- come to 0; nothing but the variable changes.
  pub sbrk-BreakAt :
      (brk incr lo hi : ℕ) (μ : Machine)
      → BreakAt μ.mem heap_end brk
      → wrap (brk + incr) ≢ 0
      → (heap_end + 4 ≤ lo) ⊎ (hi ≤ heap_end)
      → (m : Memory) × (sbrk heap_end incr μ ≡ ok brk (record μ { mem = m }))
        × BreakAt m heap_end (wrap (brk + incr))
        × SameOn lo hi μ.mem m
  sbrk-BreakAt brk incr lo hi μ (fresh word start) ne apart =
      let next = u32_bytes (wrap (ram_start + incr)) in
      let m1 = poke μ.mem heap_end (u32_bytes ram_start) in
      rw start (
        poke m1 heap_end next,
        sbrk-first incr μ word,
        moved (HoldsWord-poke m1 heap_end (wrap (ram_start + incr))) (omega arith) (rw start at ne),
        SameOn-trans lo hi μ.mem m1 (poke m1 heap_end next)
            (SameOn-poke lo hi μ.mem heap_end (u32_bytes ram_start) top (ground (arith, apart)))
            (SameOn-poke lo hi m1 heap_end next top (ground (arith, apart))),
      )
  sbrk-BreakAt brk incr lo hi μ (moved word fits some_break) ne apart =
      let next = u32_bytes (wrap (brk + incr)) in
      (
        poke μ.mem heap_end next,
        sbrk-stored brk incr μ word fits some_break,
        moved (HoldsWord-poke μ.mem heap_end (wrap (brk + incr))) (omega arith) ne,
        SameOn-poke lo hi μ.mem heap_end next top (ground (arith, apart)),
      )

  BreakAt-pos : (m : Memory) (brk : ℕ) → BreakAt m heap_end brk → 0 < brk
  BreakAt-pos m brk (fresh word start) = omega arith
  BreakAt-pos m brk (moved word fits ne) = omega arith

  -- Blocks that are asked for one after the other lie one behind the other, so that no two of them
  -- overlap, and the break is behind the last, for as long as the address space has room.
  pub sbrk_all-starts :
      (brk : ℕ) (ns : List ℕ) (μ : Machine)
      → BreakAt μ.mem heap_end brk
      → brk + total ns < word_mod
      → (m : Memory) × (sbrk_all heap_end ns μ ≡ ok (starts brk ns) (record μ { mem = m }))
        × BreakAt m heap_end (brk + total ns)
  unfolding sbrk_all
  sbrk_all-starts brk [] μ at_end room =
      let e : brk + 0 ≡ brk = omega arith in (μ.mem, refl, rw e at_end)
  sbrk_all-starts brk (n ∷ ns) μ at_end room =
      let small : wrap (brk + n) ≡ brk + n = omega arith in
      let (m1, first, at_next, same) =
        sbrk-BreakAt brk n 0 0 μ at_end (omega (arith, BreakAt-pos μ.mem brk at_end))
          (inr (omega arith)) in
      let (m2, rest, at_last) =
        sbrk_all-starts (brk + n) ns (record μ { mem = m1 })
          (subst (λ (b : ℕ). BreakAt m1 heap_end b) small at_next) (omega arith) in
      let e : brk + n + total ns ≡ brk + (n + total ns) = omega arith in
      (m2, rw (first, rest) refl, subst (λ (b : ℕ). BreakAt m2 heap_end b) e at_last)
