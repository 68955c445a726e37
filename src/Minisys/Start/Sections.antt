-- ===== src/Minisys/Start/Sections.antt =====
-- `copy_data` against a list of the initial values of `.data`.
use ga330_libretro.Common.{
  ℕ, zero, suc, ◌+◌, ◌*◌, ◌≤◌, ◌<◌, ◌≡◌, refl, ◌⊎◌, inr, List, [], ◌∷◌, ◌++◌, arith, length, ltb,
  true, length-append,
}
use ga330_libretro.Machine.{word_mod, Memory, Machine, ok, poke, memcpy}
use ga330_libretro.Machine.Access.{
  Holds, Mapped, SameOn, load_bytes-Holds, store_bytes-Mapped, Mapped-poke, Mapped-first,
  Mapped-part, Holds-poke, Holds-append, Holds-append_left, Holds-append_right, Holds-frame,
}
use ga330_libretro.Machine.Frame.{SameOn-refl, SameOn-trans, SameOn-poke, Holds-poke-Apart}
use ga330_libretro.Minisys.Start.{copy_data}

-- A list of words, each of four bytes.
abbrev pub bytes_of : List (List ℕ) → List ℕ
bytes_of [] = []
bytes_of (w ∷ ws) = w ++ bytes_of ws

abbrev pub AllFour : List (List ℕ) → Type 0
AllFour [] = Unit
AllFour (w ∷ ws) = (length w ≡ 4) × AllFour ws

pub length-bytes_of : (ws : List (List ℕ)) → AllFour ws → length (bytes_of ws) ≡ 4 * length ws
length-bytes_of [] h = refl
length-bytes_of (w ∷ ws) h =
    omega (arith, h.0, length-append w (bytes_of ws), length-bytes_of ws h.1)

-- The memory after the copy.
abbrev pub data_copied : Memory → ℕ → List (List ℕ) → Memory
data_copied m dst [] = m
data_copied m dst (w ∷ ws) = data_copied (poke m dst w) (dst + 4) ws

pub data_copied-SameOn :
    (m : Memory) (dst lo hi : ℕ) (ws : List (List ℕ))
    → AllFour ws
    → dst + 4 * length ws ≤ word_mod
    → (dst + 4 * length ws ≤ lo) ⊎ (hi ≤ dst)
    → SameOn lo hi m (data_copied m dst ws)
data_copied-SameOn m dst lo hi [] four top apart = SameOn-refl lo hi m
data_copied-SameOn m dst lo hi (w ∷ ws) four top apart =
    SameOn-trans lo hi m (poke m dst w) (data_copied (poke m dst w) (dst + 4) ws)
      (SameOn-poke lo hi m dst w (omega (arith, four.0)) (ground (arith, apart, four.0)))
      (data_copied-SameOn (poke m dst w) (dst + 4) lo hi ws four.1 (omega arith)
        (ground (arith, apart)))

pub data_copied-Holds :
    (m : Memory) (dst : ℕ) (ws : List (List ℕ))
    → AllFour ws
    → dst + 4 * length ws ≤ word_mod
    → Holds (data_copied m dst ws) dst (bytes_of ws)
data_copied-Holds m dst [] four top = tt
data_copied-Holds m dst (w ∷ ws) four top =
    let m1 = poke m dst w in
    let rest = data_copied m1 (dst + 4) ws in
    let e : dst + length w ≡ dst + 4 = omega (arith, four.0) in
    Holds-append rest dst w (bytes_of ws)
      (Holds-frame m1 rest dst dst (dst + 4) w
        (data_copied-SameOn m1 (dst + 4) dst (dst + 4) ws four.1 (omega arith) (inr (omega arith)))
        (omega arith) (omega (arith, four.0)) (omega arith)
        (Holds-poke m dst w (omega (arith, four.0))))
      (rw e (data_copied-Holds m1 (dst + 4) ws four.1 (omega arith)))

-- With `n` words to copy and more than `n` rounds, the loop ends with all of them copied.
pub copy_data-data_copied :
    (k edata src dst : ℕ) (ws : List (List ℕ)) (μ : Machine)
    → length ws < k
    → AllFour ws
    → dst + 4 * length ws ≤ word_mod
    → dst + 4 * length ws < edata + 4
    → edata ≤ dst + 4 * length ws
    → Mapped μ.mem dst (4 * length ws)
    → src + 4 * length ws ≤ word_mod
    → (dst + 4 * length ws ≤ src) ⊎ (src + 4 * length ws ≤ dst)
    → Holds μ.mem src (bytes_of ws)
    → copy_data k edata src dst μ ≡ ok tt (record μ { mem = data_copied μ.mem dst ws })
unfolding copy_data memcpy
copy_data-data_copied zero edata src dst ws μ fuel four top last end room stop apart h =
    elim fuel [ ]
copy_data-data_copied (suc k) edata src dst [] μ fuel four top last end room stop apart h =
    ground arith
copy_data-data_copied (suc k) edata src dst (w ∷ ws) μ fuel four top last end room stop apart h =
    let μ1 : Machine = record μ { mem = poke μ.mem dst w } in
    let e : src + length w ≡ src + 4 = omega (arith, four.0) in
    let size : 4 * length (w ∷ ws) ≡ 4 + 4 * length ws = omega arith in
    let room' : Mapped μ.mem dst (4 + 4 * length ws) = rw size at room in
    let fits : Mapped μ.mem dst (length w) =
      rw (four.0) (Mapped-first μ.mem dst (4 + 4 * length ws) 4 (omega arith) room') in
    let more : ltb dst edata ≡ true = ground arith in
    let behind : Holds μ.mem (src + 4) (bytes_of ws) =
      rw e at (Holds-append_right μ.mem src w (bytes_of ws) h) in
    let rest =
      copy_data-data_copied k edata (src + 4) (dst + 4) ws μ1 (omega arith) four.1 (omega arith)
        (omega arith) (omega arith)
        (Mapped-poke μ.mem dst w (dst + 4) (4 * length ws)
          (Mapped-part μ.mem dst 4 (4 * length ws) room'))
        (omega arith) (ground (arith, apart))
        (Holds-poke-Apart μ.mem dst w (src + 4) (bytes_of ws) (omega (arith, four.0))
          (omega (arith, length-bytes_of ws four.1))
          (ground (arith, apart, four.0, length-bytes_of ws four.1)) behind) in
    rw
      (
        more,
        load_bytes-Holds src 4 w μ (Holds-append_left μ.mem src w (bytes_of ws) h) four.0,
        store_bytes-Mapped dst w μ fits,
      )
      rest
