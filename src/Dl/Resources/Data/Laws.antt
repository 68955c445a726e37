-- ===== src/Dl/Resources/Data/Laws.antt =====
-- What reads from a resource give: one read, a read of single bytes, and two reads in a row.
use mathlib.Core.List.{map-append}
use ga330_libretro.Common.{
  ℕ, zero, suc, ◌+◌, ◌*◌, ◌≤◌, ◌<◌, ◌≡◌, refl, ◌⊎◌, inl, inr, List, [], ◌∷◌, ◌++◌, arith, length,
  ap, ◌∙◌, map, sym, subst, get_elem?,
}
use ga330_libretro.Machine.{word_mod, Memory, Machine, Run, ok, Event, Cmd, wrap, u32_bytes, ◌>>◌}
use ga330_libretro.Machine.Access.{
  Holds, Mapped, SameOn, Holds-frame, Mapped-first, Mapped-part, Holds-append, Holds-append_left,
  Holds-append_right, pointwise_of_Holds,
}
use ga330_libretro.Machine.Words.{HoldsWord}
use ga330_libretro.Dl.Resources.{flip, dl_res_get_data}
use ga330_libretro.Dl.Resources.Data.Decode.{flip_first, length-flip_first, flip_first-length}
use ga330_libretro.Dl.Resources.Data.Read.{
  CanRead, after_read, dl_res_get_data-after_read, after_read-Holds, after_read-SameOn,
  after_read-current, Mapped-after_read,
}

-- What one read does: the number of bytes is returned, the buffer holds them, those below `count`
-- flipped, the handle is moved on, and the rest of memory is as before.
pub record HasRead (μ : Machine) (res current buffer size count : ℕ) (bs : List ℕ) (r : Run ℕ)
    : Type 0 where
  pub mem : Memory
  pub returns : r ≡ ok (size * count) (record μ { mem = mem })
  pub buffer_at : Holds mem buffer (flip_first count bs)
  pub current_at : HoldsWord mem (res + 4) (wrap (current + size * count))
  pub same :
      (lo hi : ℕ)
      → (buffer + size * count ≤ lo) ⊎ (hi ≤ buffer)
      → (res + 8 ≤ lo) ⊎ (hi ≤ res + 4)
      → SameOn lo hi μ.mem mem

-- A read of count items of size bytes, with room for them and enough bytes in the file, returns
-- size * count, copies that many bytes of which it flips the first count, moves the handle on, and
-- changes nothing else. This is for items of at least one byte, or no items, a number of bytes
-- below 2 ^ 32, and a buffer that is apart from the handle.
pub dl_res_get_data-HasRead :
    (res current dl f buffer size count : ℕ) (bs : List ℕ) (μ : Machine)
    → CanRead μ.mem res current dl f buffer size count bs
    → HasRead μ res current buffer size count bs (dl_res_get_data res buffer size count μ)
dl_res_get_data-HasRead res current dl f buffer size count bs μ ready = record {
  mem = after_read μ.mem res current buffer count bs (size * count);
  returns = dl_res_get_data-after_read res current dl f buffer size count bs μ ready;
  buffer_at = after_read-Holds res current dl f buffer size count bs μ.mem ready;
  current_at = after_read-current res current dl f buffer size count bs μ.mem ready;
  same = λ lo hi p q. after_read-SameOn res current dl f buffer size count bs μ.mem lo hi ready p q;
}

get_elem?-flip_first :
    (k : ℕ) (bs : List ℕ) (i : ℕ) → k ≤ i → get_elem? (flip_first k bs) i ≡ get_elem? bs i
get_elem?-flip_first zero bs i below = refl
get_elem?-flip_first (suc k) [] i below = refl
get_elem?-flip_first (suc k) (b ∷ bs) zero below = elim below [ ]
get_elem?-flip_first (suc k) (b ∷ bs) (suc i) below = get_elem?-flip_first k bs i (omega arith)

-- With items of more than one byte, every byte from index `count` on is left as it is in the
-- file, still encoded.
pub dl_res_get_data-encoded_tail :
    (res current dl f buffer size count : ℕ) (bs : List ℕ) (i : ℕ) (μ : Machine)
    → CanRead μ.mem res current dl f buffer size count bs
    → count ≤ i
    → i < size * count
    → (m : Memory) × (dl_res_get_data res buffer size count μ
        ≡ ok (size * count) (record μ { mem = m }))
      × (m (wrap (buffer + i)) ≡ μ.mem (wrap (f + current + i)))
dl_res_get_data-encoded_tail res current dl f buffer size count bs i μ ready past inside =
    let done = dl_res_get_data-HasRead res current dl f buffer size count bs μ ready in
    let in_range : i < length bs = omega (arith, ready.bytes_length) in
    (
      done.mem,
      done.returns,
      pointwise_of_Holds done.mem buffer (flip_first count bs) i done.buffer_at
            (omega (arith, length-flip_first count bs))
          ∙ get_elem?-flip_first count bs i past
          ∙ sym (pointwise_of_Holds μ.mem (f + current) bs i ready.bytes in_range),
    )

-- The buffer, the file's bytes and its handle, and the position in the resource's handle do not
-- overlap, and neither the bytes nor the position go round the end of the address space.
pub record IsQuiet (res current dl f buffer n : ℕ) : Type 0 where
  pub position : current + n < word_mod
  pub bytes_top : f + current + n ≤ word_mod
  pub bytes_buffer : (buffer + n ≤ f + current) ⊎ (f + current + n ≤ buffer)
  pub bytes_handle : (res + 8 ≤ f + current) ⊎ (f + current + n ≤ res + 4)
  pub dl_top : dl + 4 ≤ word_mod
  pub dl_buffer : (buffer + n ≤ dl) ⊎ (dl + 4 ≤ buffer)
  pub dl_handle : (res + 8 ≤ dl) ⊎ (dl + 4 ≤ res + 4)

-- A read of `k` bytes, and one of `n` bytes behind them.
abbrev pub read_twice : ℕ → ℕ → ℕ → ℕ → Cmd ℕ
read_twice res buffer k n = do dl_res_get_data res buffer 1 k; dl_res_get_data res (buffer + k) 1 n

module _ (res current dl f buffer : ℕ) (xs ys : List ℕ) (m : Memory)
    (ready : CanRead m res current dl f buffer 1 (length xs + length ys) (xs ++ ys))
    (quiet : IsQuiet res current dl f buffer (length xs + length ys)) where
  CanRead-first : CanRead m res current dl f buffer 1 (length xs) xs
  CanRead-first = record {
    current_at = ready.current_at;
    dl_at = ready.dl_at;
    file_at = ready.file_at;
    current_word = ready.current_word;
    dl_word = ready.dl_word;
    f_word = ready.f_word;
    bytes = Holds-append_left m (f + current) xs ys ready.bytes;
    bytes_length = omega arith;
    no_overflow = omega (arith, ready.no_overflow);
    enough = omega arith;
    room =
        Mapped-first m buffer (1 * (length xs + length ys)) (1 * length xs) (omega arith)
          ready.room;
    top = omega (arith, ready.top);
    res_top = ready.res_top;
    apart = ground (arith, ready.apart);
  }

  abbrev between : Memory
  between = after_read m res current buffer (length xs) xs (1 * length xs)

  between-SameOn :
      (lo hi : ℕ)
      → (buffer + length xs ≤ lo) ⊎ (hi ≤ buffer)
      → (res + 8 ≤ lo) ⊎ (hi ≤ res + 4)
      → SameOn lo hi m between
  between-SameOn lo hi p q =
      after_read-SameOn res current dl f buffer 1 (length xs) xs m lo hi CanRead-first
        (ground (arith, p)) q

  CanRead-second :
      CanRead between res
        (wrap (current + 1 * length xs))
        dl
        f
        (buffer + length xs)
        1
        (length ys)
        ys
  CanRead-second =
      let place : f + current + length xs ≡ f + wrap (current + 1 * length xs) =
        omega (arith, quiet.position) in
      let behind = Holds-append_right m (f + current) xs ys ready.bytes in
      let left : Mapped m buffer (length xs + length ys) =
        Mapped-first m buffer (1 * (length xs + length ys)) (length xs + length ys) (omega arith)
          ready.room in
      let room =
        Mapped-after_read res current dl f buffer 1 (length xs) xs m (buffer + length xs)
          (1 * length ys)
          (Mapped-first m (buffer + length xs) (length ys) (1 * length ys) (omega arith)
            (Mapped-part m buffer (length xs) (length ys) left)) in
      record {
        current_at = after_read-current res current dl f buffer 1 (length xs) xs m CanRead-first;
        dl_at =
            Holds-frame m between (res + 8) (res + 8) (res + 12) (u32_bytes dl)
              (between-SameOn (res + 8) (res + 12) (ground (arith, ready.apart))
                (inl (omega arith)))
              (omega arith) (omega arith) (omega (arith, ready.res_top)) ready.dl_at;
        file_at =
            Holds-frame m between dl dl (dl + 4) (u32_bytes f)
              (between-SameOn dl (dl + 4) (ground (arith, quiet.dl_buffer))
                (ground (arith, quiet.dl_handle)))
              (omega arith) (omega arith) quiet.dl_top ready.file_at;
        current_word = omega arith;
        dl_word = ready.dl_word;
        f_word = ready.f_word;
        bytes = rw place at (
            Holds-frame m between (f + current + length xs) (f + current)
              (f + current + (length xs + length ys)) ys
              (between-SameOn (f + current) (f + current + (length xs + length ys))
                (ground (arith, quiet.bytes_buffer)) (ground (arith, quiet.bytes_handle)))
              (omega arith) (omega arith) quiet.bytes_top behind);
        bytes_length = omega arith;
        no_overflow = omega (arith, ready.no_overflow);
        enough = omega arith;
        room = room;
        top = omega (arith, ready.top);
        res_top = ready.res_top;
        apart = ground (arith, ready.apart);
      }

  -- Two reads of bytes in a row, the second behind the first in the buffer, leave there what one
  -- read of all the bytes gives, and the handle behind the last of them.
  pub dl_res_get_data_twice :
      (log : List Event)
      → (m' : Memory) × (read_twice res buffer
            (length xs)
            (length ys)
            (record { mem = m; log = log })
          ≡ ok (length ys) (record { mem = m'; log = log }))
        × Holds m' buffer (map flip (xs ++ ys))
        × HoldsWord m' (res + 4) (current + (length xs + length ys))
  dl_res_get_data_twice log =
      let μ : Machine = record { mem = m; log = log } in
      let μ1 : Machine = record { mem = between; log = log } in
      let middle = wrap (current + 1 * length xs) in
      let last =
        after_read between res middle (buffer + length xs) (length ys) ys (1 * length ys) in
      let kept =
        Holds-frame between last buffer buffer (buffer + length xs) (flip_first (length xs) xs)
          (after_read-SameOn res middle dl f (buffer + length xs) 1 (length ys) ys between buffer
            (buffer + length xs) CanRead-second (inr (omega arith)) (ground (arith, ready.apart)))
          (omega arith) (omega (arith, length-flip_first (length xs) xs)) (omega (arith, ready.top))
          (after_read-Holds res current dl f buffer 1 (length xs) xs m CanRead-first) in
      let added =
        after_read-Holds res middle dl f (buffer + length xs) 1 (length ys) ys between
          CanRead-second in
      let sum : wrap (middle + 1 * length ys) ≡ current + (length xs + length ys) =
        omega (arith, quiet.position) in
      let e : 1 * length ys ≡ length ys = omega arith in
      (
        last,
        rw (dl_res_get_data-after_read res current dl f buffer 1 (length xs) xs μ CanRead-first) (
            dl_res_get_data-after_read res middle dl f (buffer + length xs) 1 (length ys) ys μ1
              CanRead-second
            ∙ ap (λ (n : ℕ). ok n (record { mem = last; log = log })) e),
        rw (map-append, ← flip_first-length xs, ← flip_first-length ys)
            (Holds-append last buffer (flip_first (length xs) xs) (flip_first (length ys) ys) kept
              (rw length-flip_first added)),
        subst (λ (w : ℕ). HoldsWord last (res + 4) w) sum
            (after_read-current res middle dl f (buffer + length xs) 1 (length ys) ys between
              CanRead-second),
      )
