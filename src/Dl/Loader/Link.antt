-- ===== src/Dl/Loader/Link.antt =====
-- `link_imports` against a list of imports.
use ga330_libretro.Common.{ℕ, ◌+◌, ◌*◌, ◌≤◌, ◌≡◌, refl, ◌⊎◌, List, [], ◌∷◌, arith, length}
use ga330_libretro.Machine.{word_mod, Memory, Machine, ok, poke, wrap}
use ga330_libretro.Machine.Access.{
  Holds, Mapped, SameOn, Holds-frame, Holds-poke, Mapped-poke, store_bytes-Mapped,
}
use ga330_libretro.Machine.Frame.{Apart, SameOn-refl, SameOn-trans, SameOn-poke, Holds-poke-Apart}
use ga330_libretro.Host.{CcosHost}
use ga330_libretro.Dl.Format.{TableEntry}
use ga330_libretro.Dl.Format.Tables.{table_entry_bytes, IsTableEntry, load_table_entry-Holds}
use ga330_libretro.Dl.Loader.{thunk_bytes, link_import, link_imports}

-- An entry of the import table, and the function that it is linked to.
pub record Import : Type 0 where
  pub entry : TableEntry
  pub proc : ℕ

-- The entries stand one behind the other from `p` on.
abbrev pub ImportsAt : Memory → ℕ → List Import → Type 0
ImportsAt m p [] = Unit
ImportsAt m p (e ∷ es) =
    IsTableEntry e.entry × Holds m p (table_entry_bytes e.entry) × ImportsAt m (p + 16) es

-- There is memory for every thunk, outside of the range from `lo` to `hi`.
abbrev pub ThunksFit : ℕ → ℕ → Memory → List Import → Type 0
ThunksFit lo hi m [] = Unit
ThunksFit lo hi m (e ∷ es) =
    (e.entry.address + 8 ≤ word_mod)
    × ((e.entry.address + 8 ≤ lo) ⊎ (hi ≤ e.entry.address))
    × Mapped m e.entry.address 8
    × ThunksFit lo hi m es

-- No thunk overlaps that of an entry behind it.
abbrev pub ApartFrom : ℕ → List Import → Type 0
ApartFrom a [] = Unit
ApartFrom a (e ∷ es) = Apart e.entry.address 8 a 8 × ApartFrom a es

abbrev pub ThunksApart : List Import → Type 0
ThunksApart [] = Unit
ThunksApart (e ∷ es) = ApartFrom e.entry.address es × ThunksApart es

-- The memory with all thunks written.
abbrev pub linked : Memory → List Import → Memory
linked m [] = m
linked m (e ∷ es) = linked (poke m e.entry.address (thunk_bytes e.proc)) es

-- Every entry's thunk stands at its address.
abbrev pub ThunksAt : Memory → List Import → Type 0
ThunksAt m [] = Unit
ThunksAt m (e ∷ es) = Holds m e.entry.address (thunk_bytes e.proc) × ThunksAt m es

pub ThunksFit-poke :
    (lo hi : ℕ) (m : Memory) (a : ℕ) (bs : List ℕ) (es : List Import)
    → ThunksFit lo hi m es
    → ThunksFit lo hi (poke m a bs) es
ThunksFit-poke lo hi m a bs [] h = tt
ThunksFit-poke lo hi m a bs (e ∷ es) h =
    (h.0, h.1, Mapped-poke m a bs e.entry.address 8 h.2, ThunksFit-poke lo hi m a bs es h.3)

pub linked-SameOn :
    (lo hi : ℕ) (m : Memory) (es : List Import)
    → ThunksFit lo hi m es
    → SameOn lo hi m (linked m es)
linked-SameOn lo hi m [] h = SameOn-refl lo hi m
linked-SameOn lo hi m (e ∷ es) h =
    let m' = poke m e.entry.address (thunk_bytes e.proc) in
    SameOn-trans lo hi m m' (linked m' es)
      (SameOn-poke lo hi m e.entry.address (thunk_bytes e.proc) h.0 h.1)
      (linked-SameOn lo hi m' es
        (ThunksFit-poke lo hi m e.entry.address (thunk_bytes e.proc) es h.3))

linked-Holds :
    (lo hi a : ℕ) (bs : List ℕ) (m : Memory) (es : List Import)
    → length bs ≡ 8
    → a + 8 ≤ word_mod
    → ThunksFit lo hi m es
    → ApartFrom a es
    → Holds m a bs
    → Holds (linked m es) a bs
linked-Holds lo hi a bs m [] size top fit apart h = h
linked-Holds lo hi a bs m (e ∷ es) size top fit apart h =
    let thunk = thunk_bytes e.proc in
    linked-Holds lo hi a bs (poke m e.entry.address thunk) es size top
      (ThunksFit-poke lo hi m e.entry.address thunk es fit.3) apart.1
      (Holds-poke-Apart m e.entry.address thunk a bs fit.0 (omega arith) (ground (arith, apart.0))
        h)

-- With thunks that do not overlap, each one is there in the end.
pub ThunksAt-linked :
    (lo hi : ℕ) (m : Memory) (es : List Import)
    → ThunksFit lo hi m es
    → ThunksApart es
    → ThunksAt (linked m es) es
ThunksAt-linked lo hi m [] fit apart = tt
ThunksAt-linked lo hi m (e ∷ es) fit apart =
    let thunk = thunk_bytes e.proc in
    let m' = poke m e.entry.address thunk in
    let fit' = ThunksFit-poke lo hi m e.entry.address thunk es fit.3 in
    (
      linked-Holds lo hi e.entry.address thunk m' es refl fit.0 fit' apart.0
          (Holds-poke m e.entry.address thunk (omega arith)),
      ThunksAt-linked lo hi m' es fit' apart.1,
    )

module _ (host : CcosHost) where
  -- As long as the range from `lo` to `hi` is as in `m`, the host gives each name its function.
  abbrev pub Resolves : ℕ → ℕ → Memory → ℕ → List Import → Type 0
  Resolves lo hi m names [] = Unit
  Resolves lo hi m names (e ∷ es) =
      ((μ : Machine)
        → SameOn lo hi m μ.mem
        → host.get_builtin_proc (wrap (names + e.entry.name_offset)) μ ≡ ok e.proc μ)
      × Resolves lo hi m names es

  link_import-poke :
      (lo hi names : ℕ) (e : Import) (μ : Machine)
      → host.get_builtin_proc (wrap (names + e.entry.name_offset)) μ ≡ ok e.proc μ
      → Mapped μ.mem e.entry.address 8
      → link_import host names e.entry μ
        ≡ ok tt (record μ { mem = poke μ.mem e.entry.address (thunk_bytes e.proc) })
  unfolding link_import
  link_import-poke lo hi names e μ found room =
      rw found (store_bytes-Mapped e.entry.address (thunk_bytes e.proc) μ room)

  -- The loop over the table writes every thunk, whatever it wrote before, since it writes nothing
  -- that it reads.
  pub link_imports-linked :
      (lo hi : ℕ) (m : Memory) (names p : ℕ) (es : List Import) (μ : Machine)
      → SameOn lo hi m μ.mem
      → lo ≤ p
      → p + length es * 16 ≤ hi
      → hi ≤ word_mod
      → ImportsAt m p es
      → ThunksFit lo hi μ.mem es
      → Resolves lo hi m names es
      → link_imports host names (length es) p μ ≡ ok tt (record μ { mem = linked μ.mem es })
  unfolding link_imports
  link_imports-linked lo hi m names p [] μ same below above top at_p fit res = refl
  link_imports-linked lo hi m names p (e ∷ es) μ same below above top at_p fit res =
      let thunk = thunk_bytes e.proc in
      let μ' : Machine = record μ { mem = poke μ.mem e.entry.address thunk } in
      let here =
        Holds-frame m μ.mem p lo hi (table_entry_bytes e.entry) same below (omega arith) top
          at_p.1 in
      let same' =
        SameOn-trans lo hi m μ.mem μ'.mem same
          (SameOn-poke lo hi μ.mem e.entry.address thunk fit.0 fit.1) in
      let rest =
        link_imports-linked lo hi m names (p + 16) es μ' same' (omega arith) (omega arith) top
          at_p.2 (ThunksFit-poke lo hi μ.mem e.entry.address thunk es fit.3) res.1 in
      rw
        (
          load_table_entry-Holds p e.entry μ at_p.0 here,
          link_import-poke lo hi names e μ (res.0 μ same) fit.2,
        )
        rest
