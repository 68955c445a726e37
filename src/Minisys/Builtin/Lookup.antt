-- ===== src/Minisys/Builtin/Lookup.antt =====
-- `ccos_get_builtin_proc` against a lookup by name, and minisys as the loader's host.
use ga330_libretro.Common.{
  ℕ, ◌+◌, ◌≤◌, ◌<◌, ◌≡◌, ◌≢◌, refl, Option, none, some, List, [], ◌∷◌, arith, length, list_eq,
  if◌then◌else◌, ◌∙◌, ap,
}
use ga330_libretro.Machine.{
  word_mod, Memory, Machine, Run, ok, panic, text, panicked, wrap, Cmd, print,
}
use ga330_libretro.Machine.Access.{SameOn}
use ga330_libretro.Libc.{string_at}
use ga330_libretro.Libc.Strings.{CString, strcmp_is_zero-list_eq, CString-frame}
use ga330_libretro.Host.{ccos_panic}
use ga330_libretro.Dl.Loader.Link.{Import, Resolves}
use ga330_libretro.Minisys.Builtin.{OsFunction, builtin_loop, ccos_get_builtin_proc, minisys_host}

-- An entry of the table, and the name that it points to.
pub record Builtin : Type 0 where
  pub entry : OsFunction
  pub name : List ℕ

-- The table as the build writes it: the entries, and one whose fields are 0.
abbrev pub table_of : List Builtin → List OsFunction
table_of [] = record { name = 0; addr = 0 } ∷ []
table_of (b ∷ bs) = b.entry ∷ table_of bs

-- Every name is a C string between `lo` and `hi`.
abbrev pub NamesAt : ℕ → ℕ → Memory → List Builtin → Type 0
NamesAt lo hi m [] = Unit
NamesAt lo hi m (b ∷ bs) =
    (b.entry.name ≢ 0)
    × (lo ≤ b.entry.name)
    × (b.entry.name + length b.name < hi)
    × CString m b.entry.name b.name
    × NamesAt lo hi m bs

-- The address of the first function with the name.
abbrev pub builtin_address : List ℕ → List Builtin → Option ℕ
builtin_address s [] = none
builtin_address s (b ∷ bs) = if list_eq b.name s then some b.entry.addr else builtin_address s bs

builtin_loop-builtin_address :
    (lo hi name : ℕ) (s : List ℕ) (bs : List Builtin) (μ : Machine)
    → hi ≤ word_mod
    → NamesAt lo hi μ.mem bs
    → CString μ.mem name s
    → builtin_loop (table_of bs) name μ ≡ ok (builtin_address s bs) μ
unfolding builtin_loop
builtin_loop-builtin_address lo hi name s [] μ top at_names named = refl
builtin_loop-builtin_address lo hi name s (b ∷ bs) μ top at_names named = ground (
  arith,
  strcmp_is_zero-list_eq (λ m. string_at m b.entry.name) (λ m. string_at m name) b.name s μ
      (omega arith) at_names.3 named,
  builtin_loop-builtin_address lo hi name s bs μ top at_names.4 named,
)

-- What the caller gets: an address, or the end of the emulation with two messages.
abbrev pub linked_or_panic : Option ℕ → Machine → Run ℕ
linked_or_panic (some address) μ = ok address μ
linked_or_panic none μ =
    panic (panicked "Failed to link proc" 50 ∷ text "dl_get_proc(%s) FAIL\n" ∷ μ.log)

-- `ccos_get_builtin_proc` finds the first function with the name, and panics on a name that the
-- table lacks.
pub ccos_get_builtin_proc-builtin_address :
    (lo hi name : ℕ) (s : List ℕ) (bs : List Builtin) (μ : Machine)
    → hi ≤ word_mod
    → NamesAt lo hi μ.mem bs
    → CString μ.mem name s
    → ccos_get_builtin_proc (table_of bs) name μ ≡ linked_or_panic (builtin_address s bs) μ
unfolding ccos_get_builtin_proc ccos_panic print
ccos_get_builtin_proc-builtin_address lo hi name s bs μ top at_names named =
    ground (arith, builtin_loop-builtin_address lo hi name s bs μ top at_names named)

pub NamesAt-frame :
    (lo hi : ℕ) (m m' : Memory) (bs : List Builtin)
    → SameOn lo hi m m'
    → hi ≤ word_mod
    → NamesAt lo hi m bs
    → NamesAt lo hi m' bs
NamesAt-frame lo hi m m' [] same top h = tt
NamesAt-frame lo hi m m' (b ∷ bs) same top h = (
  h.0,
  h.1,
  h.2,
  CString-frame lo hi m m' b.entry.name b.name same h.1 h.2 top h.3,
  NamesAt-frame lo hi m m' bs same top h.4,
)

-- Each import has a name in the string table, between `lo` and `hi`, and the system has the
-- function under that name.
abbrev pub ImportsNamed : ℕ → ℕ → Memory → ℕ → List Builtin → List Import → Type 0
ImportsNamed lo hi m names bs [] = Unit
ImportsNamed lo hi m names bs (e ∷ es) =
    ((s : List ℕ) × CString m (wrap (names + e.entry.name_offset)) s
      × (lo ≤ wrap (names + e.entry.name_offset))
      × (wrap (names + e.entry.name_offset) + length s < hi)
      × (builtin_address s bs ≡ some e.proc))
    × ImportsNamed lo hi m names bs es

-- minisys resolves every import whose name its table has, in every memory that agrees with `m`
-- between `lo` and `hi`: what the loader asks of its host.
pub minisys_host-Resolves :
    (malloc : ℕ → Cmd ℕ) (call : ℕ → ℕ → ℕ → Cmd ℕ) (lo hi : ℕ) (m : Memory) (names : ℕ)
    (bs : List Builtin) (es : List Import)
    → hi ≤ word_mod
    → NamesAt lo hi m bs
    → ImportsNamed lo hi m names bs es
    → Resolves (minisys_host (table_of bs) malloc call) lo hi m names es
minisys_host-Resolves malloc call lo hi m names bs [] top at_names h = tt
minisys_host-Resolves malloc call lo hi m names bs (e ∷ es) top at_names h = (
  λ μ same.
      let (s, named, below, above, found) = h.0 in
      ccos_get_builtin_proc-builtin_address lo hi (wrap (names + e.entry.name_offset)) s bs μ top
        (NamesAt-frame lo hi m μ.mem bs same top at_names)
        (CString-frame lo hi m μ.mem (wrap (names + e.entry.name_offset)) s same below above top
          named)
      ∙ ap (λ (o : Option ℕ). linked_or_panic o μ) found,
  minisys_host-Resolves malloc call lo hi m names bs es top at_names h.1,
)
