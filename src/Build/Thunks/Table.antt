-- ===== src/Build/Thunks/Table.antt =====
-- `os_function_table`, from the rows of api.csv to `ccos_get_builtin_proc` of minisys/minisys.c.
use ga330_libretro.Common.{
  ℕ, ◌≤◌, ◌≡◌, refl, ◌∙◌, ap, false, Option, none, some, List, [], ◌∷◌, ◌++◌, String, length,
  list_eq, list_eq_refl, get_elem?, arith,
}
use ga330_libretro.Machine.{word_mod, Machine, ok}
use ga330_libretro.Libc.Strings.{CString}
use ga330_libretro.Minisys.Builtin.{ccos_get_builtin_proc}
use ga330_libretro.Minisys.Builtin.Lookup.{
  Builtin, table_of, NamesAt, builtin_address, linked_or_panic,
  ccos_get_builtin_proc-builtin_address,
}
use ga330_libretro.Build.Thunks.{
  Kind, abort, emu, noop, minisys, stub, stub_dummy_alloc, Thunk, panics, svc, prints, allocates,
  nothing, own, stub_of, Row, CName, c_name, thunk_of, thunks, os_function_names,
}
use ga330_libretro.Build.Thunks.Numbers.{emu_count, thunks-get_elem?}

-- Where the compiler and the linker put things: the bytes of a literal, its address, and the address
-- of a C function.
pub record Linked : Type 0 where
  pub literal : String → List ℕ
  pub literal_at : String → ℕ
  pub function_at : CName → ℕ

abbrev pub builtins_of : Linked → List (String × CName) → List Builtin
builtins_of l [] = []
builtins_of l ((name, c) ∷ rest) =
    record {
      entry = record { name = l.literal_at name; addr = l.function_at c };
      name = l.literal name;
    }
    ∷ builtins_of l rest

-- No row of the list has the name.
abbrev pub Lacks : Linked → List Row → String → Type 0
Lacks l [] name = Unit
Lacks l (r ∷ rows) name = (list_eq (l.literal r.name) (l.literal name) ≡ false) × Lacks l rows name

builtin_address-os_function_names :
    (l : Linked) (pre post : List Row) (row : Row)
    → Lacks l pre row.name
    → builtin_address (l.literal row.name) (builtins_of l (os_function_names (pre ++ row ∷ post)))
      ≡ some (l.function_at (c_name row))
unfolding os_function_names
builtin_address-os_function_names l [] post row lacks = rw (list_eq_refl (l.literal row.name)) refl
builtin_address-os_function_names l (r ∷ pre) post row lacks =
    rw lacks.0 (builtin_address-os_function_names l pre post row lacks.1)

-- What a kind of row asks for, with the name of the row, the prototype and the number of rows of the
-- emulator before it: the C function under the row's name, and its body.
pub data Wants (name prototype : String) (before : ℕ) : Kind → CName → Option Thunk → Type 0 where
  panic_stub : Wants name prototype before abort (stub_of name) (some (panics name))
  call_of_emu : Wants name prototype before emu (own name) (some (svc before prototype))
  empty_stub : Wants name prototype before noop (stub_of name) (some nothing)
  own_function : Wants name prototype before minisys (own name) none
  printing_stub : Wants name prototype before stub (stub_of name) (some (prints name))
  allocating_stub :
      Wants name prototype before stub_dummy_alloc (stub_of name) (some (allocates name))

thunk_of-Wants :
    (name prototype : String) (before : ℕ) (k : Kind)
    → (let row : Row = record { name = name; kind = k; prototype = prototype } in
        Wants name prototype before k (c_name row) (thunk_of before row k))
thunk_of-Wants name prototype before abort = panic_stub
thunk_of-Wants name prototype before emu = call_of_emu
thunk_of-Wants name prototype before noop = empty_stub
thunk_of-Wants name prototype before minisys = own_function
thunk_of-Wants name prototype before stub = printing_stub
thunk_of-Wants name prototype before stub_dummy_alloc = allocating_stub

-- For each row of api.csv, the first of its name: ccos_get_builtin_proc, with the table that the
-- build makes, finds under the row's name a C function, and the build gives this function its body.
-- Which function and which body is by the kind of the row: for ABORT the stub, which panics with
-- the row's name; for EMU the function itself, which makes the supervisor call whose number is how
-- many rows of the emulator are before this one, for the row's prototype; for NOOP the stub, which
-- does nothing but return; for MINISYS the function itself, without a body from the build; for STUB
-- the stub, which prints the row's name; and for STUB_DUMMY_ALLOC the stub, which prints it and
-- allocates a byte.
pub ccos_get_builtin_proc-thunks :
    (l : Linked) (pre post : List Row) (row : Row) (lo hi name : ℕ) (μ : Machine)
    → hi ≤ word_mod
    → NamesAt lo hi μ.mem (builtins_of l (os_function_names (pre ++ row ∷ post)))
    → CString μ.mem name (l.literal row.name)
    → Lacks l pre row.name
    → (c : CName) × (body : Option Thunk) × Wants row.name row.prototype
        (emu_count pre)
        row.kind
        c
        body
      × (ccos_get_builtin_proc
            (table_of (builtins_of l (os_function_names (pre ++ row ∷ post))))
            name
            μ
          ≡ ok (l.function_at c) μ)
      × (get_elem? (thunks 0 (pre ++ row ∷ post)) (length pre) ≡ some (c, body))
ccos_get_builtin_proc-thunks l pre post row lo hi name μ top at_names named lacks =
    let bs = builtins_of l (os_function_names (pre ++ row ∷ post)) in
    (
      c_name row,
      thunk_of (emu_count pre) row row.kind,
      thunk_of-Wants row.name row.prototype (emu_count pre) row.kind,
      ccos_get_builtin_proc-builtin_address lo hi name (l.literal row.name) bs μ top at_names named
          ∙ ap (λ (o : Option ℕ). linked_or_panic o μ)
              (builtin_address-os_function_names l pre post row lacks),
      thunks-get_elem? 0 pre post row
          ∙ ap (λ (n : ℕ). some (c_name row, thunk_of n row row.kind)) (omega arith),
    )
