-- ===== src/Examples/Table.antt =====
-- Two rows of api.csv, and the table of minisys for them.
use ga330_libretro.Common.{
  ℕ, ◌≡◌, refl, Option, some, none, List, [], ◌∷◌, ◌++◌, if◌then◌else◌, get_elem?, arith,
}
use ga330_libretro.Machine.{Machine, ok, poke}
use ga330_libretro.Minisys.Builtin.{ccos_get_builtin_proc}
use ga330_libretro.Minisys.Builtin.Lookup.{table_of}
use ga330_libretro.Build.Thunks.{
  Row, stub, abort, CName, own, stub_of, Thunk, thunks, os_function_names,
}
use ga330_libretro.Build.Thunks.Table.{Linked, builtins_of, Wants, ccos_get_builtin_proc-thunks}
use text.Mathlib.Text.{◌==◌ as str_eq}
use ga330_libretro.Examples.Chip.{mapped}

abbrev puts_row : Row
puts_row = record { name = "puts"; kind = stub; prototype = "" }

abbrev abort_row : Row
abort_row = record { name = "abort"; kind = abort; prototype = "" }

abbrev abort_bytes : List ℕ
abort_bytes = b'a' ∷ b'b' ∷ b'o' ∷ b'r' ∷ b't' ∷ []

abbrev puts_bytes : List ℕ
puts_bytes = b'p' ∷ b'u' ∷ b't' ∷ b's' ∷ []

abbrev stub_at : CName → ℕ
stub_at (own name) = 0x20001000
stub_at (stub_of name) = if str_eq name "abort" then 0x20000800 else 0x20000900

abbrev my_linked : Linked
my_linked = record {
  literal = λ name. if str_eq name "abort" then abort_bytes else puts_bytes;
  literal_at = λ name. if str_eq name "abort" then 0x20000020 else 0x20000010;
  function_at = stub_at;
}

-- The names of the table, and the name that an application asks for.
abbrev names : Machine
names = record {
  mem =
      poke
        (poke (poke (mapped 0x20000000 4096 (λ x. none)) 0x20000010 (puts_bytes ++ 0 ∷ []))
          0x20000020 (abort_bytes ++ 0 ∷ []))
        0x20000030 (abort_bytes ++ 0 ∷ []);
  log = [];
}

ccos_get_builtin_proc-thunks_example :
    (c : CName) × (body : Option Thunk) × Wants "abort" "" 0 abort c body
    × (ccos_get_builtin_proc
          (table_of (builtins_of my_linked (os_function_names (puts_row ∷ abort_row ∷ []))))
          0x20000030
          names
        ≡ ok (my_linked.function_at c) names)
    × (get_elem? (thunks 0 (puts_row ∷ abort_row ∷ [])) 1 ≡ some (c, body))
unfolding poke os_function_names
ccos_get_builtin_proc-thunks_example =
    ccos_get_builtin_proc-thunks my_linked (puts_row ∷ []) [] abort_row 0x20000010 0x20000030
      0x20000030 names (omega arith)
      (
        omega arith,
        omega arith,
        omega arith,
        (refl, omega arith, (refl, omega arith, (refl, omega arith, (refl, omega arith, refl)))),
        (
          omega arith,
          omega arith,
          omega arith,
          (
            refl,
            omega arith,
            (
              refl,
              omega arith,
              (refl, omega arith, (refl, omega arith, (refl, omega arith, refl))),
            ),
          ),
          tt,
        ),
      )
      (
        refl,
        omega arith,
        (refl, omega arith, (refl, omega arith, (refl, omega arith, (refl, omega arith, refl)))),
      )
      (refl, tt)
