-- ===== src/Build/Thunks.antt =====
-- make-thunks.py: from the rows of api.csv to the functions that an application imports (in minisys)
-- and to the table of the emulator's handlers.
pub mod Numbers
pub mod Table
use ga330_libretro.Common.{
  ℕ, zero, suc, ◌+◌, Bool, true, false, Option, none, some, List, [], ◌∷◌, ◌++◌, String,
  if◌then◌else◌,
}

-- `Type`: what stands behind a function.
pub data Kind : Type 0 where
  abort emu noop minisys stub stub_dummy_alloc : Kind

-- A row of the file; its third column is not used.
pub record Row : Type 0 where
  pub name : String
  pub kind : Kind
  pub prototype : String

abbrev pub is_emu : Kind → Bool
is_emu emu = true
is_emu abort = false
is_emu noop = false
is_emu minisys = false
is_emu stub = false
is_emu stub_dummy_alloc = false

abbrev pub stub_in_minisys : Kind → Bool
stub_in_minisys abort = true
stub_in_minisys noop = true
stub_in_minisys stub = true
stub_in_minisys stub_dummy_alloc = true
stub_in_minisys emu = false
stub_in_minisys minisys = false

-- The name of a C function: its own, or that of the generated stub.
pub data CName : Type 0 where
  own : String → CName
  stub_of : String → CName

abbrev pub c_name : Row → CName
c_name row = if stub_in_minisys row.kind then stub_of row.name else own row.name

-- The body of a generated function: it panics, makes a supervisor call, prints that it is a stub
-- (and may allocate a byte), or does nothing. There is none for a function of minisys.
pub data Thunk : Type 0 where
  panics : String → Thunk
  svc : ℕ → String → Thunk
  prints : String → Thunk
  allocates : String → Thunk
  nothing : Thunk

abbrev pub thunk_of : ℕ → Row → Kind → Option Thunk
thunk_of next_svc row abort = some (panics row.name)
thunk_of next_svc row emu = some (svc next_svc row.prototype)
thunk_of next_svc row noop = some nothing
thunk_of next_svc row minisys = none
thunk_of next_svc row stub = some (prints row.name)
thunk_of next_svc row stub_dummy_alloc = some (allocates row.name)

-- The loop over the rows, with the number of the next supervisor call: each C function and its
-- body. A function of the emulator without a prototype ends the build, and is taken not to occur.
unfoldable pub thunks : ℕ → List Row → List (CName × Option Thunk)
thunks next_svc [] = []
thunks next_svc (row ∷ rows) =
    (c_name row, thunk_of next_svc row row.kind)
    ∷ thunks (if is_emu row.kind then next_svc + 1 else next_svc) rows

-- `svc_handler_table`: the names of the functions whose handlers `Svc_...` stand in it, in order.
unfoldable pub svc_handler_names : List Row → List String
svc_handler_names [] = []
svc_handler_names (row ∷ rows) =
    let rest = svc_handler_names rows in if is_emu row.kind then row.name ∷ rest else rest

-- `os_function_table`, without the entry of zeros at its end.
unfoldable pub os_function_names : List Row → List (String × CName)
os_function_names [] = []
os_function_names (row ∷ rows) = (row.name, c_name row) ∷ os_function_names rows
