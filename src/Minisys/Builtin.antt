-- ===== src/Minisys/Builtin.antt =====
-- `ccos_get_builtin_proc` of minisys/minisys.c: the address of a function of the system by its
-- name. The table is generated by the build (make-thunks.py), so it is a parameter.
pub mod Lookup
use ga330_libretro.Common.{ℕ, Option, none, some, List, [], ◌∷◌, if◌then◌else◌, ◌==◌}
use ga330_libretro.Machine.{Cmd, pure, fault, ◌>>=◌, ◌>>◌, print, text}
use ga330_libretro.Libc.{string_at, strcmp_is_zero}
use ga330_libretro.Host.{CcosHost, ccos_panic}

-- `OsFunction` of minisys/thunksdef.h: where the name stands, and where the function is.
pub record OsFunction : Type 0 where
  pub name : ℕ
  pub addr : ℕ

-- The loop ends at an entry whose name is `NULL`. A table without one is read past its end.
unfoldable pub builtin_loop : List OsFunction → ℕ → Cmd (Option ℕ)
builtin_loop [] name = λ μ. fault
builtin_loop (entry ∷ rest) name = if entry.name == 0 then pure none else do
  same ← strcmp_is_zero (λ m. string_at m entry.name) (λ m. string_at m name)
  if same then pure (some entry.addr) else builtin_loop rest name

-- A name that is not in the table ends the emulation.
unfoldable pub ccos_get_builtin_proc : List OsFunction → ℕ → Cmd ℕ
ccos_get_builtin_proc os_function_table name = do
  hit ← builtin_loop os_function_table name
  elim hit [
    | some address ↦ pure address
    | none ↦ print (text "dl_get_proc(%s) FAIL\n") >> ccos_panic "Failed to link proc" 50
  ]

-- minisys as the host of libccos.
abbrev pub minisys_host : List OsFunction → (ℕ → Cmd ℕ) → (ℕ → ℕ → ℕ → Cmd ℕ) → CcosHost
minisys_host os_function_table malloc call = record {
  get_builtin_proc = ccos_get_builtin_proc os_function_table;
  malloc = malloc;
  call = call;
}
