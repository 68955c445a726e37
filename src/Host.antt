-- ===== src/Host.antt =====
-- libccos/include/libccos/ccos_host.h: what libccos asks of the system that it is linked into.
-- minisys/minisys.c provides `ccos_get_builtin_proc` and the messages (`Minisys.Host`); `malloc` is
-- newlib's, and a call of application code is the emulated processor's.
use ga330_libretro.Common.{ℕ, ◌∷◌, String}
use ga330_libretro.Machine.{Cmd, panic, diag, panicked, print}

pub record CcosHost : Type 0 where
  pub get_builtin_proc : ℕ → Cmd ℕ
  pub malloc : ℕ → Cmd ℕ
  -- `((int (*)(int, int)) f)(a, b)`
  pub call : ℕ → ℕ → ℕ → Cmd ℕ

-- `ccos_diag(message)` at a line of the source.
unfoldable pub ccos_diag : String → ℕ → Cmd (Unit {0})
unfolding print
ccos_diag message line = print (diag message line)

-- `ccos_panic(message)`: the message is printed and the emulation ends.
unfoldable pub ccos_panic {ℓ} : {A : Type ℓ} → String → ℕ → Cmd A
ccos_panic message line μ = panic (panicked message line ∷ μ.log)
