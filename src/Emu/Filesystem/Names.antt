-- ===== src/Emu/Filesystem/Names.antt =====
-- The names under which files are opened.
use ga330_libretro.Common.{ℕ, ◌≡◌, ◌≢◌, refl, List, [], ◌∷◌, arith}
use ga330_libretro.Emu.Filesystem.{sanitize}

-- None of the three separators is in the name.
abbrev pub IsFlat : List ℕ → Type 0
IsFlat [] = Unit {0}
IsFlat (c ∷ cs) = (c ≢ b'\\') × (c ≢ b'/') × (c ≢ b':') × IsFlat cs

sanitize-IsFlat : (path : List ℕ) → IsFlat (sanitize path)
unfolding sanitize
sanitize-IsFlat [] = tt
sanitize-IsFlat (c ∷ cs) = (ground arith, ground arith, ground arith, sanitize-IsFlat cs)

sanitize_flat : (path : List ℕ) → IsFlat path → sanitize path ≡ path
unfolding sanitize
sanitize_flat [] h = refl
sanitize_flat (c ∷ cs) h = ground (arith, h.0, h.1, h.2, sanitize_flat cs h.3)

-- The name under which a file is opened has no separator, and a name without separators is opened
-- as it is.
pub sanitize_lem : (path : List ℕ) → IsFlat (sanitize path) × (IsFlat path → sanitize path ≡ path)
sanitize_lem path = (sanitize-IsFlat path, sanitize_flat path)
