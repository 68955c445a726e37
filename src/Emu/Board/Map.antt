-- ===== src/Emu/Board/Map.antt =====
-- The memory map that the emulator sets up.
use ga330_libretro.Common.{
  ℕ, ◌+◌, ◌*◌, ◌%◌, ◌≤◌, ◌<◌, ◌≡◌, refl, Bool, ◌&&◌, ◌||◌, List, [], ◌∷◌, arith, ltb, leb,
  if◌then◌else◌,
}
use ga330_libretro.Machine.{Machine, ok, print}
use ga330_libretro.Host.{ccos_diag}
use ga330_libretro.Minisys.Devices.{lcd_get_fb, lcd_get_width, lcd_get_height, framebuffer}
use ga330_libretro.Emu.Debug.{panic_is_code_address}
use ga330_libretro.Emu.Board.{
  Region, Setup, map_region, write, unchecked, hook, setup, ram_region, minisys_region,
  framebuf_addr, framebuf_size,
}

abbrev pub covers : Region → ℕ → Bool
covers r a = leb r.from a && ltb a (r.from + r.size)

-- The regions among the calls.
abbrev pub regions_of : List Setup → List Region
regions_of [] = []
regions_of (map_region r ∷ rest) = r ∷ regions_of rest
regions_of (unchecked (map_region r) ∷ rest) = r ∷ regions_of rest
regions_of (unchecked s ∷ rest) = regions_of rest
regions_of (write a bs ∷ rest) = regions_of rest
regions_of (hook k ∷ rest) = regions_of rest

-- How many of the regions an address is in.
abbrev pub covering : ℕ → List Region → ℕ
covering a [] = 0
covering a (r ∷ rs) = (if covers r a then 1 else 0) + covering a rs

-- The regions are of whole pages, which the engine asks for.
abbrev pub ArePages : List Region → Type 0
ArePages [] = Unit {0}
ArePages (r ∷ rs) = (r.from % 4096 ≡ 0) × (r.size % 4096 ≡ 0) × (0 < r.size) × ArePages rs

-- No address is in two of the regions that are mapped, and each region is of whole pages; what the
-- stack walk of a panic takes for code is what is mapped as RAM and for minisys.
pub memory_map_lem :
    (msbuffer app : List ℕ) (a : ℕ)
    → (covering a (regions_of (setup msbuffer app)) ≤ 1)
      × ArePages (regions_of (setup msbuffer app))
      × (panic_is_code_address a ≡ (covers ram_region a || covers minisys_region a))
memory_map_lem msbuffer app a = (ground arith, omega arith, refl)

-- Each pixel of the picture that minisys offers to an application, two bytes of it at `x` and `y`
-- below the width and the height that minisys gives, is in the frame buffer that the emulator maps
-- and among the bytes that it shows.
pub lcd_get_fb-pixels :
    (w h p x y : ℕ) (μ μ1 μ2 μ3 : Machine)
    → lcd_get_width μ ≡ ok w μ1
    → lcd_get_height μ ≡ ok h μ2
    → lcd_get_fb μ ≡ ok p μ3
    → x < w
    → y < h
    → (framebuf_addr ≤ p + 2 * (y * w + x))
      × (p + 2 * (y * w + x) + 2 ≤ framebuf_addr + 320 * 240 * 2)
      × (framebuf_addr + 320 * 240 * 2 ≤ framebuf_addr + framebuf_size)
unfolding lcd_get_fb lcd_get_width lcd_get_height ccos_diag print
lcd_get_fb-pixels w h p x y μ μ1 μ2 μ3 width height base left above =
    let wide : w ≡ 320 = ground arith in
    let high : h ≡ 240 = ground arith in
    let at_base : p ≡ framebuffer = ground arith in rw (wide, at_base) (omega arith)
