-- ===== src/Minisys/Start/Boot.antt =====
-- The whole of `_start`.
use ga330_libretro.Common.{ℕ, ◌+◌, ◌*◌, ◌≤◌, ◌<◌, ◌≡◌, refl, ◌⊎◌, inl, inr, List, arith, length}
use ga330_libretro.Machine.{word_mod, Memory, Machine}
use ga330_libretro.Machine.Access.{Holds, Mapped, SameOn}
use ga330_libretro.Host.{CcosHost}
use ga330_libretro.Minisys.Start.{Layout, data_rounds, run_application, start}
use ga330_libretro.Minisys.Start.Sections.{
  bytes_of, AllFour, data_copied, data_copied-SameOn, data_copied-Holds, copy_data-data_copied,
}

-- The words `ws` are the initial values of `.data`, whose end may lie inside the last of them.
pub record HasData (l : Layout) (m : Memory) (ws : List (List ℕ)) : Type 0 where
  pub four : AllFour ws
  pub order : l.sdata ≤ l.edata
  pub covers : l.edata ≤ l.sdata + 4 * length ws
  pub tight : l.sdata + 4 * length ws < l.edata + 4
  pub top : l.sdata + 4 * length ws ≤ word_mod
  pub room : Mapped m l.sdata (4 * length ws)
  pub source_top : l.sidata + 4 * length ws ≤ word_mod
  pub apart : (l.sdata + 4 * length ws ≤ l.sidata) ⊎ (l.sidata + 4 * length ws ≤ l.sdata)
  pub values : Holds m l.sidata (bytes_of ws)

-- The memory that the application is run in.
pub start-data_copied :
    (host : CcosHost) (l : Layout) (f size : ℕ) (ws : List (List ℕ)) (μ : Machine)
    → HasData l μ.mem ws
    → start host l f size μ
      ≡ run_application host l f size (record μ { mem = data_copied μ.mem l.sdata ws })
unfolding start
start-data_copied host l f size ws μ h =
    let ended =
      copy_data-data_copied (data_rounds l) l.edata l.sidata l.sdata ws μ
        (omega (arith, h.order, h.tight)) h.four h.top h.tight h.covers h.room h.source_top h.apart
        h.values in
    rw ended refl

-- The loop over `.data` ends; the application is run in a memory where `.data` has its initial
-- values and all else is as before.
pub start-run_application :
    (host : CcosHost) (l : Layout) (f size : ℕ) (ws : List (List ℕ)) (μ : Machine)
    → HasData l μ.mem ws
    → (m : Memory) × (start host l f size μ ≡ run_application host l f size (record μ { mem = m }))
      × Holds m l.sdata (bytes_of ws)
      × SameOn 0 l.sdata μ.mem m
      × SameOn (l.sdata + 4 * length ws) word_mod μ.mem m
start-run_application host l f size ws μ h = (
  data_copied μ.mem l.sdata ws,
  start-data_copied host l f size ws μ h,
  data_copied-Holds μ.mem l.sdata ws h.four h.top,
  data_copied-SameOn μ.mem l.sdata 0 l.sdata ws h.four h.top (inr (omega arith)),
  data_copied-SameOn μ.mem l.sdata (l.sdata + 4 * length ws) word_mod ws h.four h.top
      (inl (omega arith)),
)
