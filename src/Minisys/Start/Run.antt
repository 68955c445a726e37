-- ===== src/Minisys/Start/Run.antt =====
-- `_start` from the loader to `AppMain`.
use ga330_libretro.Common.{ℕ, ◌+◌, ◌≤◌, ◌≡◌, refl, some, List, ◌∷◌}
use ga330_libretro.Common.Signed.{pos}
use ga330_libretro.Machine.{word_mod, Memory, Machine, ok, panic, Event, text, panicked, print}
use ga330_libretro.Machine.Access.{Mapped}
use ga330_libretro.Machine.Words.{IsWord}
use ga330_libretro.Host.{CcosHost, ccos_panic}
use ga330_libretro.Libc.Strings.{CString}
use ga330_libretro.Dl.Format.{Header, SectionHeader}
use ga330_libretro.Dl.Handle.{DlAt, filled, fill_dl-filled, DlAt-filled}
use ga330_libretro.Dl.Loader.{ccdl_from_memory}
use ga330_libretro.Dl.Loader.Link.{Import}
use ga330_libretro.Dl.Loader.Image.{ImageAt, IsLoadable, loaded}
use ga330_libretro.Dl.Loader.Outcome.{Refused, ccdl_from_memory-Refused}
use ga330_libretro.Dl.Loader.Success.{ccdl_from_memory-loaded}
use ga330_libretro.Dl.Exports.Lookup.{
  Export, HasExports, export_address, dl_get_proc-export_address,
}
use ga330_libretro.Minisys.Start.{Layout, run_application}

-- The machine with one more event in its log.
abbrev pub logged : Event → Machine → Machine
logged e μ = record μ { log = e ∷ μ.log }

module _ (host : CcosHost) (l : Layout) (f size : ℕ) (hdr : Header) (hs : List SectionHeader) where
  -- A file that the loader refuses ends the emulation, with the loader's message and the panic in
  -- the log.
  pub run_application-Refused :
      (e : Event) (μ : Machine)
      → ImageAt μ.mem f hdr hs
      → Refused hdr hs e
      → run_application host l f size μ
        ≡ panic (
            panicked "Failed to load application" 32
            ∷ text "ccdl_from_memory: %d\n"
            ∷ e
            ∷ text "miniSYS _start(%p, %zd)\n"
            ∷ μ.log)
  unfolding run_application print ccos_panic
  run_application-Refused e μ image refused =
      rw
        (ccdl_from_memory-Refused host l.my_dl f size hdr hs e
          (logged (text "miniSYS _start(%p, %zd)\n") μ) image refused)
        refl

  -- Once the application's entry point has returned, in the machine `μ2`: what `_start` finds in
  -- memory when it looks for `AppMain`.
  pub record IsReady (μ2 : Machine) (xs : List Export) (address : ℕ) : Type 0 where
    pub room : Mapped μ2.mem l.my_dl 40
    pub top : l.my_dl + 40 ≤ word_mod
    pub f_word : IsWord f
    pub image : ImageAt (filled μ2.mem l.my_dl f size hdr) f hdr hs
    pub exports : HasExports (filled μ2.mem l.my_dl f size hdr) f hs xs
    pub name : List ℕ
    pub app_main : CString (filled μ2.mem l.my_dl f size hdr) l.app_main name
    pub exported : export_address name xs ≡ some address

  run_loaded :
      (lo hi : ℕ) (c : SectionHeader) (code : List ℕ) (es : List Import) (r : ℕ) (μ μ2 : Machine)
      → IsLoadable host lo hi μ.mem f hdr hs c code es
      → host.call c.entry_point 0 0 (record μ { mem = loaded μ.mem c code es }) ≡ ok r μ2
      → Mapped μ2.mem l.my_dl 40
      → ccdl_from_memory host l.my_dl f size μ
        ≡ ok (pos 0) (record μ2 { mem = filled μ2.mem l.my_dl f size hdr })
  run_loaded lo hi c code es r μ μ2 ready called room =
      rw
        (
          ccdl_from_memory-loaded host lo hi l.my_dl f size hdr hs c code es μ ready,
          called,
          fill_dl-filled l.my_dl f size hdr ready.image.header μ2 room,
        )
        refl

  -- A loadable file whose entry point returns and that exports `AppMain`: `_start` calls it with
  -- the address of `my_dl`, where the file's `DL_t` stands by then.
  pub run_application-app_main :
      (lo hi : ℕ) (c : SectionHeader) (code : List ℕ) (es : List Import) (xs : List Export)
      (address r : ℕ) (μ μ2 : Machine)
      → IsLoadable host lo hi μ.mem f hdr hs c code es
      → (let μ1 : Machine = logged (text "miniSYS _start(%p, %zd)\n") μ in
          host.call c.entry_point 0 0 (record μ1 { mem = loaded μ.mem c code es }) ≡ ok r μ2)
      → IsReady μ2 xs address
      → (let m : Memory = filled μ2.mem l.my_dl f size hdr in
          (run_application host l f size μ
            ≡ l.call_app address l.my_dl (record {
              mem = m;
              log = text "minSYS: AppMain=%p\n" ∷ text "ccdl_from_memory: %d\n" ∷ μ2.log;
            }))
          × DlAt m l.my_dl f size hdr)
  unfolding run_application print
  run_application-app_main lo hi c code es xs address r μ μ2 ready called next =
      let m = filled μ2.mem l.my_dl f size hdr in
      let at_dl = DlAt-filled l.my_dl f size hdr ready.image.header μ2.mem next.top in
      let μ1 : Machine = logged (text "miniSYS _start(%p, %zd)\n") μ in
      let μ3 : Machine = record { mem = m; log = text "ccdl_from_memory: %d\n" ∷ μ2.log } in
      (
        rw
            (
              run_loaded lo hi c code es r μ1 μ2 ready called next.room,
              dl_get_proc-export_address host l.my_dl f size hdr hs xs l.app_main next.name μ3
                  next.f_word at_dl next.image next.exports next.app_main,
              next.exported,
            )
            refl,
        at_dl,
      )
