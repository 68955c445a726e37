-- ===== src/Dl/Resources/Whole.antt =====
-- A resource from its name to its bytes: `dl_res_open`, `dl_res_get_size` and one
-- `dl_res_get_data` for all of it.
use ga330_libretro.Common.{
  ℕ, ◌+◌, ◌*◌, ◌≤◌, ◌<◌, ◌≡◌, ◌⊎◌, some, List, arith, length, map, ap, ◌∙◌, sym,
}
use ga330_libretro.Machine.{word_mod, Memory, Machine, ok, Cmd, wrap, ◌>>=◌, u32_bytes}
use ga330_libretro.Machine.Access.{Holds, Mapped, Holds-frame}
use ga330_libretro.Machine.Words.{HoldsWord, IsWord}
use ga330_libretro.Libc.Strings.{CString}
use ga330_libretro.Host.{CcosHost}
use ga330_libretro.Dl.Format.{Header, SectionHeader, ResourceEntry}
use ga330_libretro.Dl.Format.Tables.{IsResourceEntry}
use ga330_libretro.Dl.Handle.{DlAt}
use ga330_libretro.Dl.Loader.Image.{ImageAt}
use ga330_libretro.Dl.Resources.{flip, dl_res_open, dl_res_get_size, dl_res_get_data}
use ga330_libretro.Dl.Resources.Handle.{
  res_filled, ResAt-res_filled, res_filled-SameOn, Mapped-res_filled, dl_res_get_size-size,
}
use ga330_libretro.Dl.Resources.Open.{
  Resource, HasResources, resource_named, dl_res_open-resource_named, new_res-res_filled,
}
use ga330_libretro.Dl.Resources.Data.Decode.{flip_first-length}
use ga330_libretro.Dl.Resources.Data.Read.{CanRead}
use ga330_libretro.Dl.Resources.Data.Laws.{dl_res_get_data-HasRead}

-- The calls that an application makes for a resource.
abbrev pub read_resource : CcosHost → ℕ → ℕ → ℕ → Cmd ℕ
read_resource host dl name buffer = do
  res ← dl_res_open host dl 0 name
  size ← dl_res_get_size res
  dl_res_get_data res buffer 1 size

-- After `malloc` has returned the block at `res`: the block is mapped, the file's bytes `bs` stand
-- at `from` in the file, and the block, the buffer, the bytes and the file's handle lie apart.
pub record HasRoom (m : Memory) (res dl f from buffer : ℕ) (bs : List ℕ) : Type 0 where
  pub block : Mapped m res 520
  pub block_top : res + 520 ≤ word_mod
  pub dl_word : IsWord dl
  pub dl_top : dl + 4 ≤ word_mod
  pub f_word : IsWord f
  pub file_at : HoldsWord m dl f
  pub from_word : IsWord from
  pub bytes : Holds m (f + from) bs
  pub bytes_top : f + from + length bs ≤ word_mod
  pub room : Mapped m buffer (length bs)
  pub buffer_top : buffer + length bs < word_mod
  pub block_dl : (res + 520 ≤ dl) ⊎ (dl + 4 ≤ res)
  pub block_bytes : (res + 520 ≤ f + from) ⊎ (f + from + length bs ≤ res)
  pub block_buffer : (buffer + length bs ≤ res) ⊎ (res + 520 ≤ buffer)

CanRead-new :
    (m : Memory) (res dl f from buffer : ℕ) (bs : List ℕ) (ent : ResourceEntry)
    → IsResourceEntry ent
    → HasRoom m res dl f from buffer bs
    → CanRead (res_filled m res from dl ent) res from dl f buffer 1 (length bs) bs
CanRead-new m res dl f from buffer bs ent ise h =
    let at_res = ResAt-res_filled res from dl ent ise m h.block_top in
    record {
      current_at = at_res.current_file_offset;
      dl_at = at_res.dl_at;
      file_at =
          Holds-frame m (res_filled m res from dl ent) dl dl (dl + 4) (u32_bytes f)
            (res_filled-SameOn res from dl ent ise m dl (dl + 4) h.block_top h.block_dl)
            (omega arith) (omega arith) h.dl_top h.file_at;
      current_word = h.from_word;
      dl_word = h.dl_word;
      f_word = h.f_word;
      bytes =
          Holds-frame m (res_filled m res from dl ent) (f + from) (f + from) (f + from + length bs)
            bs
            (res_filled-SameOn res from dl ent ise m (f + from) (f + from + length bs) h.block_top
              h.block_bytes)
            (omega arith) (omega arith) h.bytes_top h.bytes;
      bytes_length = omega arith;
      no_overflow = omega (arith, h.buffer_top);
      enough = omega arith;
      room =
          let e : length bs ≡ 1 * length bs = omega arith in
          rw e at (Mapped-res_filled res from dl ent m buffer (length bs) h.room);
      top = omega (arith, h.buffer_top);
      res_top = h.block_top;
      apart = ground (arith, h.block_buffer);
    }

-- An application that opens a resource by its name and reads as many bytes as it is told has the
-- resource's bytes, decoded, in its buffer, and the number of them as the result.
pub read_resource-map-flip :
    (host : CcosHost) (dl f size : ℕ) (hdr : Header) (hs : List SectionHeader) (xs : List Resource)
    (name : ℕ) (s : List ℕ) (sec : SectionHeader) (ent : ResourceEntry) (res buffer : ℕ)
    (bs : List ℕ) (μ μ' : Machine)
    → DlAt μ.mem dl f size hdr
    → ImageAt μ.mem f hdr hs
    → HasResources μ.mem f hs xs (some sec)
    → CString μ.mem name s
    → resource_named s xs ≡ some ent
    → IsResourceEntry ent
    → length bs ≡ ent.size
    → host.malloc 520 μ ≡ ok res μ'
    → HasRoom μ'.mem res dl f (wrap (sec.offset + ent.offset)) buffer bs
    → (m : Memory) × (read_resource host dl name buffer μ ≡ ok (length bs) (record μ' { mem = m }))
      × Holds m buffer (map flip bs)
read_resource-map-flip host dl f size hdr hs xs name s sec ent res buffer bs μ μ' at_dl image has
      named found ise sized allocated h =
    let from = wrap (sec.offset + ent.offset) in
    let m1 = res_filled μ'.mem res from dl ent in
    let μ1 : Machine = record μ' { mem = m1 } in
    let at_res = ResAt-res_filled res from dl ent ise μ'.mem h.block_top in
    let done =
      dl_res_get_data-HasRead res from dl f buffer 1 (length bs) bs μ1
        (CanRead-new μ'.mem res dl f from buffer bs ent ise h) in
    let opened =
      dl_res_open-resource_named host dl f size hdr hs xs 0 name s (some sec) μ h.f_word at_dl image
        has named in
    let told : dl_res_get_size res μ1 ≡ ok (length bs) μ1 =
      dl_res_get_size-size res from from dl ent μ1 ise at_res
      ∙ ap (λ (n : ℕ). ok n μ1) (sym sized) in
    let e : 1 * length bs ≡ length bs = omega arith in
    (
      done.mem,
      rw (opened, found, new_res-res_filled host dl res sec ent μ μ' ise allocated h.block, told)
          (done.returns ∙ ap (λ (n : ℕ). ok n (record μ1 { mem = done.mem })) e),
      rw (← flip_first-length bs) done.buffer_at,
    )
