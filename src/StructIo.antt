-- ===== src/StructIo.antt =====
-- `mtcaDummy_read` and `mtcaDummy_write` of mtcadummy_drv.c: a request is a `device_rw` structure
-- (pciedev_io.h) in the memory of the process. A handler is given the index `i` of the device in
-- `dummyPrivateData`, which is what `filp->private_data` points to, the address of the structure
-- and the count. The file position is not used.
pub mod ReadBack
pub mod Reads
pub mod Refines
pub mod Safety
pub mod Writes
use pciedummy_driver.Common.{
  ℕ, ◌+◌, ◌*◌, ◌/◌, ◌%◌, Bool, not, ◌||◌, Option, none, some, List, ◌++◌, ◌==◌, if◌then◌else◌, ltb,
  leb,
}
use pciedummy_driver.Common.Bytes.{u32, bytes_of_word, word_at, bytes_from}
use pciedummy_driver.State.{
  MtcaDummyControl, Bar, system_area, dma_area, bar_size, mtcadummy_dma_size,
}
use pciedummy_driver.Kernel.{
  efault, eio, erestartsys, Ssize, error, dev_mutex, Host, Cmd, pure, ◌>>=◌, ◌>>◌,
  mutex_lock_interruptible, control_flag, get_device, in_bounds, unlock_and_fail, unlock_and_return,
  load_word, store_word, copy_from_user, copy_to_user,
}
use pciedummy_driver.Firmware.{mtcadummy_perform_action_on_write, mtcadummy_perform_pre_read_action}

abbrev pub rw_d8 : ℕ
rw_d8 = 0

abbrev pub rw_d16 : ℕ
rw_d16 = 1

abbrev pub rw_d32 : ℕ
rw_d32 = 2

abbrev pub rw_dma : ℕ
rw_dma = 3

abbrev pub rw_info : ℕ
rw_info = 4

pub record DeviceRw : Type 0 where
  pub offset_rw : ℕ
  pub data_rw : ℕ
  pub mode_rw : ℕ
  pub barx_rw : ℕ
  pub size_rw : ℕ
  pub rsrvd_rw : ℕ

-- `sizeof(device_rw)`.
abbrev pub sizeof_device_rw : ℕ
sizeof_device_rw = 24

-- The structure in memory, and back.
unfoldable pub bytes_of_rw : DeviceRw → List ℕ
bytes_of_rw r =
    bytes_of_word r.offset_rw
    ++ (bytes_of_word r.data_rw
        ++ (bytes_of_word r.mode_rw
            ++ (bytes_of_word r.barx_rw ++ (bytes_of_word r.size_rw ++ bytes_of_word r.rsrvd_rw))))

unfoldable pub rw_of_bytes : List ℕ → DeviceRw
rw_of_bytes bs = record {
  offset_rw = word_at bs 0;
  data_rw = word_at bs 4;
  mode_rw = word_at bs 8;
  barx_rw = word_at bs 12;
  size_rw = word_at bs 16;
  rsrvd_rw = word_at bs 20;
}

-- The `switch` on the number of the bar; `none` is its default.
unfoldable pub select_bar : ℕ → Option Bar
select_bar barx = if barx == 0 then some system_area else if barx == 2 then some dma_area else none

-- The offset is no multiple of 4, or not below the size of the bar.
unfoldable pub bad_offset : ℕ → Bar → Bool
bad_offset offset b = not (offset % 4 == 0) || leb (bar_size b) offset

module _ {M : Type 0} ⦃host : Host M⦄ where
  -- Copies the structure back to the process and returns its size.
  unfoldable pub return_rw : ℕ → ℕ → DeviceRw → Cmd M Ssize
  return_rw i buf r = do
    left ← copy_to_user buf (bytes_of_rw r)
    if not (left == 0) then unlock_and_fail i efault else unlock_and_return i sizeof_device_rw

  unfoldable pub read_info : ℕ → ℕ → DeviceRw → Cmd M Ssize
  read_info i buf r = do
    d ← get_device i
    return_rw i buf (record r {
      offset_rw = host.version.min;
      data_rw = host.version.maj;
      barx_rw = d.slot_nr;
      mode_rw = u32 (host.version.maj + 1);
      size_rw = u32 (host.version.min + 1);
    })

  unfoldable pub read_register : ℕ → ℕ → DeviceRw → Cmd M Ssize
  read_register i buf r = elim (select_bar r.barx_rw) [
    | none ↦ unlock_and_fail i efault
    | some b ↦ if bad_offset r.offset_rw b then unlock_and_fail i efault else do
      d ← get_device i
      elim (mtcadummy_perform_pre_read_action r.offset_rw r.barx_rw d.slot_nr) [
        | some e ↦ unlock_and_fail i eio
        | none ↦ do w ← load_word i b (r.offset_rw / 4); return_rw i buf (record r { data_rw = w })
      ]
  ]

  -- `dma_size + dma_offset` is a sum of two `u32`. The bytes are taken from the word that holds
  -- the offset.
  unfoldable pub read_dma : ℕ → ℕ → DeviceRw → Cmd M Ssize
  read_dma i buf r =
      if r.size_rw == 0
      then unlock_and_return i 0
      else if ltb mtcadummy_dma_size (u32 (r.size_rw + r.offset_rw))
      then unlock_and_fail i efault
      else do
        in_bounds (leb (r.offset_rw / 4 * 4 + r.size_rw) mtcadummy_dma_size)
        d ← get_device i
        left ← copy_to_user buf (bytes_from d.dma_bar (r.offset_rw / 4 * 4) r.size_rw)
        if not (left == 0) then unlock_and_fail i efault else unlock_and_return i r.size_rw

  unfoldable pub read_request : ℕ → ℕ → DeviceRw → Cmd M Ssize
  read_request i buf r =
      if r.mode_rw == rw_info
      then read_info i buf r
      else if r.mode_rw == rw_d32
      then read_register i buf r
      else if (r.mode_rw == rw_d8) || (r.mode_rw == rw_d16)
      then unlock_and_fail i efault
      else if r.mode_rw == rw_dma
      then read_dma i buf r
      else unlock_and_fail i efault

  unfoldable pub write_register : ℕ → DeviceRw → Cmd M Ssize
  write_register i r = elim (select_bar r.barx_rw) [
    | none ↦ unlock_and_fail i efault
    | some b ↦ if bad_offset r.offset_rw b then unlock_and_fail i efault else do
      store_word i b (r.offset_rw / 4) r.data_rw
      d ← get_device i
      result ← mtcadummy_perform_action_on_write r.offset_rw r.barx_rw d.slot_nr
      elim result [ some e ↦ unlock_and_fail i eio | none ↦ unlock_and_return i sizeof_device_rw ]
  ]

  unfoldable pub write_request : ℕ → DeviceRw → Cmd M Ssize
  write_request i r =
      if r.mode_rw == rw_d32
      then write_register i r
      else if (r.mode_rw == rw_d8) || (r.mode_rw == rw_d16)
      then unlock_and_fail i efault
      else if r.mode_rw == rw_dma
      then unlock_and_fail i efault
      else unlock_and_fail i efault

  -- The part that both handlers begin with: the injected failure, the mutex of the device, and the
  -- request, which the rest of the handler is given.
  unfoldable pub with_request :
      (MtcaDummyControl → Bool) → ℕ → ℕ → ℕ → (DeviceRw → Cmd M Ssize) → Cmd M Ssize
  with_request flag i buf count rest = do
    failure ← control_flag flag
    elim failure [
      | none ↦ pure (error erestartsys)
      | some injected ↦ if injected then pure (error efault) else do
        interrupted ← mutex_lock_interruptible (dev_mutex i)
        if interrupted then pure (error erestartsys) else do
          if ltb count sizeof_device_rw then unlock_and_fail i efault else do
            (bs, left) ← copy_from_user buf sizeof_device_rw
            if not (left == 0) then unlock_and_fail i efault else rest (rw_of_bytes bs)
    ]

  unfoldable pub mtca_dummy_read : ℕ → ℕ → ℕ → Cmd M Ssize
  mtca_dummy_read i buf count = with_request (λ c. c.read_error) i buf count (read_request i buf)

  unfoldable pub mtca_dummy_write : ℕ → ℕ → ℕ → Cmd M Ssize
  mtca_dummy_write i buf count = with_request (λ c. c.write_error) i buf count (write_request i)
