-- ===== src/Threads/Requests.antt =====
-- The operations of `mtcaDummy_read` and `mtcaDummy_write`, in the order of StructIo.antt.
use pciedummy_driver.Common.{
  ℕ, ◌+◌, ◌*◌, ◌/◌, Bool, not, ◌||◌, none, some, ◌==◌, if◌then◌else◌, ltb, leb,
}
use pciedummy_driver.Common.Bytes.{u32, bytes_from}
use pciedummy_driver.State.{MtcaDummyControl, mtcadummy_dma_size}
use pciedummy_driver.Kernel.{efault, eio, erestartsys, Ssize, error, dev_mutex, Host}
use pciedummy_driver.Firmware.{mtcadummy_perform_pre_read_action}
use pciedummy_driver.StructIo.{
  DeviceRw, rw_d8, rw_d16, rw_d32, rw_dma, rw_info, sizeof_device_rw, bytes_of_rw, rw_of_bytes,
  select_bar, bad_offset,
}
use pciedummy_driver.Threads.{
  take, get_slot_nr, get_bars, load, store, check_bound, from_user, to_user, Steps, done, op, ◌>>=◌,
  ◌>>◌,
}
use pciedummy_driver.Threads.Pieces.{
  control_flag_steps, unlock_and_fail_steps, unlock_and_return_steps, action_on_write_steps,
}

module _ {M : Type 0} ⦃host : Host M⦄ where
  -- Copies the structure back to the process and returns its size.
  unfoldable pub return_rw_steps : ℕ → ℕ → DeviceRw → Steps M Ssize
  return_rw_steps i buf r = do
    left ← op (to_user buf (bytes_of_rw r))
    if not (left == 0)
        then unlock_and_fail_steps i efault
        else unlock_and_return_steps i sizeof_device_rw

  unfoldable pub read_info_steps : ℕ → ℕ → DeviceRw → Steps M Ssize
  read_info_steps i buf r = do
    slot ← op (get_slot_nr i)
    return_rw_steps i buf (record r {
      offset_rw = host.version.min;
      data_rw = host.version.maj;
      barx_rw = slot;
      mode_rw = u32 (host.version.maj + 1);
      size_rw = u32 (host.version.min + 1);
    })

  unfoldable pub read_register_steps : ℕ → ℕ → DeviceRw → Steps M Ssize
  read_register_steps i buf r = elim (select_bar r.barx_rw) [
    | none ↦ unlock_and_fail_steps i efault
    | some b ↦ if bad_offset r.offset_rw b then unlock_and_fail_steps i efault else do
      slot ← op (get_slot_nr i)
      elim (mtcadummy_perform_pre_read_action r.offset_rw r.barx_rw slot) [
        | some e ↦ unlock_and_fail_steps i eio
        | none ↦ do
          w ← op (load i b (r.offset_rw / 4))
          return_rw_steps i buf (record r { data_rw = w })
      ]
  ]

  -- `dma_size + dma_offset` is a sum of two `u32`. The bytes are taken from the word that holds
  -- the offset.
  unfoldable pub read_dma_steps : ℕ → ℕ → DeviceRw → Steps M Ssize
  read_dma_steps i buf r =
      if r.size_rw == 0
      then unlock_and_return_steps i 0
      else if ltb mtcadummy_dma_size (u32 (r.size_rw + r.offset_rw))
      then unlock_and_fail_steps i efault
      else do
        op (check_bound (leb (r.offset_rw / 4 * 4 + r.size_rw) mtcadummy_dma_size))
        d ← op (get_bars i)
        left ← op (to_user buf (bytes_from d.dma_bar (r.offset_rw / 4 * 4) r.size_rw))
        if not (left == 0)
            then unlock_and_fail_steps i efault
            else unlock_and_return_steps i r.size_rw

  unfoldable pub read_request_steps : ℕ → ℕ → DeviceRw → Steps M Ssize
  read_request_steps i buf r =
      if r.mode_rw == rw_info
      then read_info_steps i buf r
      else if r.mode_rw == rw_d32
      then read_register_steps i buf r
      else if (r.mode_rw == rw_d8) || (r.mode_rw == rw_d16)
      then unlock_and_fail_steps i efault
      else if r.mode_rw == rw_dma
      then read_dma_steps i buf r
      else unlock_and_fail_steps i efault

  unfoldable pub write_register_steps : ℕ → DeviceRw → Steps M Ssize
  write_register_steps i r = elim (select_bar r.barx_rw) [
    | none ↦ unlock_and_fail_steps i efault
    | some b ↦ if bad_offset r.offset_rw b then unlock_and_fail_steps i efault else do
      op (store i b (r.offset_rw / 4) r.data_rw)
      slot ← op (get_slot_nr i)
      result ← action_on_write_steps r.offset_rw r.barx_rw slot
      elim result [
        | some e ↦ unlock_and_fail_steps i eio
        | none ↦ unlock_and_return_steps i sizeof_device_rw
      ]
  ]

  unfoldable pub write_request_steps : ℕ → DeviceRw → Steps M Ssize
  write_request_steps i r =
      if r.mode_rw == rw_d32
      then write_register_steps i r
      else if (r.mode_rw == rw_d8) || (r.mode_rw == rw_d16)
      then unlock_and_fail_steps i efault
      else if r.mode_rw == rw_dma
      then unlock_and_fail_steps i efault
      else unlock_and_fail_steps i efault

  -- The part that both handlers begin with: the injected failure, the mutex of the device, and the
  -- request, which the rest of the handler is given.
  unfoldable pub with_request_steps :
      (MtcaDummyControl → Bool) → ℕ → ℕ → ℕ → (DeviceRw → Steps M Ssize) → Steps M Ssize
  with_request_steps flag i buf count rest = do
    failure ← control_flag_steps flag
    elim failure [
      | none ↦ done (error erestartsys)
      | some injected ↦ if injected then done (error efault) else do
        interrupted ← op (take (dev_mutex i))
        if interrupted then done (error erestartsys) else do
          if ltb count sizeof_device_rw then unlock_and_fail_steps i efault else do
            (bs, left) ← op (from_user buf sizeof_device_rw)
            if not (left == 0) then unlock_and_fail_steps i efault else rest (rw_of_bytes bs)
    ]

  unfoldable pub mtca_dummy_read_steps : ℕ → ℕ → ℕ → Steps M Ssize
  mtca_dummy_read_steps i buf count =
      with_request_steps (λ c. c.read_error) i buf count (read_request_steps i buf)

  unfoldable pub mtca_dummy_write_steps : ℕ → ℕ → ℕ → Steps M Ssize
  mtca_dummy_write_steps i buf count =
      with_request_steps (λ c. c.write_error) i buf count (write_request_steps i)
