-- ===== src/Threads/Commands.antt =====
-- The operations of the three ioctl handlers, in the order of Ioctl.antt.
use pciedummy_driver.Common.{ℕ, ◌+◌, ◌%◌, Bool, not, ◌||◌, ◌==◌, if◌then◌else◌, ltb, leb}
use pciedummy_driver.Common.Bytes.{u32, bytes_from}
use pciedummy_driver.State.{mtcadummy_dma_size}
use pciedummy_driver.Files.{IoctlSet, mtca_ioctl, llrf_ioctl, pcieuni_ioctl}
use pciedummy_driver.Kernel.{efault, enotty, erestartsys, Ssize, error, dev_mutex, Host}
use pciedummy_driver.Ioctl.{
  DeviceIoctrlData, DeviceIoctrlDma, sizeof_device_ioctrl_data, sizeof_device_ioctrl_dma,
  bytes_of_ioctrl_data, ioctrl_data_of_bytes, ioctrl_dma_of_bytes, pciedoocs_ioc, llrfdrv_ioc,
  pcieuni_ioc, is_pciedev_number, is_llrfdrv_number,
}
use pciedummy_driver.Threads.{
  take, get_slot_nr, get_bars, check_bound, check_access, from_user, to_user, Steps, done, op,
  ◌>>=◌, ◌>>◌,
}
use pciedummy_driver.Threads.Pieces.{unlock_and_fail_steps, unlock_and_return_steps}

module _ {M : Type 0} ⦃host : Host M⦄ where
  -- Copies the structure in, changes it, and copies it out.
  unfoldable pub answer_steps : ℕ → ℕ → (DeviceIoctrlData → DeviceIoctrlData) → Steps M Ssize
  answer_steps i arg change = do
    (bs, left) ← op (from_user arg sizeof_device_ioctrl_data)
    if not (left == 0) then unlock_and_fail_steps i efault else do
      left' ← op (to_user arg (bytes_of_ioctrl_data (change (ioctrl_data_of_bytes bs))))
      if not (left' == 0) then unlock_and_fail_steps i efault else unlock_and_return_steps i 0

  unfoldable pub physical_slot_steps : ℕ → ℕ → Steps M Ssize
  physical_slot_steps i arg = do
    slot ← op (get_slot_nr i)
    answer_steps i arg (λ r. record r { payload = slot })

  unfoldable pub driver_version_steps : ℕ → ℕ → Steps M Ssize
  driver_version_steps i arg =
      answer_steps i arg (λ r. record r { payload = host.version.maj; offset = host.version.min })

  -- `dma_offset + dma_size` is a sum of two `u_int`.
  unfoldable pub copy_dma_steps : ℕ → ℕ → DeviceIoctrlDma → Steps M Ssize
  copy_dma_steps i arg r =
      if ltb mtcadummy_dma_size (u32 (r.dma_offset + r.dma_size))
      then unlock_and_fail_steps i efault
      else if not (r.dma_offset % 4 == 0)
      then unlock_and_fail_steps i efault
      else do
        op (check_bound (leb (r.dma_offset + r.dma_size) mtcadummy_dma_size))
        d ← op (get_bars i)
        left ← op (to_user arg (bytes_from d.dma_bar r.dma_offset r.dma_size))
        if not (left == 0) then unlock_and_fail_steps i efault else unlock_and_return_steps i 0

  unfoldable pub ioctl_read_dma_steps : ℕ → ℕ → Steps M Ssize
  ioctl_read_dma_steps i arg = do
    (bs, left) ← op (from_user arg sizeof_device_ioctrl_dma)
    if not (left == 0)
        then unlock_and_fail_steps i efault
        else copy_dma_steps i arg (ioctrl_dma_of_bytes bs)

  -- What the handlers do before their `switch`: the tests of the command's type and number, of
  -- the address, and the mutex of the device.
  unfoldable pub with_command_steps : ℕ → (ℕ → Bool) → ℕ → ℕ → ℕ → Steps M Ssize → Steps M Ssize
  with_command_steps ioc is_number i cmd arg rest =
      if not (host.ioc_type cmd == ioc)
      then done (error enotty)
      else if not (is_number (host.ioc_nr cmd))
      then done (error enotty)
      else do
        accessible ← op (check_access arg (host.ioc_size cmd))
        if not accessible then done (error efault) else do
          interrupted ← op (take (dev_mutex i))
          if interrupted then done (error erestartsys) else rest

  unfoldable pub mtca_switch_steps : ℕ → ℕ → ℕ → Steps M Ssize
  mtca_switch_steps i cmd arg =
      if cmd == host.iowr_int pciedoocs_ioc 60
      then physical_slot_steps i arg
      else if (cmd == host.iowr_int pciedoocs_ioc 61) || (cmd == host.iowr_int pciedoocs_ioc 62)
      then driver_version_steps i arg
      else if cmd == host.iowr_int pciedoocs_ioc 72
      then ioctl_read_dma_steps i arg
      else unlock_and_fail_steps i enotty

  unfoldable pub mtca_dummy_ioctl_steps : ℕ → ℕ → ℕ → Steps M Ssize
  mtca_dummy_ioctl_steps i cmd arg =
      with_command_steps pciedoocs_ioc is_pciedev_number i cmd arg (mtca_switch_steps i cmd arg)

  unfoldable pub llrf_switch_steps : ℕ → ℕ → ℕ → Steps M Ssize
  llrf_switch_steps i cmd arg =
      if cmd == host.iowr_int llrfdrv_ioc 20
      then physical_slot_steps i arg
      else if (cmd == host.iowr_int llrfdrv_ioc 21) || (cmd == host.iowr_int llrfdrv_ioc 22)
      then driver_version_steps i arg
      else unlock_and_fail_steps i enotty

  unfoldable pub llrf_dummy_ioctl_steps : ℕ → ℕ → ℕ → Steps M Ssize
  llrf_dummy_ioctl_steps i cmd arg =
      with_command_steps llrfdrv_ioc is_llrfdrv_number i cmd arg (llrf_switch_steps i cmd arg)

  unfoldable pub pcieuni_switch_steps : ℕ → ℕ → ℕ → Steps M Ssize
  pcieuni_switch_steps i cmd arg =
      if cmd == host.iowr_int pcieuni_ioc 60
      then physical_slot_steps i arg
      else if (cmd == host.iowr_int pcieuni_ioc 61) || (cmd == host.iowr_int pcieuni_ioc 62)
      then driver_version_steps i arg
      else if cmd == host.iowr_int pcieuni_ioc 72
      then ioctl_read_dma_steps i arg
      else unlock_and_fail_steps i enotty

  unfoldable pub pcieuni_dummy_ioctl_steps : ℕ → ℕ → ℕ → Steps M Ssize
  pcieuni_dummy_ioctl_steps i cmd arg =
      with_command_steps pcieuni_ioc is_pciedev_number i cmd arg (pcieuni_switch_steps i cmd arg)

  -- The handler that a table of file operations names.
  unfoldable pub run_ioctl_steps : IoctlSet → ℕ → ℕ → ℕ → Steps M Ssize
  run_ioctl_steps mtca_ioctl = mtca_dummy_ioctl_steps
  run_ioctl_steps llrf_ioctl = llrf_dummy_ioctl_steps
  run_ioctl_steps pcieuni_ioctl = pcieuni_dummy_ioctl_steps
