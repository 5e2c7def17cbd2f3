-- ===== src/Ioctl.antt =====
-- The three ioctl handlers of mtcadummy_drv.c, with the commands of pciedev_io.h,
-- llrfdrv_io_compat.h and pcieuni_io_compat.h. The check of the argument's address is that of
-- Linux 5.0 and later.
pub mod Answers
pub mod Commands
pub mod Safety
use pciedummy_driver.Common.{
  ℕ, ◌+◌, ◌%◌, Bool, not, ◌&&◌, ◌||◌, List, ◌++◌, ◌==◌, if◌then◌else◌, ltb, leb,
}
use pciedummy_driver.Common.Bytes.{u32, bytes_of_word, word_at, bytes_from}
use pciedummy_driver.State.{mtcadummy_dma_size}
use pciedummy_driver.Files.{IoctlSet, mtca_ioctl, llrf_ioctl, pcieuni_ioctl}
use pciedummy_driver.Kernel.{
  efault, enotty, erestartsys, Ssize, error, dev_mutex, Host, Cmd, pure, ◌>>=◌, ◌>>◌, gets,
  mutex_lock_interruptible, get_device, in_bounds, unlock_and_fail, unlock_and_return,
  copy_from_user, copy_to_user,
}

pub record DeviceIoctrlData : Type 0 where
  pub offset : ℕ
  pub payload : ℕ
  pub cmd : ℕ
  pub reserved : ℕ

abbrev pub sizeof_device_ioctrl_data : ℕ
sizeof_device_ioctrl_data = 16

abbrev pub sizeof_device_ioctrl_dma : ℕ
sizeof_device_ioctrl_dma = 24

unfoldable pub bytes_of_ioctrl_data : DeviceIoctrlData → List ℕ
bytes_of_ioctrl_data r =
    bytes_of_word r.offset
    ++ (bytes_of_word r.payload ++ (bytes_of_word r.cmd ++ bytes_of_word r.reserved))

unfoldable pub ioctrl_data_of_bytes : List ℕ → DeviceIoctrlData
ioctrl_data_of_bytes bs = record {
  offset = word_at bs 0;
  payload = word_at bs 4;
  cmd = word_at bs 8;
  reserved = word_at bs 12;
}

-- The first two fields, `dma_offset` and `dma_size`; the driver ignores the others.
pub record DeviceIoctrlDma : Type 0 where
  pub dma_offset : ℕ
  pub dma_size : ℕ

unfoldable pub ioctrl_dma_of_bytes : List ℕ → DeviceIoctrlDma
ioctrl_dma_of_bytes bs = record { dma_offset = word_at bs 0; dma_size = word_at bs 4 }

-- The magic numbers '0' and 'U'.
abbrev pub pciedoocs_ioc : ℕ
pciedoocs_ioc = 0x30

abbrev pub llrfdrv_ioc : ℕ
llrfdrv_ioc = 0x30

abbrev pub pcieuni_ioc : ℕ
pcieuni_ioc = 0x55

-- The numbers of the commands lie in one of two ranges.
unfoldable pub is_pciedev_number : ℕ → Bool
is_pciedev_number nr = (leb 60 nr && leb nr 63) || (leb 70 nr && leb nr 74)

unfoldable pub is_llrfdrv_number : ℕ → Bool
is_llrfdrv_number nr = leb 20 nr && leb nr 22

module _ {M : Type 0} ⦃host : Host M⦄ where
  -- Copies the structure in, changes it, and copies it out.
  unfoldable pub answer : ℕ → ℕ → (DeviceIoctrlData → DeviceIoctrlData) → Cmd M Ssize
  answer i arg change = do
    (bs, left) ← copy_from_user arg sizeof_device_ioctrl_data
    if not (left == 0) then unlock_and_fail i efault else do
      left' ← copy_to_user arg (bytes_of_ioctrl_data (change (ioctrl_data_of_bytes bs)))
      if not (left' == 0) then unlock_and_fail i efault else unlock_and_return i 0

  unfoldable pub physical_slot : ℕ → ℕ → Cmd M Ssize
  physical_slot i arg = do d ← get_device i; answer i arg (λ r. record r { payload = d.slot_nr })

  unfoldable pub driver_version : ℕ → ℕ → Cmd M Ssize
  driver_version i arg =
      answer i arg (λ r. record r { payload = host.version.maj; offset = host.version.min })

  -- `dma_offset + dma_size` is a sum of two `u_int`.
  unfoldable pub copy_dma : ℕ → ℕ → DeviceIoctrlDma → Cmd M Ssize
  copy_dma i arg r =
      if ltb mtcadummy_dma_size (u32 (r.dma_offset + r.dma_size))
      then unlock_and_fail i efault
      else if not (r.dma_offset % 4 == 0)
      then unlock_and_fail i efault
      else do
        in_bounds (leb (r.dma_offset + r.dma_size) mtcadummy_dma_size)
        d ← get_device i
        left ← copy_to_user arg (bytes_from d.dma_bar r.dma_offset r.dma_size)
        if not (left == 0) then unlock_and_fail i efault else unlock_and_return i 0

  unfoldable pub ioctl_read_dma : ℕ → ℕ → Cmd M Ssize
  ioctl_read_dma i arg = do
    (bs, left) ← copy_from_user arg sizeof_device_ioctrl_dma
    if not (left == 0) then unlock_and_fail i efault else copy_dma i arg (ioctrl_dma_of_bytes bs)

  -- What the handlers do before their `switch`: the tests of the command's type and number, of
  -- the address, and the mutex of the device.
  unfoldable pub with_command : ℕ → (ℕ → Bool) → ℕ → ℕ → ℕ → Cmd M Ssize → Cmd M Ssize
  with_command ioc is_number i cmd arg rest =
      if not (host.ioc_type cmd == ioc)
      then pure (error enotty)
      else if not (is_number (host.ioc_nr cmd))
      then pure (error enotty)
      else do
        accessible ← gets (λ s. host.access_ok s.user arg (host.ioc_size cmd))
        if not accessible then pure (error efault) else do
          interrupted ← mutex_lock_interruptible (dev_mutex i)
          if interrupted then pure (error erestartsys) else rest

  unfoldable pub mtca_switch : ℕ → ℕ → ℕ → Cmd M Ssize
  mtca_switch i cmd arg =
      if cmd == host.iowr_int pciedoocs_ioc 60
      then physical_slot i arg
      else if (cmd == host.iowr_int pciedoocs_ioc 61) || (cmd == host.iowr_int pciedoocs_ioc 62)
      then driver_version i arg
      else if cmd == host.iowr_int pciedoocs_ioc 72
      then ioctl_read_dma i arg
      else unlock_and_fail i enotty

  unfoldable pub mtca_dummy_ioctl : ℕ → ℕ → ℕ → Cmd M Ssize
  mtca_dummy_ioctl i cmd arg =
      with_command pciedoocs_ioc is_pciedev_number i cmd arg (mtca_switch i cmd arg)

  unfoldable pub llrf_switch : ℕ → ℕ → ℕ → Cmd M Ssize
  llrf_switch i cmd arg =
      if cmd == host.iowr_int llrfdrv_ioc 20
      then physical_slot i arg
      else if (cmd == host.iowr_int llrfdrv_ioc 21) || (cmd == host.iowr_int llrfdrv_ioc 22)
      then driver_version i arg
      else unlock_and_fail i enotty

  unfoldable pub llrf_dummy_ioctl : ℕ → ℕ → ℕ → Cmd M Ssize
  llrf_dummy_ioctl i cmd arg =
      with_command llrfdrv_ioc is_llrfdrv_number i cmd arg (llrf_switch i cmd arg)

  unfoldable pub pcieuni_switch : ℕ → ℕ → ℕ → Cmd M Ssize
  pcieuni_switch i cmd arg =
      if cmd == host.iowr_int pcieuni_ioc 60
      then physical_slot i arg
      else if (cmd == host.iowr_int pcieuni_ioc 61) || (cmd == host.iowr_int pcieuni_ioc 62)
      then driver_version i arg
      else if cmd == host.iowr_int pcieuni_ioc 72
      then ioctl_read_dma i arg
      else unlock_and_fail i enotty

  unfoldable pub pcieuni_dummy_ioctl : ℕ → ℕ → ℕ → Cmd M Ssize
  pcieuni_dummy_ioctl i cmd arg =
      with_command pcieuni_ioc is_pciedev_number i cmd arg (pcieuni_switch i cmd arg)

  -- The handler that a table of file operations names.
  unfoldable pub run_ioctl : IoctlSet → ℕ → ℕ → ℕ → Cmd M Ssize
  run_ioctl mtca_ioctl = mtca_dummy_ioctl
  run_ioctl llrf_ioctl = llrf_dummy_ioctl
  run_ioctl pcieuni_ioctl = pcieuni_dummy_ioctl
