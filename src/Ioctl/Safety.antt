-- ===== src/Ioctl/Safety.antt =====
-- The accesses, the mutex and the state on every path through the ioctl handlers, and the DMA
-- requests whose offset and size wrap.
use pciedummy_driver.Common.{ℕ, ◌+◌, ◌%◌, ◌^◌, ◌≤◌, ◌<◌, ◌≡◌, ap, [], ◌∷◌, arith}
use pciedummy_driver.Common.Bytes.{u32}
use pciedummy_driver.Files.{IoctlSet, mtca_ioctl, llrf_ioctl, pcieuni_ioctl}
use pciedummy_driver.Kernel.{
  Host, Sys, fault, out_of_bounds, dev_mutex, get_device, in_bounds, unlock_and_fail,
  unlock_and_return, copy_from_user, copy_to_user, mutex_lock_interruptible,
}
use pciedummy_driver.Kernel.Laws.{Ends, IsReady, ReadsOnly, locked}
use pciedummy_driver.Ioctl.{
  DeviceIoctrlDma, ioctrl_dma_of_bytes, answer, physical_slot, driver_version, copy_dma,
  ioctl_read_dma, with_command, mtca_switch, llrf_switch, pcieuni_switch, mtca_dummy_ioctl,
  llrf_dummy_ioctl, pcieuni_dummy_ioctl, run_ioctl,
}

module _ {M : Type 0} ⦃host : Host M⦄ where
  -- The structure that a DMA request reads at the address of the argument.
  abbrev pub dma_request : Sys M → ℕ → DeviceIoctrlDma
  dma_request s arg = ioctrl_dma_of_bytes (host.copy_from_user s.user arg 24).0

  module _ (i arg : ℕ) (s : Sys M) (hi : i < 7) (held : s.held ≡ dev_mutex i ∷ []) where
    pub physical_slot-ReadsOnly : Ends (λ a t. ReadsOnly s t) (physical_slot i arg s)
    unfolding physical_slot get_device answer unlock_and_fail unlock_and_return copy_from_user
        copy_to_user
    physical_slot-ReadsOnly = ground arith

    pub driver_version-ReadsOnly : Ends (λ a t. ReadsOnly s t) (driver_version i arg s)
    unfolding driver_version answer unlock_and_fail unlock_and_return copy_from_user copy_to_user
    driver_version-ReadsOnly = ground arith

    ioctl_read_dma-ReadsOnly :
        (dma_request s arg).dma_offset + (dma_request s arg).dma_size < 2 ^ 32
        → Ends (λ a t. ReadsOnly s t) (ioctl_read_dma i arg s)
    unfolding ioctl_read_dma copy_dma unlock_and_fail unlock_and_return copy_from_user copy_to_user
        in_bounds get_device
    ioctl_read_dma-ReadsOnly small = ground arith

  -- If the offset and the size of a DMA request at the argument add up to less than 2 ^ 32, each
  -- ioctl handler on a device below 7, called in a ready state (IsReady), ends for every command on
  -- every path without a fault and with no mutex held, and leaves the control data and all devices
  -- as they were.
  pub run_ioctl-ReadsOnly :
      (set : IoctlSet) (i cmd arg : ℕ) (s : Sys M)
      → i < 7
      → IsReady s
      → (dma_request s arg).dma_offset + (dma_request s arg).dma_size < 2 ^ 32
      → Ends (λ a t. ReadsOnly s t) (run_ioctl set i cmd arg s)
  unfolding run_ioctl mtca_dummy_ioctl llrf_dummy_ioctl pcieuni_dummy_ioctl mtca_switch llrf_switch
      pcieuni_switch with_command unlock_and_fail mutex_lock_interruptible
  run_ioctl-ReadsOnly mtca_ioctl i cmd arg s hi ready small =
      let held = ap (λ ls. dev_mutex i ∷ ls) ready.free in
      ground (
        arith,
        physical_slot-ReadsOnly i arg (locked i s) hi held,
        driver_version-ReadsOnly i arg (locked i s) hi held,
        ioctl_read_dma-ReadsOnly i arg (locked i s) hi held small,
      )
  run_ioctl-ReadsOnly llrf_ioctl i cmd arg s hi ready small =
      let held = ap (λ ls. dev_mutex i ∷ ls) ready.free in
      ground (
        arith,
        physical_slot-ReadsOnly i arg (locked i s) hi held,
        driver_version-ReadsOnly i arg (locked i s) hi held,
      )
  run_ioctl-ReadsOnly pcieuni_ioctl i cmd arg s hi ready small =
      let held = ap (λ ls. dev_mutex i ∷ ls) ready.free in
      ground (
        arith,
        physical_slot-ReadsOnly i arg (locked i s) hi held,
        driver_version-ReadsOnly i arg (locked i s) hi held,
        ioctl_read_dma-ReadsOnly i arg (locked i s) hi held small,
      )

  -- A readable DMA ioctl whose offset is a multiple of 4, and whose offset and size add up to 2 ^
  -- 32 or more and to at most 4096 after the wrap, reads memory outside the DMA bar.
  pub ioctl_read_dma_overflow :
      (i arg : ℕ) (s : Sys M)
      → (host.copy_from_user s.user arg 24).1 ≡ 0
      → (dma_request s arg).dma_offset % 4 ≡ 0
      → u32 ((dma_request s arg).dma_offset + (dma_request s arg).dma_size) ≤ 4096
      → 2 ^ 32 ≤ (dma_request s arg).dma_offset + (dma_request s arg).dma_size
      → ioctl_read_dma i arg s ≡ fault out_of_bounds
  unfolding ioctl_read_dma copy_dma copy_from_user in_bounds
  ioctl_read_dma_overflow i arg s readable al small wraps = ground arith
