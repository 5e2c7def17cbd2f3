-- ===== src/Threads/Runs/Commands.antt =====
-- The handlers of Ioctl.antt.
use pciedummy_driver.Common.{ℕ, ◌≡◌, arith}
use pciedummy_driver.Kernel.{
  Host, Sys, mutex_lock_interruptible, get_device, unlock_and_fail, unlock_and_return,
}
use pciedummy_driver.Files.{IoctlSet, mtca_ioctl, llrf_ioctl, pcieuni_ioctl}
use pciedummy_driver.Ioctl.{
  answer, physical_slot, driver_version, copy_dma, ioctl_read_dma, with_command, mtca_switch,
  mtca_dummy_ioctl, llrf_switch, llrf_dummy_ioctl, pcieuni_switch, pcieuni_dummy_ioctl, run_ioctl,
}
use pciedummy_driver.Threads.{act, run}
use pciedummy_driver.Threads.Pieces.{unlock_and_fail_steps, unlock_and_return_steps}
use pciedummy_driver.Threads.Commands.{
  answer_steps, physical_slot_steps, driver_version_steps, copy_dma_steps, ioctl_read_dma_steps,
  with_command_steps, mtca_switch_steps, mtca_dummy_ioctl_steps, llrf_switch_steps,
  llrf_dummy_ioctl_steps, pcieuni_switch_steps, pcieuni_dummy_ioctl_steps, run_ioctl_steps,
}

module _ {M : Type 0} ⦃host : Host M⦄ where
  pub run-run_ioctl :
      (set : IoctlSet) (i cmd arg : ℕ) (s : Sys M)
      → run (run_ioctl_steps set i cmd arg) s ≡ run_ioctl set i cmd arg s
  unfolding act answer_steps physical_slot_steps driver_version_steps copy_dma_steps
      ioctl_read_dma_steps with_command_steps mtca_switch_steps mtca_dummy_ioctl_steps
      llrf_switch_steps llrf_dummy_ioctl_steps pcieuni_switch_steps pcieuni_dummy_ioctl_steps
      run_ioctl_steps unlock_and_fail_steps unlock_and_return_steps answer physical_slot
      driver_version copy_dma ioctl_read_dma with_command mtca_switch mtca_dummy_ioctl llrf_switch
      llrf_dummy_ioctl pcieuni_switch pcieuni_dummy_ioctl run_ioctl unlock_and_fail
      unlock_and_return mutex_lock_interruptible get_device
  run-run_ioctl mtca_ioctl i cmd arg s = ground arith
  run-run_ioctl llrf_ioctl i cmd arg s = ground arith
  run-run_ioctl pcieuni_ioctl i cmd arg s = ground arith
