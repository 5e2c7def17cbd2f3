-- ===== src/Threads/Guarded/Commands.antt =====
-- The three ioctl handlers keep to the locking discipline.
use pciedummy_driver.Common.{ℕ, ◌<◌, Bool, [], ◌∷◌}
use pciedummy_driver.Kernel.{dev_mutex, Ssize, Host}
use pciedummy_driver.Files.{IoctlSet, mtca_ioctl, llrf_ioctl, pcieuni_ioctl}
use pciedummy_driver.Ioctl.{DeviceIoctrlData}
use pciedummy_driver.Threads.{Steps}
use pciedummy_driver.Threads.Pieces.{unlock_and_fail_steps, unlock_and_return_steps}
use pciedummy_driver.Threads.Commands.{
  answer_steps, physical_slot_steps, driver_version_steps, copy_dma_steps, ioctl_read_dma_steps,
  with_command_steps, mtca_switch_steps, mtca_dummy_ioctl_steps, llrf_switch_steps,
  llrf_dummy_ioctl_steps, pcieuni_switch_steps, pcieuni_dummy_ioctl_steps, run_ioctl_steps,
}
use pciedummy_driver.Threads.Discipline.{Guards, AllReleased}
use pciedummy_driver.Threads.Guarded.{guard_rules}

module _ (M : Type 0) ⦃host : Host M⦄ where
  answer-Guards :
      (i arg : ℕ) (change : DeviceIoctrlData → DeviceIoctrlData)
      → Guards AllReleased (dev_mutex i ∷ []) (answer_steps {M = M} i arg change)
  unfolding answer_steps unlock_and_fail_steps unlock_and_return_steps
  answer-Guards i arg change = search (guard_rules) depth 30

  physical_slot-Guards :
      (i arg : ℕ)
      → i < 7
      → Guards AllReleased (dev_mutex i ∷ []) (physical_slot_steps {M = M} i arg)
  unfolding physical_slot_steps
  physical_slot-Guards i arg hi = search (guard_rules, answer-Guards)

  ioctl_read_dma-Guards :
      (i arg : ℕ)
      → i < 7
      → Guards AllReleased (dev_mutex i ∷ []) (ioctl_read_dma_steps {M = M} i arg)
  unfolding ioctl_read_dma_steps copy_dma_steps unlock_and_fail_steps unlock_and_return_steps
  ioctl_read_dma-Guards i arg hi = search (guard_rules) depth 30

  with_command-Guards :
      (ioc : ℕ) (is_number : ℕ → Bool) (i cmd arg : ℕ) (rest : Steps M Ssize)
      → Guards AllReleased (dev_mutex i ∷ []) rest
      → Guards AllReleased [] (with_command_steps ioc is_number i cmd arg rest)
  unfolding with_command_steps
  with_command-Guards ioc is_number i cmd arg rest h = search (guard_rules) depth 30

  pub run_ioctl-Guards :
      (set : IoctlSet) (i cmd arg : ℕ)
      → i < 7
      → Guards AllReleased [] (run_ioctl_steps {M = M} set i cmd arg)
  unfolding run_ioctl_steps mtca_dummy_ioctl_steps llrf_dummy_ioctl_steps pcieuni_dummy_ioctl_steps
      mtca_switch_steps llrf_switch_steps pcieuni_switch_steps driver_version_steps
      unlock_and_fail_steps
  run_ioctl-Guards mtca_ioctl i cmd arg hi =
      search
        (
          guard_rules, with_command-Guards, physical_slot-Guards, answer-Guards,
          ioctl_read_dma-Guards,
        )
        depth 30
  run_ioctl-Guards llrf_ioctl i cmd arg hi =
      search (guard_rules, with_command-Guards, physical_slot-Guards, answer-Guards) depth 30
  run_ioctl-Guards pcieuni_ioctl i cmd arg hi =
      search
        (
          guard_rules, with_command-Guards, physical_slot-Guards, answer-Guards,
          ioctl_read_dma-Guards,
        )
        depth 30
