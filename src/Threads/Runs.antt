-- ===== src/Threads/Runs.antt =====
-- The operations, performed without a break, are the handlers: the shared parts.
pub mod Requests
pub mod Transfers
pub mod Commands
pub mod Files
use pciedummy_driver.Common.{ℕ, ◌≡◌, refl, ap, ◌∙◌, Bool, Option, none, some, arith}
use pciedummy_driver.State.{MtcaDummyData, MtcaDummyControl}
use pciedummy_driver.Kernel.{
  Errno, Version, Host, Sys, Cmd, and_then, ok, mutex_lock_interruptible, mutex_unlock,
  control_flag, get_device, put_device, unlock_and_fail, unlock_and_return,
}
use pciedummy_driver.Firmware.{
  mtcadummy_perform_action_on_write, switch_on_write, clock_reset, adc_enable, spi_transfer,
}
use pciedummy_driver.Threads.{get_slot_nr, Steps, perform, ◌>>=◌, act, run}
use pciedummy_driver.Threads.Pieces.{
  control_flag_steps, unlock_and_fail_steps, unlock_and_return_steps, action_on_write_steps,
}
use pciedummy_driver.Threads.Laws.{run-then}

-- The firmware changes the words of the two arrays only.
bars_only :
    (v : Version) (spi_fail : Bool) (offset : ℕ) (d : MtcaDummyData)
    → record d {
      system_bar = ((switch_on_write v spi_fail offset d).1).system_bar;
      dma_bar = ((switch_on_write v spi_fail offset d).1).dma_bar;
    }
      ≡ (switch_on_write v spi_fail offset d).1
unfolding switch_on_write clock_reset adc_enable spi_transfer
bars_only v spi_fail offset d = ground arith

module _ {M : Type 0} ⦃host : Host M⦄ where
  pub run-control_flag :
      (flag : MtcaDummyControl → Bool) (s : Sys M)
      → run (control_flag_steps flag) s ≡ control_flag flag s
  unfolding act control_flag_steps control_flag mutex_lock_interruptible mutex_unlock
  run-control_flag flag s = ground arith

  pub run-unlock_and_fail :
      (i : ℕ) (e : Errno) (s : Sys M) → run (unlock_and_fail_steps i e) s ≡ unlock_and_fail i e s
  unfolding act unlock_and_fail_steps unlock_and_fail
  run-unlock_and_fail i e s = refl

  pub run-unlock_and_return :
      (i n : ℕ) (s : Sys M) → run (unlock_and_return_steps i n) s ≡ unlock_and_return i n s
  unfolding act unlock_and_return_steps unlock_and_return
  run-unlock_and_return i n s = refl

  pub run-action_on_write :
      (offset bar_number slot_number : ℕ) (s : Sys M)
      → run (action_on_write_steps offset bar_number slot_number) s
        ≡ mtcadummy_perform_action_on_write offset bar_number slot_number s
  unfolding act action_on_write_steps mtcadummy_perform_action_on_write control_flag_steps
      control_flag mutex_lock_interruptible mutex_unlock get_device put_device
  run-action_on_write offset bar_number slot_number s =
      ground (arith, bars_only host.version s.control.spi_error offset (s.devices slot_number))

  run-action_then :
      {A : Type 0} (offset bar_number slot_number : ℕ) (f : Option Errno → Steps M A)
      (f' : Option Errno → Cmd M A) (s : Sys M)
      → ((result : Option Errno) (t : Sys M) → run (f result) t ≡ f' result t)
      → run (action_on_write_steps offset bar_number slot_number >>= f) s
        ≡ and_then (mtcadummy_perform_action_on_write offset bar_number slot_number s) f'
  run-action_then offset bar_number slot_number f f' s h =
      run-then (action_on_write_steps offset bar_number slot_number)
        (mtcadummy_perform_action_on_write offset bar_number slot_number) f f' s
        (run-action_on_write offset bar_number slot_number s) h

  -- The action on the device that knows its number, and what follows it.
  pub run-slot_action :
      {A : Type 0} (i offset bar_number : ℕ) (f : Option Errno → Steps M A)
      (f' : Option Errno → Cmd M A) (s : Sys M)
      → ((result : Option Errno) (t : Sys M) → run (f result) t ≡ f' result t)
      → run (perform (get_slot_nr i) (λ slot. action_on_write_steps offset bar_number slot >>= f)) s
        ≡ and_then
            (get_device i s)
            (λ d t. and_then (mtcadummy_perform_action_on_write offset bar_number d.slot_nr t) f')
  unfolding act get_device
  run-slot_action i offset bar_number f f' s h =
      ground (arith, run-action_then offset bar_number (s.devices i).slot_nr f f' s h)
