-- ===== src/Threads/Pieces.antt =====
-- The operations of the parts that several handlers share, and of
-- `mtcadummy_performActionOnWrite`, in the order of Kernel.antt and Firmware.antt.
use pciedummy_driver.Common.{ℕ, Bool, not, Option, none, some, ◌==◌, if◌then◌else◌}
use pciedummy_driver.State.{MtcaDummyControl}
use pciedummy_driver.Kernel.{Errno, erestartsys, Ssize, error, size, control_mutex, dev_mutex, Host}
use pciedummy_driver.Firmware.{switch_on_write}
use pciedummy_driver.Threads.{
  take, give, get_control, get_bars, put_bars, Steps, done, op, ◌>>=◌, ◌>>◌,
}

module _ {M : Type 0} where
  unfoldable pub control_flag_steps : (MtcaDummyControl → Bool) → Steps M (Option Bool)
  control_flag_steps flag = do
    interrupted ← op (take control_mutex)
    if interrupted
        then done none
        else do c ← op get_control; op (give control_mutex); done (some (flag c))

  unfoldable pub unlock_and_fail_steps : ℕ → Errno → Steps M Ssize
  unlock_and_fail_steps i e = do op (give (dev_mutex i)); done (error e)

  unfoldable pub unlock_and_return_steps : ℕ → ℕ → Steps M Ssize
  unlock_and_return_steps i n = do op (give (dev_mutex i)); done (size n)

module _ {M : Type 0} ⦃host : Host M⦄ where
  unfoldable pub action_on_write_steps : ℕ → ℕ → ℕ → Steps M (Option Errno)
  action_on_write_steps offset bar_number slot_number =
      if not (bar_number == 0) then done none else do
        flag ← control_flag_steps (λ c. c.spi_error)
        elim flag [
          | none ↦ done (some erestartsys)
          | some spi_fail ↦ do
            d ← op (get_bars slot_number)
            let (result, d') = switch_on_write host.version spi_fail offset d
            op (put_bars slot_number d')
            done result
        ]
