-- ===== src/Threads/Runs/Requests.antt =====
-- The handlers of StructIo.antt.
use pciedummy_driver.Common.{
  ℕ, ◌/◌, ◌≡◌, inl, inr, Bool, Option, none, some, arith, Bool-cases, Option-cases,
}
use pciedummy_driver.State.{MtcaDummyControl}
use pciedummy_driver.Kernel.{
  Errno, efault, eio, Host, Ssize, Sys, Cmd, mutex_lock_interruptible, mutex_unlock, control_flag,
  store_word, copy_from_user, unlock_and_fail, unlock_and_return,
}
use pciedummy_driver.StructIo.{
  DeviceRw, return_rw, read_info, read_register, read_dma, read_request, write_register,
  write_request, with_request, select_bar, bad_offset, sizeof_device_rw, mtca_dummy_read,
  mtca_dummy_write,
}
use pciedummy_driver.Threads.{Steps, act, run}
use pciedummy_driver.Threads.Pieces.{
  control_flag_steps, unlock_and_fail_steps, unlock_and_return_steps,
}
use pciedummy_driver.Threads.Requests.{
  return_rw_steps, read_info_steps, read_register_steps, read_dma_steps, read_request_steps,
  write_register_steps, write_request_steps, with_request_steps, mtca_dummy_read_steps,
  mtca_dummy_write_steps,
}
use pciedummy_driver.Threads.Laws.{and_then-cong}
use pciedummy_driver.Threads.Runs.{run-unlock_and_fail, run-unlock_and_return, run-slot_action}

module _ {M : Type 0} ⦃host : Host M⦄ where
  run-read_request :
      (i buf : ℕ) (r : DeviceRw) (s : Sys M)
      → run (read_request_steps i buf r) s ≡ read_request i buf r s
  unfolding act read_request_steps read_info_steps read_register_steps read_dma_steps
      return_rw_steps unlock_and_fail_steps unlock_and_return_steps read_request read_info
      read_register read_dma return_rw unlock_and_fail unlock_and_return
  run-read_request i buf r s = ground arith

  -- What follows the action.
  abbrev register_end_steps : ℕ → Option Errno → Steps M Ssize
  register_end_steps i result = elim result [
    | some e ↦ unlock_and_fail_steps i eio
    | none ↦ unlock_and_return_steps i sizeof_device_rw
  ]

  abbrev register_end : ℕ → Option Errno → Cmd M Ssize
  register_end i result = elim result [
    | some e ↦ unlock_and_fail i eio
    | none ↦ unlock_and_return i sizeof_device_rw
  ]

  run-register_end :
      (i : ℕ) (result : Option Errno) (s : Sys M)
      → run (register_end_steps i result) s ≡ register_end i result s
  run-register_end i none s = run-unlock_and_return i sizeof_device_rw s
  run-register_end i (some e) s = run-unlock_and_fail i eio s

  run-write_register :
      (i : ℕ) (r : DeviceRw) (s : Sys M) → run (write_register_steps i r) s ≡ write_register i r s
  unfolding act write_register_steps write_register
  run-write_register i r s = elim (Option-cases (select_bar r.barx_rw)) [
    | inl e ↦ rw (e, run, write_register) (run-unlock_and_fail i efault s)
    | inr (b, e) ↦
        rw (e, run, write_register)
          (elim (Bool-cases (bad_offset r.offset_rw b)) [
            | inl bad ↦ rw (bad, run) (run-unlock_and_fail i efault s)
            | inr good ↦
                rw (good, run)
                  (and_then-cong (store_word i b (r.offset_rw / 4) r.data_rw s) λ u t.
                    run-slot_action i r.offset_rw r.barx_rw (register_end_steps i) (register_end i)
                      t (run-register_end i))
          ])
  ]

  run-with_request :
      (flag : MtcaDummyControl → Bool) (i buf count : ℕ) (rest : DeviceRw → Steps M Ssize)
      (rest' : DeviceRw → Cmd M Ssize) (s : Sys M)
      → ((r : DeviceRw) (t : Sys M) → run (rest r) t ≡ rest' r t)
      → run (with_request_steps flag i buf count rest) s ≡ with_request flag i buf count rest' s
  unfolding act with_request_steps with_request control_flag_steps control_flag
      mutex_lock_interruptible mutex_unlock copy_from_user unlock_and_fail_steps unlock_and_fail
  run-with_request flag i buf count rest rest' s h = grind (arith, h)

  pub run-mtca_dummy_read :
      (i buf count : ℕ) (s : Sys M)
      → run (mtca_dummy_read_steps i buf count) s ≡ mtca_dummy_read i buf count s
  unfolding mtca_dummy_read_steps mtca_dummy_read
  run-mtca_dummy_read i buf count s =
      run-with_request (λ c. c.read_error) i buf count (read_request_steps i buf)
        (read_request i buf) s (run-read_request i buf)

  run-write_request :
      (i : ℕ) (r : DeviceRw) (s : Sys M) → run (write_request_steps i r) s ≡ write_request i r s
  unfolding act write_request_steps write_request unlock_and_fail_steps unlock_and_fail
  run-write_request i r s = ground (arith, run-write_register i r s)

  pub run-mtca_dummy_write :
      (i buf count : ℕ) (s : Sys M)
      → run (mtca_dummy_write_steps i buf count) s ≡ mtca_dummy_write i buf count s
  unfolding mtca_dummy_write_steps mtca_dummy_write
  run-mtca_dummy_write i buf count s =
      run-with_request (λ c. c.write_error) i buf count (write_request_steps i) (write_request i) s
        (run-write_request i)
