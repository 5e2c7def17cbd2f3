-- ===== src/Examples/Commands.antt =====
-- The ioctl commands, the proc file, and opening and releasing a device, on the machine of the
-- examples.
use pciedummy_driver.Common.{ℕ, ◌≡◌, refl, true, some, List, [], ◌∷◌, ◌++◌, arith}
use pciedummy_driver.Common.Bytes.{bytes_from, bytes_of_word}
use pciedummy_driver.Kernel.{Sys, size, fault, out_of_bounds, dev_mutex}
use pciedummy_driver.Kernel.Laws.{Ends, IsReady, ReadsOnly, locked}
use pciedummy_driver.Files.{mtca_ioctl, llrf_ioctl, mtca_dummy_open, mtca_dummy_release}
use pciedummy_driver.Files.Counting.{Counted, mtca_dummy_open-Counted, mtca_dummy_release-Counted}
use pciedummy_driver.Ioctl.{ioctrl_dma_of_bytes, ioctl_read_dma, run_ioctl}
use pciedummy_driver.Ioctl.Safety.{run_ioctl-ReadsOnly, ioctl_read_dma_overflow}
use pciedummy_driver.Ioctl.Commands.{slot, serve, run_ioctl_lem}
use pciedummy_driver.Ioctl.Answers.{ioctl_read_dma_copies}
use pciedummy_driver.Proc.{
  mtcadummy_seq_start, tokens, c_string, mtcadummy_proc_write, mtcadummy_seq_show,
}
use pciedummy_driver.Proc.Flags.{mtcadummy_proc_write_lem, mtcadummy_proc_write-last}
use pciedummy_driver.Proc.Parsing.{Failure, flag_of, injected, last_given, open_failure}
use pciedummy_driver.Proc.Traversal.{visited, devices_from, visited-devices_from}
use pciedummy_driver.Proc.Show.{dump, mtcadummy_seq_show-dump}
use pciedummy_driver.Examples.{
  device, Memory, machine, scan_digit, store_bytes, state_with, state_with-IsReady,
}

-- A DMA request at address 100: 8 bytes from offset 4.
abbrev dma_memory : ℕ → ℕ → Memory
dma_memory offset count = store_bytes (λ k. 0) 100 (bytes_of_word offset ++ bytes_of_word count)

abbrev dma_state : Sys Memory
dma_state = record (state_with (dma_memory 4 8)) { held = dev_mutex 6 ∷ [] }

abbrev wrapping_state : Sys Memory
wrapping_state = record (state_with (dma_memory 4294963200 4096)) { held = dev_mutex 6 ∷ [] }

ioctl_read_dma_copies_example :
    Ends
      (λ a t. (a ≡ size 0) × (machine.copy_from_user t.user 100 8 ≡ (bytes_from (λ k. k) 4 8, 0)))
      (ioctl_read_dma 6 100 dma_state)
unfolding ioctrl_dma_of_bytes
ioctl_read_dma_copies_example =
    ioctl_read_dma_copies 6 100 dma_state (omega arith) refl refl refl (omega arith) refl

ioctl_read_dma_overflow_example : ioctl_read_dma 6 100 wrapping_state ≡ fault out_of_bounds
unfolding ioctrl_dma_of_bytes
ioctl_read_dma_overflow_example =
    ioctl_read_dma_overflow 6 100 wrapping_state refl refl (omega arith) (omega arith)

-- `LLRFDRV_PHYSICAL_SLOT` on device 4.
run_ioctl_example :
    run_ioctl llrf_ioctl 4 (machine.iowr_int 0x30 20) 100 (state_with (λ k. 0))
    ≡ serve slot 4 100 (locked 4 (state_with (λ k. 0)))
run_ioctl_example =
    run_ioctl_lem llrf_ioctl 4 (machine.iowr_int 0x30 20) 100 (state_with (λ k. 0)) (omega arith)
      (state_with-IsReady (λ k. 0)) refl refl

run_ioctl-ReadsOnly_example :
    Ends
      (λ a t. ReadsOnly (state_with (dma_memory 4 8)) t)
      (run_ioctl mtca_ioctl 1 (machine.iowr_int 0x30 72) 100 (state_with (dma_memory 4 8)))
unfolding ioctrl_dma_of_bytes
run_ioctl-ReadsOnly_example =
    run_ioctl-ReadsOnly mtca_ioctl 1 (machine.iowr_int 0x30 72) 100 (state_with (dma_memory 4 8))
      (omega arith) (state_with-IsReady (dma_memory 4 8)) (omega arith)

-- "open:1" at address 100, for the proc file, and the control data with an injected SPI failure.
abbrev option_bytes : List ℕ
option_bytes = b'o' ∷ b'p' ∷ b'e' ∷ b'n' ∷ b':' ∷ b'1' ∷ []

abbrev option_state : Sys Memory
option_state = state_with (store_bytes (λ k. 0) 100 option_bytes)

mtcadummy_proc_write_example :
    Ends
      (λ a t.
        (t.held ≡ [])
        × (t.devices ≡ option_state.devices)
        × (t.user ≡ option_state.user)
        × (a ≡ size 6)
        × ((f : Failure)
            → flag_of f t.control
              ≡ injected
                  (last_given scan_digit f (tokens (c_string option_bytes)))
                  (flag_of f option_state.control)))
      (mtcadummy_proc_write 100 6 option_state)
mtcadummy_proc_write_example =
    mtcadummy_proc_write_lem 100 6 option_state
      (state_with-IsReady (store_bytes (λ k. 0) 100 option_bytes))

mtcadummy_proc_write-last_example :
    Ends
      (λ a t. (a ≡ size 6) × (t.control.open_error ≡ true))
      (mtcadummy_proc_write 100 6 option_state)
unfolding tokens c_string
mtcadummy_proc_write-last_example =
    mtcadummy_proc_write-last 100 6 option_state
      (state_with-IsReady (store_bytes (λ k. 0) 100 option_bytes)) refl refl open_failure [] []
      option_bytes 1 refl tt refl (omega arith) tt

-- Device 2 while it is open.
abbrev opened_state : Sys Memory
opened_state = record (state_with (λ k. 0)) { devices = λ i. record (device i) { in_use = 1 } }

opened_state-IsReady : IsReady opened_state
opened_state-IsReady = record { free = refl; slots = λ i h. refl }

mtcadummy_seq_show-dump_example :
    Ends
      (λ r t.
        ReadsOnly opened_state t
        × (t.user ≡ (λ k. 0))
        × (r ≡ (size 0, dump (opened_state.devices 2))))
      (mtcadummy_seq_show 2 opened_state)
mtcadummy_seq_show-dump_example =
    mtcadummy_seq_show-dump 2 opened_state (omega arith) opened_state-IsReady

mtca_dummy_open-Counted_example :
    Ends
      (λ r t. (r ≡ (size 0, some 2)) × Counted 2 2 opened_state t)
      (mtca_dummy_open 2 opened_state)
mtca_dummy_open-Counted_example =
    mtca_dummy_open-Counted 2 opened_state (omega arith) opened_state-IsReady

mtca_dummy_release-Counted_example :
    Ends (λ r t. (r ≡ size 0) × Counted 2 0 opened_state t) (mtca_dummy_release 2 opened_state)
mtca_dummy_release-Counted_example = mtca_dummy_release-Counted 2 opened_state (omega arith)

visited-devices_from_example : visited 8 (mtcadummy_seq_start 4) ≡ devices_from 3 4
visited-devices_from_example = visited-devices_from 8 4 (omega arith)
