-- ===== src/Threads/Files.antt =====
-- The operations of `mtcaDummy_open` and `mtcaDummy_release`, of the two handlers of the proc file,
-- and the sequence that a call makes, by the table of file operations of its device.
use pciedummy_driver.Common.{
  ℕ, zero, suc, ◌+◌, ◌*◌, not, Option, none, some, List, [], ◌∷◌, ◌++◌, ◌==◌, if◌then◌else◌,
}
use Prim.Native.Nat.{min}
use pciedummy_driver.State.{mtcadummy_n_registers, system_area, dma_area}
use pciedummy_driver.Kernel.{
  efault, einval, erestartsys, ewouldblock, Ssize, error, size, control_mutex, dev_mutex, Host,
}
use pciedummy_driver.Files.{ReadWrite, with_struct, no_struct, file_ops_of}
use pciedummy_driver.Proc.{
  Line, not_in_use, system_bar_header, register_line, dma_bar_header, dma_line, blank, dma_rows,
  assign_options, options_of,
}
use pciedummy_driver.Driver.{Call, read_file, write_file, ioctl_file, show_device, write_proc}
use pciedummy_driver.Threads.{
  take, give, get_control, put_control, get_slot_nr, get_in_use, count_in, count_out, load,
  from_user, Steps, done, op, ◌>>=◌, ◌>>◌,
}
use pciedummy_driver.Threads.Pieces.{control_flag_steps}
use pciedummy_driver.Threads.Requests.{mtca_dummy_read_steps, mtca_dummy_write_steps}
use pciedummy_driver.Threads.Transfers.{
  mtca_dummy_read_no_struct_steps, mtca_dummy_write_no_struct_steps,
}
use pciedummy_driver.Threads.Commands.{run_ioctl_steps}

module _ {M : Type 0} where
  unfoldable pub mtca_dummy_open_steps : ℕ → Steps M (Ssize × Option ℕ)
  mtca_dummy_open_steps i = do
    failure ← control_flag_steps (λ c. c.open_error)
    elim failure [
      | none ↦ done (error erestartsys, none)
      | some open_fail ↦
          if open_fail then done (error einval, none) else do op (count_in i); done (size 0, some i)
    ]

  unfoldable pub mtca_dummy_release_steps : ℕ → Steps M Ssize
  mtca_dummy_release_steps i = do op (count_out i); done (size 0)

  unfoldable pub show_registers_steps : ℕ → ℕ → ℕ → Steps M (List Line)
  show_registers_steps zero reg i = done []
  show_registers_steps (suc n) reg i = do
    w ← op (load i system_area reg)
    rest ← show_registers_steps n (reg + 1) i
    done (register_line reg w ∷ rest)

  unfoldable pub show_dma_steps : ℕ → ℕ → ℕ → Steps M (List Line)
  show_dma_steps zero index i = done []
  show_dma_steps (suc n) index i = do
    w0 ← op (load i dma_area index)
    w1 ← op (load i dma_area (index + 1))
    w2 ← op (load i dma_area (index + 2))
    w3 ← op (load i dma_area (index + 3))
    rest ← show_dma_steps n (index + 4) i
    done (dma_line (index * 4) w0 w1 w2 w3 ∷ rest)

  unfoldable pub seq_show_steps : ℕ → Steps M (Ssize × List Line)
  seq_show_steps i = do
    in_use ← op (get_in_use i)
    slot ← op (get_slot_nr i)
    if in_use == 0 then done (size 0, not_in_use slot ∷ []) else do
      interrupted ← op (take (dev_mutex i))
      if interrupted then done (error erestartsys, []) else do
        registers ← show_registers_steps mtcadummy_n_registers 0 i
        rows ← show_dma_steps dma_rows 0 i
        op (give (dev_mutex i))
        done (
          size 0,
          system_bar_header slot ∷ registers
              ++ (blank ∷ dma_bar_header slot ∷ rows ++ (blank ∷ [])),
        )

module _ {M : Type 0} ⦃host : Host M⦄ where
  unfoldable pub proc_write_steps : ℕ → ℕ → Steps M Ssize
  proc_write_steps ubuf count = do
    (bs, left) ← op (from_user ubuf (min count 254))
    if not (left == 0) then done (error efault) else do
      interrupted ← op (take control_mutex)
      if interrupted then done (error ewouldblock) else do
        control ← op get_control
        op (put_control (assign_options (options_of host.sscanf_int bs) control))
        op (give control_mutex)
        done (size count)

  unfoldable pub read_with_steps : ReadWrite → ℕ → ℕ → ℕ → ℕ → Steps M Ssize
  read_with_steps with_struct i buf count pos = mtca_dummy_read_steps i buf count
  read_with_steps no_struct i buf count pos = do
    (r, pos') ← mtca_dummy_read_no_struct_steps i buf count pos
    done r

  unfoldable pub write_with_steps : ReadWrite → ℕ → ℕ → ℕ → ℕ → Steps M Ssize
  write_with_steps with_struct i buf count pos = mtca_dummy_write_steps i buf count
  write_with_steps no_struct i buf count pos = do
    (r, pos') ← mtca_dummy_write_no_struct_steps i buf count pos
    done r

  unfoldable pub steps_of : Call → Option (Steps M Ssize)
  steps_of (read_file i buf count pos) = elim ((file_ops_of i).read) [
    | none ↦ none
    | some rw_kind ↦ some (read_with_steps rw_kind i buf count pos)
  ]
  steps_of (write_file i buf count pos) = elim ((file_ops_of i).write) [
    | none ↦ none
    | some rw_kind ↦ some (write_with_steps rw_kind i buf count pos)
  ]
  steps_of (ioctl_file i cmd arg) = elim ((file_ops_of i).unlocked_ioctl) [
    | none ↦ none
    | some set ↦ some (run_ioctl_steps set i cmd arg)
  ]
  steps_of (show_device i) = some (do (r, lines) ← seq_show_steps i; done r)
  steps_of (write_proc ubuf count) = some (proc_write_steps ubuf count)
