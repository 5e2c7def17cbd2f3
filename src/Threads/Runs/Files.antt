-- ===== src/Threads/Runs/Files.antt =====
-- Opening and releasing a device file, the proc file, and the handler of each call of Driver.antt.
use pciedummy_driver.Common.{
  ℕ, zero, suc, ◌+◌, ◌≡◌, refl, ap, ◌∙◌, fun_ext, Option, none, some, arith, ◌==◌,
}
use mathlib.Core.Option.{map}
use pciedummy_driver.State.{mtcadummy_n_registers, system_area, dma_area}
use pciedummy_driver.Kernel.{
  Ssize, dev_mutex, Host, Sys, Cmd, and_then, pure, control_flag, mutex_lock_interruptible,
  mutex_unlock, get_device, load_word, copy_from_user,
}
use pciedummy_driver.Files.{
  ReadWrite, with_struct, no_struct, mtca_dummy_open, mtca_dummy_release, file_ops_of,
}
use pciedummy_driver.Proc.{
  dma_rows, show_registers, show_dma, mtcadummy_seq_show, set_control, mtcadummy_proc_write,
}
use pciedummy_driver.NoStruct.{mtca_dummy_read_no_struct, mtca_dummy_write_no_struct}
use pciedummy_driver.Driver.{
  Call, read_file, write_file, ioctl_file, show_device, write_proc, read_with, write_with,
  handler_of,
}
use pciedummy_driver.Threads.{Steps, act, run}
use pciedummy_driver.Threads.Laws.{and_then-cong, run-then, run-if}
use pciedummy_driver.Threads.Pieces.{control_flag_steps}
use pciedummy_driver.Threads.Transfers.{
  mtca_dummy_read_no_struct_steps, mtca_dummy_write_no_struct_steps,
}
use pciedummy_driver.Threads.Files.{
  mtca_dummy_open_steps, mtca_dummy_release_steps, show_registers_steps, show_dma_steps,
  seq_show_steps, proc_write_steps, read_with_steps, write_with_steps, steps_of,
}
use pciedummy_driver.Threads.Runs.Requests.{run-mtca_dummy_read, run-mtca_dummy_write}
use pciedummy_driver.Threads.Runs.Transfers.{
  run-mtca_dummy_read_no_struct, run-mtca_dummy_write_no_struct,
}
use pciedummy_driver.Threads.Runs.Commands.{run-run_ioctl}

module _ {M : Type 0} ⦃host : Host M⦄ where
  pub run-mtca_dummy_open :
      (i : ℕ) (s : Sys M) → run (mtca_dummy_open_steps i) s ≡ mtca_dummy_open i s
  unfolding act mtca_dummy_open_steps mtca_dummy_open control_flag_steps control_flag
      mutex_lock_interruptible mutex_unlock get_device
  run-mtca_dummy_open i s = ground arith

  pub run-mtca_dummy_release :
      (i : ℕ) (s : Sys M) → run (mtca_dummy_release_steps i) s ≡ mtca_dummy_release i s
  unfolding act mtca_dummy_release_steps mtca_dummy_release get_device
  run-mtca_dummy_release i s = ground arith

  run-show_registers :
      (n reg i : ℕ) (s : Sys M) → run (show_registers_steps n reg i) s ≡ show_registers n reg i s
  unfolding act show_registers_steps show_registers
  run-show_registers zero reg i s = refl
  run-show_registers (suc n) reg i s = and_then-cong (load_word i system_area reg s) λ w t.
      run-then (show_registers_steps n (reg + 1) i) (show_registers n (reg + 1) i) _ _ t
        (run-show_registers n (reg + 1) i t) λ rest u. refl

  run-show_dma :
      (n index i : ℕ) (s : Sys M) → run (show_dma_steps n index i) s ≡ show_dma n index i s
  unfolding act show_dma_steps show_dma
  run-show_dma zero index i s = refl
  run-show_dma (suc n) index i s = and_then-cong (load_word i dma_area index s) λ w0 s1.
      and_then-cong (load_word i dma_area (index + 1) s1) λ w1 s2.
        and_then-cong (load_word i dma_area (index + 2) s2) λ w2 s3.
          and_then-cong (load_word i dma_area (index + 3) s3) λ w3 s4.
            run-then (show_dma_steps n (index + 4) i) (show_dma n (index + 4) i) _ _ s4
              (run-show_dma n (index + 4) i s4) λ rest u. refl

  read_twice :
      {A : Type 0} (i : ℕ) (s : Sys M) (k : ℕ → ℕ → Cmd M A)
      → and_then
          (and_then (get_device i s) λ d. pure d.in_use)
          (λ n t. and_then (and_then (get_device i t) λ d. pure d.slot_nr) (k n))
        ≡ and_then (get_device i s) (λ d. k d.in_use d.slot_nr)
  unfolding get_device
  read_twice i s k = ground arith

  run-seq_show : (i : ℕ) (s : Sys M) → run (seq_show_steps i) s ≡ mtcadummy_seq_show i s
  unfolding act seq_show_steps mtcadummy_seq_show
  run-seq_show i s =
      read_twice i s _
      ∙ and_then-cong (get_device i s) λ d t. run-if (d.in_use == 0) _ _ _ _ t refl (
          and_then-cong (mutex_lock_interruptible (dev_mutex i) t) λ interrupted u.
            run-if interrupted _ _ _ _ u refl (
              run-then (show_registers_steps mtcadummy_n_registers 0 i)
                (show_registers mtcadummy_n_registers 0 i) _ _ u
                (run-show_registers mtcadummy_n_registers 0 i u)
                λ registers v.
                  run-then (show_dma_steps dma_rows 0 i) (show_dma dma_rows 0 i) _ _ v
                    (run-show_dma dma_rows 0 i v) λ rows x. refl))

  run-proc_write :
      (ubuf count : ℕ) (s : Sys M)
      → run (proc_write_steps ubuf count) s ≡ mtcadummy_proc_write ubuf count s
  unfolding act proc_write_steps mtcadummy_proc_write copy_from_user mutex_lock_interruptible
      mutex_unlock set_control
  run-proc_write ubuf count s = ground arith

  run-read_with :
      (kind : ReadWrite) (i buf count pos : ℕ) (s : Sys M)
      → run (read_with_steps kind i buf count pos) s ≡ read_with kind i buf count pos s
  unfolding read_with_steps read_with
  run-read_with with_struct i buf count pos s = run-mtca_dummy_read i buf count s
  run-read_with no_struct i buf count pos s =
      run-then (mtca_dummy_read_no_struct_steps i buf count pos)
        (mtca_dummy_read_no_struct i buf count pos) _ _ s
        (run-mtca_dummy_read_no_struct i buf count pos s) λ r t. refl

  run-write_with :
      (kind : ReadWrite) (i buf count pos : ℕ) (s : Sys M)
      → run (write_with_steps kind i buf count pos) s ≡ write_with kind i buf count pos s
  unfolding write_with_steps write_with
  run-write_with with_struct i buf count pos s = run-mtca_dummy_write i buf count s
  run-write_with no_struct i buf count pos s =
      run-then (mtca_dummy_write_no_struct_steps i buf count pos)
        (mtca_dummy_write_no_struct i buf count pos) _ _ s
        (run-mtca_dummy_write_no_struct i buf count pos s) λ r t. refl

  -- An entry of a table of file operations.
  run-entry :
      {B : Type 0} (entry : Option B) (f : B → Steps M Ssize) (h : B → Cmd M Ssize)
      → ((b : B) (s : Sys M) → run (f b) s ≡ h b s)
      → map run (elim entry [ none ↦ none | some b ↦ some (f b) ])
        ≡ (elim entry [ none ↦ none | some b ↦ some (h b) ])
  run-entry none f h e = refl
  run-entry (some b) f h e = ap some (fun_ext (e b))

  -- The operations of each call's handler, performed one after the other without a break, have the
  -- effect and the result of the handler, and a call has operations just if the table of its device
  -- has a handler.
  run-steps_of : (c : Call) → map (run {M = M}) (steps_of c) ≡ handler_of c
  unfolding steps_of handler_of
  run-steps_of (read_file i buf count pos) =
      run-entry ((file_ops_of i).read) _ _ λ kind. run-read_with kind i buf count pos
  run-steps_of (write_file i buf count pos) =
      run-entry ((file_ops_of i).write) _ _ λ kind. run-write_with kind i buf count pos
  run-steps_of (ioctl_file i cmd arg) =
      run-entry ((file_ops_of i).unlocked_ioctl) _ _ λ set. run-run_ioctl set i cmd arg
  run-steps_of (show_device i) = ap some (
      fun_ext λ s.
        run-then (seq_show_steps i) (mtcadummy_seq_show i) _ _ s (run-seq_show i s) λ r t. refl)
  run-steps_of (write_proc ubuf count) = ap some (fun_ext (run-proc_write ubuf count))
