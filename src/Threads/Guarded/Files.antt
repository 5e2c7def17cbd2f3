-- ===== src/Threads/Guarded/Files.antt =====
-- Opening and releasing a device file, the proc file, and the handlers that calls run keep to the
-- locking discipline.
use pciedummy_driver.Common.{
  ℕ, zero, suc, ◌+◌, ◌*◌, ◌≤◌, ◌<◌, ◌^◌, ◌==◌, ◌≡◌, Option, none, some, [], ◌∷◌, arith,
}
use pciedummy_driver.State.{mtcadummy_n_registers, system_area, dma_area}
use pciedummy_driver.Kernel.{dev_mutex, Ssize, Host}
use pciedummy_driver.Files.{ReadWrite, with_struct, no_struct, file_ops_of}
use pciedummy_driver.Proc.{dma_rows}
use pciedummy_driver.Driver.{
  Call, read_file, write_file, ioctl_file, show_device, write_proc, IsValid,
}
use pciedummy_driver.Threads.{Steps}
use pciedummy_driver.Threads.Transfers.{
  mtca_dummy_read_no_struct_steps, mtca_dummy_write_no_struct_steps,
}
use pciedummy_driver.Threads.Files.{
  mtca_dummy_open_steps, mtca_dummy_release_steps, show_registers_steps, show_dma_steps,
  seq_show_steps, proc_write_steps, read_with_steps, write_with_steps, steps_of,
}
use pciedummy_driver.Threads.Discipline.{Guards, Guards-bind, Guards-then, AllReleased}
use pciedummy_driver.Threads.Guarded.{
  guard_rules, Guards-if, Guards-load, Guards-take, Guards-get_in_use, Guards-slot_nr,
}
use pciedummy_driver.Threads.Guarded.Requests.{mtca_dummy_read-Guards, mtca_dummy_write-Guards}
use pciedummy_driver.Threads.Guarded.Transfers.{
  mtca_dummy_read_no_struct-Guards, mtca_dummy_write_no_struct-Guards,
}
use pciedummy_driver.Threads.Guarded.Commands.{run_ioctl-Guards}

module _ {M : Type 0} where
  -- What a call runs, if its device has such an operation.
  abbrev pub HandlerGuards : Option (Steps M Ssize) → Type 0
  HandlerGuards none = Unit
  HandlerGuards (some p) = Guards AllReleased [] p

module _ (M : Type 0) where
  pub mtca_dummy_open-Guards :
      (i : ℕ) → i < 7 → Guards AllReleased [] (mtca_dummy_open_steps {M = M} i)
  unfolding mtca_dummy_open_steps
  mtca_dummy_open-Guards i hi = search (guard_rules) depth 30

  pub mtca_dummy_release-Guards :
      (i : ℕ) → i < 7 → Guards AllReleased [] (mtca_dummy_release_steps {M = M} i)
  unfolding mtca_dummy_release_steps
  mtca_dummy_release-Guards i hi = search (guard_rules) depth 30

  show_registers-Guards :
      (n reg i : ℕ)
      → i < 7
      → reg + n ≤ 32
      → Guards
          (λ a h. h ≡ dev_mutex i ∷ [])
          (dev_mutex i ∷ [])
          (show_registers_steps {M = M} n reg i)
  unfolding show_registers_steps
  show_registers-Guards zero reg i hi fits = search (guard_rules)
  show_registers-Guards (suc n) reg i hi fits =
      Guards-load _ i system_area reg _ hi (omega arith) λ w.
        Guards-then (λ a h. h ≡ dev_mutex i ∷ []) (dev_mutex i ∷ [])
          (show_registers_steps n (reg + 1) i) _
          (show_registers-Guards n (reg + 1) i hi (omega arith)) λ rest. search (guard_rules)

  show_dma-Guards :
      (n index i : ℕ)
      → i < 7
      → index + n * 4 ≤ 1024
      → Guards (λ a h. h ≡ dev_mutex i ∷ []) (dev_mutex i ∷ []) (show_dma_steps {M = M} n index i)
  unfolding show_dma_steps
  show_dma-Guards zero index i hi fits = search (guard_rules)
  show_dma-Guards (suc n) index i hi fits = Guards-load _ i dma_area index _ hi (omega arith) λ w0.
      Guards-load _ i dma_area (index + 1) _ hi (omega arith) λ w1.
        Guards-load _ i dma_area (index + 2) _ hi (omega arith) λ w2.
          Guards-load _ i dma_area (index + 3) _ hi (omega arith) λ w3.
            Guards-then (λ a h. h ≡ dev_mutex i ∷ []) (dev_mutex i ∷ [])
              (show_dma_steps n (index + 4) i) _ (show_dma-Guards n (index + 4) i hi (omega arith))
              λ rest. search (guard_rules)

  seq_show-Guards : (i : ℕ) → i < 7 → Guards AllReleased [] (seq_show_steps {M = M} i)
  unfolding seq_show_steps
  seq_show-Guards i hi = Guards-get_in_use AllReleased [] i _ hi λ n.
      Guards-slot_nr AllReleased [] i _ hi (
        Guards-if AllReleased [] (n == 0) _ _ (λ e. search (guard_rules))
          λ e. Guards-take AllReleased i _ _ (search (guard_rules)) (
            Guards-then AllReleased (dev_mutex i ∷ [])
              (show_registers_steps mtcadummy_n_registers 0 i) _
              (show_registers-Guards 32 0 i hi (omega arith))
              λ registers.
                Guards-then AllReleased (dev_mutex i ∷ []) (show_dma_steps dma_rows 0 i) _
                  (show_dma-Guards 256 0 i hi (omega arith)) λ rows. search (guard_rules)))

module _ (M : Type 0) ⦃host : Host M⦄ where
  proc_write-Guards : (ubuf count : ℕ) → Guards AllReleased [] (proc_write_steps {M = M} ubuf count)
  unfolding proc_write_steps
  proc_write-Guards ubuf count = search (guard_rules) depth 20

  read_with-Guards :
      (kind : ReadWrite) (i buf count pos : ℕ)
      → i < 7
      → count < 2 ^ 63
      → Guards AllReleased [] (read_with_steps {M = M} kind i buf count pos)
  unfolding read_with_steps
  read_with-Guards with_struct i buf count pos hi hc = mtca_dummy_read-Guards M i buf count hi
  read_with-Guards no_struct i buf count pos hi hc =
      Guards-bind AllReleased AllReleased [] (mtca_dummy_read_no_struct_steps i buf count pos) _
        (mtca_dummy_read_no_struct-Guards M i buf count pos hi hc) λ r h e. search (guard_rules, e)

  write_with-Guards :
      (kind : ReadWrite) (i buf count pos : ℕ)
      → i < 7
      → count < 2 ^ 63
      → Guards AllReleased [] (write_with_steps {M = M} kind i buf count pos)
  unfolding write_with_steps
  write_with-Guards with_struct i buf count pos hi hc = mtca_dummy_write-Guards M i buf count hi
  write_with-Guards no_struct i buf count pos hi hc =
      Guards-bind AllReleased AllReleased [] (mtca_dummy_write_no_struct_steps i buf count pos) _
        (mtca_dummy_write_no_struct-Guards M i buf count pos hi hc) λ r h e. search (guard_rules, e)

  HandlerGuards-entry :
      {B : Type 0} (entry : Option B) (f : B → Steps M Ssize)
      → ((b : B) → Guards AllReleased [] (f b))
      → HandlerGuards (elim entry [ none ↦ none | some b ↦ some (f b) ])
  HandlerGuards-entry none f g = tt
  HandlerGuards-entry (some b) f g = g b

  pub steps_of-Guards : (c : Call) → IsValid c → HandlerGuards {M = M} (steps_of c)
  unfolding steps_of
  steps_of-Guards (read_file i buf count pos) (hi, hc, hp) =
      HandlerGuards-entry ((file_ops_of i).read) _
        λ kind. read_with-Guards kind i buf count pos hi hc
  steps_of-Guards (write_file i buf count pos) (hi, hc, hp) =
      HandlerGuards-entry ((file_ops_of i).write) _
        λ kind. write_with-Guards kind i buf count pos hi hc
  steps_of-Guards (ioctl_file i cmd arg) hi =
      HandlerGuards-entry ((file_ops_of i).unlocked_ioctl) _
        λ set. run_ioctl-Guards M set i cmd arg hi
  steps_of-Guards (show_device i) hi =
      Guards-bind AllReleased AllReleased [] (seq_show_steps i) _ (seq_show-Guards M i hi)
        λ r h e. search (guard_rules, e)
  steps_of-Guards (write_proc ubuf count) u = proc_write-Guards ubuf count
