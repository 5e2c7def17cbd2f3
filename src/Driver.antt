-- ===== src/Driver.antt =====
-- The driver as a whole: which handler of mtcadummy_drv.c, mtcadummy_rw_no_struct.c and
-- mtcadummy_proc.c a call runs, by the table of file operations of its device, and the steps of a
-- loaded driver, any number of which processes make in any order.
pub mod Effects
pub mod Invariants
use pciedummy_driver.Common.{
  ℕ, ◌+◌, ◌-◌, ◌^◌, ◌≤◌, ◌<◌, ◌≡◌, Bool, Option, none, some, List, update,
}
use pciedummy_driver.State.{mtcadummy_nr_devs}
use pciedummy_driver.Kernel.{Ssize, Host, Sys, Cmd, ok, pure, ◌>>=◌}
use pciedummy_driver.StructIo.{mtca_dummy_read, mtca_dummy_write}
use pciedummy_driver.NoStruct.{mtca_dummy_read_no_struct, mtca_dummy_write_no_struct}
use pciedummy_driver.Files.{
  ReadWrite, with_struct, no_struct, IoctlSet, file_ops_of, mtca_dummy_open, mtca_dummy_release,
}
use pciedummy_driver.Ioctl.{run_ioctl}
use pciedummy_driver.Proc.{mtcadummy_seq_show, mtcadummy_proc_write}

-- The calls on an open device file, with its position for `read_file` and `write_file`, and the two
-- on the proc file.
pub data Call : Type 0 where
  read_file write_file : (i buf count pos : ℕ) → Call
  ioctl_file : (i cmd arg : ℕ) → Call
  show_device : (i : ℕ) → Call
  write_proc : (ubuf count : ℕ) → Call

-- The numbers fit their C types, and the device is one of the driver's.
abbrev pub IsValid : Call → Type 0
IsValid (read_file i buf count pos) = (i < mtcadummy_nr_devs) × (count < 2 ^ 63) × (pos < 2 ^ 64)
IsValid (write_file i buf count pos) = (i < mtcadummy_nr_devs) × (count < 2 ^ 63) × (pos < 2 ^ 64)
IsValid (ioctl_file i cmd arg) = i < mtcadummy_nr_devs
IsValid (show_device i) = i < mtcadummy_nr_devs
IsValid (write_proc ubuf count) = Unit

module _ {M : Type 0} ⦃host : Host M⦄ where
  unfoldable pub read_with : ReadWrite → ℕ → ℕ → ℕ → ℕ → Cmd M Ssize
  read_with with_struct i buf count pos = mtca_dummy_read i buf count
  read_with no_struct i buf count pos = do
    (r, pos') ← mtca_dummy_read_no_struct i buf count pos
    pure r

  unfoldable pub write_with : ReadWrite → ℕ → ℕ → ℕ → ℕ → Cmd M Ssize
  write_with with_struct i buf count pos = mtca_dummy_write i buf count
  write_with no_struct i buf count pos = do
    (r, pos') ← mtca_dummy_write_no_struct i buf count pos
    pure r

  -- What the call runs in the driver; `none` if the table of the device has a null pointer.
  unfoldable pub handler_of : Call → Option (Cmd M Ssize)
  handler_of (read_file i buf count pos) = elim ((file_ops_of i).read) [
    | none ↦ none
    | some rw_kind ↦ some (read_with rw_kind i buf count pos)
  ]
  handler_of (write_file i buf count pos) = elim ((file_ops_of i).write) [
    | none ↦ none
    | some rw_kind ↦ some (write_with rw_kind i buf count pos)
  ]
  handler_of (ioctl_file i cmd arg) = elim ((file_ops_of i).unlocked_ioctl) [
    | none ↦ none
    | some set ↦ some (run_ioctl set i cmd arg)
  ]
  handler_of (show_device i) = some (do (r, lines) ← mtcadummy_seq_show i; pure r)
  handler_of (write_proc ubuf count) = some (mtcadummy_proc_write ubuf count)

-- The driver, and how often each of its device files is open.
pub record World (M : Type 0) : Type 0 where
  pub sys : Sys M
  pub open_files : ℕ → ℕ

abbrev pub opened : Option ℕ → (ℕ → ℕ) → ℕ → ℕ
opened none files = files
opened (some i) files = update files i (files i + 1)

-- One call, from its start to its return, or what processes do between two calls.
pub data Step {M : Type 0} ⦃host : Host M⦄ : World M → World M → Type 0 where
  opens :
      (w : World M) (i : ℕ) (r : Ssize) (file : Option ℕ) (t : Sys M)
      → i < mtcadummy_nr_devs
      → (file_ops_of i).opens ≡ some tt
      → mtca_dummy_open i w.sys ≡ ok (r, file) t
      → Step w (record { sys = t; open_files = opened file w.open_files })
  closes :
      (w : World M) (i : ℕ) (r : Ssize) (t : Sys M)
      → i < mtcadummy_nr_devs
      → (file_ops_of i).opens ≡ some tt
      → 1 ≤ w.open_files i
      → mtca_dummy_release i w.sys ≡ ok r t
      → Step w (record { sys = t; open_files = update w.open_files i (w.open_files i - 1) })
  -- Linux opens and closes the files of a device whose table has null pointers without the driver.
  opens_alone :
      (w : World M) (i : ℕ)
      → i < mtcadummy_nr_devs
      → (file_ops_of i).opens ≡ none
      → Step w (record { sys = w.sys; open_files = update w.open_files i (w.open_files i + 1) })
  closes_alone :
      (w : World M) (i : ℕ)
      → i < mtcadummy_nr_devs
      → (file_ops_of i).opens ≡ none
      → 1 ≤ w.open_files i
      → Step w (record { sys = w.sys; open_files = update w.open_files i (w.open_files i - 1) })
  calls :
      (w : World M) (c : Call) (h : Cmd M Ssize) (r : Ssize) (t : Sys M)
      → IsValid c
      → handler_of c ≡ some h
      → h w.sys ≡ ok r t
      → Step w (record { sys = t; open_files = w.open_files })
  runs :
      (w : World M) (m : M) (arriving : List Bool)
      → Step w (record {
        sys = record w.sys { user = m; signals = arriving };
        open_files = w.open_files;
      })

-- The worlds that a number of steps leads to.
pub data Reach {M : Type 0} ⦃host : Host M⦄ (v : World M) : World M → Type 0 where
  here : Reach v v
  next : {w u : World M} → Reach v w → Step w u → Reach v u
