-- ===== src/Files.antt =====
-- `mtcaDummy_open` and `mtcaDummy_release` of mtcadummy_drv.c, and the four `file_operations`
-- tables with the choice that the module's initialisation makes for each device.
pub mod Counting
use pciedummy_driver.Common.{ℕ, ◌+◌, ◌-◌, ◌^◌, Option, none, some, ◌==◌, if◌then◌else◌}
use pciedummy_driver.Common.Bytes.{u32}
use pciedummy_driver.State.{MtcaDummyData}
use pciedummy_driver.Kernel.{
  einval, erestartsys, Ssize, error, size, Cmd, pure, ◌>>=◌, ◌>>◌, control_flag, get_device,
  put_device,
}

-- `atomic_inc` and `atomic_dec` of `inUse`.
unfoldable pub count_up : MtcaDummyData → MtcaDummyData
count_up d = record d { in_use = u32 (d.in_use + 1) }

unfoldable pub count_down : MtcaDummyData → MtcaDummyData
count_down d = record d { in_use = u32 (d.in_use + 2 ^ 32 - 1) }

module _ {M : Type 0} where
  -- `i` is the device whose `cdev` the inode names. The second part of the result is what
  -- `filp->private_data` is set to, if it is set.
  unfoldable pub mtca_dummy_open : ℕ → Cmd M (Ssize × Option ℕ)
  mtca_dummy_open i = do
    failure ← control_flag (λ c. c.open_error)
    elim failure [
      | none ↦ pure (error erestartsys, none)
      | some open_fail ↦
          if open_fail
          then pure (error einval, none)
          else do d ← get_device i; put_device i (count_up d); pure (size 0, some i)
    ]

  -- `i` is the device that `filp->private_data` points to.
  unfoldable pub mtca_dummy_release : ℕ → Cmd M Ssize
  mtca_dummy_release i = do d ← get_device i; put_device i (count_down d); pure (size 0)

pub data ReadWrite : Type 0 where
  with_struct no_struct : ReadWrite

pub data IoctlSet : Type 0 where
  mtca_ioctl llrf_ioctl pcieuni_ioctl : IoctlSet

-- The entries of a table that is set; `none` is a null pointer. `opens` stands for the two entries
-- `open` and `release`.
pub record FileOperations : Type 0 where
  pub read : Option ReadWrite
  pub write : Option ReadWrite
  pub unlocked_ioctl : Option IoctlSet
  pub opens : Option (Unit {0})

abbrev pub mtca_dummy_file_ops : FileOperations
mtca_dummy_file_ops = record {
  read = some with_struct;
  write = some with_struct;
  unlocked_ioctl = some mtca_ioctl;
  opens = some tt;
}

abbrev pub llrf_dummy_file_ops : FileOperations
llrf_dummy_file_ops = record mtca_dummy_file_ops { unlocked_ioctl = some llrf_ioctl }

-- The file has a definition with entries only for `noIocltDummyFileOps`, which nothing uses.
-- `noIoctlDummyFileOps` has its declaration alone, so that C fills it with zeros.
abbrev pub no_ioclt_dummy_file_ops : FileOperations
no_ioclt_dummy_file_ops = record mtca_dummy_file_ops { unlocked_ioctl = none }

abbrev pub no_ioctl_dummy_file_ops : FileOperations
no_ioctl_dummy_file_ops = record { read = none; write = none; unlocked_ioctl = none; opens = none }

abbrev pub pcieuni_dummy_file_ops : FileOperations
pcieuni_dummy_file_ops = record {
  read = some no_struct;
  write = some no_struct;
  unlocked_ioctl = some pcieuni_ioctl;
  opens = some tt;
}

-- The `switch(i)` of `mtcaDummy_init_module`.
unfoldable pub file_ops_of : ℕ → FileOperations
file_ops_of i =
    if i == 4
    then llrf_dummy_file_ops
    else if i == 5
    then no_ioctl_dummy_file_ops
    else if i == 6
    then pcieuni_dummy_file_ops
    else mtca_dummy_file_ops
