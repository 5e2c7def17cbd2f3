-- ===== src/Driver/Effects.antt =====
-- What each call leaves of the state of the driver, if it returns, as `Keeps`.
use pciedummy_driver.Common.{ℕ, ◌<◌, ◌≡◌, refl, false, ap, arith, none, some, Option, [], ◌∷◌, ◌==◌}
use pciedummy_driver.Kernel.{
  Ssize, Host, Sys, Run, Cmd, ok, fault, dev_mutex, in_bounds, get_device, control_flag, load_word,
  copy_from_user, copy_to_user, unlock_and_fail, unlock_and_return, mutex_lock_interruptible,
}
use pciedummy_driver.Kernel.Laws.{Ends, Ends-mono, IsReady, ReadsOnly, ChangesBars, entered, locked}
use pciedummy_driver.Files.{
  ReadWrite, with_struct, no_struct, IoctlSet, mtca_ioctl, llrf_ioctl, pcieuni_ioctl, file_ops_of,
}
use pciedummy_driver.Firmware.{mtcadummy_perform_pre_read_action}
use pciedummy_driver.StructIo.{
  DeviceRw, rw_of_bytes, select_bar, bad_offset, return_rw, read_info, read_register, read_dma,
  read_request, with_request, mtca_dummy_read, mtca_dummy_write,
}
use pciedummy_driver.NoStruct.{mtca_dummy_write_no_struct}
use pciedummy_driver.StructIo.Safety.{mtca_dummy_write-ChangesBars}
use pciedummy_driver.NoStruct.Reads.{mtca_dummy_read_no_struct-ReadsOnly}
use pciedummy_driver.NoStruct.WriteSafety.{mtca_dummy_write_no_struct-ChangesBars}
use pciedummy_driver.Ioctl.{
  physical_slot, driver_version, copy_dma, ioctl_read_dma, with_command, mtca_switch, llrf_switch,
  pcieuni_switch, mtca_dummy_ioctl, llrf_dummy_ioctl, pcieuni_dummy_ioctl, run_ioctl,
}
use pciedummy_driver.Ioctl.Safety.{physical_slot-ReadsOnly, driver_version-ReadsOnly}
use pciedummy_driver.Proc.Flags.{mtcadummy_proc_write_lem}
use pciedummy_driver.Proc.Show.{mtcadummy_seq_show-dump}
use pciedummy_driver.Driver.{
  Call, read_file, write_file, ioctl_file, show_device, write_proc, IsValid, read_with, write_with,
  handler_of,
}

-- If the run returns, its result and final state are as `P` says.
abbrev pub IfReturns : {M A : Type 0} → (A → Sys M → Type 0) → Run M A → Type 0
IfReturns P (ok a s) = P a s
IfReturns P (fault e) = Unit

Ends-IfReturns : {M A : Type 0} (P : A → Sys M → Type 0) (r : Run M A) → Ends P r → IfReturns P r
Ends-IfReturns P (ok a s) h = h
Ends-IfReturns P (fault e) h = tt

IfReturns-mono :
    {M A : Type 0} {P Q : A → Sys M → Type 0} (r : Run M A)
    → ((a : A) (t : Sys M) → P a t → Q a t)
    → IfReturns P r
    → IfReturns Q r
IfReturns-mono (ok a s) f h = f a s h
IfReturns-mono (fault e) f h = tt

module _ {M : Type 0} where
  pub record Keeps (s t : Sys M) : Type 0 where
    pub free : t.held ≡ []
    pub slots : (j : ℕ) → (t.devices j).slot_nr ≡ (s.devices j).slot_nr
    pub counts : (j : ℕ) → (t.devices j).in_use ≡ (s.devices j).in_use
    pub fifth : t.devices 5 ≡ s.devices 5

  ReadsOnly-Keeps : (s t : Sys M) → ReadsOnly s t → Keeps s t
  ReadsOnly-Keeps s t r = record {
    free = r.free;
    slots = λ j. rw r.devices refl;
    counts = λ j. rw r.devices refl;
    fifth = rw r.devices refl;
  }

  ChangesBars-Keeps : (i : ℕ) (s t : Sys M) → (i == 5) ≡ false → ChangesBars i s t → Keeps s t
  ChangesBars-Keeps i s t h c = record {
    free = c.free;
    slots = λ j. ground (arith, c.others j);
    counts = λ j. ground (arith, c.others j);
    fifth = ground (arith, c.others 5);
  }

module _ {M : Type 0} ⦃host : Host M⦄ where
  read_request-Keeps :
      (i buf : ℕ) (r : DeviceRw) (s : Sys M)
      → i < 7
      → s.held ≡ dev_mutex i ∷ []
      → IfReturns (λ a t. ReadsOnly s t) (read_request i buf r s)
  unfolding read_request read_info read_register read_dma return_rw select_bar bad_offset load_word
      copy_to_user unlock_and_fail unlock_and_return mtcadummy_perform_pre_read_action in_bounds
      get_device
  read_request-Keeps i buf r s hi held = ground arith

  mtca_dummy_read-Keeps :
      (i buf count : ℕ) (s : Sys M)
      → i < 7
      → IsReady s
      → IfReturns (λ a t. ReadsOnly s t) (mtca_dummy_read i buf count s)
  unfolding mtca_dummy_read with_request control_flag copy_from_user unlock_and_fail
  mtca_dummy_read-Keeps i buf count s hi ready = ground (
    arith,
    read_request-Keeps i buf (rw_of_bytes (host.copy_from_user s.user buf 24).0) (entered i s),
  )

  ioctl_read_dma-Keeps :
      (i arg : ℕ) (s : Sys M)
      → i < 7
      → s.held ≡ dev_mutex i ∷ []
      → IfReturns (λ a t. ReadsOnly s t) (ioctl_read_dma i arg s)
  unfolding ioctl_read_dma copy_dma unlock_and_fail unlock_and_return copy_from_user copy_to_user
      in_bounds get_device
  ioctl_read_dma-Keeps i arg s hi held = ground arith

  run_ioctl-Keeps :
      (set : IoctlSet) (i cmd arg : ℕ) (s : Sys M)
      → i < 7
      → IsReady s
      → IfReturns (λ a t. ReadsOnly s t) (run_ioctl set i cmd arg s)
  unfolding run_ioctl mtca_dummy_ioctl llrf_dummy_ioctl pcieuni_dummy_ioctl mtca_switch llrf_switch
      pcieuni_switch with_command unlock_and_fail mutex_lock_interruptible
  run_ioctl-Keeps mtca_ioctl i cmd arg s hi ready =
      let held = ap (λ ls. dev_mutex i ∷ ls) ready.free in
      ground (
        arith,
        Ends-IfReturns (λ a t. ReadsOnly (locked i s) t) (physical_slot i arg (locked i s))
            (physical_slot-ReadsOnly i arg (locked i s) hi held),
        Ends-IfReturns (λ a t. ReadsOnly (locked i s) t) (driver_version i arg (locked i s))
            (driver_version-ReadsOnly i arg (locked i s) hi held),
        ioctl_read_dma-Keeps i arg (locked i s) hi held,
      )
  run_ioctl-Keeps llrf_ioctl i cmd arg s hi ready =
      let held = ap (λ ls. dev_mutex i ∷ ls) ready.free in
      ground (
        arith,
        Ends-IfReturns (λ a t. ReadsOnly (locked i s) t) (physical_slot i arg (locked i s))
            (physical_slot-ReadsOnly i arg (locked i s) hi held),
        Ends-IfReturns (λ a t. ReadsOnly (locked i s) t) (driver_version i arg (locked i s))
            (driver_version-ReadsOnly i arg (locked i s) hi held),
      )
  run_ioctl-Keeps pcieuni_ioctl i cmd arg s hi ready =
      let held = ap (λ ls. dev_mutex i ∷ ls) ready.free in
      ground (
        arith,
        Ends-IfReturns (λ a t. ReadsOnly (locked i s) t) (physical_slot i arg (locked i s))
            (physical_slot-ReadsOnly i arg (locked i s) hi held),
        Ends-IfReturns (λ a t. ReadsOnly (locked i s) t) (driver_version i arg (locked i s))
            (driver_version-ReadsOnly i arg (locked i s) hi held),
        ioctl_read_dma-Keeps i arg (locked i s) hi held,
      )

  read_with-Keeps :
      (kind : ReadWrite) (i buf count pos : ℕ) (s : Sys M)
      → IsValid (read_file i buf count pos)
      → IsReady s
      → IfReturns (λ a t. Keeps s t) (read_with kind i buf count pos s)
  unfolding read_with
  read_with-Keeps with_struct i buf count pos s (hi, hc, hp) ready =
      IfReturns-mono (mtca_dummy_read i buf count s) (λ a t. ReadsOnly-Keeps s t)
        (mtca_dummy_read-Keeps i buf count s hi ready)
  read_with-Keeps no_struct i buf count pos s (hi, hc, hp) ready = ground (
    arith,
    mtca_dummy_read_no_struct-ReadsOnly i buf count pos s hi ready hc hp,
    ReadsOnly-Keeps s,
  )

  write_with-Keeps :
      (kind : ReadWrite) (i buf count pos : ℕ) (s : Sys M)
      → IsValid (write_file i buf count pos)
      → (i == 5) ≡ false
      → IsReady s
      → IfReturns (λ a t. Keeps s t) (write_with kind i buf count pos s)
  unfolding write_with
  write_with-Keeps with_struct i buf count pos s (hi, hc, hp) other ready =
      IfReturns-mono (mtca_dummy_write i buf count s) (λ a t k. ChangesBars-Keeps i s t other k.0)
        (Ends-IfReturns (λ a t. ChangesBars i s t × (t.user ≡ s.user))
          (mtca_dummy_write i buf count s) (mtca_dummy_write-ChangesBars i buf count s hi ready))
  write_with-Keeps no_struct i buf count pos s (hi, hc, hp) other ready =
      let keeps : Ends (λ a t. Keeps s t) (mtca_dummy_write_no_struct i buf count pos s) =
        Ends-mono (mtca_dummy_write_no_struct i buf count pos s)
          (mtca_dummy_write_no_struct-ChangesBars i buf count pos s hi ready hc hp)
          λ a t k. ChangesBars-Keeps i s t other k.0 in
      ground (arith, keeps)

  -- Every handler that a table names.
  abbrev pub HandlerKeeps : Sys M → Option (Cmd M Ssize) → Type 0
  HandlerKeeps s none = Unit
  HandlerKeeps s (some h) = IfReturns (λ a t. Keeps s t) (h s)

  pub handler_of-Keeps :
      (c : Call) (s : Sys M) → IsValid c → IsReady s → HandlerKeeps s (handler_of c)
  unfolding handler_of file_ops_of read_with write_with
  handler_of-Keeps (read_file i buf count pos) s valid ready = ground (
    arith,
    read_with-Keeps with_struct i buf count pos s valid ready,
    read_with-Keeps no_struct i buf count pos s valid ready,
  )
  handler_of-Keeps (write_file i buf count pos) s valid ready = ground (
    arith,
    write_with-Keeps with_struct i buf count pos s valid,
    write_with-Keeps no_struct i buf count pos s valid,
  )
  handler_of-Keeps (ioctl_file i cmd arg) s hi ready = ground (
    arith,
    run_ioctl-Keeps mtca_ioctl i cmd arg s hi ready,
    run_ioctl-Keeps llrf_ioctl i cmd arg s hi ready,
    run_ioctl-Keeps pcieuni_ioctl i cmd arg s hi ready,
    ReadsOnly-Keeps s,
  )
  handler_of-Keeps (show_device i) s hi ready =
      ground (arith, mtcadummy_seq_show-dump i s hi ready, ReadsOnly-Keeps s)
  handler_of-Keeps (write_proc ubuf count) s u ready =
      ground (arith, mtcadummy_proc_write_lem ubuf count s ready)
