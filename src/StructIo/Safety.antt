-- ===== src/StructIo/Safety.antt =====
-- The accesses, the mutexes and the state on every path through `mtcaDummy_read` and
-- `mtcaDummy_write`, and the DMA requests whose size and offset wrap.
use pciedummy_driver.Common.{ℕ, ◌+◌, ◌^◌, ◌≤◌, ◌<◌, ◌≡◌, ◌≢◌, false, [], ◌∷◌, arith}
use pciedummy_driver.Common.Bytes.{u32}
use pciedummy_driver.Kernel.{
  Host, Sys, fault, out_of_bounds, dev_mutex, control_flag, store_word, load_word, in_bounds,
  copy_from_user, copy_to_user, unlock_and_fail, unlock_and_return,
}
use pciedummy_driver.Kernel.Laws.{Ends, IsReady, ChangesBars, ReadsOnly, entered}
use pciedummy_driver.Firmware.Frame.{switch_on_write-Frame}
use pciedummy_driver.Firmware.{mtcadummy_perform_action_on_write, mtcadummy_perform_pre_read_action}
use pciedummy_driver.StructIo.{
  DeviceRw, rw_of_bytes, select_bar, bad_offset, return_rw, read_info, read_register, read_dma,
  read_request, write_register, write_request, with_request, mtca_dummy_read, mtca_dummy_write,
  rw_dma,
}
use pciedummy_driver.StructIo.Writes.{IsRequest}

module _ {M : Type 0} ⦃host : Host M⦄ where
  read_request-ReadsOnly :
      (i buf : ℕ) (r : DeviceRw) (s : Sys M)
      → i < 7
      → s.held ≡ dev_mutex i ∷ []
      → r.size_rw + r.offset_rw < 2 ^ 32
      → Ends (λ a t. ReadsOnly s t) (read_request i buf r s)
  unfolding read_request read_info read_register read_dma return_rw select_bar bad_offset load_word
      copy_to_user unlock_and_fail unlock_and_return mtcadummy_perform_pre_read_action
  read_request-ReadsOnly i buf r s hi held small = ground arith

  -- If the size and the offset of the request add up to less than 2 ^ 32, mtcaDummy_read on a
  -- device below 7, called in a ready state (IsReady), ends on every path without a fault and with
  -- no mutex held, and leaves the control data and all devices as they were.
  pub mtca_dummy_read-ReadsOnly :
      (i buf count : ℕ) (s : Sys M)
      → i < 7
      → IsReady s
      → (let r = rw_of_bytes (host.copy_from_user s.user buf 24).0 in
          r.size_rw + r.offset_rw < 2 ^ 32)
      → Ends (λ a t. ReadsOnly s t) (mtca_dummy_read i buf count s)
  unfolding mtca_dummy_read with_request control_flag copy_from_user unlock_and_fail
  mtca_dummy_read-ReadsOnly i buf count s hi ready small = ground (
    arith,
    read_request-ReadsOnly i buf (rw_of_bytes (host.copy_from_user s.user buf 24).0) (entered i s),
  )

  -- In a ready state (IsReady), with no signal and no injected failure, a DMA read on a device
  -- below 7 with a size other than 0 whose size and offset add up to 2 ^ 32 or more, and to at most
  -- 4096 after the wrap, reads memory outside the DMA bar.
  pub mtca_dummy_read_overflow :
      (i buf count : ℕ) (s : Sys M) (r : DeviceRw)
      → i < 7
      → IsReady s
      → s.signals ≡ []
      → s.control.read_error ≡ false
      → IsRequest s buf count r
      → r.mode_rw ≡ rw_dma
      → r.size_rw ≢ 0
      → u32 (r.size_rw + r.offset_rw) ≤ 4096
      → 2 ^ 32 ≤ r.size_rw + r.offset_rw
      → mtca_dummy_read i buf count s ≡ fault out_of_bounds
  unfolding mtca_dummy_read with_request control_flag copy_from_user read_request read_dma in_bounds
  mtca_dummy_read_overflow i buf count s r hi ready sig rerr req mode nonzero wraps over =
      ground arith

  write_register-ChangesBars :
      (i : ℕ) (r : DeviceRw) (s : Sys M)
      → i < 7
      → (s.devices i).slot_nr ≡ i
      → s.held ≡ dev_mutex i ∷ []
      → Ends (λ a t. ChangesBars i s t × (t.user ≡ s.user)) (write_register i r s)
  unfolding write_register select_bar bad_offset store_word unlock_and_fail unlock_and_return
      mtcadummy_perform_action_on_write control_flag
  write_register-ChangesBars i r s hi slot held = grind (arith, switch_on_write-Frame)

  write_request-ChangesBars :
      (i : ℕ) (r : DeviceRw) (s : Sys M)
      → i < 7
      → (s.devices i).slot_nr ≡ i
      → s.held ≡ dev_mutex i ∷ []
      → Ends (λ a t. ChangesBars i s t × (t.user ≡ s.user)) (write_request i r s)
  unfolding write_request unlock_and_fail
  write_request-ChangesBars i r s hi slot held =
      ground (arith, write_register-ChangesBars i r s hi slot held)

  -- Whatever the request, the injected failures and the signals, mtcaDummy_write on a device below
  -- 7 ends, called in a ready state (IsReady), without a deadlock or an access outside the bars; it
  -- ends with no mutex held, and at most words inside the two bars of its own device and the
  -- pending signals have changed.
  pub mtca_dummy_write-ChangesBars :
      (i buf count : ℕ) (s : Sys M)
      → i < 7
      → IsReady s
      → Ends (λ a t. ChangesBars i s t × (t.user ≡ s.user)) (mtca_dummy_write i buf count s)
  unfolding mtca_dummy_write with_request control_flag copy_from_user unlock_and_fail
  mtca_dummy_write-ChangesBars i buf count s hi ready = ground (
    arith,
    ready.slots i,
    write_request-ChangesBars i (rw_of_bytes (host.copy_from_user s.user buf 24).0) (entered i s),
  )
