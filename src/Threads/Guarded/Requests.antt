-- ===== src/Threads/Guarded/Requests.antt =====
-- `mtcaDummy_read` and `mtcaDummy_write` keep to the locking discipline.
use pciedummy_driver.Common.{◌^◌, List, ℕ, ◌*◌, ◌/◌, ◌<◌, ◌≡◌, Bool, false, [], ◌∷◌, arith}
use pciedummy_driver.Common.Bytes.{AreBytes, word_at_small}
use pciedummy_driver.State.{MtcaDummyControl, Bar, bar_size}
use pciedummy_driver.Kernel.{dev_mutex, Ssize, Host}
use pciedummy_driver.Firmware.{mtcadummy_perform_pre_read_action}
use pciedummy_driver.StructIo.{DeviceRw, rw_of_bytes, select_bar, bad_offset}
use pciedummy_driver.Threads.{Steps}
use pciedummy_driver.Threads.Pieces.{unlock_and_fail_steps, unlock_and_return_steps}
use pciedummy_driver.Threads.Requests.{
  return_rw_steps, read_info_steps, read_register_steps, read_dma_steps, read_request_steps,
  write_register_steps, write_request_steps, with_request_steps, mtca_dummy_read_steps,
  mtca_dummy_write_steps,
}
use pciedummy_driver.Threads.Discipline.{Guards, AllReleased}
use pciedummy_driver.Threads.Guarded.{guard_rules, Guards-if, Guards-slot_nr, Guards-option}
use pciedummy_driver.Threads.Guarded.Action.{Guards-action}

module _ (M : Type 0) ⦃host : Host M⦄ where
  bad_offset_lem :
      (offset : ℕ) (b : Bar) → bad_offset offset b ≡ false → offset / 4 * 4 < bar_size b
  unfolding bad_offset
  bad_offset_lem offset b h = ground arith

  return_rw-Guards :
      (i buf : ℕ) (r : DeviceRw)
      → Guards AllReleased (dev_mutex i ∷ []) (return_rw_steps {M = M} i buf r)
  unfolding return_rw_steps unlock_and_fail_steps unlock_and_return_steps
  return_rw-Guards i buf r = search (guard_rules) depth 30

  read_info-Guards :
      (i buf : ℕ) (r : DeviceRw)
      → i < 7
      → Guards AllReleased (dev_mutex i ∷ []) (read_info_steps {M = M} i buf r)
  unfolding read_info_steps
  read_info-Guards i buf r hi = search (guard_rules, return_rw-Guards) depth 30

  read_register-Guards :
      (i buf : ℕ) (r : DeviceRw)
      → i < 7
      → Guards AllReleased (dev_mutex i ∷ []) (read_register_steps {M = M} i buf r)
  unfolding read_register_steps unlock_and_fail_steps
  read_register-Guards i buf r hi =
      Guards-option AllReleased (dev_mutex i ∷ []) (select_bar r.barx_rw) _ _ (search (guard_rules))
        λ b selected.
          Guards-if AllReleased (dev_mutex i ∷ []) (bad_offset r.offset_rw b) _ _
            (λ bad. search (guard_rules))
            λ good. Guards-slot_nr AllReleased (dev_mutex i ∷ []) i _ hi (
              Guards-option AllReleased (dev_mutex i ∷ [])
                (mtcadummy_perform_pre_read_action r.offset_rw r.barx_rw i) _ _
                (search (guard_rules, return_rw-Guards, bad_offset_lem r.offset_rw b good))
                λ e failed. search (guard_rules))

  read_dma-Guards :
      (i buf : ℕ) (r : DeviceRw)
      → i < 7
      → Guards AllReleased (dev_mutex i ∷ []) (read_dma_steps {M = M} i buf r)
  unfolding read_dma_steps unlock_and_fail_steps unlock_and_return_steps
  read_dma-Guards i buf r hi = search (guard_rules) depth 30

  read_request-Guards :
      (i buf : ℕ) (r : DeviceRw)
      → i < 7
      → Guards AllReleased (dev_mutex i ∷ []) (read_request_steps {M = M} i buf r)
  unfolding read_request_steps unlock_and_fail_steps
  read_request-Guards i buf r hi =
      search (guard_rules, read_info-Guards, read_register-Guards, read_dma-Guards) depth 30

  data_rw-small : (bs : List ℕ) → AreBytes bs → (rw_of_bytes bs).data_rw < 2 ^ 32
  unfolding rw_of_bytes
  data_rw-small bs h = word_at_small bs 4 h

  write_register-Guards :
      (i : ℕ) (r : DeviceRw)
      → i < 7
      → r.data_rw < 2 ^ 32
      → Guards AllReleased (dev_mutex i ∷ []) (write_register_steps {M = M} i r)
  unfolding write_register_steps unlock_and_fail_steps unlock_and_return_steps
  write_register-Guards i r hi hr =
      Guards-option AllReleased (dev_mutex i ∷ []) (select_bar r.barx_rw) _ _ (search (guard_rules))
        λ b selected.
          Guards-if AllReleased (dev_mutex i ∷ []) (bad_offset r.offset_rw b) _ _
            (λ bad. search (guard_rules))
            λ good. search (guard_rules, Guards-action, bad_offset_lem r.offset_rw b good) depth 30

  write_request-Guards :
      (i : ℕ) (r : DeviceRw)
      → i < 7
      → r.data_rw < 2 ^ 32
      → Guards AllReleased (dev_mutex i ∷ []) (write_request_steps {M = M} i r)
  unfolding write_request_steps unlock_and_fail_steps
  write_request-Guards i r hi hr = search (guard_rules, write_register-Guards) depth 30

  with_request-Guards :
      (flag : MtcaDummyControl → Bool) (i buf count : ℕ) (rest : DeviceRw → Steps M Ssize)
      → i < 7
      → ((r : DeviceRw) → r.data_rw < 2 ^ 32 → Guards AllReleased (dev_mutex i ∷ []) (rest r))
      → Guards AllReleased [] (with_request_steps {M = M} flag i buf count rest)
  unfolding with_request_steps unlock_and_fail_steps
  with_request-Guards flag i buf count rest hi h = search (guard_rules, data_rw-small) depth 30

  pub mtca_dummy_read-Guards :
      (i buf count : ℕ) → i < 7 → Guards AllReleased [] (mtca_dummy_read_steps {M = M} i buf count)
  unfolding mtca_dummy_read_steps
  mtca_dummy_read-Guards i buf count hi =
      with_request-Guards (λ c. c.read_error) i buf count (read_request_steps i buf) hi
        (λ r hr. read_request-Guards i buf r hi)

  pub mtca_dummy_write-Guards :
      (i buf count : ℕ) → i < 7 → Guards AllReleased [] (mtca_dummy_write_steps {M = M} i buf count)
  unfolding mtca_dummy_write_steps
  mtca_dummy_write-Guards i buf count hi =
      with_request-Guards (λ c. c.write_error) i buf count (write_request_steps i) hi
        (λ r hr. write_request-Guards i r hi hr)
