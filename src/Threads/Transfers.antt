-- ===== src/Threads/Transfers.antt =====
-- The operations of the two handlers of mtcadummy_rw_no_struct.c, in the order of NoStruct.antt.
use pciedummy_driver.Common.{
  ℕ, zero, suc, ◌+◌, ◌*◌, ◌/◌, Bool, not, Option, none, some, ◌==◌, if◌then◌else◌,
}
use pciedummy_driver.Common.Bytes.{u32, bytes_of_word, word_at}
use pciedummy_driver.State.{MtcaDummyControl}
use pciedummy_driver.Kernel.{Errno, efault, eio, erestartsys, Ssize, error, dev_mutex, Host}
use pciedummy_driver.Firmware.{mtcadummy_perform_pre_read_action}
use pciedummy_driver.NoStruct.{
  TransferInformation, valid, invalid, add64, check_and_calculate_transfer_information,
}
use pciedummy_driver.Threads.{
  take, get_slot_nr, load, store, from_user, to_user, Steps, done, op, ◌>>=◌, ◌>>◌,
}
use pciedummy_driver.Threads.Pieces.{
  control_flag_steps, unlock_and_fail_steps, unlock_and_return_steps, action_on_write_steps,
}

module _ {M : Type 0} ⦃host : Host M⦄ where
  unfoldable pub fail_at_steps : ℕ → ℕ → Errno → Steps M (Ssize × ℕ)
  fail_at_steps pos i e = do r ← unlock_and_fail_steps i e; done (r, pos)

  -- The loop over the words, for the rounds that are left, `k` being the loop's variable `i`.
  unfoldable pub read_words_steps : ℕ → ℕ → TransferInformation → ℕ → ℕ → ℕ → Steps M (Ssize × ℕ)
  read_words_steps zero k info i buf pos = do
    r ← unlock_and_return_steps i info.n_bytes_to_transfer
    done (r, pos)
  read_words_steps (suc n) k info i buf pos = do
    slot ← op (get_slot_nr i)
    elim (mtcadummy_perform_pre_read_action (u32 (info.offset + k * 4)) info.bar slot) [
      | some e ↦ fail_at_steps pos i eio
      | none ↦ do
        w ← op (load i info.bar_start (info.offset / 4 + k))
        left ← op (to_user (buf + k * 4) (bytes_of_word w))
        if not (left == 0)
            then fail_at_steps pos i efault
            else read_words_steps n (k + 1) info i buf (add64 pos 4)
    ]

  -- The body of the loop of the write; the result is the error that ends the loop. The word is
  -- stored before the action, also if some of its bytes could not be copied.
  unfoldable pub write_word_steps : ℕ → TransferInformation → ℕ → ℕ → Steps M (Option Errno)
  write_word_steps k info i buf = do
    (bs, left) ← op (from_user (buf + k * 4) 4)
    op (store i info.bar_start (info.offset / 4 + k) (word_at bs 0))
    if not (left == 0) then done (some efault) else do
      slot ← op (get_slot_nr i)
      result ← action_on_write_steps (u32 (info.offset + k * 4)) info.bar slot
      elim result [ some e ↦ done (some eio) | none ↦ done none ]

  unfoldable pub write_words_steps : ℕ → ℕ → TransferInformation → ℕ → ℕ → ℕ → Steps M (Ssize × ℕ)
  write_words_steps zero k info i buf pos = do
    r ← unlock_and_return_steps i info.n_bytes_to_transfer
    done (r, pos)
  write_words_steps (suc n) k info i buf pos = do
    failure ← write_word_steps k info i buf
    elim failure [
      | some e ↦ fail_at_steps pos i e
      | none ↦ write_words_steps n (k + 1) info i buf (add64 pos 4)
    ]

  -- The part that both handlers share: the injected failure, the checks, the mutex of the device.
  unfoldable pub with_transfer_steps :
      (MtcaDummyControl → Bool)
      → ℕ
      → ℕ
      → ℕ
      → (TransferInformation → Steps M (Ssize × ℕ))
      → Steps M (Ssize × ℕ)
  with_transfer_steps flag i count pos rest = do
    failure ← control_flag_steps flag
    elim failure [
      | none ↦ done (error erestartsys, pos)
      | some injected ↦
          if injected
          then done (error efault, pos)
          else elim (check_and_calculate_transfer_information count pos) [
            | invalid e ↦ done (error e, pos)
            | valid info ↦ do
              interrupted ← op (take (dev_mutex i))
              if interrupted then done (error erestartsys, pos) else rest info
          ]
    ]

  unfoldable pub mtca_dummy_read_no_struct_steps : ℕ → ℕ → ℕ → ℕ → Steps M (Ssize × ℕ)
  mtca_dummy_read_no_struct_steps i buf count pos =
      with_transfer_steps (λ c. c.read_error) i count pos
        (λ info. read_words_steps (info.n_bytes_to_transfer / 4) 0 info i buf pos)

  unfoldable pub mtca_dummy_write_no_struct_steps : ℕ → ℕ → ℕ → ℕ → Steps M (Ssize × ℕ)
  mtca_dummy_write_no_struct_steps i buf count pos =
      with_transfer_steps (λ c. c.write_error) i count pos
        (λ info. write_words_steps (info.n_bytes_to_transfer / 4) 0 info i buf pos)
