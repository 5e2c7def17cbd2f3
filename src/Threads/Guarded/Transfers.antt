-- ===== src/Threads/Guarded/Transfers.antt =====
-- The two handlers of mtcadummy_rw_no_struct.c keep to the locking discipline.
use pciedummy_driver.Common.{
  ℕ, zero, suc, ◌+◌, ◌*◌, ◌/◌, ◌^◌, ◌≤◌, ◌<◌, ◌≡◌, refl, Bool, [], ◌∷◌, arith,
}
use pciedummy_driver.Common.Bytes.{u32, word_at_small}
use pciedummy_driver.State.{MtcaDummyControl, bar_size}
use pciedummy_driver.Kernel.{Errno, dev_mutex, Ssize, Host}
use pciedummy_driver.Firmware.{mtcadummy_perform_pre_read_action}
use pciedummy_driver.NoStruct.{
  TransferInformation, Checked, valid, invalid, check_and_calculate_transfer_information, add64,
}
use pciedummy_driver.NoStruct.Check.{check_and_calculate_transfer_information_lem}
use pciedummy_driver.Threads.{Steps}
use pciedummy_driver.Threads.Pieces.{unlock_and_fail_steps, unlock_and_return_steps}
use pciedummy_driver.Threads.Transfers.{
  fail_at_steps, read_words_steps, write_word_steps, write_words_steps, with_transfer_steps,
  mtca_dummy_read_no_struct_steps, mtca_dummy_write_no_struct_steps,
}
use pciedummy_driver.Threads.Discipline.{Guards, Guards-then, AllReleased}
use pciedummy_driver.Threads.Guarded.{
  guard_rules, Guards-if, Guards-option, Guards-slot_nr, Guards-control_flag,
}
use pciedummy_driver.Threads.Guarded.Action.{Guards-action}

module _ (M : Type 0) ⦃host : Host M⦄ where
  fail_at-Guards :
      (pos i : ℕ) (e : Errno)
      → Guards AllReleased (dev_mutex i ∷ []) (fail_at_steps {M = M} pos i e)
  unfolding fail_at_steps unlock_and_fail_steps
  fail_at-Guards pos i e = search (guard_rules)

  read_words-Guards :
      (n k : ℕ) (info : TransferInformation) (i buf pos : ℕ)
      → i < 7
      → (info.offset / 4 + (k + n)) * 4 ≤ bar_size info.bar_start
      → Guards AllReleased (dev_mutex i ∷ []) (read_words_steps {M = M} n k info i buf pos)
  unfolding read_words_steps unlock_and_return_steps
  read_words-Guards zero k info i buf pos hi fits = search (guard_rules)
  read_words-Guards (suc n) k info i buf pos hi fits =
      let here : (info.offset / 4 + k) * 4 < bar_size info.bar_start = omega arith in
      Guards-slot_nr AllReleased (dev_mutex i ∷ []) i _ hi (
        Guards-option AllReleased (dev_mutex i ∷ [])
          (mtcadummy_perform_pre_read_action (u32 (info.offset + k * 4)) info.bar i) _ _
          (search (
            guard_rules,
            fail_at-Guards,
            here,
            read_words-Guards n (k + 1) info i buf (add64 pos 4) hi (omega arith),
          ))
          λ e failed. search (fail_at-Guards))

  write_word-Guards :
      (k : ℕ) (info : TransferInformation) (i buf : ℕ)
      → i < 7
      → (info.offset / 4 + k) * 4 < bar_size info.bar_start
      → Guards
          (λ a h. h ≡ dev_mutex i ∷ [])
          (dev_mutex i ∷ [])
          (write_word_steps {M = M} k info i buf)
  unfolding write_word_steps
  write_word-Guards k info i buf hi fits =
      search (guard_rules, Guards-action, word_at_small) depth 30

  write_words-Guards :
      (n k : ℕ) (info : TransferInformation) (i buf pos : ℕ)
      → i < 7
      → (info.offset / 4 + (k + n)) * 4 ≤ bar_size info.bar_start
      → Guards AllReleased (dev_mutex i ∷ []) (write_words_steps {M = M} n k info i buf pos)
  unfolding write_words_steps unlock_and_return_steps
  write_words-Guards zero k info i buf pos hi fits = search (guard_rules)
  write_words-Guards (suc n) k info i buf pos hi fits =
      Guards-then AllReleased (dev_mutex i ∷ []) (write_word_steps k info i buf) _
        (write_word-Guards k info i buf hi (omega arith))
        λ failure.
          Guards-option AllReleased (dev_mutex i ∷ []) failure _ _
            (write_words-Guards n (k + 1) info i buf (add64 pos 4) hi (omega arith))
            λ e failed. fail_at-Guards pos i e

  Guards-checked :
      (x : Checked) (p : Errno → Steps M (Ssize × ℕ))
      (q : TransferInformation → Steps M (Ssize × ℕ))
      → ((e : Errno) → Guards AllReleased [] (p e))
      → ((info : TransferInformation) → x ≡ valid info → Guards AllReleased [] (q info))
      → Guards AllReleased [] (elim x [ invalid e ↦ p e | valid info ↦ q info ])
  Guards-checked (invalid e) p q f g = f e
  Guards-checked (valid info) p q f g = g info refl

  with_transfer-Guards :
      (flag : MtcaDummyControl → Bool) (i count pos : ℕ)
      (rest : TransferInformation → Steps M (Ssize × ℕ))
      → i < 7
      → ((info : TransferInformation)
          → check_and_calculate_transfer_information count pos ≡ valid info
          → Guards AllReleased (dev_mutex i ∷ []) (rest info))
      → Guards AllReleased [] (with_transfer_steps flag i count pos rest)
  unfolding with_transfer_steps
  with_transfer-Guards flag i count pos rest hi h =
      Guards-control_flag AllReleased flag _ (search (guard_rules)) λ injected.
        Guards-if AllReleased [] injected _ _ (λ e. search (guard_rules))
          λ e.
            Guards-checked (check_and_calculate_transfer_information count pos) _ _
              (λ e. search (guard_rules)) λ info accepted. search (guard_rules, h info accepted)

  -- The transfer stays in its bar.
  fits :
      (count pos : ℕ) (info : TransferInformation)
      → count < 2 ^ 63
      → check_and_calculate_transfer_information count pos ≡ valid info
      → (info.offset / 4 + (0 + info.n_bytes_to_transfer / 4)) * 4 ≤ bar_size info.bar_start
  fits count pos info hc h = ground (arith, check_and_calculate_transfer_information_lem count pos)

  pub mtca_dummy_read_no_struct-Guards :
      (i buf count pos : ℕ)
      → i < 7
      → count < 2 ^ 63
      → Guards AllReleased [] (mtca_dummy_read_no_struct_steps {M = M} i buf count pos)
  unfolding mtca_dummy_read_no_struct_steps
  mtca_dummy_read_no_struct-Guards i buf count pos hi hc =
      with_transfer-Guards (λ c. c.read_error) i count pos _ hi
        λ info accepted.
          read_words-Guards (info.n_bytes_to_transfer / 4) 0 info i buf pos hi
            (fits count pos info hc accepted)

  pub mtca_dummy_write_no_struct-Guards :
      (i buf count pos : ℕ)
      → i < 7
      → count < 2 ^ 63
      → Guards AllReleased [] (mtca_dummy_write_no_struct_steps {M = M} i buf count pos)
  unfolding mtca_dummy_write_no_struct_steps
  mtca_dummy_write_no_struct-Guards i buf count pos hi hc =
      with_transfer-Guards (λ c. c.write_error) i count pos _ hi
        λ info accepted.
          write_words-Guards (info.n_bytes_to_transfer / 4) 0 info i buf pos hi
            (fits count pos info hc accepted)
