-- ===== src/Threads/Runs/Transfers.antt =====
-- The handlers of NoStruct.antt.
use pciedummy_driver.Common.{
  ℕ, zero, suc, ◌+◌, ◌*◌, ◌/◌, ◌≡◌, refl, Bool, Option, none, some, arith, not, ◌==◌,
}
use pciedummy_driver.Common.Bytes.{u32, word_at}
use pciedummy_driver.State.{MtcaDummyControl}
use pciedummy_driver.Kernel.{
  Errno, eio, Ssize, Host, Sys, Cmd, pure, control_flag, mutex_lock_interruptible, mutex_unlock,
  store_word, copy_from_user, unlock_and_fail, unlock_and_return,
}
use pciedummy_driver.NoStruct.{
  TransferInformation, add64, fail_at, read_words, write_word, write_words, with_transfer,
  mtca_dummy_read_no_struct, mtca_dummy_write_no_struct,
}
use pciedummy_driver.Threads.{Steps, done, act, run}
use pciedummy_driver.Threads.Laws.{and_then-cong, run-then, run-if, run-option}
use pciedummy_driver.Threads.Pieces.{
  control_flag_steps, unlock_and_fail_steps, unlock_and_return_steps,
}
use pciedummy_driver.Threads.Transfers.{
  fail_at_steps, read_words_steps, write_word_steps, write_words_steps, with_transfer_steps,
  mtca_dummy_read_no_struct_steps, mtca_dummy_write_no_struct_steps,
}
use pciedummy_driver.Threads.Runs.{run-slot_action}

module _ {M : Type 0} ⦃host : Host M⦄ where
  run-fail_at :
      (pos i : ℕ) (e : Errno) (s : Sys M) → run (fail_at_steps pos i e) s ≡ fail_at pos i e s
  unfolding act fail_at_steps unlock_and_fail_steps fail_at unlock_and_fail
  run-fail_at pos i e s = ground arith

  run-read_words :
      (n k : ℕ) (info : TransferInformation) (i buf pos : ℕ) (s : Sys M)
      → run (read_words_steps n k info i buf pos) s ≡ read_words n k info i buf pos s
  unfolding act read_words_steps unlock_and_return_steps read_words unlock_and_return
  run-read_words zero k info i buf pos s = ground arith
  run-read_words (suc n) k info i buf pos s =
      grind (arith, run-fail_at, run-read_words n (k + 1) info i buf (add64 pos 4))

  -- What follows the action on a word.
  abbrev word_end_steps : Option Errno → Steps M (Option Errno)
  word_end_steps result = elim result [ some e ↦ done (some eio) | none ↦ done none ]

  abbrev word_end : Option Errno → Cmd M (Option Errno)
  word_end result = elim result [ some e ↦ pure (some eio) | none ↦ pure none ]

  run-word_end :
      (result : Option Errno) (s : Sys M) → run (word_end_steps result) s ≡ word_end result s
  run-word_end none s = refl
  run-word_end (some e) s = refl

  run-write_word :
      (k : ℕ) (info : TransferInformation) (i buf : ℕ) (s : Sys M)
      → run (write_word_steps k info i buf) s ≡ write_word k info i buf s
  unfolding act write_word_steps write_word copy_from_user
  run-write_word k info i buf s =
      and_then-cong
        (store_word i info.bar_start (info.offset / 4 + k)
          (word_at (host.copy_from_user s.user (buf + k * 4) 4).0 0) s)
        λ u t. run-if (not ((host.copy_from_user s.user (buf + k * 4) 4).1 == 0)) _ _ _ _ t refl (
          run-slot_action i (u32 (info.offset + k * 4)) info.bar word_end_steps word_end t
            run-word_end)

  run-write_words :
      (n k : ℕ) (info : TransferInformation) (i buf pos : ℕ) (s : Sys M)
      → run (write_words_steps n k info i buf pos) s ≡ write_words n k info i buf pos s
  unfolding act write_words_steps unlock_and_return_steps write_words unlock_and_return
  run-write_words zero k info i buf pos s = ground arith
  run-write_words (suc n) k info i buf pos s =
      run-then (write_word_steps k info i buf) (write_word k info i buf) _ _ s
        (run-write_word k info i buf s)
        λ failure t.
          run-option failure _ _ _ _ t (run-write_words n (k + 1) info i buf (add64 pos 4) t)
            λ e. run-fail_at pos i e t

  run-with_transfer :
      (flag : MtcaDummyControl → Bool) (i count pos : ℕ)
      (rest : TransferInformation → Steps M (Ssize × ℕ))
      (rest' : TransferInformation → Cmd M (Ssize × ℕ)) (s : Sys M)
      → ((info : TransferInformation) (t : Sys M) → run (rest info) t ≡ rest' info t)
      → run (with_transfer_steps flag i count pos rest) s ≡ with_transfer flag i count pos rest' s
  unfolding act with_transfer_steps with_transfer control_flag_steps control_flag
      mutex_lock_interruptible mutex_unlock
  run-with_transfer flag i count pos rest rest' s h = grind (arith, h)

  pub run-mtca_dummy_read_no_struct :
      (i buf count pos : ℕ) (s : Sys M)
      → run (mtca_dummy_read_no_struct_steps i buf count pos) s
        ≡ mtca_dummy_read_no_struct i buf count pos s
  unfolding mtca_dummy_read_no_struct_steps mtca_dummy_read_no_struct
  run-mtca_dummy_read_no_struct i buf count pos s =
      run-with_transfer (λ c. c.read_error) i count pos _ _ s
        λ info t. run-read_words (info.n_bytes_to_transfer / 4) 0 info i buf pos t

  pub run-mtca_dummy_write_no_struct :
      (i buf count pos : ℕ) (s : Sys M)
      → run (mtca_dummy_write_no_struct_steps i buf count pos) s
        ≡ mtca_dummy_write_no_struct i buf count pos s
  unfolding mtca_dummy_write_no_struct_steps mtca_dummy_write_no_struct
  run-mtca_dummy_write_no_struct i buf count pos s =
      run-with_transfer (λ c. c.write_error) i count pos _ _ s
        λ info t. run-write_words (info.n_bytes_to_transfer / 4) 0 info i buf pos t
