-- ===== src/NoStruct.antt =====
-- mtcadummy_rw_no_struct.c: reading and writing ranges of words through the file position, as the
-- pcieuni device does. The 64-bit file position is kept as its bit pattern: three of its upper
-- bits name the bar. A handler returns its result and the file position.
pub mod Check
pub mod ReadLoop
pub mod ReadOutcome
pub mod ReadWords
pub mod Reads
pub mod Refines
pub mod Transfers
pub mod WriteDma
pub mod WriteSafety
pub mod WriteWord
use pciedummy_driver.Common.{
  ℕ, zero, suc, ◌+◌, ◌-◌, ◌*◌, ◌/◌, ◌%◌, ◌^◌, Bool, not, Option, none, some, ◌==◌, if◌then◌else◌,
  ltb,
}
use pciedummy_driver.Common.Bytes.{u32, bytes_of_word, word_at}
use pciedummy_driver.State.{
  MtcaDummyControl, Bar, system_area, dma_area, system_bar_size, mtcadummy_dma_size,
}
use pciedummy_driver.Kernel.{
  Errno, efault, eio, erestartsys, Ssize, error, dev_mutex, Host, Cmd, pure, ◌>>=◌, ◌>>◌,
  mutex_lock_interruptible, control_flag, get_device, unlock_and_fail, unlock_and_return, load_word,
  store_word, copy_from_user, copy_to_user,
}
use pciedummy_driver.Firmware.{mtcadummy_perform_action_on_write, mtcadummy_perform_pre_read_action}

-- `bar_end` counts words from the start of the bar.
pub record TransferInformation : Type 0 where
  pub bar : ℕ
  pub offset : ℕ
  pub bar_size_in_bytes : ℕ
  pub bar_start : Bar
  pub bar_end : ℕ
  pub n_bytes_to_transfer : ℕ

pub data Checked : Type 0 where
  valid : TransferInformation → Checked
  invalid : Errno → Checked

-- The sum of two `unsigned long`.
abbrev pub add64 : ℕ → ℕ → ℕ
add64 a b = (a + b) % 2 ^ 64

-- Start and size of a bar; a start of `none` is the null pointer.
unfoldable pub bar_start_and_size : ℕ → Option Bar × ℕ
bar_start_and_size bar =
    if bar == 0
    then (some system_area, system_bar_size)
    else if bar == 2
    then (some dma_area, mtcadummy_dma_size)
    else (none, 0)

-- The checks of the offset in the bar, and the number of bytes up to its end.
unfoldable pub limit_transfer : ℕ → ℕ → Bar → ℕ → ℕ → Checked
limit_transfer bar offset start bar_size count =
    if ltb bar_size offset
    then invalid efault
    else valid (record {
      bar = bar;
      offset = offset;
      bar_size_in_bytes = bar_size;
      bar_start = start;
      bar_end = bar_size / 4;
      n_bytes_to_transfer =
          u32 (if ltb bar_size (add64 offset count) then bar_size - offset else count);
    })

-- The numbers 6 and 7 are the default of the `switch`; 1 and 3 to 5 have a null pointer.
unfoldable pub check_and_calculate_transfer_information : ℕ → ℕ → Checked
check_and_calculate_transfer_information count virtual_offset =
    if not (virtual_offset % 4 == 0)
    then invalid efault
    else if not (count % 4 == 0)
    then invalid efault
    else let bar = virtual_offset / 2 ^ 60 % 8 in
      let offset = virtual_offset % 2 ^ 60 in
      if ltb 5 bar then invalid efault else elim ((bar_start_and_size bar).0) [
        | none ↦ invalid efault
        | some start ↦ limit_transfer bar offset start (bar_start_and_size bar).1 count
      ]

module _ {M : Type 0} ⦃host : Host M⦄ where
  unfoldable pub fail_at : ℕ → ℕ → Errno → Cmd M (Ssize × ℕ)
  unfolding unlock_and_fail
  fail_at pos i e = do r ← unlock_and_fail i e; pure (r, pos)

  -- The loop over the words, for the rounds that are left, `k` being the loop's variable `i`.
  unfoldable pub read_words : ℕ → ℕ → TransferInformation → ℕ → ℕ → ℕ → Cmd M (Ssize × ℕ)
  read_words zero k info i buf pos = do
    r ← unlock_and_return i info.n_bytes_to_transfer
    pure (r, pos)
  read_words (suc n) k info i buf pos = do
    d ← get_device i
    elim (mtcadummy_perform_pre_read_action (u32 (info.offset + k * 4)) info.bar d.slot_nr) [
      | some e ↦ fail_at pos i eio
      | none ↦ do
        w ← load_word i info.bar_start (info.offset / 4 + k)
        left ← copy_to_user (buf + k * 4) (bytes_of_word w)
        if not (left == 0)
            then fail_at pos i efault
            else read_words n (k + 1) info i buf (add64 pos 4)
    ]

  -- The body of the loop of the write; the result is the error that ends the loop. The word is
  -- stored before the action, also if some of its bytes could not be copied.
  unfoldable pub write_word : ℕ → TransferInformation → ℕ → ℕ → Cmd M (Option Errno)
  write_word k info i buf = do
    (bs, left) ← copy_from_user (buf + k * 4) 4
    store_word i info.bar_start (info.offset / 4 + k) (word_at bs 0)
    if not (left == 0) then pure (some efault) else do
      d ← get_device i
      result ← mtcadummy_perform_action_on_write (u32 (info.offset + k * 4)) info.bar d.slot_nr
      elim result [ some e ↦ pure (some eio) | none ↦ pure none ]

  unfoldable pub write_words : ℕ → ℕ → TransferInformation → ℕ → ℕ → ℕ → Cmd M (Ssize × ℕ)
  write_words zero k info i buf pos = do
    r ← unlock_and_return i info.n_bytes_to_transfer
    pure (r, pos)
  write_words (suc n) k info i buf pos = do
    failure ← write_word k info i buf
    elim failure [
      | some e ↦ fail_at pos i e
      | none ↦ write_words n (k + 1) info i buf (add64 pos 4)
    ]

  -- The part that both handlers share: the injected failure, the checks, the mutex of the device.
  unfoldable pub with_transfer :
      (MtcaDummyControl → Bool)
      → ℕ
      → ℕ
      → ℕ
      → (TransferInformation → Cmd M (Ssize × ℕ))
      → Cmd M (Ssize × ℕ)
  with_transfer flag i count pos rest = do
    failure ← control_flag flag
    elim failure [
      | none ↦ pure (error erestartsys, pos)
      | some injected ↦
          if injected
          then pure (error efault, pos)
          else elim (check_and_calculate_transfer_information count pos) [
            | invalid e ↦ pure (error e, pos)
            | valid info ↦ do
              interrupted ← mutex_lock_interruptible (dev_mutex i)
              if interrupted then pure (error erestartsys, pos) else rest info
          ]
    ]

  unfoldable pub mtca_dummy_read_no_struct : ℕ → ℕ → ℕ → ℕ → Cmd M (Ssize × ℕ)
  mtca_dummy_read_no_struct i buf count pos =
      with_transfer (λ c. c.read_error) i count pos
        (λ info. read_words (info.n_bytes_to_transfer / 4) 0 info i buf pos)

  unfoldable pub mtca_dummy_write_no_struct : ℕ → ℕ → ℕ → ℕ → Cmd M (Ssize × ℕ)
  mtca_dummy_write_no_struct i buf count pos =
      with_transfer (λ c. c.write_error) i count pos
        (λ info. write_words (info.n_bytes_to_transfer / 4) 0 info i buf pos)
