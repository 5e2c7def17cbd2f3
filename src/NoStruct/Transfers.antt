-- ===== src/NoStruct/Transfers.antt =====
-- The handlers of mtcadummy_rw_no_struct.c against the board.
use pciedummy_driver.Common.{
  ℕ, ◌+◌, ◌*◌, ◌/◌, ◌%◌, ◌^◌, ◌≤◌, ◌<◌, ◌≡◌, refl, ap, Bool, true, false, ◌&&◌, [], ◌∷◌, arith,
  ◌==◌,
}
use pciedummy_driver.State.{MtcaDummyControl, bar_size}
use pciedummy_driver.Kernel.{Ssize, error, efault, Host, Sys, Cmd, ok, dev_mutex, control_flag}
use pciedummy_driver.Kernel.Laws.{Ends, Ends-mono, Ends-both, IsCalm, ChangesBars, entered}
use pciedummy_driver.Board.{board_of}
use pciedummy_driver.NoStruct.{
  TransferInformation, with_transfer, read_words, write_words, mtca_dummy_read_no_struct,
  mtca_dummy_write_no_struct,
}
use pciedummy_driver.NoStruct.Check.{
  is_addressable, transfer_at, check_and_calculate_transfer_information_lem,
}
use pciedummy_driver.NoStruct.Reads.{with_transfer_enters}
use pciedummy_driver.NoStruct.ReadWords.{IsWritable, WordsRead, read_words-board_readable}
use pciedummy_driver.NoStruct.Refines.{Answers, words_written, write_words-board_write_words}
use pciedummy_driver.NoStruct.WriteSafety.{mtca_dummy_write_no_struct-ChangesBars}
use pciedummy_driver.NoStruct.WriteWord.{InBar}

pub transfer_at-InBar : (count pos : ℕ) → is_addressable pos ≡ true → InBar (transfer_at count pos)
transfer_at-InBar count pos h = record {
  exists = ground arith;
  starts = ground arith;
  aligned = ground arith;
}

-- The number of whole words of a transfer that was accepted.
abbrev pub words_at : ℕ → ℕ → ℕ
words_at count pos = (transfer_at count pos).n_bytes_to_transfer / 4

transfer_fits :
    (count pos : ℕ)
    → is_addressable pos ≡ true
    → pos < 2 ^ 64
    → let info = transfer_at count pos in
      info.offset + words_at count pos * 4 ≤ bar_size info.bar_start
transfer_fits count pos h small = ground arith

module _ {M : Type 0} ⦃host : Host M⦄ where
  pub with_transfer_rejects :
      (flag : MtcaDummyControl → Bool) (i count pos : ℕ)
      (rest : TransferInformation → Cmd M (Ssize × ℕ)) (s : Sys M)
      → s.held ≡ []
      → s.signals ≡ []
      → flag s.control ≡ false
      → count < 2 ^ 63
      → ((count % 4 == 0) && is_addressable pos) ≡ false
      → with_transfer flag i count pos rest s ≡ ok (error efault, pos) s
  unfolding with_transfer control_flag
  with_transfer_rejects flag i count pos rest s held sig fine small bad =
      ground (arith, check_and_calculate_transfer_information_lem count pos small)

  module _ (i buf count pos : ℕ) (s : Sys M) (hi : i < 7) (calm : IsCalm s) (small : count < 2 ^ 63)
      (range : pos < 2 ^ 64) (al : count % 4 ≡ 0) (ad : is_addressable pos ≡ true) where
    abbrev info : TransferInformation
    info = transfer_at count pos

    write_entered :
        ((j : ℕ) → j < words_at count pos → (host.copy_from_user s.user (buf + j * 4) 4).1 ≡ 0)
        → Ends
            (Answers i buf info s.user s.control (
              words_written i buf info s.user s.control
                (words_at count pos)
                0
                info.offset
                (board_of (s.devices i))))
            (mtca_dummy_write_no_struct i buf count pos s)
    unfolding mtca_dummy_write_no_struct
    write_entered readable =
        rw
          (with_transfer_enters (λ c. c.write_error) i count pos
            (λ info. write_words (info.n_bytes_to_transfer / 4) 0 info i buf pos) s calm.ready.free
            calm.no_signal calm.no_write_failure small al ad)
          (write_words-board_write_words i buf info s.user s.control hi
            (transfer_at-InBar count pos ad) (words_at count pos) 0 info.offset pos
            (board_of (s.devices i)) (entered i s)
            (record {
              held = ap (λ ls. dev_mutex i ∷ ls) calm.ready.free;
              slot = calm.ready.slots i hi;
              no_signal = rw calm.no_signal refl;
              control = refl;
              user = refl;
              board = refl;
              position = omega arith;
            })
            (transfer_fits count pos ad range) (λ j h. readable j (omega arith)))

    -- On a device below 7 in a calm state (IsCalm), for a count below 2 ^ 63 that is a multiple of
    -- 4, an addressable position below 2 ^ 64, and words of the transfer that can all be copied,
    -- mtcaDummy_write_no_struct returns the number of bytes if the board takes all words of the
    -- transfer and else an error that does not restart the call, and leaves the bars as the board
    -- has them after these words up to the first that it refuses; no mutex is held, no other device
    -- and no memory of the process has changed.
    pub mtca_dummy_write_no_struct-board_write_words :
        ((j : ℕ) → j < words_at count pos → (host.copy_from_user s.user (buf + j * 4) 4).1 ≡ 0)
        → Ends
            (λ r t.
              Answers i buf info s.user s.control
                (words_written i buf info s.user s.control
                  (words_at count pos)
                  0
                  info.offset
                  (board_of (s.devices i)))
                r
                t
              × (ChangesBars i s t × (t.user ≡ s.user)))
            (mtca_dummy_write_no_struct i buf count pos s)
    mtca_dummy_write_no_struct-board_write_words readable =
        Ends-both _ _ (mtca_dummy_write_no_struct i buf count pos s) (write_entered readable)
          (mtca_dummy_write_no_struct-ChangesBars i buf count pos s hi calm.ready small range)

    -- On a device below 7 in a calm state (IsCalm), for a count below 2 ^ 63 that is a multiple of
    -- 4, an addressable position below 2 ^ 64, and a buffer that can be written,
    -- mtcaDummy_read_no_struct ends as WordsRead says: the result is the number of bytes, with the
    -- words of the transfer in the buffer, if the board can read all of them, and else an error
    -- that does not restart the call; only the buffer has changed.
    pub mtca_dummy_read_no_struct-board_readable :
        IsWritable host buf (words_at count pos * 4)
        → Ends
            (WordsRead i buf pos info hi
              (transfer_at-InBar count pos ad)
              (words_at count pos)
              0
              info.offset
              s)
            (mtca_dummy_read_no_struct i buf count pos s)
    unfolding mtca_dummy_read_no_struct
    mtca_dummy_read_no_struct-board_readable writable =
        rw
          (with_transfer_enters (λ c. c.read_error) i count pos
            (λ info. read_words (info.n_bytes_to_transfer / 4) 0 info i buf pos) s calm.ready.free
            calm.no_signal calm.no_read_failure small al ad)
          (Ends-mono (read_words (words_at count pos) 0 info i buf pos (entered i s))
            (read_words-board_readable i buf pos info hi (transfer_at-InBar count pos ad)
              (words_at count pos) 0 info.offset pos (entered i s)
              (ap (λ ls. dev_mutex i ∷ ls) calm.ready.free) (calm.ready.slots i hi)
              (rw calm.no_signal refl) (omega arith) (transfer_fits count pos ad range)
              (λ m b bs p h. writable m b bs p (omega (arith, h))) tt)
            λ r t h. record {
              result = h.result;
              restart = h.restart;
              signals = h.signals;
              unchanged = record {
                free = h.unchanged.free;
                control = h.unchanged.control;
                devices = h.unchanged.devices;
              };
              words = h.words;
              only = h.only;
            })
