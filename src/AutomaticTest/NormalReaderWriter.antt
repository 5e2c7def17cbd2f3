-- ===== src/AutomaticTest/NormalReaderWriter.antt =====
-- automatic_test/src/NormalReaderWriter.cc and the bar offsets of pcieuni_io_compat.h. Device `i` is
-- the one whose file is open, and `value_at` the address of the local value of one word.
use pciedummy_driver.Common.{ℕ, ◌+◌, ◌*◌, ◌^◌, Bool, false, Option, none, some, if◌then◌else◌, ltb}
use pciedummy_driver.Common.Bytes.{bytes_of_word, word_at}
use pciedummy_driver.Kernel.{Host, Cmd, pure, ◌>>=◌, ◌>>◌}
use pciedummy_driver.AutomaticTest.{SystemCalls, ReaderWriter, is_count, store, load}

-- The array, for an index below 6.
abbrev pub pcieuni_bar_offsets : ℕ → ℕ
pcieuni_bar_offsets bar = bar * 2 ^ 60

module _ {M : Type 0} ⦃host : Host M⦄ ⦃calls : SystemCalls M⦄ (i value_at : ℕ) where
  unfoldable pub read_area : ℕ → ℕ → ℕ → ℕ → Cmd M Bool
  read_area offset bar n_words buf = if ltb 5 bar then pure false else do
    n ← calls.pread i buf (n_words * 4) (pcieuni_bar_offsets bar + offset)
    pure (is_count n (n_words * 4))

  unfoldable pub read_single : ℕ → ℕ → Cmd M (Option ℕ)
  read_single offset bar = do
    good ← read_area offset bar 1 value_at
    bs ← load value_at 4
    if good then pure (some (word_at bs 0)) else pure none

  -- The result of the call is kept in an `int`, which holds all counts below 2 ^ 31.
  unfoldable pub write_area : ℕ → ℕ → ℕ → ℕ → Cmd M Bool
  write_area offset bar n_words buf = if ltb 5 bar then pure false else do
    n ← calls.pwrite i buf (n_words * 4) (pcieuni_bar_offsets bar + offset)
    pure (is_count n (n_words * 4))

  unfoldable pub write_single : ℕ → ℕ → ℕ → Cmd M Bool
  write_single offset bar value = do
    store value_at (bytes_of_word value)
    write_area offset bar 1 value_at

  unfoldable pub normal_reader_writer : ReaderWriter M
  normal_reader_writer = record {
    read_single = read_single;
    read_area = read_area;
    write_single = write_single;
    write_area = write_area;
  }
