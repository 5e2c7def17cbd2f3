-- ===== src/AutomaticTest/StructReaderWriter.antt =====
-- automatic_test/src/StructReaderWriter.cc. Device `i` is the one whose file is open, and
-- `instruction` the address of the local structure.
use pciedummy_driver.Common.{
  ℕ, zero, suc, ◌+◌, ◌*◌, Bool, true, false, Option, none, some, if◌then◌else◌,
}
use pciedummy_driver.Common.Bytes.{u32, bytes_of_word, word_at}
use pciedummy_driver.Kernel.{Host, Cmd, pure, ◌>>=◌, ◌>>◌}
use pciedummy_driver.StructIo.{DeviceRw, bytes_of_rw, rw_of_bytes, rw_d32, sizeof_device_rw}
use pciedummy_driver.AutomaticTest.{SystemCalls, ReaderWriter, is_count, store, load}

-- The structure that both operations fill.
abbrev pub instruction_for : ℕ → ℕ → ℕ → DeviceRw
instruction_for offset bar value = record {
  offset_rw = offset;
  data_rw = value;
  mode_rw = rw_d32;
  barx_rw = bar;
  size_rw = 0;
  rsrvd_rw = 0;
}

module _ {M : Type 0} ⦃host : Host M⦄ ⦃calls : SystemCalls M⦄ (i instruction : ℕ) where
  unfoldable pub read_single : ℕ → ℕ → Cmd M (Option ℕ)
  read_single offset bar = do
    store instruction (bytes_of_rw (instruction_for offset bar 0))
    n ← calls.pread i instruction sizeof_device_rw 0
    bs ← load instruction sizeof_device_rw
    if is_count n sizeof_device_rw then pure (some (rw_of_bytes bs).data_rw) else pure none

  -- The loop over the words, for the rounds that are left, `k` being the loop's variable `i`.
  unfoldable pub read_rounds : ℕ → ℕ → ℕ → ℕ → ℕ → Cmd M Bool
  read_rounds zero k offset bar buf = pure true
  read_rounds (suc n) k offset bar buf = do
    word ← read_single (u32 (offset + k * 4)) bar
    elim word [
      | none ↦ pure false
      | some w ↦ do store (buf + k * 4) (bytes_of_word w); read_rounds n (k + 1) offset bar buf
    ]

  unfoldable pub read_area : ℕ → ℕ → ℕ → ℕ → Cmd M Bool
  read_area offset bar n_words buf = read_rounds n_words 0 offset bar buf

  unfoldable pub write_single : ℕ → ℕ → ℕ → Cmd M Bool
  write_single offset bar value = do
    store instruction (bytes_of_rw (instruction_for offset bar value))
    n ← calls.pwrite i instruction sizeof_device_rw 0
    pure (is_count n sizeof_device_rw)

  unfoldable pub write_rounds : ℕ → ℕ → ℕ → ℕ → ℕ → Cmd M Bool
  write_rounds zero k offset bar buf = pure true
  write_rounds (suc n) k offset bar buf = do
    bs ← load (buf + k * 4) 4
    good ← write_single (u32 (offset + k * 4)) bar (word_at bs 0)
    if good then write_rounds n (k + 1) offset bar buf else pure false

  unfoldable pub write_area : ℕ → ℕ → ℕ → ℕ → Cmd M Bool
  write_area offset bar n_words buf = write_rounds n_words 0 offset bar buf

  unfoldable pub struct_reader_writer : ReaderWriter M
  struct_reader_writer = record {
    read_single = read_single;
    read_area = read_area;
    write_single = write_single;
    write_area = write_area;
  }
