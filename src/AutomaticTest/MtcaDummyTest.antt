-- ===== src/AutomaticTest/MtcaDummyTest.antt =====
-- automatic_test/executables_src/testMtcaDummy.cpp: the class `MtcaDummyTest`. A `std::vector` of
-- words is given by the address of its elements. A test is true if all its checks hold and no
-- exception leaves it; a check that fails does not end it, an exception does. `bufferA`, which no
-- test uses, is left out.
pub mod AreaTests
pub mod Areas
pub mod Prepared
pub mod Registers
pub mod Suite
pub mod Vectors
pub mod Words
pub mod WriteArea
use pciedummy_driver.Common.{
  ℕ, zero, suc, ◌+◌, ◌-◌, ◌*◌, ◌/◌, ◌^◌, Bool, true, false, not, ◌&&◌, Option, none, some, ◌==◌,
  if◌then◌else◌, ltb,
}
use pciedummy_driver.Common.Bytes.{u32, bytes_of_word, word_at}
use pciedummy_driver.State.{mtcadummy_dma_size, mtcadummy_dmmy_as_ascii}
use pciedummy_driver.Kernel.{Host, Cmd, pure, ◌>>=◌, ◌>>◌}
use pciedummy_driver.Board.{is_some}
use pciedummy_driver.AutomaticTest.{ReaderWriter, store, load}

abbrev pub n_words_dma : ℕ
n_words_dma = mtcadummy_dma_size / 4

abbrev pub mtcadummy_word_user : ℕ
mtcadummy_word_user = 0x0C

abbrev pub mtcadummy_word_dummy : ℕ
mtcadummy_word_dummy = 0x3C

abbrev pub mtcadummy_word_adc_ena : ℕ
mtcadummy_word_adc_ena = 0x44

abbrev pub mtcadummy_broken_register : ℕ
mtcadummy_broken_register = 0x48

abbrev pub mtcadummy_broken_write : ℕ
mtcadummy_broken_write = 0x4C

module _ {M : Type 0} where
  -- An exception ends the test.
  abbrev pub attempt : Cmd M (Option ℕ) → (ℕ → Cmd M Bool) → Cmd M Bool
  attempt m f = do w ← m; elim w [ none ↦ pure false | some x ↦ f x ]

  abbrev pub ensure : Cmd M Bool → Cmd M Bool → Cmd M Bool
  ensure m rest = do good ← m; if good then rest else pure false

module _ {M : Type 0} ⦃host : Host M⦄ where
  -- Words `k`, `k + 1`, … of a vector, `n` of them, are set to those of `f`.
  unfoldable pub store_words : ℕ → ℕ → ℕ → (ℕ → ℕ) → Cmd M (Unit {0})
  store_words zero k buf f = pure tt
  store_words (suc n) k buf f = do
    store (buf + k * 4) (bytes_of_word (f k))
    store_words n (k + 1) buf f

  -- They are those of `f`.
  unfoldable pub check_words : ℕ → ℕ → ℕ → (ℕ → ℕ) → Cmd M Bool
  check_words zero k buf f = pure true
  check_words (suc n) k buf f = do
    bs ← load (buf + k * 4) 4
    rest ← check_words n (k + 1) buf f
    pure ((word_at bs 0 == f k) && rest)

  -- The copy and the comparison of vectors.
  unfoldable pub copy_words : ℕ → ℕ → ℕ → ℕ → Cmd M (Unit {0})
  copy_words zero k from to = pure tt
  copy_words (suc n) k from to = do
    bs ← load (from + k * 4) 4
    store (to + k * 4) bs
    copy_words n (k + 1) from to

  unfoldable pub same_words : ℕ → ℕ → ℕ → ℕ → Cmd M Bool
  same_words zero k left right = pure true
  same_words (suc n) k left right = do
    xs ← load (left + k * 4) 4
    ys ← load (right + k * 4) 4
    rest ← same_words n (k + 1) left right
    pure ((word_at xs 0 == word_at ys 0) && rest)

  module _ (client : ReaderWriter M) where
    -- The constructor, with `bufferHelix` at `helix`; false is an exception.
    unfoldable pub mtca_dummy_test : ℕ → Cmd M Bool
    mtca_dummy_test helix = do
      store_words n_words_dma 0 helix (λ k. 0)
      store_words 25 0 helix (λ k. k * k)
      client.write_area 0 2 n_words_dma helix

    unfoldable pub test_read_single : Cmd M Bool
    test_read_single = attempt (client.read_single mtcadummy_word_dummy 0) λ x.
        attempt (client.read_single (8 * 4) 2)
          λ y. pure ((x == mtcadummy_dmmy_as_ascii) && (y == 8 * 8))

    unfoldable pub test_read_single_with_error : Cmd M Bool
    test_read_single_with_error = do
      x ← client.read_single mtcadummy_broken_register 0
      y ← client.read_single mtcadummy_broken_write 0
      pure (not (is_some x) && is_some y)

    unfoldable pub test_write_single : Cmd M Bool
    test_write_single = attempt (client.read_single mtcadummy_word_user 0) λ word_user.
        ensure (client.write_single mtcadummy_word_user 0 (u32 (word_user + 1))) (
          attempt (client.read_single mtcadummy_word_user 0) λ x.
            attempt (client.read_single 0x20 2) λ word_from_bar2.
              ensure (client.write_single 0x20 2 (u32 (word_from_bar2 + 1))) (
                attempt (client.read_single 0x20 2)
                  λ y. pure ((x == u32 (word_user + 1)) && (y == u32 (word_from_bar2 + 1)))))

    unfoldable pub test_write_single_with_error : Cmd M Bool
    test_write_single_with_error = do
      x ← client.write_single mtcadummy_broken_register 0 42
      y ← client.write_single mtcadummy_broken_write 0 42
      pure (not x && not y)

    -- `buf` is the address of the elements of `readBuffer`.
    unfoldable pub test_read_area : ℕ → Cmd M Bool
    test_read_area buf = do
      store_words n_words_dma 0 buf (λ k. 0xB0B0B0B0)
      ensure (client.read_area (13 * 4) 2 5 (buf + 13 * 4)) (do
        before ← check_words 13 0 buf (λ k. 0xB0B0B0B0)
        inside ← check_words 5 13 buf (λ k. k * k)
        after ← check_words (n_words_dma - 18) 18 buf (λ k. 0xB0B0B0B0)
        pure (before && inside && after))

    -- `expected` is the address of the elements of `expectedBuffer`.
    unfoldable pub test_write_area : ℕ → ℕ → ℕ → Cmd M Bool
    test_write_area helix expected buf = ensure (client.write_single mtcadummy_word_adc_ena 0 1) (do
      copy_words n_words_dma 0 helix expected
      store_words 8 100 expected (λ k. k * k)
      ensure (client.write_area (100 * 4) 2 8 (expected + 100 * 4)) (do
        store_words n_words_dma 0 buf (λ k. 0)
        ensure (client.read_area 0 2 n_words_dma buf) (same_words n_words_dma 0 buf expected)))

    -- All tests of `MtcaDummyTestSuite` in order; they run if the constructor has no exception.
    unfoldable pub mtca_dummy_test_suite : ℕ → ℕ → ℕ → Cmd M Bool
    mtca_dummy_test_suite helix expected buf = ensure (mtca_dummy_test helix) (do
      read_single ← test_read_single
      read_single_with_error ← test_read_single_with_error
      write_single ← test_write_single
      write_single_with_error ← test_write_single_with_error
      read_area ← test_read_area buf
      write_area ← test_write_area helix expected buf
      pure (
          read_single && read_single_with_error && write_single && write_single_with_error
          && read_area && write_area))
