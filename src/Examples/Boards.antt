-- ===== src/Examples/Boards.antt =====
-- The handlers against the board, on the machine of the examples.
use pciedummy_driver.Common.{◌<◌, ◌≡◌, refl, false, [], some, none, if◌then◌else◌, arith}
use pciedummy_driver.Kernel.Laws.{Ends, IsCalm, ReadsOnly, ChangesBars, count_of, is_restart}
use pciedummy_driver.Board.{board_of, board_read, board_write}
use pciedummy_driver.StructIo.{mtca_dummy_read, mtca_dummy_write}
use pciedummy_driver.StructIo.Refines.{
  reply_count, replied, mtca_dummy_read-board_read, mtca_dummy_write-board_write,
}
use pciedummy_driver.NoStruct.{mtca_dummy_read_no_struct, mtca_dummy_write_no_struct}
use pciedummy_driver.NoStruct.Check.{transfer_at}
use pciedummy_driver.NoStruct.ReadWords.{WordsRead}
use pciedummy_driver.NoStruct.Refines.{Answers, words_written}
use pciedummy_driver.NoStruct.Transfers.{
  transfer_at-InBar, mtca_dummy_read_no_struct-board_readable,
  mtca_dummy_write_no_struct-board_write_words,
}
use pciedummy_driver.Examples.{Memory, machine, device, state_with, state_with-IsReady}
use pciedummy_driver.Examples.Requests.{
  memory_with, adc_request, adc_request-IsRequest, dma_word_query, dma_word_query-IsRequest,
}
use pciedummy_driver.Examples.Transfers.{counting, third_word}

pub state_with-IsCalm : (m : Memory) → IsCalm (state_with m)
state_with-IsCalm m = record {
  ready = state_with-IsReady m;
  no_signal = refl;
  no_read_failure = refl;
  no_write_failure = refl;
}

mtca_dummy_read-board_read_example :
    let found = board_read (board_of (device 2)) 2 12 in
    Ends
      (λ a t.
        (count_of a ≡ reply_count found)
        × (is_restart a ≡ false)
        × ReadsOnly (state_with (memory_with dma_word_query)) t
        × (t.signals ≡ [])
        × (t.user ≡ replied (memory_with dma_word_query) 100 dma_word_query found))
      (mtca_dummy_read 2 100 24 (state_with (memory_with dma_word_query)))
mtca_dummy_read-board_read_example =
    mtca_dummy_read-board_read 2 100 24 (state_with (memory_with dma_word_query)) dma_word_query
      (omega arith) (state_with-IsCalm (memory_with dma_word_query)) dma_word_query-IsRequest refl
      (λ r. refl)

mtca_dummy_write-board_write_example :
    let w = board_write machine.version false 0 0x44 1 (board_of (device 1)) in
    Ends
      (λ a t.
        (count_of a ≡ (if w.0 then some 24 else none))
        × (is_restart a ≡ false)
        × ChangesBars 1 (state_with (memory_with adc_request)) t
        × (t.signals ≡ [])
        × (t.user ≡ memory_with adc_request)
        × (board_of (t.devices 1) ≡ w.1))
      (mtca_dummy_write 1 100 24 (state_with (memory_with adc_request)))
mtca_dummy_write-board_write_example =
    mtca_dummy_write-board_write 1 100 24 (state_with (memory_with adc_request)) adc_request
      (omega arith) (state_with-IsCalm (memory_with adc_request)) adc_request-IsRequest refl

six_inside : 6 < 7
six_inside = omega arith

mtca_dummy_read_no_struct-board_readable_example :
    Ends
      (WordsRead 6 100 third_word
        (transfer_at 8 third_word)
        six_inside
        (transfer_at-InBar 8 third_word refl)
        2
        0
        8
        counting)
      (mtca_dummy_read_no_struct 6 100 8 third_word counting)
mtca_dummy_read_no_struct-board_readable_example =
    mtca_dummy_read_no_struct-board_readable 6 100 8 third_word counting six_inside
      (state_with-IsCalm counting.user) (omega arith) (omega arith) refl refl
      (λ m b bs below above. refl)

mtca_dummy_write_no_struct-board_write_words_example :
    let info = transfer_at 8 third_word in
    Ends
      (λ r t.
        Answers 6 100 info counting.user counting.control
          (words_written 6 100 info counting.user counting.control 2 0 8 (board_of (device 6)))
          r
          t
        × (ChangesBars 6 counting t × (t.user ≡ counting.user)))
      (mtca_dummy_write_no_struct 6 100 8 third_word counting)
mtca_dummy_write_no_struct-board_write_words_example =
    mtca_dummy_write_no_struct-board_write_words 6 100 8 third_word counting six_inside
      (state_with-IsCalm counting.user) (omega arith) (omega arith) refl refl (λ j below. refl)
