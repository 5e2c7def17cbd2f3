-- ===== src/NoStruct/WriteWord.antt =====
-- One round of the loop of `mtcaDummy_write_no_struct`, against a write of a word to the board.
use pciedummy_driver.Common.{
  ℕ, ◌+◌, ◌*◌, ◌/◌, ◌%◌, ◌<◌, ◌≡◌, Bool, true, ◌||◌, none, some, [], ◌∷◌, arith, ◌==◌,
  if◌then◌else◌,
}
use pciedummy_driver.State.{system_area, set_bar_word, bar_size}
use pciedummy_driver.Kernel.{eio, Host, Sys, dev_mutex, control_flag, store_word, copy_from_user}
use pciedummy_driver.Kernel.Laws.{Ends, Ends-mono, Ends-both, Ends-all, BarsOnly}
use pciedummy_driver.Firmware.{mtcadummy_perform_action_on_write}
use pciedummy_driver.Firmware.Table.{
  is_broken, switch_on_write-system_bar, switch_on_write-dma_bar, switch_on_write-result,
}
use pciedummy_driver.Board.{Board, Board-ext, board_of, board_write}
use pciedummy_driver.NoStruct.{TransferInformation, write_word}
use pciedummy_driver.NoStruct.Check.{area_of}
use pciedummy_driver.NoStruct.WriteDma.{sent}
use pciedummy_driver.NoStruct.WriteSafety.{write_word-BarsOnly}

-- The transfer is one of a bar that exists, from the address of a word or the end of the bar on.
pub record InBar (info : TransferInformation) : Type 0 where
  pub exists : ((info.bar == 0) || (info.bar == 2)) ≡ true
  pub starts : info.bar_start ≡ area_of info.bar
  pub aligned : info.offset % 4 ≡ 0

module _ {M : Type 0} ⦃host : Host M⦄ (i buf : ℕ) (info : TransferInformation) (hi : i < 7) where
  module _ (k : ℕ) (s : Sys M) (inside : InBar info) (held : s.held ≡ dev_mutex i ∷ [])
      (slot : (s.devices i).slot_nr ≡ i) (no_signal : s.signals ≡ [])
      (fits : info.offset + k * 4 < bar_size info.bar_start)
      (copied : (host.copy_from_user s.user (buf + k * 4) 4).1 ≡ 0) where
    abbrev written : Bool × Board
    written =
        board_write host.version s.control.spi_error info.bar (info.offset + k * 4)
          (sent s.user buf k) (board_of (s.devices i))

    -- Two ways to count to the word.
    same_word : (info.offset + k * 4) / 4 ≡ info.offset / 4 + k
    same_word = omega (arith, inside.aligned)

    words_at :
        (q : ℕ)
        → Ends
            (λ e t.
              ((t.devices i).system_bar q ≡ written.1.system q)
              × ((t.devices i).dma_bar q ≡ written.1.dma q))
            (write_word k info i buf s)
    unfolding write_word copy_from_user store_word mtcadummy_perform_action_on_write control_flag
        board_write is_broken
    words_at q = ground (
      arith,
      inside.exists,
      inside.starts,
      inside.aligned,
      same_word,
      switch_on_write-system_bar host.version s.control.spi_error (sent s.user buf k) (s.devices i)
          q (info.offset + k * 4),
      switch_on_write-dma_bar host.version s.control.spi_error (info.offset + k * 4)
          (sent s.user buf k) (s.devices i) q,
    )

    word_outcome :
        Ends
          (λ e t. (e ≡ (if written.0 then none else some eio)) × (t.signals ≡ []))
          (write_word k info i buf s)
    unfolding write_word copy_from_user store_word mtcadummy_perform_action_on_write control_flag
        board_write is_broken
    word_outcome = ground (
      arith,
      inside.exists,
      inside.starts,
      inside.aligned,
      same_word,
      switch_on_write-result host.version s.control.spi_error (info.offset + k * 4)
          (set_bar_word system_area (info.offset / 4 + k) (sent s.user buf k) (s.devices i)),
    )

    pub write_word-board_write :
        Ends
          (λ e t.
            (e ≡ (if written.0 then none else some eio))
            × (t.signals ≡ [])
            × (t.held ≡ s.held)
            × (t.user ≡ s.user)
            × BarsOnly i s t
            × (board_of (t.devices i) ≡ written.1))
          (write_word k info i buf s)
    write_word-board_write =
        let run = write_word k info i buf s in
        Ends-mono run
          (Ends-both _ _ run word_outcome (
            Ends-both _ _ run
              (write_word-BarsOnly i buf info hi k s slot held
                (omega (arith, inside.aligned, fits)))
              (Ends-all _ run (Ends-mono run word_outcome (λ a t h. tt)) words_at)))
          λ e t h. (
            h.0.0,
            h.0.1,
            h.1.0.1,
            h.1.0.2,
            h.1.0.0,
            Board-ext (board_of (t.devices i)) written.1 h.1.1,
          )
