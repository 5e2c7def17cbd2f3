-- ===== src/StructIo/Refines.antt =====
-- A request for one word, handled by `mtcaDummy_read` or `mtcaDummy_write`, against the board.
use pciedummy_driver.Common.{
  ℕ, ◌/◌, ◌<◌, ◌≡◌, Bool, false, Option, none, some, [], arith, if◌then◌else◌,
}
use pciedummy_driver.State.{system_area, set_bar_word}
use pciedummy_driver.Kernel.{
  Host, Sys, control_flag, load_word, store_word, copy_from_user, copy_to_user, unlock_and_fail,
  unlock_and_return,
}
use pciedummy_driver.Kernel.Laws.{
  Ends, Ends-mono, Ends-both, Ends-all, IsCalm, ReadsOnly, ChangesBars, count_of, is_restart,
}
use pciedummy_driver.Firmware.{mtcadummy_perform_action_on_write, mtcadummy_perform_pre_read_action}
use pciedummy_driver.Firmware.Table.{
  is_broken, switch_on_write-system_bar, switch_on_write-dma_bar, switch_on_write-result,
}
use pciedummy_driver.Board.{Board-ext, Board, board_of, content, board_read, board_write}
use pciedummy_driver.StructIo.{
  DeviceRw, bytes_of_rw, select_bar, bad_offset, return_rw, read_register, read_request,
  write_register, write_request, with_request, mtca_dummy_read, mtca_dummy_write, rw_d32,
}
use pciedummy_driver.StructIo.Writes.{IsRequest}
use pciedummy_driver.StructIo.Safety.{mtca_dummy_write-ChangesBars}

abbrev pub reply_count : Option ℕ → Option ℕ
reply_count none = none
reply_count (some w) = some 24

module _ {M : Type 0} ⦃host : Host M⦄ where
  -- The memory after the reply to a request that was given the word, if it was.
  abbrev pub replied : M → ℕ → DeviceRw → Option ℕ → M
  replied m buf r none = m
  replied m buf r (some w) = (host.copy_to_user m buf (bytes_of_rw (record r { data_rw = w }))).0

  -- All copies of one structure to the address succeed.
  abbrev pub TakesReply : M → ℕ → Type 0
  TakesReply m buf = (r : DeviceRw) → (host.copy_to_user m buf (bytes_of_rw r)).1 ≡ 0

  -- On a device below 7 in a calm state (IsCalm), mtcaDummy_read handles each readable 32-bit
  -- request, with any bar and any offset and an address to which structures can be copied, as a
  -- read of a word of the board: it returns 24 with the word in the structure if the board has one
  -- to read, and else an error that does not restart the call, with the memory as it was; no device
  -- changes.
  pub mtca_dummy_read-board_read :
      (i buf count : ℕ) (s : Sys M) (r : DeviceRw)
      → i < 7
      → IsCalm s
      → IsRequest s buf count r
      → r.mode_rw ≡ rw_d32
      → TakesReply s.user buf
      → let found = board_read (board_of (s.devices i)) r.barx_rw r.offset_rw in
        Ends
          (λ a t.
            (count_of a ≡ reply_count found)
            × (is_restart a ≡ false)
            × ReadsOnly s t
            × (t.signals ≡ [])
            × (t.user ≡ replied s.user buf r found))
          (mtca_dummy_read i buf count s)
  unfolding mtca_dummy_read with_request control_flag copy_from_user read_request read_register
      load_word return_rw copy_to_user unlock_and_return unlock_and_fail bad_offset select_bar
      board_read mtcadummy_perform_pre_read_action
  mtca_dummy_read-board_read i buf count s r hi calm request mode takes = ground (
    arith,
    calm.ready.slots i,
    takes (record r { data_rw = content (board_of (s.devices i)) r.barx_rw r.offset_rw }),
  )

  module _ (i buf count : ℕ) (s : Sys M) (r : DeviceRw) (hi : i < 7) (calm : IsCalm s)
      (request : IsRequest s buf count r) (mode : r.mode_rw ≡ rw_d32) where
    abbrev written : Bool × Board
    written =
        board_write host.version s.control.spi_error r.barx_rw r.offset_rw r.data_rw
          (board_of (s.devices i))

    write_words_at :
        (k : ℕ)
        → Ends
            (λ a t.
              ((t.devices i).system_bar k ≡ written.1.system k)
              × ((t.devices i).dma_bar k ≡ written.1.dma k))
            (mtca_dummy_write i buf count s)
    unfolding mtca_dummy_write with_request control_flag copy_from_user write_request write_register
        store_word mtcadummy_perform_action_on_write select_bar bad_offset unlock_and_fail
        unlock_and_return board_write
    write_words_at k = ground (
      arith,
      calm.ready.slots i,
      switch_on_write-system_bar host.version s.control.spi_error r.data_rw (s.devices i) k
          r.offset_rw,
      switch_on_write-dma_bar host.version s.control.spi_error r.offset_rw r.data_rw (s.devices i)
          k,
    )

    write_outcome :
        Ends
          (λ a t.
            (count_of a ≡ (if written.0 then some 24 else none))
            × (is_restart a ≡ false)
            × (t.signals ≡ [])
            × (t.user ≡ s.user))
          (mtca_dummy_write i buf count s)
    unfolding mtca_dummy_write with_request control_flag copy_from_user write_request write_register
        store_word mtcadummy_perform_action_on_write select_bar bad_offset unlock_and_fail
        unlock_and_return board_write is_broken
    write_outcome = ground (
      arith,
      calm.ready.slots i,
      switch_on_write-result host.version s.control.spi_error r.offset_rw
          (set_bar_word system_area (r.offset_rw / 4) r.data_rw (s.devices i)),
    )

    -- On a device below 7 in a calm state (IsCalm), mtcaDummy_write handles each readable 32-bit
    -- request, with any bar and any offset, as a write of a word to the board: it returns 24 if the
    -- board takes the word and else an error that does not restart the call, the bars are
    -- afterwards those of the board, no mutex is held, and nothing else but the pending signals
    -- changes.
    pub mtca_dummy_write-board_write :
        Ends
          (λ a t.
            (count_of a ≡ (if written.0 then some 24 else none))
            × (is_restart a ≡ false)
            × ChangesBars i s t
            × (t.signals ≡ [])
            × (t.user ≡ s.user)
            × (board_of (t.devices i) ≡ written.1))
          (mtca_dummy_write i buf count s)
    mtca_dummy_write-board_write =
        let run = mtca_dummy_write i buf count s in
        Ends-mono run
          (Ends-both _ _ run write_outcome (
            Ends-both _ _ run (mtca_dummy_write-ChangesBars i buf count s hi calm.ready)
              (Ends-all _ run (Ends-mono run write_outcome (λ a t h. tt)) write_words_at)))
          λ a t h. (
            h.0.0,
            h.0.1,
            h.1.0.0,
            h.0.2,
            h.0.3,
            Board-ext (board_of (t.devices i)) written.1 h.1.1,
          )
