-- ===== src/AutomaticTest/NormalPositions.antt =====
-- The file positions of NormalReaderWriter.cc and the transfers that the driver makes of them.
use pciedummy_driver.Common.{ℕ, ◌+◌, ◌*◌, ◌%◌, ◌^◌, ◌≤◌, ◌<◌, ◌≡◌, true, false, ◌||◌, arith, ◌==◌}
use pciedummy_driver.Board.{extent, is_word}
use pciedummy_driver.Board.Areas.{IsClip}
use pciedummy_driver.NoStruct.Check.{is_addressable, transfer_at, position_bar, position_offset}
use pciedummy_driver.NoStruct.Transfers.{words_at}
use pciedummy_driver.AutomaticTest.NormalReaderWriter.{pcieuni_bar_offsets}

module _ (bar offset : ℕ) (hb : bar < 6) (ho : offset < 2 ^ 32) where
  abbrev pub pos : ℕ
  pos = pcieuni_bar_offsets bar + offset

  pub position_bar_lem : position_bar pos ≡ bar
  position_bar_lem = omega (arith, hb, ho)

  pub position_offset_lem : position_offset pos ≡ offset
  position_offset_lem = omega (arith, hb, ho)

  pub is_addressable_inside :
      is_addressable pos ≡ true
      → (offset % 4 ≡ 0) × (((bar == 0) || (bar == 2)) ≡ true) × (offset ≤ extent bar)
  is_addressable_inside h = ground (arith, position_bar_lem, position_offset_lem)

  pub is_addressable_outside : is_addressable pos ≡ false → is_word bar offset ≡ false
  is_addressable_outside h = ground (arith, position_bar_lem, position_offset_lem)

  pub words_at-IsClip :
      (n : ℕ) → is_addressable pos ≡ true → IsClip bar (words_at (n * 4) pos) n offset
  words_at-IsClip n h = ground (arith, position_bar_lem, position_offset_lem)

  pub same_count :
      (n : ℕ)
      → is_addressable pos ≡ true
      → ((transfer_at (n * 4) pos).n_bytes_to_transfer == n * 4) ≡ (words_at (n * 4) pos == n)
  same_count n h = ground (arith, position_bar_lem, position_offset_lem)
