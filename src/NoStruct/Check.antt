-- ===== src/NoStruct/Check.antt =====
-- `checkAndCalculateTransferInformation` of mtcadummy_rw_no_struct.c and a description of the
-- address space.
use Prim.Native.Nat.{min}
use pciedummy_driver.Common.{
  ℕ, ◌+◌, ◌-◌, ◌/◌, ◌%◌, ◌^◌, ◌≤◌, ◌<◌, ◌≡◌, Bool, ◌&&◌, ◌||◌, arith, ◌==◌, if◌then◌else◌, leb,
}
use pciedummy_driver.Common.Bytes.{u32}
use pciedummy_driver.State.{Bar, system_area, dma_area, bar_size}
use pciedummy_driver.Kernel.{efault}
use pciedummy_driver.NoStruct.{
  TransferInformation, valid, invalid, bar_start_and_size, limit_transfer, add64,
  check_and_calculate_transfer_information,
}

-- The number of the bar in a file position, and the offset in that bar.
abbrev pub position_bar : ℕ → ℕ
position_bar pos = pos / 2 ^ 60 % 8

abbrev pub position_offset : ℕ → ℕ
position_offset pos = pos % 2 ^ 60

abbrev pub area_of : ℕ → Bar
area_of bar = if bar == 0 then system_area else dma_area

-- The position is aligned and in a bar that exists, its end included.
abbrev pub is_addressable : ℕ → Bool
is_addressable pos =
    (pos % 4 == 0)
    && ((position_bar pos == 0) || (position_bar pos == 2))
    && leb (position_offset pos) (bar_size (area_of (position_bar pos)))

abbrev pub transfer_at : ℕ → ℕ → TransferInformation
transfer_at count pos =
    let b = area_of (position_bar pos) in
    record {
      bar = position_bar pos;
      offset = position_offset pos;
      bar_size_in_bytes = bar_size b;
      bar_start = b;
      bar_end = bar_size b / 4;
      n_bytes_to_transfer = min count (bar_size b - position_offset pos);
    }

-- For a count below 2 ^ 63, checkAndCalculateTransferInformation accepts exactly the aligned counts
-- and positions in bar 0 or bar 2 up to the bar's end, and then the number of bytes is the smaller
-- of the count and what is left of the bar; it returns -EFAULT for all others.
pub check_and_calculate_transfer_information_lem :
    (count pos : ℕ)
    → count < 2 ^ 63
    → check_and_calculate_transfer_information count pos ≡ (
        if (count % 4 == 0) && is_addressable pos
        then valid (transfer_at count pos)
        else invalid efault)
unfolding check_and_calculate_transfer_information bar_start_and_size limit_transfer
check_and_calculate_transfer_information_lem count pos h = ground arith

-- What the loops over the words rely on.
pub record IsWithin (count pos : ℕ) (info : TransferInformation) : Type 0 where
  pub in_bar : info.offset + info.n_bytes_to_transfer ≤ bar_size info.bar_start
  pub requested : info.n_bytes_to_transfer ≤ count
  pub whole_words : (info.offset % 4 ≡ 0) × (info.n_bytes_to_transfer % 4 ≡ 0)
  pub narrow : u32 (info.offset + info.n_bytes_to_transfer) ≡ info.offset + info.n_bytes_to_transfer
  pub same_bar : position_bar (add64 pos info.n_bytes_to_transfer) ≡ info.bar
  pub advanced :
      position_offset (add64 pos info.n_bytes_to_transfer) ≡ info.offset + info.n_bytes_to_transfer

-- For a count below 2 ^ 63 and a position below 2 ^ 64, an accepted transfer ends inside its bar,
-- is no longer than asked for, begins and ends at whole words, has an end that fits the 32-bit
-- offset given to the firmware, and the position moved by its length names the same bar and the
-- offset of its end.
pub check_and_calculate_transfer_information-IsWithin :
    (count pos : ℕ) (info : TransferInformation)
    → count < 2 ^ 63
    → pos < 2 ^ 64
    → check_and_calculate_transfer_information count pos ≡ valid info
    → IsWithin count pos info
check_and_calculate_transfer_information-IsWithin count pos info hc hp h =
    ground (arith, check_and_calculate_transfer_information_lem count pos)
