-- ===== src/Firmware/Frame.antt =====
-- Which data of a device the firmware simulation may change.
use pciedummy_driver.Common.{ℕ, ◌≡◌, Bool, arith, if◌then◌else◌, ltb}
use pciedummy_driver.State.{MtcaDummyData}
use pciedummy_driver.Kernel.{Version}
use pciedummy_driver.Firmware.{clock_reset, adc_enable, spi_transfer, switch_on_write}
use pciedummy_driver.Firmware.Table.{dummy_sampling-square}

pub record Frame (d d' : MtcaDummyData) : Type 0 where
  pub slot_nr : d'.slot_nr ≡ d.slot_nr
  pub in_use : d'.in_use ≡ d.in_use
  pub minor : d'.minor ≡ d.minor
  pub major : d'.major ≡ d.major
  pub system_end :
      (k : ℕ) → d'.system_bar k ≡ (if ltb k 32 then d'.system_bar k else d.system_bar k)
  pub dma_end : (k : ℕ) → d'.dma_bar k ≡ (if ltb k 1024 then d'.dma_bar k else d.dma_bar k)

module _ (d : MtcaDummyData) where
  clock_reset-Frame : Frame d (clock_reset d)
  unfolding clock_reset
  clock_reset-Frame = ground arith

  adc_enable-Frame : Frame d (adc_enable d)
  unfolding adc_enable
  adc_enable-Frame = record {
    slot_nr = ground arith;
    in_use = ground arith;
    minor = ground arith;
    major = ground arith;
    system_end = λ k. ground arith;
    dma_end = λ k. ground (arith, dummy_sampling-square 25 0 d.dma_bar k);
  }

  spi_transfer-Frame : (spi_fail : Bool) → Frame d (spi_transfer spi_fail d)
  unfolding spi_transfer
  spi_transfer-Frame spi_fail = ground arith

  -- The firmware's action on a write changes no word outside the 32 registers and the 1024 words of
  -- the DMA bar of its device, and neither its slot, its numbers nor its count.
  pub switch_on_write-Frame :
      (v : Version) (spi_fail : Bool) (offset : ℕ) → Frame d (switch_on_write v spi_fail offset d).1
  unfolding switch_on_write
  switch_on_write-Frame v spi_fail offset =
      ground (arith, clock_reset-Frame, adc_enable-Frame, spi_transfer-Frame spi_fail)
