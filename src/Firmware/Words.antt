-- ===== src/Firmware/Words.antt =====
-- The firmware writes 32-bit words.
use pciedummy_driver.Common.{ℕ, ◌/◌, ◌^◌, ◌<◌, Bool, true, false, Option, if◌then◌else◌, arith}
use pciedummy_driver.State.{MtcaDummyData, HasWords, mtcadummy_dmmy_as_ascii}
use pciedummy_driver.Kernel.{Errno, Version}
use pciedummy_driver.Firmware.{
  set_reg, clock_reset, dummy_sampling, n_samples, adc_enable, spi_transfer, switch_on_write, reg,
}
use pciedummy_driver.Firmware.Registers.{
  word_clk_rst, word_clk_cnt_0, word_clk_cnt_1, word_clk_mux_0, word_clk_mux_1, word_clk_mux_2,
  word_clk_mux_3, word_spi_write, word_spi_read, word_spi_sync, spi_sync_ok, spi_sync_error,
}
use pciedummy_driver.Firmware.Table.{dummy_sampling-square}

HasWords-set_reg :
    (addr v : ℕ) (d : MtcaDummyData) → v < 2 ^ 32 → HasWords d → HasWords (set_reg addr v d)
HasWords-set_reg addr v d hv h = record {
  system_words = λ k hk. ground (arith, h.system_words k);
  dma_words = h.dma_words;
}

HasWords-if :
    (b : Bool) (d e : MtcaDummyData) → HasWords d → HasWords e → HasWords (if b then d else e)
HasWords-if true d e h h' = h
HasWords-if false d e h h' = h'

HasWords-sampling :
    (n sample : ℕ) (d : MtcaDummyData)
    → HasWords d
    → HasWords (record d { dma_bar = dummy_sampling n sample d.dma_bar })
HasWords-sampling n sample d h = record {
  system_words = h.system_words;
  dma_words = λ k hk. ground (arith, dummy_sampling-square n sample d.dma_bar k, h.dma_words k);
}

HasWords-clock_reset : (d : MtcaDummyData) → HasWords d → HasWords (clock_reset d)
unfolding clock_reset
HasWords-clock_reset d h = HasWords-if _ d _ h (
    HasWords-set_reg word_clk_mux_3 0 _ (omega arith) (
      HasWords-set_reg word_clk_mux_2 0 _ (omega arith) (
        HasWords-set_reg word_clk_mux_1 0 _ (omega arith) (
          HasWords-set_reg word_clk_mux_0 0 _ (omega arith) (
            HasWords-set_reg word_clk_cnt_1 0 _ (omega arith)
              (HasWords-set_reg word_clk_cnt_0 0 _ (omega arith) h))))))

HasWords-adc_enable : (d : MtcaDummyData) → HasWords d → HasWords (adc_enable d)
unfolding adc_enable
HasWords-adc_enable d h = HasWords-if _ d _ h (
    HasWords-set_reg word_clk_rst 0 _ (omega arith) (
      HasWords-set_reg word_clk_cnt_0 n_samples _ (omega arith)
        (HasWords-sampling n_samples 0 d h)))

HasWords-spi_transfer :
    (spi_fail : Bool) (d : MtcaDummyData) → HasWords d → HasWords (spi_transfer spi_fail d)
unfolding spi_transfer
HasWords-spi_transfer spi_fail d h =
    HasWords-if _ _ _
      (HasWords-set_reg word_spi_sync spi_sync_ok _ (omega arith) (
        HasWords-set_reg word_spi_read (reg d word_spi_write) d
          (h.system_words (word_spi_write / 4) (omega arith)) h))
      (HasWords-set_reg word_spi_sync spi_sync_error d (omega arith) h)

HasWords-branch :
    (b : Bool) (p q : Option Errno × MtcaDummyData)
    → HasWords p.1
    → HasWords q.1
    → HasWords (if b then p else q).1
HasWords-branch true p q h h' = h
HasWords-branch false p q h h' = h'

pub HasWords-switch_on_write :
    (v : Version)
    → (v.maj < 2 ^ 32) × (v.min < 2 ^ 32)
    → (spi_fail : Bool) (offset : ℕ) (d : MtcaDummyData) → HasWords d
    → HasWords (switch_on_write v spi_fail offset d).1
unfolding switch_on_write
HasWords-switch_on_write v small spi_fail offset d h =
    let letters_small : mtcadummy_dmmy_as_ascii < 2 ^ 32 = omega arith in
    search
      (
        HasWords-branch, HasWords-clock_reset, HasWords-adc_enable, HasWords-spi_transfer,
        HasWords-set_reg, letters_small, small.0, small.1, h,
      )
      depth 20
