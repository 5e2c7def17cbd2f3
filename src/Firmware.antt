-- ===== src/Firmware.antt =====
-- mtcadummy_firmware.c: the initial contents of the system bar, and what happens when a register
-- is read or written. `REG(mem, addr)` on the system bar of a device is `reg d addr`.
-- The result `none` of an action stands for the C result 0.
pub mod Frame
pub mod Table
pub mod Words
pub mod Registers
use pciedummy_driver.Common.{
  ℕ, zero, suc, ◌+◌, ◌*◌, ◌/◌, Bool, true, not, ◌&&◌, ◌||◌, Option, none, some, ◌==◌, if◌then◌else◌,
  update,
}
use pciedummy_driver.Common.Bytes.{u32}
use pciedummy_driver.State.{MtcaDummyData, MtcaDummyControl, mtcadummy_dmmy_as_ascii}
use pciedummy_driver.Kernel.{
  Errno, eperm, erestartsys, Version, Host, Cmd, pure, ◌>>=◌, ◌>>◌, control_flag, get_device,
  put_device,
}
use Registers.{
  word_firmware, word_compilation, word_status, word_user, word_clk_cnt_0, word_clk_cnt_1,
  word_clk_mux_0, word_clk_mux_1, word_clk_mux_2, word_clk_mux_3, word_dummy, word_clk_rst,
  word_adc_ena, broken_register, broken_write, word_spi_write, word_spi_read, word_spi_sync,
  spi_sync_ok, spi_sync_requested, spi_sync_error,
}

abbrev pub reg : MtcaDummyData → ℕ → ℕ
reg d addr = d.system_bar (addr / 4)

abbrev pub set_reg : ℕ → ℕ → MtcaDummyData → MtcaDummyData
set_reg addr v d = record d { system_bar = update d.system_bar (addr / 4) v }

-- Case `MTCADUMMY_WORD_CLK_RST`.
unfoldable pub clock_reset : MtcaDummyData → MtcaDummyData
clock_reset d =
    if reg d word_clk_rst == 0
    then d
    else set_reg word_clk_mux_3 0 (
        set_reg word_clk_mux_2 0 (
          set_reg word_clk_mux_1 0
            (set_reg word_clk_mux_0 0 (set_reg word_clk_cnt_1 0 (set_reg word_clk_cnt_0 0 d)))))

-- The loop over the samples, from `sample` on for the rounds that are left.
unfoldable pub dummy_sampling : ℕ → ℕ → (ℕ → ℕ) → ℕ → ℕ
dummy_sampling zero sample bar = bar
dummy_sampling (suc n) sample bar =
    dummy_sampling n (sample + 1) (update bar sample (u32 (sample * sample)))

abbrev pub n_samples : ℕ
n_samples = 25

-- Case `MTCADUMMY_WORD_ADC_ENA`.
unfoldable pub adc_enable : MtcaDummyData → MtcaDummyData
adc_enable d =
    if reg d word_adc_ena == 0
    then d
    else set_reg word_clk_rst 0 (
        set_reg word_clk_cnt_0 n_samples
          (record d { dma_bar = dummy_sampling n_samples 0 d.dma_bar }))

-- Case `MTCADUMMY_WORD_SPI_WRITE`.
unfoldable pub spi_transfer : Bool → MtcaDummyData → MtcaDummyData
spi_transfer spi_fail d =
    if (reg d word_spi_sync == spi_sync_requested) && not spi_fail
    then set_reg word_spi_sync spi_sync_ok (set_reg word_spi_read (reg d word_spi_write) d)
    else set_reg word_spi_sync spi_sync_error d

unfoldable pub mtcadummy_initialise_system_bar : Version → MtcaDummyData → MtcaDummyData
mtcadummy_initialise_system_bar v d = set_reg broken_write broken_write (
    set_reg word_clk_rst 1 (
      set_reg word_dummy mtcadummy_dmmy_as_ascii (
        set_reg word_user 0 (
          set_reg word_status 0 (set_reg word_compilation v.min (set_reg word_firmware v.maj d))))))

-- The `switch` of `mtcadummy_performActionOnWrite` on one device: the result and the new state.
unfoldable pub switch_on_write : Version → Bool → ℕ → MtcaDummyData → Option Errno × MtcaDummyData
switch_on_write v spi_fail offset d =
    if offset == word_clk_rst
    then (none, clock_reset d)
    else if offset == word_adc_ena
    then (none, adc_enable d)
    else if offset == word_firmware
    then (none, set_reg word_firmware v.maj d)
    else if offset == word_compilation
    then (none, set_reg word_compilation v.min d)
    else if offset == word_dummy
    then (none, set_reg word_dummy mtcadummy_dmmy_as_ascii d)
    else if (offset == broken_register) || (offset == broken_write)
    then (some eperm, d)
    else if offset == word_spi_write
    then (none, spi_transfer spi_fail d)
    else (none, d)

module _ {M : Type 0} ⦃host : Host M⦄ where
  unfoldable pub mtcadummy_perform_action_on_write : ℕ → ℕ → ℕ → Cmd M (Option Errno)
  mtcadummy_perform_action_on_write offset bar_number slot_number =
      if not (bar_number == 0) then pure none else do
        flag ← control_flag (λ c. c.spi_error)
        elim flag [
          | none ↦ pure (some erestartsys)
          | some spi_fail ↦ do
            d ← get_device slot_number
            let (result, d') = switch_on_write host.version spi_fail offset d
            put_device slot_number d'
            pure result
        ]

unfoldable pub mtcadummy_perform_pre_read_action : ℕ → ℕ → ℕ → Option Errno
mtcadummy_perform_pre_read_action offset bar_number slot_number =
    if not (bar_number == 0) then none else if offset == broken_register then some eperm else none
