-- ===== src/Firmware/Registers.antt =====
-- mtcadummy_firmware.h: the byte offsets of the registers in the system bar, and the values of the
-- SPI handshake.
use pciedummy_driver.Common.{ℕ}

abbrev pub word_firmware : ℕ
word_firmware = 0x00

abbrev pub word_compilation : ℕ
word_compilation = 0x04

abbrev pub word_status : ℕ
word_status = 0x08

abbrev pub word_user : ℕ
word_user = 0x0C

abbrev pub word_clk_cnt_0 : ℕ
word_clk_cnt_0 = 0x10

abbrev pub word_clk_cnt_1 : ℕ
word_clk_cnt_1 = 0x14

abbrev pub word_clk_mux_0 : ℕ
word_clk_mux_0 = 0x20

abbrev pub word_clk_mux_1 : ℕ
word_clk_mux_1 = 0x24

abbrev pub word_clk_mux_2 : ℕ
word_clk_mux_2 = 0x28

abbrev pub word_clk_mux_3 : ℕ
word_clk_mux_3 = 0x2C

abbrev pub word_dummy : ℕ
word_dummy = 0x3C

abbrev pub word_clk_rst : ℕ
word_clk_rst = 0x40

abbrev pub word_adc_ena : ℕ
word_adc_ena = 0x44

abbrev pub broken_register : ℕ
broken_register = 0x48

abbrev pub broken_write : ℕ
broken_write = 0x4C

abbrev pub word_spi_write : ℕ
word_spi_write = 0x50

abbrev pub word_spi_read : ℕ
word_spi_read = 0x54

abbrev pub word_spi_sync : ℕ
word_spi_sync = 0x58

abbrev pub spi_sync_ok : ℕ
spi_sync_ok = 0

abbrev pub spi_sync_requested : ℕ
spi_sync_requested = 0xFF

abbrev pub spi_sync_error : ℕ
spi_sync_error = 0xAA
