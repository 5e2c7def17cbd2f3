-- ===== src/State.antt =====
-- mtcadummy.h: the data of one device (`mtcaDummyData`), the control data that the proc file
-- changes (`struct mtcaDummyControl`) and the sizes of the two bars. The two arrays that the
-- driver allocates for a device are functions from the word's index; every access of the model
-- tests the index against the sizes below. `inUse` is an `atomic_t`, kept as its 32-bit pattern.
-- The character device `cdev` is left out, and the mutexes are in Kernel.antt. The pointer `data`
-- of the control data always is the array of all devices, which Kernel.antt holds.
use pciedummy_driver.Common.{ℕ, ◌*◌, ◌^◌, ◌<◌, Bool, update}

abbrev pub mtcadummy_nr_devs : ℕ
mtcadummy_nr_devs = 7

abbrev pub mtcadummy_n_registers : ℕ
mtcadummy_n_registers = 32

-- In bytes.
abbrev pub mtcadummy_dma_size : ℕ
mtcadummy_dma_size = 4096

abbrev pub mtcadummy_dmmy_as_ascii : ℕ
mtcadummy_dmmy_as_ascii = 0x444D4D59

-- `MTCADUMMY_N_REGISTERS * 4`, the size of bar 0 in bytes.
abbrev pub system_bar_size : ℕ
system_bar_size = mtcadummy_n_registers * 4

pub record MtcaDummyData : Type 0 where
  pub in_use : ℕ
  pub slot_nr : ℕ
  pub minor : ℕ
  pub major : ℕ
  pub system_bar : ℕ → ℕ
  pub dma_bar : ℕ → ℕ

pub record MtcaDummyControl : Type 0 where
  pub open_error : Bool
  pub read_error : Bool
  pub write_error : Bool
  pub spi_error : Bool

-- The two arrays of a device: `systemBar` and `dmaBar`.
pub data Bar : Type 0 where
  system_area dma_area : Bar

abbrev pub bar_size : Bar → ℕ
bar_size system_area = system_bar_size
bar_size dma_area = mtcadummy_dma_size

abbrev pub bar_words : Bar → MtcaDummyData → ℕ → ℕ
bar_words system_area d = d.system_bar
bar_words dma_area d = d.dma_bar

abbrev pub set_bar_word : Bar → ℕ → ℕ → MtcaDummyData → MtcaDummyData
set_bar_word system_area k v d = record d { system_bar = update d.system_bar k v }
set_bar_word dma_area k v d = record d { dma_bar = update d.dma_bar k v }

-- Each word of the two arrays is a `u32`.
pub record HasWords (d : MtcaDummyData) : Type 0 where
  pub system_words : (k : ℕ) → k < mtcadummy_n_registers → d.system_bar k < 2 ^ 32
  pub dma_words : (k : ℕ) → k * 4 < mtcadummy_dma_size → d.dma_bar k < 2 ^ 32
