-- ===== src/Board.antt =====
-- What a process may expect of a device: two arrays of words that are read and written one word at
-- a time, the first one by the register map of Firmware.Table. The handlers of mtcadummy_drv.c and
-- mtcadummy_rw_no_struct.c are compared with it.
pub mod Areas
pub mod Dma
use pciedummy_driver.Common.{
  ◌≡◌, fun_ext, ℕ, zero, suc, ◌+◌, ◌*◌, ◌/◌, ◌%◌, Bool, true, false, not, ◌&&◌, Option, none, some,
  ◌==◌, if◌then◌else◌, ltb, update,
}
use pciedummy_driver.State.{MtcaDummyData}
use pciedummy_driver.Kernel.{Version}
use pciedummy_driver.Firmware.Table.{system_word_after, dma_word_after, is_broken}

pub record Board : Type 0 where
  pub system : ℕ → ℕ
  pub dma : ℕ → ℕ

-- The board that a device of the driver stands for.
abbrev pub board_of : MtcaDummyData → Board
board_of d = record { system = d.system_bar; dma = d.dma_bar }

-- Boards with the same words are the same.
pub Board-ext : (b c : Board) → ((k : ℕ) → (b.system k ≡ c.system k) × (b.dma k ≡ c.dma k)) → b ≡ c
Board-ext b c h = λ j. record { system = fun_ext (λ k. (h k).0) j; dma = fun_ext (λ k. (h k).1) j }

-- The number of bytes of a bar that exists; 0 for the others.
abbrev pub extent : ℕ → ℕ
extent bar = if bar == 0 then 128 else if bar == 2 then 4096 else 0

-- The address of a word.
abbrev pub is_word : ℕ → ℕ → Bool
is_word bar offset = (offset % 4 == 0) && ltb offset (extent bar)

abbrev pub content : Board → ℕ → ℕ → ℕ
content b bar offset = if bar == 0 then b.system (offset / 4) else b.dma (offset / 4)

-- BROKEN_REGISTER cannot be read.
unfoldable pub board_read : Board → ℕ → ℕ → Option ℕ
board_read b bar offset =
    if is_word bar offset && not ((bar == 0) && (offset == 0x48))
    then some (content b bar offset)
    else none

-- Whether the write succeeds, and the board after it.
unfoldable pub board_write : Version → Bool → ℕ → ℕ → ℕ → Board → Bool × Board
board_write v spi_fail bar offset x b =
    if not (is_word bar offset)
    then (false, b)
    else if bar == 0
    then (
      not (is_broken offset),
      record {
        system = system_word_after v spi_fail offset x b.system;
        dma = dma_word_after offset x b.dma;
      },
    )
    else (true, record b { dma = update b.dma (offset / 4) x })

-- The words `f k`, `f (k + 1)`, … from `offset` on, `n` of them, up to the first that fails.
unfoldable pub board_write_words : Version → Bool → ℕ → (ℕ → ℕ) → ℕ → ℕ → ℕ → Board → Bool × Board
board_write_words v spi_fail bar f zero k offset b = (true, b)
board_write_words v spi_fail bar f (suc n) k offset b =
    let (good, b') = board_write v spi_fail bar offset (f k) b in
    let rest = board_write_words v spi_fail bar f n (k + 1) (offset + 4) b' in
    if good then rest else (false, b')

abbrev pub is_some : Option ℕ → Bool
is_some none = false
is_some (some w) = true

-- All `n` words from `offset` on can be read.
unfoldable pub board_readable : Board → ℕ → ℕ → ℕ → Bool
board_readable b bar zero offset = true
board_readable b bar (suc n) offset =
    is_some (board_read b bar offset) && board_readable b bar n (offset + 4)
