-- ===== src/AutomaticTest/MtcaDummyTest/Words.antt =====
-- The words of the board that the tests of single words use.
use pciedummy_driver.Common.{
  ℕ, ◌≡◌, refl, ap, Bool, true, false, none, some, arith, ◌==◌, if◌then◌else◌,
}
use pciedummy_driver.Common.Bytes.{u32}
use pciedummy_driver.Kernel.{Version}
use pciedummy_driver.Firmware.Table.{system_word_after, dma_word_after, is_broken}
use pciedummy_driver.Board.{Board, board_read, board_write}
use pciedummy_driver.AutomaticTest.Contract.{word_of}

pub user_read : (c : Board) → word_of (board_read c 0 0x0C) ≡ some (u32 (c.system 3))
unfolding board_read
user_read c = refl

pub dma_read : (c : Board) → word_of (board_read c 2 0x20) ≡ some (u32 (c.dma 8))
unfolding board_read
dma_read c = refl

pub broken_read : (c : Board) → word_of (board_read c 0 0x48) ≡ none
unfolding board_read
broken_read c = refl

pub broken_write_read : (c : Board) → word_of (board_read c 0 0x4C) ≡ some (u32 (c.system 19))
unfolding board_read
broken_write_read c = refl

module _ (v : Version) (spi : Bool) where
  pub broken_written : (c : Board) → (board_write v spi 0 0x48 42 c).0 ≡ false
  unfolding board_write is_broken
  broken_written c = refl

  pub broken_write_written : (c : Board) → (board_write v spi 0 0x4C 42 c).0 ≡ false
  unfolding board_write is_broken
  broken_write_written c = refl

  pub user_written : (x : ℕ) (c : Board) → (board_write v spi 0 0x0C x c).0 ≡ true
  unfolding board_write is_broken
  user_written x c = refl

  pub user_kept :
      (c : Board) (x : ℕ)
      → word_of (board_read (board_write v spi 0 0x0C (u32 x) c).1 0 0x0C) ≡ some (u32 x)
  unfolding board_read board_write system_word_after
  user_kept c x = ap some (omega arith)

  pub dma_written : (x : ℕ) (c : Board) → (board_write v spi 2 0x20 x c).0 ≡ true
  unfolding board_write
  dma_written x c = refl

  pub dma_kept :
      (c : Board) (x : ℕ)
      → word_of (board_read (board_write v spi 2 0x20 (u32 x) c).1 2 0x20) ≡ some (u32 x)
  unfolding board_read board_write
  dma_kept c x = ap some (omega arith)

module _ (v : Version) (spi : Bool) where
  pub user_dummy : (x : ℕ) (c : Board) → (board_write v spi 0 0x0C x c).1.system 15 ≡ c.system 15
  unfolding board_write system_word_after
  user_dummy x c = refl

  pub user_dma : (x : ℕ) (c : Board) (q : ℕ) → (board_write v spi 0 0x0C x c).1.dma q ≡ c.dma q
  unfolding board_write dma_word_after
  user_dma x c q = refl

  pub word_8_dma :
      (x : ℕ) (c : Board) (q : ℕ)
      → (board_write v spi 2 0x20 x c).1.dma q
        ≡ (if q == 8 then (board_write v spi 2 0x20 x c).1.dma q else c.dma q)
  unfolding board_write
  word_8_dma x c q = ground arith

  pub word_8_dummy : (x : ℕ) (c : Board) → (board_write v spi 2 0x20 x c).1.system 15 ≡ c.system 15
  unfolding board_write
  word_8_dummy x c = refl

  -- The broken registers store what is written all the same.
  pub broken_dummy :
      (c : Board)
      → ((board_write v spi 0 0x48 42 c).1.system 15 ≡ c.system 15)
        × ((board_write v spi 0 0x4C 42 c).1.system 15 ≡ c.system 15)
  unfolding board_write system_word_after
  broken_dummy c = (refl, refl)

  pub broken_dma :
      (c : Board) (q : ℕ)
      → ((board_write v spi 0 0x48 42 c).1.dma q ≡ c.dma q)
        × ((board_write v spi 0 0x4C 42 c).1.dma q ≡ c.dma q)
  unfolding board_write dma_word_after
  broken_dma c q = (refl, refl)
