-- ===== src/Board/Dma.antt =====
-- Areas of bar 2.
use pciedummy_driver.Common.{
  ℕ, zero, suc, ◌+◌, ◌-◌, ◌*◌, ◌/◌, ◌%◌, ◌≤◌, ◌<◌, ◌≡◌, refl, ◌∙◌, Bool, true, ◌&&◌, arith,
  if◌then◌else◌, ltb, leb, update,
}
use pciedummy_driver.Kernel.{Version}
use pciedummy_driver.Board.{
  Board, is_some, board_read, board_write, board_readable, board_write_words,
}

-- Word `q` once `n` words from word `first` on are those of `f` from `k` on.
abbrev pub area_word : ℕ → ℕ → ℕ → (ℕ → ℕ) → (ℕ → ℕ) → ℕ → ℕ
area_word first n k f old q =
    if leb first q && ltb q (first + n) then f (k + (q - first)) else old q

dma_readable :
    (b : Board) (offset : ℕ)
    → offset % 4 ≡ 0
    → offset < 4096
    → is_some (board_read b 2 offset) ≡ true
unfolding board_read
dma_readable b offset al h = ground arith

pub board_readable_dma :
    (b : Board) (n offset : ℕ)
    → offset % 4 ≡ 0
    → offset + n * 4 ≤ 4096
    → board_readable b 2 n offset ≡ true
unfolding board_readable
board_readable_dma b zero offset al h = refl
board_readable_dma b (suc n) offset al h =
    rw
      (
        dma_readable b offset al (omega (arith, h)),
        board_readable_dma b n (offset + 4) (omega (arith, al)) (omega (arith, h)),
      )
      refl

dma_write :
    (v : Version) (spi : Bool) (x : ℕ) (b : Board) (offset : ℕ)
    → offset % 4 ≡ 0
    → offset < 4096
    → board_write v spi 2 offset x b ≡ (true, record b { dma = update b.dma (offset / 4) x })
unfolding board_write
dma_write v spi x b offset al h = ground arith

pub board_write_words_dma :
    (v : Version) (spi : Bool) (f : ℕ → ℕ) (n k offset : ℕ) (b : Board)
    → offset % 4 ≡ 0
    → offset + n * 4 ≤ 4096
    → let w = board_write_words v spi 2 f n k offset b in
      (w.0 ≡ true)
      × (w.1.system ≡ b.system)
      × ((q : ℕ) → w.1.dma q ≡ area_word (offset / 4) n k f b.dma q)
unfolding board_write_words
board_write_words_dma v spi f zero k offset b al h = (refl, refl, λ q. ground arith)
board_write_words_dma v spi f (suc n) k offset b al h =
    let rest =
      board_write_words_dma v spi f n (k + 1) (offset + 4)
        (record b { dma = update b.dma (offset / 4) (f k) }) (omega (arith, al))
        (omega (arith, h)) in
    rw (dma_write v spi (f k) b offset al (omega (arith, h)))
      (rest.0, rest.1, λ q. rest.2 q ∙ next q)
  where
    first : (offset + 4) / 4 ≡ offset / 4 + 1
    first = omega arith

    next :
        (q : ℕ)
        → area_word ((offset + 4) / 4) n (k + 1) f (update b.dma (offset / 4) (f k)) q
          ≡ area_word (offset / 4) (suc n) k f b.dma q
    next q = ground (arith, first)
