-- ===== src/AutomaticTest/MtcaDummyTest/Areas.antt =====
-- Areas of bar 2 read and written by a `ReaderWriter`.
use pciedummy_driver.Common.{
  ℕ, ◌+◌, ◌-◌, ◌*◌, ◌/◌, ◌%◌, ◌^◌, ◌≤◌, ◌<◌, ◌≡◌, ◌∙◌, ap, true, List, arith, inl, inr,
}
use pciedummy_driver.Common.Bytes.{word_at, bytes_of_word, word_at-bytes_of_word}
use pciedummy_driver.Kernel.{Host, Sys}
use pciedummy_driver.Kernel.Laws.{Ends, Ends-mono, IsCalm}
use pciedummy_driver.Board.{Board, board_of, content}
use pciedummy_driver.Board.Dma.{area_word, board_readable_dma, board_write_words_dma}
use pciedummy_driver.NoStruct.WriteDma.{sent}
use pciedummy_driver.AutomaticTest.{ReaderWriter, IsObject, Follows, ChangesAt, Apart}
use pciedummy_driver.AutomaticTest.Contract.{Serves}
use pciedummy_driver.AutomaticTest.MtcaDummyTest.Vectors.{element, WordsAt-element}

pub Apart-within : (a n b k c l : ℕ) → Apart a n b k → b ≤ c → c + l ≤ b + k → Apart a n c l
Apart-within a n b k c l apart lo hi = elim apart [
  | inl below ↦ inl (omega arith)
  | inr above ↦ inr (omega arith)
]

module _ {M : Type 0} ⦃host : Host M⦄ where
  pub IsObject-within :
      (a n b k : ℕ) → IsObject host a n → a ≤ b → b + k ≤ a + n → IsObject host b k
  IsObject-within a n b k h lo hi = record {
    writable = λ m c bs p q. h.writable m c bs (omega arith) (omega arith);
    readable = λ m c l p q. h.readable m c l (omega arith) (omega arith);
    accessible = λ m c l p q. h.accessible m c l (omega arith) (omega arith);
  }

  pub element_word :
      (m : M) (buf j x : ℕ) → x < 2 ^ 32 → element m buf j ≡ (bytes_of_word x, 0) → sent m buf j ≡ x
  element_word m buf j x small e =
      ap (λ (r : List ℕ × ℕ). word_at r.0 0) e ∙ word_at-bytes_of_word x small

module _ {M : Type 0} ⦃host : Host M⦄ (i a n : ℕ) (client : ReaderWriter M)
    (serves : Serves i a n client) where
  -- After the write the words of bar 2 are those of the buffer, in their place.
  pub record Wrote (offset n_words : ℕ) (f : ℕ → ℕ) (s t : Sys M) : Type 0 where
    pub calm : IsCalm t
    pub dummy : (t.devices i).system_bar 15 ≡ (s.devices i).system_bar 15
    pub dma :
        (q : ℕ)
        → (t.devices i).dma_bar q ≡ area_word (offset / 4) n_words 0 f (s.devices i).dma_bar q
    pub memory : ChangesAt a n s t

  module _ (offset n_words buf : ℕ) (s : Sys M) (calm : IsCalm s) (al : offset % 4 ≡ 0)
      (fits : offset + n_words * 4 ≤ 4096) (some_word : 0 < n_words)
      (buffer : IsObject host buf (n_words * 4)) (apart : Apart a n buf (n_words * 4)) where
    pub write_area_ends :
        (f : ℕ → ℕ)
        → ((j : ℕ) → j < n_words → sent s.user buf j ≡ f j)
        → Ends
            (λ good t. (good ≡ true) × Wrote offset n_words f s t)
            (client.write_area offset 2 n_words buf s)
    write_area_ends f words =
        let all =
          board_write_words_dma host.version s.control.spi_error (sent s.user buf) n_words 0 offset
            (board_of (s.devices i)) al fits in
        Ends-mono (client.write_area offset 2 n_words buf s)
          (serves.writes_area offset 2 n_words buf s calm (omega (arith, fits)) (omega arith)
            some_word (omega (arith, fits)) buffer apart)
          λ good t (e, g, ch). (
            e ∙ all.0,
            record {
              calm = g.calm;
              dummy = ap (λ (b : Board). b.system 15) g.board ∙ ap (λ (h : ℕ → ℕ). h 15) all.1;
              dma = λ q. ap (λ (b : Board). b.dma q) g.board ∙ all.2 q ∙ same q;
              memory = ch;
            },
          )
      where
        same :
            (q : ℕ)
            → area_word (offset / 4) n_words 0 (sent s.user buf) (s.devices i).dma_bar q
              ≡ area_word (offset / 4) n_words 0 f (s.devices i).dma_bar q
        same q = ground (arith, words (0 + (q - offset / 4)))

    -- After the read the buffer holds the words of bar 2.
    pub read_area_ends :
        Ends
          (λ good t.
            (good ≡ true)
            × Follows i (board_of (s.devices i)) s t
            × ((j : ℕ)
                → j < n_words
                → element t.user buf j
                  ≡ (bytes_of_word ((s.devices i).dma_bar (offset / 4 + j)), 0))
            × ((c k : ℕ)
                → Apart a n c k
                → Apart buf (n_words * 4) c k
                → host.copy_from_user t.user c k ≡ host.copy_from_user s.user c k))
          (client.read_area offset 2 n_words buf s)
    read_area_ends =
        Ends-mono (client.read_area offset 2 n_words buf s)
          (serves.reads_area offset 2 n_words buf s calm (omega (arith, fits)) (omega arith)
            some_word (omega (arith, fits)) buffer apart)
          λ good t (e, g, ws, el).
            let good_true =
              e ∙ board_readable_dma (board_of (s.devices i)) n_words offset al fits in
            (
              good_true,
              g,
              (λ j below.
                  let place : (offset + j * 4) / 4 ≡ offset / 4 + j = omega (arith, al) in
                  WordsAt-element t.user buf
                    (λ k. content (board_of (s.devices i)) 2 (offset + k * 4)) n_words j
                    (ws good_true) below
                  ∙ ap (λ k. (bytes_of_word ((s.devices i).dma_bar k), 0)) place),
              el,
            )
