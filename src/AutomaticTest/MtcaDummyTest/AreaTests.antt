-- ===== src/AutomaticTest/MtcaDummyTest/AreaTests.antt =====
-- The tests of areas.
use pciedummy_driver.Common.{
  ℕ, ◌+◌, ◌-◌, ◌*◌, ◌^◌, ◌≤◌, ◌<◌, ◌≡◌, refl, ◌∙◌, ap, Bool, true, List, arith, inl, inr,
}
use pciedummy_driver.Common.Bytes.{word_at, bytes_of_word, word_at-bytes_of_word}
use pciedummy_driver.Kernel.{Host, Sys}
use pciedummy_driver.Kernel.Laws.{Ends, Ends-bind}
use pciedummy_driver.Board.{Board, board_of}
use pciedummy_driver.AutomaticTest.{ReaderWriter, Follows, Apart}
use pciedummy_driver.AutomaticTest.Contract.{Serves, IsCalm-user}
use pciedummy_driver.AutomaticTest.MtcaDummyTest.{test_read_area}
use pciedummy_driver.AutomaticTest.MtcaDummyTest.Areas.{
  Apart-within, IsObject-within, read_area_ends,
}
use pciedummy_driver.AutomaticTest.MtcaDummyTest.Prepared.{Layout, helix_word_small, Prepared}
use pciedummy_driver.AutomaticTest.MtcaDummyTest.Vectors.{
  element, stored, stored-element, stored-outside, store_words_lem, checked-true, check_words_lem,
}

-- A value that no test writes.
abbrev filler : ℕ
filler = 0xB0B0B0B0

module _ {M : Type 0} ⦃host : Host M⦄ (i a n helix expected buf : ℕ) (client : ReaderWriter M)
    (serves : Serves i a n client) (layout : Layout host a n helix expected buf) where
  module _ (s : Sys M) (p : Prepared i a n helix expected buf client serves layout s) where
    -- The state with `readBuffer` filled.
    abbrev filled : Sys M
    filled = record s { user = stored 1024 0 buf (λ k. filler) s.user }

    filled_elements : (j : ℕ) → j < 1024 → element filled.user buf j ≡ (bytes_of_word filler, 0)
    filled_elements j below =
        let e =
          stored-element buf 1024 layout.buf_object 1024 0 (λ k. filler) s.user j (omega arith) in
        ground (arith, e)

    -- What the check of the vector finds after the words 13 to 17 were read.
    abbrev Found : M → Type 0
    Found m =
        ((j : ℕ) → j < 13 → word_at (element m buf j).0 0 ≡ filler)
        × ((j : ℕ) → 13 ≤ j → j < 18 → word_at (element m buf j).0 0 ≡ j * j)
        × ((j : ℕ) → 18 ≤ j → j < 1024 → word_at (element m buf j).0 0 ≡ filler)

    read-Found :
        (t : Sys M)
        → ((j : ℕ)
            → j < 5
            → element t.user (buf + 13 * 4) j ≡ (bytes_of_word ((s.devices i).dma_bar (13 + j)), 0))
        → ((c k : ℕ)
            → Apart a n c k
            → Apart (buf + 13 * 4) (5 * 4) c k
            → host.copy_from_user t.user c k ≡ host.copy_from_user filled.user c k)
        → Found t.user
    read-Found t inside outside = (
      (λ j below. untouched j (omega (arith, below)) (inl (omega (arith, below)))),
      (λ j lo hi.
          let place : buf + j * 4 ≡ buf + 13 * 4 + (j - 13) * 4 = omega (arith, lo) in
          let same : 13 + (j - 13) ≡ j = omega (arith, lo) in
          ap (λ x. word_at (host.copy_from_user t.user x 4).0 0) place
          ∙ ap (λ (r : List ℕ × ℕ). word_at r.0 0) (inside (j - 13) (omega (arith, lo, hi)))
          ∙ ap (λ q. word_at (bytes_of_word ((s.devices i).dma_bar q)) 0) same
          ∙ ap (λ x. word_at (bytes_of_word x) 0) (square j lo hi)
          ∙ word_at-bytes_of_word (j * j) (small j hi)),
      (λ j lo hi. untouched j hi (inr (omega (arith, lo)))),
    )
      where
        untouched :
            (j : ℕ)
            → j < 1024
            → Apart (buf + 13 * 4) (5 * 4) (buf + j * 4) 4
            → word_at (element t.user buf j).0 0 ≡ filler
        untouched j below apart =
            ap (λ (r : List ℕ × ℕ). word_at r.0 0)
              (outside (buf + j * 4) 4
                  (Apart-within a n buf (1024 * 4) (buf + j * 4) 4 layout.buf_local (omega arith)
                    (omega (arith, below)))
                  apart
                ∙ filled_elements j below)

        square : (j : ℕ) → 13 ≤ j → j < 18 → (s.devices i).dma_bar j ≡ j * j
        square j lo hi = let e = p.dma j (omega (arith, hi)) in ground (arith, e, lo, hi)

        small : (j : ℕ) → j < 18 → j * j < 2 ^ 32
        small j hi = let h = helix_word_small j in ground (arith, h, hi)

    Prepared-read :
        (t : Sys M)
        → Follows i (board_of (s.devices i)) filled t
        → ((c k : ℕ)
            → Apart a n c k
            → Apart (buf + 13 * 4) (5 * 4) c k
            → host.copy_from_user t.user c k ≡ host.copy_from_user filled.user c k)
        → Prepared i a n helix expected buf client serves layout t
    Prepared-read t f outside = record {
      calm = f.calm;
      dummy = ap (λ (b : Board). b.system 15) f.board ∙ p.dummy;
      dma = λ q below.
          let same = ap (λ (b : Board). b.dma q) f.board in
          let e = p.dma q below in ground (arith, same, e);
      elements = λ j below.
          let apart =
            Apart-within buf (1024 * 4) helix (1024 * 4) (helix + j * 4) 4
              (elim layout.helix_buf [
                | inl under ↦ inr (omega (arith, under))
                | inr over ↦ inl (omega (arith, over))
              ])
              (omega arith) (omega (arith, below)) in
          outside (helix + j * 4) 4
            (Apart-within a n helix (1024 * 4) (helix + j * 4) 4 layout.helix_local (omega arith)
              (omega (arith, below)))
            (elim apart [
              | inl under ↦ inl (omega (arith, under))
              | inr over ↦ inr (omega (arith, over))
            ])
          ∙ stored-outside buf 1024 layout.buf_object 1024 0 (λ k. filler) s.user (helix + j * 4) 4
              (omega arith) apart
          ∙ p.elements j below;
    }

    abbrev AreaRead : Bool → Sys M → Type 0
    AreaRead passed t = (passed ≡ true) × Prepared i a n helix expected buf client serves layout t

    pub test_read_area_passes : Ends AreaRead (test_read_area client buf s)
    unfolding test_read_area
    test_read_area_passes = rw (store_words_lem 1024 0 buf (λ k. filler) s) (
        Ends-bind AreaRead (client.read_area (13 * 4) 2 5 (buf + 13 * 4) filled) _
          (read_area_ends i a n client serves (13 * 4) 5 (buf + 13 * 4) filled
            (IsCalm-user s filled.user p.calm) refl (omega arith) (omega arith)
            (IsObject-within buf (1024 * 4) (buf + 13 * 4) (5 * 4) layout.buf_object (omega arith)
              (omega arith))
            (Apart-within a n buf (1024 * 4) (buf + 13 * 4) (5 * 4) layout.buf_local (omega arith)
              (omega arith)))
          λ good t (e, f, inside, outside).
            let found = read-Found t inside outside in
            rw
              (
                e,
                check_words_lem 13 0 buf (λ k. filler) t,
                check_words_lem 5 13 buf (λ k. k * k) t,
                check_words_lem 1006 18 buf (λ k. filler) t,
                checked-true 13 0 buf (λ k. filler) t.user (λ j lo hi. found.0 j hi),
                checked-true 5 13 buf (λ k. k * k) t.user (λ j lo hi. found.1 j lo hi),
                checked-true 1006 18 buf (λ k. filler) t.user (λ j lo hi. found.2 j lo hi),
              )
              (refl, Prepared-read t f outside))
