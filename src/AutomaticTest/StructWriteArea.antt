-- ===== src/AutomaticTest/StructWriteArea.antt =====
-- `writeArea` of StructReaderWriter.cc against the board.
use pciedummy_driver.Common.{
  ℕ, zero, suc, ◌+◌, ◌*◌, ◌^◌, ◌<◌, ◌≡◌, refl, ◌∙◌, ap, Bool, true, some, [], ◌∷◌, List, arith, inl,
  inr, Bool-cases, length,
}
use pciedummy_driver.Common.Bytes.{u32, word_at, AreBytes}
use pciedummy_driver.State.{MtcaDummyControl}
use pciedummy_driver.Kernel.{Host, Sys, Version}
use pciedummy_driver.Kernel.Laws.{Ends, Ends-mono, Ends-bind, IsCalm}
use pciedummy_driver.Files.{file_ops_of, with_struct}
use pciedummy_driver.Board.{Board, board_of, board_write, board_write_words}
use pciedummy_driver.NoStruct.WriteDma.{sent}
use pciedummy_driver.AutomaticTest.{SystemCalls, IsObject, Follows, ChangesAt, Apart, load}
use pciedummy_driver.AutomaticTest.Contract.{Follows-trans}
use pciedummy_driver.AutomaticTest.StructReaderWriter.{write_single, write_rounds, write_area}
use pciedummy_driver.AutomaticTest.StructRefines.{write_single_ends}

-- A word that is written is one of the board, far below the end of 32 bits.
board_write_inside :
    (v : Version) (spi : Bool) (bar offset x : ℕ) (b : Board)
    → (board_write v spi bar offset x b).0 ≡ true
    → offset < 4096
unfolding board_write
board_write_inside v spi bar offset x b good = ground arith

word_of_bytes_small : (bs : List ℕ) → length bs ≡ 4 → AreBytes bs → word_at bs 0 < 2 ^ 32
word_of_bytes_small [] e h = omega (arith, e)
word_of_bytes_small (b0 ∷ []) e h = omega (arith, e)
word_of_bytes_small (b0 ∷ b1 ∷ []) e h = omega (arith, e)
word_of_bytes_small (b0 ∷ b1 ∷ b2 ∷ []) e h = omega (arith, e)
word_of_bytes_small (b0 ∷ b1 ∷ b2 ∷ b3 ∷ bs) e h = omega (arith, h.0, h.1.0, h.1.1.0, h.1.1.1.0)

module _ {M : Type 0} ⦃host : Host M⦄ where
  sent_small : (m : M) (buf k : ℕ) → sent m buf k < 2 ^ 32
  sent_small m buf k =
      let h = host.filled m (buf + k * 4) 4 in
      word_of_bytes_small (host.copy_from_user m (buf + k * 4) 4).0 h.0 h.1

module _ {M : Type 0} ⦃host : Host M⦄ ⦃calls : SystemCalls M⦄ (i a : ℕ) (hi : i < 7)
    (reads : (file_ops_of i).read ≡ some with_struct)
    (writes : (file_ops_of i).write ≡ some with_struct) (object : IsObject host a 24)
    (offset bar buf total : ℕ) (hb : bar < 2 ^ 32) (apart : Apart a 24 buf (total * 4)) where
  Apart-word : (k : ℕ) → k < total → Apart a 24 (buf + k * 4) 4
  Apart-word k h = elim apart [ inl below ↦ inl (omega arith) | inr above ↦ inr (omega arith) ]

  module _ (m : M) (c : MtcaDummyControl) where
    -- In `s` the words to be sent are those of `m`, and the board is `b`.
    record Sending (b : Board) (s : Sys M) : Type 0 where
      calm : IsCalm s
      control : s.control ≡ c
      board : board_of (s.devices i) ≡ b
      words :
          (j : ℕ)
          → j < total
          → host.copy_from_user s.user (buf + j * 4) 4 ≡ host.copy_from_user m (buf + j * 4) 4

    abbrev Sent : Bool × Board → Sys M → Bool → Sys M → Type 0
    Sent w s good t = (good ≡ w.0) × Follows i w.1 s t × ChangesAt a 24 s t

    Sending-next :
        (b b' : Board) (s t : Sys M)
        → Sending b s
        → Follows i b' s t
        → ChangesAt a 24 s t
        → Sending b' t
    Sending-next b b' s t h f ch = record {
      calm = f.calm;
      control = f.control ∙ h.control;
      board = f.board;
      words = λ j below. ch (buf + j * 4) 4 (Apart-word j below) ∙ h.words j below;
    }

    word_sent :
        (k o : ℕ) (b : Board) (s : Sys M)
        → Sending b s
        → k < total
        → o ≡ offset + k * 4
        → o < 2 ^ 32
        → Ends
            (Sent (board_write host.version c.spi_error bar o (sent m buf k) b) s)
            (write_single i a (u32 (offset + k * 4)) bar (sent s.user buf k) s)
    word_sent k o b s h below at small =
        Ends-mono (write_single i a (u32 (offset + k * 4)) bar (sent s.user buf k) s)
          (write_single_ends i a hi reads writes object (u32 (offset + k * 4)) bar
            (sent s.user buf k) s h.calm (omega arith) hb (sent_small s.user buf k))
          λ good t (e, f, ch). (
            e ∙ ap (λ (w : Bool × Board). w.0) same,
            record {
              calm = f.calm;
              control = f.control;
              board = f.board ∙ ap (λ (w : Bool × Board). w.1) same;
            },
            ch,
          )
      where
        the_offset : u32 (offset + k * 4) ≡ o
        the_offset = omega (arith, at, small)

        same_word : sent s.user buf k ≡ sent m buf k
        same_word = ap (λ (p : List ℕ × ℕ). word_at p.0 0) (h.words k below)

        same :
            board_write host.version s.control.spi_error bar
              (u32 (offset + k * 4))
              (sent s.user buf k)
              (board_of (s.devices i))
            ≡ board_write host.version c.spi_error bar o (sent m buf k) b
        same = cc (h.control, same_word, h.board, the_offset)

    Sent-after :
        (w w' : Bool × Board) (s t : Sys M) (good : Bool) (u : Sys M)
        → Follows i w.1 s t
        → ChangesAt a 24 s t
        → Sent w' t good u
        → Sent w' s good u
    Sent-after w w' s t good u f ch (e, f', ch') =
        (e, Follows-trans i w.1 w'.1 s t u f f', λ b' l p. ch' b' l p ∙ ch b' l p)

    write_rounds_ends :
        (n k o : ℕ) (b : Board) (s : Sys M)
        → Sending b s
        → k + n ≡ total
        → o ≡ offset + k * 4
        → o < 2 ^ 32
        → Ends
            (Sent (board_write_words host.version c.spi_error bar (sent m buf) n k o b) s)
            (write_rounds i a n k offset bar buf s)
    unfolding write_rounds board_write_words load
    write_rounds_ends zero k o b s h e at small =
        (refl, record { calm = h.calm; control = refl; board = h.board }, λ b' l p. refl)
    write_rounds_ends (suc n) k o b s h e at small =
        Ends-bind
          (Sent (board_write_words host.version c.spi_error bar (sent m buf) (suc n) k o b) s)
          (write_single i a (u32 (offset + k * 4)) bar (sent s.user buf k) s) _
          (word_sent k o b s h (omega arith) at small)
          λ good t (e', f, ch). elim (Bool-cases w.0) [
            | inl g ↦
                rw (e', g)
                  (Ends-mono (write_rounds i a n (k + 1) offset bar buf t)
                    (write_rounds_ends n (k + 1) (o + 4) w.1 t (Sending-next b w.1 s t h f ch)
                      (omega arith) (omega (arith, at))
                      (omega (
                        arith,
                        board_write_inside host.version c.spi_error bar o (sent m buf k) b g,
                      )))
                    (λ good' u q. Sent-after w (later w.1) s t good' u f ch q))
            | inr g ↦ rw (e', g) (refl, f, ch)
          ]
      where
        w : Bool × Board
        w = board_write host.version c.spi_error bar o (sent m buf k) b

        later : Board → Bool × Board
        later b' = board_write_words host.version c.spi_error bar (sent m buf) n (k + 1) (o + 4) b'

  pub write_area_ends :
      (s : Sys M)
      → IsCalm s
      → offset < 2 ^ 32
      → Ends
          (Sent s.user s.control
            (board_write_words host.version s.control.spi_error bar
              (sent s.user buf)
              total
              0
              offset
              (board_of (s.devices i)))
            s)
          (write_area i a offset bar total buf s)
  unfolding write_area
  write_area_ends s calm ho =
      write_rounds_ends s.user s.control total 0 offset (board_of (s.devices i)) s
        (record { calm = calm; control = refl; board = refl; words = λ j l. refl }) (omega arith)
        (omega arith) ho
