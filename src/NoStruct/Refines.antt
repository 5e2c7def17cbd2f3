-- ===== src/NoStruct/Refines.antt =====
-- The loops of mtcadummy_rw_no_struct.c as a whole, against reads and writes of words of the board.
use pciedummy_driver.Common.{
  ℕ, zero, suc, ◌+◌, ◌*◌, ◌≤◌, ◌<◌, ◌≡◌, refl, ◌∙◌, ap, Bool, false, inl, inr, none, some, [], ◌∷◌,
  arith, if◌then◌else◌, Bool-cases,
}
use pciedummy_driver.State.{MtcaDummyControl, bar_size}
use pciedummy_driver.Kernel.{Ssize, eio, Host, Sys, dev_mutex, unlock_and_fail, unlock_and_return}
use pciedummy_driver.Kernel.Laws.{Ends, Ends-mono, Ends-bind, count_of, is_restart}
use pciedummy_driver.Board.{Board, board_of, board_write, board_write_words}
use pciedummy_driver.NoStruct.{TransferInformation, add64, fail_at, write_words, write_word}
use pciedummy_driver.NoStruct.WriteDma.{sent}
use pciedummy_driver.NoStruct.WriteWord.{InBar, write_word-board_write}

module _ {M : Type 0} ⦃host : Host M⦄ (i buf : ℕ) (info : TransferInformation) (u : M)
    (c : MtcaDummyControl) where
  -- The words that the process sends, written to the board from word `k` of the transfer on.
  abbrev pub words_written : ℕ → ℕ → ℕ → Board → Bool × Board
  words_written n k offset b =
      board_write_words host.version c.spi_error info.bar (sent u buf) n k offset b

  -- How the loop ends, by what the board says of its words.
  abbrev pub Answers : Bool × Board → Ssize × ℕ → Sys M → Type 0
  Answers w r t =
      (count_of r.0 ≡ (if w.0 then some info.n_bytes_to_transfer else none))
      × (is_restart r.0 ≡ false)
      × (t.signals ≡ [])
      × (board_of (t.devices i) ≡ w.1)

  -- In `s` the loop stands before word `k`, which has the address `offset` in the bar.
  pub record At (k offset : ℕ) (b : Board) (s : Sys M) : Type 0 where
    pub held : s.held ≡ dev_mutex i ∷ []
    pub slot : (s.devices i).slot_nr ≡ i
    pub no_signal : s.signals ≡ []
    pub control : s.control ≡ c
    pub user : s.user ≡ u
    pub board : board_of (s.devices i) ≡ b
    pub position : offset ≡ info.offset + k * 4

  module _ (hi : i < 7) (inside : InBar info) where
    word_step :
        (k offset : ℕ) (b : Board) (s : Sys M)
        → At k offset b s
        → offset < bar_size info.bar_start
        → (host.copy_from_user u (buf + k * 4) 4).1 ≡ 0
        → let w = board_write host.version c.spi_error info.bar offset (sent u buf k) b in
          Ends
            (λ e t. (e ≡ (if w.0 then none else some eio)) × At (k + 1) (offset + 4) w.1 t)
            (write_word k info i buf s)
    word_step k offset b s at fits copied =
        Ends-mono (write_word k info i buf s)
          (write_word-board_write i buf info hi k s inside at.held at.slot at.no_signal
            (omega (arith, fits, at.position)) (rw at.user copied))
          λ e t h. (
            h.0 ∙ ap (λ (w : Bool × Board). if w.0 then none else some eio) same,
            record {
              held = h.2 ∙ at.held;
              slot = h.4.slot_nr ∙ at.slot;
              no_signal = h.1;
              control = h.4.control ∙ at.control;
              user = h.3 ∙ at.user;
              board = h.5 ∙ ap (λ (w : Bool × Board). w.1) same;
              position = omega (arith, at.position);
            },
          )
      where
        same :
            board_write host.version s.control.spi_error info.bar
              (info.offset + k * 4)
              (sent s.user buf k)
              (board_of (s.devices i))
            ≡ board_write host.version c.spi_error info.bar offset (sent u buf k) b
        same = cc (at.control, at.user, at.board, at.position)

    ends_failed :
        (w : Bool × Board) (k offset pos : ℕ) (t : Sys M)
        → w.0 ≡ false
        → At k offset w.1 t
        → Ends (Answers w) (fail_at pos i eio t)
    unfolding fail_at unlock_and_fail
    ends_failed w k offset pos t failed at = ground arith

    pub write_words-board_write_words :
        (n k offset pos : ℕ) (b : Board) (s : Sys M)
        → At k offset b s
        → offset + n * 4 ≤ bar_size info.bar_start
        → ((j : ℕ) → j < k + n → (host.copy_from_user u (buf + j * 4) 4).1 ≡ 0)
        → Ends (Answers (words_written n k offset b)) (write_words n k info i buf pos s)
    unfolding write_words board_write_words
    write_words-board_write_words zero k offset pos b s at fits readable =
        unfold unlock_and_return in ground arith
    write_words-board_write_words (suc n) k offset pos b s at fits readable =
        Ends-bind (Answers (words_written (suc n) k offset b)) (write_word k info i buf s) _
          (word_step k offset b s at (omega (arith, fits)) (readable k (omega arith)))
          λ e t (ends, at'). elim (Bool-cases w.0) [
            | inl good ↦
                rw (ends, good)
                  (write_words-board_write_words n (k + 1) (offset + 4) (add64 pos 4) w.1 t at'
                    (omega (arith, fits)) (λ j h. readable j (omega arith)))
            | inr bad ↦
                rw (ends, bad) (ends_failed (false, w.1) (k + 1) (offset + 4) pos t refl at')
          ]
      where
        w : Bool × Board
        w = board_write host.version c.spi_error info.bar offset (sent u buf k) b
