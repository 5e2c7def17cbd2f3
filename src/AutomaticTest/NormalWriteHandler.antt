-- ===== src/AutomaticTest/NormalWriteHandler.antt =====
-- The handler of `pwrite` for the areas of NormalReaderWriter.cc, against the board.
use pciedummy_driver.Common.{
  ℕ, ◌+◌, ◌*◌, ◌/◌, ◌^◌, ◌≤◌, ◌<◌, ◌≡◌, refl, sym, ◌∙◌, ap, Bool, true, false, ◌&&◌, inl, inr,
  arith, ◌==◌, Bool-cases,
}
use pciedummy_driver.Kernel.{Ssize, error, efault, Host, Sys}
use pciedummy_driver.Kernel.Laws.{Ends, Ends-bind, IsCalm, ChangesBars, count_of, is_restart}
use pciedummy_driver.Files.{no_struct}
use pciedummy_driver.Driver.{write_with}
use pciedummy_driver.Board.{Board, board_of, board_write_words}
use pciedummy_driver.Board.Areas.{board_write_words_clip, board_write_words_refused}
use pciedummy_driver.NoStruct.{write_words, mtca_dummy_write_no_struct}
use pciedummy_driver.NoStruct.Check.{is_addressable, transfer_at, position_offset}
use pciedummy_driver.NoStruct.Refines.{Answers, words_written}
use pciedummy_driver.NoStruct.Transfers.{
  words_at, with_transfer_rejects, mtca_dummy_write_no_struct-board_write_words,
}
use pciedummy_driver.NoStruct.WriteDma.{sent}
use pciedummy_driver.AutomaticTest.{IsObject, Follows, is_count, max_rw_count}
use pciedummy_driver.AutomaticTest.Contract.{ChangesBars-Follows}
use pciedummy_driver.AutomaticTest.NormalPositions.{
  pos, position_bar_lem, position_offset_lem, is_addressable_outside, words_at-IsClip, same_count,
}
use pciedummy_driver.AutomaticTest.NormalReadHandler.{is_count_if}

module _ {M : Type 0} ⦃host : Host M⦄ (i : ℕ) (hi : i < 7) (offset bar n buf : ℕ) (s : Sys M)
    (hb : bar < 6) (ho : offset < 2 ^ 32) (some_word : 0 < n) (few : n * 4 ≤ max_rw_count)
    (buffer : IsObject host buf (n * 4)) (calm : IsCalm s) where
  abbrev p : ℕ
  p = pos bar offset hb ho

  -- The first `m` words of the buffer, written to the board.
  abbrev w : ℕ → Bool × Board
  w m =
      board_write_words host.version s.control.spi_error bar (sent s.user buf) m 0 offset
        (board_of (s.devices i))

  -- How the handler ends.
  abbrev pub AreaWritten : Ssize → Sys M → Type 0
  AreaWritten a t =
      (is_count (count_of a) (n * 4) ≡ (w n).0) × Follows i (w n).1 s t × (t.user ≡ s.user)

  module _ (ad : is_addressable p ≡ true) where
    abbrev m : ℕ
    m = words_at (n * 4) p

    written_at :
        words_written i buf
          (transfer_at (n * 4) p)
          s.user
          s.control
          m
          0
          (position_offset p)
          (board_of (s.devices i))
        ≡ w m
    written_at = cc (position_bar_lem bar offset hb ho, position_offset_lem bar offset hb ho)

    whole : w n ≡ ((w m).0 && (m == n), (w m).1)
    whole =
        board_write_words_clip host.version s.control.spi_error bar (sent s.user buf) m n 0 offset
          (board_of (s.devices i)) (words_at-IsClip bar offset hb ho n ad)

    accepted :
        (r : Ssize × ℕ) (t : Sys M)
        → Answers i buf
            (transfer_at (n * 4) p)
            s.user
            s.control
            (words_written i buf
              (transfer_at (n * 4) p)
              s.user
              s.control
              m
              0
              (position_offset p)
              (board_of (s.devices i)))
            r
            t
        → ChangesBars i s t
        → t.user ≡ s.user
        → AreaWritten r.0 t
    accepted r t h ch user = (
      rw (h.0, written_at)
          (is_count_if (w m).0 (transfer_at (n * 4) p).n_bytes_to_transfer (n * 4)
            ∙ ap (λ (x : Bool). (w m).0 && x) (same_count bar offset hb ho n ad)
            ∙ sym (ap (λ (x : Bool × Board). x.0) whole)),
      ChangesBars-Follows i (w n).1 s t calm ch h.2 (
          h.3
          ∙ ap (λ (x : Bool × Board). x.1) written_at
          ∙ sym (ap (λ (x : Bool × Board). x.1) whole)),
      user,
    )

  pub handler_ends :
      Ends
        (λ a t. AreaWritten a t × (is_restart a ≡ false))
        (write_with no_struct i buf (n * 4) p s)
  unfolding write_with mtca_dummy_write_no_struct
  handler_ends = elim (Bool-cases (is_addressable p)) [
    | inl ad ↦
        Ends-bind (λ a t. AreaWritten a t × (is_restart a ≡ false))
          (mtca_dummy_write_no_struct i buf (n * 4) p s) _
          (mtca_dummy_write_no_struct-board_write_words i buf (n * 4) p s hi calm
            (omega (arith, few)) (omega (arith, hb, ho)) (omega arith) ad
            λ j l.
              buffer.readable s.user (buf + j * 4) 4 (omega arith)
                (omega (arith, words_at-IsClip bar offset hb ho n ad)))
          λ r t h. (accepted ad r t h.0 h.1.0 h.1.1, h.0.1)
    | inr bad ↦
        rw
          (with_transfer_rejects (λ c. c.write_error) i (n * 4) p
            (λ info. write_words (info.n_bytes_to_transfer / 4) 0 info i buf p) s calm.ready.free
            calm.no_signal calm.no_write_failure (omega (arith, few)) (ground arith))
          (refused bad)
  ]
    where
      refused :
          is_addressable p ≡ false
          → AreaWritten (error efault) s × (is_restart (error efault) ≡ false)
      refused bad =
          let nothing : w n ≡ (false, board_of (s.devices i)) =
            board_write_words_refused host.version s.control.spi_error bar (sent s.user buf) n 0
              offset (board_of (s.devices i)) some_word
              (is_addressable_outside bar offset hb ho bad) in
          (
            (
              sym (ap (λ (x : Bool × Board). x.0) nothing),
              record {
                calm = calm;
                control = refl;
                board = sym (ap (λ (x : Bool × Board). x.1) nothing);
              },
              refl,
            ),
            refl,
          )
