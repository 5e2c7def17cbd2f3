-- ===== src/AutomaticTest/Contract.antt =====
-- What the class `ReaderWriter` promises: its operations are those of the board.
use pciedummy_driver.Common.{
  ℕ, ◌+◌, ◌*◌, ◌^◌, ◌≤◌, ◌<◌, ◌≡◌, refl, ◌∙◌, true, Option, none, some, [],
}
use pciedummy_driver.Common.Bytes.{u32}
use pciedummy_driver.Kernel.{Host, Sys}
use pciedummy_driver.Kernel.Laws.{
  Ends, IsCalm, ReadsOnly, ReadsOnly-IsReady, ChangesBars, ChangesBars-IsReady,
}
use pciedummy_driver.Board.{
  Board, board_of, content, board_read, board_write, board_write_words, board_readable,
}
use pciedummy_driver.NoStruct.ReadLoop.{WordsAt}
use pciedummy_driver.NoStruct.WriteDma.{sent}
use pciedummy_driver.AutomaticTest.{ReaderWriter, IsObject, Follows, ChangesAt, Apart, max_rw_count}

-- A word of the board as an `int32_t`.
abbrev pub word_of : Option ℕ → Option ℕ
word_of none = none
word_of (some w) = some (u32 w)

module _ {M : Type 0} ⦃host : Host M⦄ where
  -- `client` has the board of device `i` behind it. The `n` bytes from `a` on are its local objects.
  pub record Serves (i a n : ℕ) (client : ReaderWriter M) : Type 0 where
    pub reads_single :
        (offset bar : ℕ) (s : Sys M)
        → IsCalm s
        → offset < 2 ^ 32
        → bar < 2 ^ 32
        → let b = board_of (s.devices i) in
          Ends
            (λ w t. (w ≡ word_of (board_read b bar offset)) × Follows i b s t × ChangesAt a n s t)
            (client.read_single offset bar s)
    pub writes_single :
        (offset bar value : ℕ) (s : Sys M)
        → IsCalm s
        → offset < 2 ^ 32
        → bar < 2 ^ 32
        → value < 2 ^ 32
        → let w =
            board_write host.version s.control.spi_error bar offset value
              (board_of (s.devices i)) in
          Ends
            (λ good t. (good ≡ w.0) × Follows i w.1 s t × ChangesAt a n s t)
            (client.write_single offset bar value s)
    pub reads_area :
        (offset bar n_words buf : ℕ) (s : Sys M)
        → IsCalm s
        → offset < 2 ^ 32
        → bar < 2 ^ 32
        → 0 < n_words
        → n_words * 4 ≤ max_rw_count
        → IsObject host buf (n_words * 4)
        → Apart a n buf (n_words * 4)
        → let b = board_of (s.devices i) in
          Ends
            (λ good t.
              (good ≡ board_readable b bar n_words offset)
              × Follows i b s t
              × (good ≡ true → WordsAt t.user buf (λ j. content b bar (offset + j * 4)) n_words)
              × ((c k : ℕ)
                  → Apart a n c k
                  → Apart buf (n_words * 4) c k
                  → host.copy_from_user t.user c k ≡ host.copy_from_user s.user c k))
            (client.read_area offset bar n_words buf s)
    pub writes_area :
        (offset bar n_words buf : ℕ) (s : Sys M)
        → IsCalm s
        → offset < 2 ^ 32
        → bar < 2 ^ 32
        → 0 < n_words
        → n_words * 4 ≤ max_rw_count
        → IsObject host buf (n_words * 4)
        → Apart a n buf (n_words * 4)
        → let w =
            board_write_words host.version s.control.spi_error bar
              (sent s.user buf)
              n_words
              0
              offset
              (board_of (s.devices i)) in
          Ends
            (λ good t. (good ≡ w.0) × Follows i w.1 s t × ChangesAt a n s t)
            (client.write_area offset bar n_words buf s)

  pub ReadsOnly-Follows :
      (i : ℕ) (s t : Sys M)
      → IsCalm s
      → ReadsOnly s t
      → t.signals ≡ []
      → Follows i (board_of (s.devices i)) s t
  ReadsOnly-Follows i s t calm reads sig = record {
    calm = record {
      ready = ReadsOnly-IsReady s t reads calm.ready;
      no_signal = sig;
      no_read_failure = rw reads.control calm.no_read_failure;
      no_write_failure = rw reads.control calm.no_write_failure;
    };
    control = reads.control;
    board = rw reads.devices refl;
  }

  pub ChangesBars-Follows :
      (i : ℕ) (b : Board) (s t : Sys M)
      → IsCalm s
      → ChangesBars i s t
      → t.signals ≡ []
      → board_of (t.devices i) ≡ b
      → Follows i b s t
  ChangesBars-Follows i b s t calm changes sig same = record {
    calm = record {
      ready = ChangesBars-IsReady i s t changes calm.ready;
      no_signal = sig;
      no_read_failure = rw changes.control calm.no_read_failure;
      no_write_failure = rw changes.control calm.no_write_failure;
    };
    control = changes.control;
    board = same;
  }

  -- The process has changed its memory in between.
  pub Follows-from :
      (i : ℕ) (b : Board) (s : Sys M) (m : M) (t : Sys M)
      → Follows i b (record s { user = m }) t
      → Follows i b s t
  Follows-from i b s m t h = record { calm = h.calm; control = h.control; board = h.board }

  pub IsCalm-user : (s : Sys M) (m : M) → IsCalm s → IsCalm (record s { user = m })
  IsCalm-user s m calm = record {
    ready = record { free = calm.ready.free; slots = calm.ready.slots };
    no_signal = calm.no_signal;
    no_read_failure = calm.no_read_failure;
    no_write_failure = calm.no_write_failure;
  }

  pub Follows-trans :
      (i : ℕ) (b c : Board) (s t u : Sys M) → Follows i b s t → Follows i c t u → Follows i c s u
  Follows-trans i b c s t u p q = record {
    calm = q.calm;
    control = q.control ∙ p.control;
    board = q.board;
  }
