-- ===== src/AutomaticTest/MtcaDummyTest/Registers.antt =====
-- The tests of single words, for any `ReaderWriter`.
use pciedummy_driver.Common.{
  ℕ, ◌+◌, ◌^◌, ◌<◌, ◌≡◌, refl, ◌∙◌, ap, Bool, true, some, arith, ◌==◌, if◌then◌else◌, eqb_of_eq,
}
use pciedummy_driver.Common.Bytes.{u32}
use pciedummy_driver.Kernel.{Host, Sys, Cmd}
use pciedummy_driver.Kernel.Laws.{Ends, Ends-mono, Ends-bind, IsCalm}
use pciedummy_driver.Board.{Board, board_of, board_read, board_write}
use pciedummy_driver.AutomaticTest.{ReaderWriter, Follows, ChangesAt}
use pciedummy_driver.AutomaticTest.Contract.{Serves, word_of}
use pciedummy_driver.AutomaticTest.MtcaDummyTest.{
  attempt, ensure, test_read_single_with_error, test_write_single, test_write_single_with_error,
}
use pciedummy_driver.AutomaticTest.MtcaDummyTest.Words.{
  user_read, broken_read, broken_write_read, broken_written, broken_write_written, user_written,
  user_kept, dma_written, dma_kept, user_dummy, user_dma, word_8_dma, word_8_dummy, broken_dummy,
  broken_dma, dma_read,
}

module _ {M : Type 0} ⦃host : Host M⦄ (i a n : ℕ) where
  -- Between `s` and `t` neither WORD_DUMMY nor any word of bar 2 but word 8 has changed, and in
  -- the process's memory only its local objects have.
  pub record Keeps (s t : Sys M) : Type 0 where
    pub calm : IsCalm t
    pub dummy : (t.devices i).system_bar 15 ≡ (s.devices i).system_bar 15
    pub dma :
        (q : ℕ)
        → (t.devices i).dma_bar q
          ≡ (if q == 8 then (t.devices i).dma_bar q else (s.devices i).dma_bar q)
    pub memory : ChangesAt a n s t

  pub Keeps-wrote :
      (b : Board) (s t : Sys M)
      → Follows i b s t
      → ChangesAt a n s t
      → b.system 15 ≡ (s.devices i).system_bar 15
      → ((q : ℕ) → b.dma q ≡ (if q == 8 then b.dma q else (s.devices i).dma_bar q))
      → Keeps s t
  Keeps-wrote b s t f ch dummy dma = record {
    calm = f.calm;
    dummy = ap (λ (c : Board). c.system 15) f.board ∙ dummy;
    dma = λ q. let here = ap (λ (c : Board). c.dma q) f.board in ground (arith, here, dma q);
    memory = ch;
  }

  pub Keeps-read :
      (s t : Sys M) → Follows i (board_of (s.devices i)) s t → ChangesAt a n s t → Keeps s t
  Keeps-read s t f ch = Keeps-wrote (board_of (s.devices i)) s t f ch refl (λ q. ground arith)

  pub Keeps-trans : (s t u : Sys M) → Keeps s t → Keeps t u → Keeps s u
  Keeps-trans s t u p q = record {
    calm = q.calm;
    dummy = q.dummy ∙ p.dummy;
    dma = λ k. ground (arith, q.dma k, p.dma k);
    memory = λ c l apart. q.memory c l apart ∙ p.memory c l apart;
  }

  abbrev pub Passes : Sys M → Bool → Sys M → Type 0
  Passes s passed t = (passed ≡ true) × Keeps s t

  Passes-after :
      (s t : Sys M) (passed : Bool) (u : Sys M) → Keeps s t → Passes t passed u → Passes s passed u
  Passes-after s t passed u k (e, h) = (e, Keeps-trans s t u k h)

module _ {M : Type 0} ⦃host : Host M⦄ (i a n : ℕ) (client : ReaderWriter M)
    (serves : Serves i a n client) where
  -- A test whose reading of a word gives `w` goes on with it, on the same board.
  pub attempt_ends :
      (offset bar w : ℕ) (s : Sys M) (rest : ℕ → Cmd M Bool)
      → IsCalm s
      → offset < 2 ^ 32
      → bar < 2 ^ 32
      → word_of (board_read (board_of (s.devices i)) bar offset) ≡ some w
      → ((t : Sys M) → Follows i (board_of (s.devices i)) s t → Ends (Passes i a n t) (rest w t))
      → Ends (Passes i a n s) (attempt (client.read_single offset bar) rest s)
  attempt_ends offset bar w s rest calm ho hb found later =
      Ends-bind (Passes i a n s) (client.read_single offset bar s) _
        (serves.reads_single offset bar s calm ho hb)
        λ q t (e, f, ch).
          rw (e, found)
            (Ends-mono (rest w t) (later t f)
              λ p u. Passes-after i a n s t p u (Keeps-read i a n s t f ch))

  ensure_ends :
      (offset bar value : ℕ) (s : Sys M) (rest : Cmd M Bool)
      → IsCalm s
      → offset < 2 ^ 32
      → bar < 2 ^ 32
      → value < 2 ^ 32
      → let w =
          board_write host.version s.control.spi_error bar offset value (board_of (s.devices i)) in
        w.0 ≡ true
        → w.1.system 15 ≡ (s.devices i).system_bar 15
        → ((q : ℕ) → w.1.dma q ≡ (if q == 8 then w.1.dma q else (s.devices i).dma_bar q))
        → ((t : Sys M) → Follows i w.1 s t → Ends (Passes i a n t) (rest t))
        → Ends (Passes i a n s) (ensure (client.write_single offset bar value) rest s)
  ensure_ends offset bar value s rest calm ho hb hv good dummy dma later =
      Ends-bind (Passes i a n s) (client.write_single offset bar value s) _
        (serves.writes_single offset bar value s calm ho hb hv)
        λ g t (e, f, ch).
          rw (e, good)
            (Ends-mono (rest t) (later t f) λ p u. Passes-after i a n s t p u (
              Keeps-wrote i a n
                (board_write host.version s.control.spi_error bar offset value
                  (board_of (s.devices i))).1
                s t f ch dummy dma))

  pub test_write_single-Passes :
      (s : Sys M) → IsCalm s → Ends (Passes i a n s) (test_write_single client s)
  unfolding test_write_single
  test_write_single-Passes s calm =
      attempt_ends 0x0C 0 user s _ calm (omega arith) (omega arith)
        (user_read (board_of (s.devices i)))
        λ t f.
          ensure_ends 0x0C 0 (u32 (user + 1)) t _ f.calm (omega arith) (omega arith) (omega arith)
            (user_written _ _ _ (board_of (t.devices i)))
            (user_dummy _ _ _ (board_of (t.devices i)))
            (λ q.
              let same =
                user_dma host.version t.control.spi_error (u32 (user + 1)) (board_of (t.devices i))
                  q in
              ground (arith, same))
            λ t2 f2.
              attempt_ends 0x0C 0 (u32 (user + 1)) t2 _ f2.calm (omega arith) (omega arith)
                (ap (λ c. word_of (board_read c 0 0x0C)) f2.board
                  ∙ user_kept _ _ (board_of (t.devices i)) (user + 1))
                λ t3 f3.
                  attempt_ends 0x20 2 (dma t3) t3 _ f3.calm (omega arith) (omega arith)
                    (dma_read (board_of (t3.devices i)))
                    λ t4 f4.
                      ensure_ends 0x20 2 (u32 (dma t3 + 1)) t4 _ f4.calm (omega arith) (omega arith)
                        (omega arith) (dma_written _ _ _ (board_of (t4.devices i)))
                        (word_8_dummy _ _ _ (board_of (t4.devices i)))
                        (word_8_dma _ _ _ (board_of (t4.devices i)))
                        λ t5 f5.
                          attempt_ends 0x20 2 (u32 (dma t3 + 1)) t5 _ f5.calm (omega arith)
                            (omega arith)
                            (ap (λ c. word_of (board_read c 2 0x20)) f5.board
                              ∙ dma_kept _ _ (board_of (t4.devices i)) (dma t3 + 1))
                            λ t6 f6. (
                              rw
                                  (
                                    eqb_of_eq (u32 (user + 1)) (u32 (user + 1)) refl,
                                    eqb_of_eq (u32 (dma t3 + 1)) (u32 (dma t3 + 1)) refl,
                                  )
                                  refl,
                              Keeps-read i a n t6 t6
                                  (record { calm = f6.calm; control = refl; board = refl })
                                  (λ c l p. refl),
                            )
    where
      user : ℕ
      user = u32 ((s.devices i).system_bar 3)

      dma : Sys M → ℕ
      dma t = u32 ((t.devices i).dma_bar 8)

  pub test_read_single_with_error-Passes :
      (s : Sys M) → IsCalm s → Ends (Passes i a n s) (test_read_single_with_error client s)
  unfolding test_read_single_with_error
  test_read_single_with_error-Passes s calm =
      Ends-bind (Passes i a n s) (client.read_single 0x48 0 s) _
        (serves.reads_single 0x48 0 s calm (omega arith) (omega arith))
        λ x t (e, f, ch).
          Ends-bind (Passes i a n s) (client.read_single 0x4C 0 t) _
            (serves.reads_single 0x4C 0 t f.calm (omega arith) (omega arith))
            λ y t' (e', f', ch'). (
              rw
                  (
                    e ∙ broken_read (board_of (s.devices i)),
                    e' ∙ broken_write_read (board_of (t.devices i)),
                  )
                  refl,
              Keeps-trans i a n s t t' (Keeps-read i a n s t f ch) (Keeps-read i a n t t' f' ch'),
            )

  pub test_write_single_with_error-Passes :
      (s : Sys M) → IsCalm s → Ends (Passes i a n s) (test_write_single_with_error client s)
  unfolding test_write_single_with_error
  test_write_single_with_error-Passes s calm =
      Ends-bind (Passes i a n s) (client.write_single 0x48 0 42 s) _
        (serves.writes_single 0x48 0 42 s calm (omega arith) (omega arith) (omega arith))
        λ x t (e, f, ch).
          Ends-bind (Passes i a n s) (client.write_single 0x4C 0 42 t) _
            (serves.writes_single 0x4C 0 42 t f.calm (omega arith) (omega arith) (omega arith))
            λ y t' (e', f', ch'). (
              rw
                  (
                    e ∙ broken_written _ _ (board_of (s.devices i)),
                    e' ∙ broken_write_written _ _ (board_of (t.devices i)),
                  )
                  refl,
              Keeps-trans i a n s t t'
                  (Keeps-wrote i a n _ s t f ch (broken_dummy _ _ (board_of (s.devices i))).0 (λ q.
                    let same =
                      (broken_dma host.version s.control.spi_error (board_of (s.devices i)) q).0 in
                    ground (arith, same)))
                  (Keeps-wrote i a n _ t t' f' ch' (broken_dummy _ _ (board_of (t.devices i))).1
                    (λ q.
                      let same =
                        (broken_dma host.version t.control.spi_error (board_of (t.devices i))
                          q).1 in
                      ground (arith, same))),
            )
