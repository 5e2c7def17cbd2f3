-- ===== src/NoStruct/WriteDma.antt =====
-- `mtcaDummy_write_no_struct` on the DMA bar.
use pciedummy_driver.Common.{
  ℕ, zero, suc, ◌+◌, ◌-◌, ◌*◌, ◌/◌, ◌%◌, ◌^◌, ◌≤◌, ◌<◌, ◌≡◌, ◌≢◌, ap, refl, Bool, true, false, inl,
  inr, some, none, [], ◌∷◌, ◌&&◌, arith, ◌==◌, if◌then◌else◌, ltb, leb, update, Bool-cases,
  eqb_of_eq, eqb_of_ne,
}
use pciedummy_driver.Common.Bytes.{word_at}
use pciedummy_driver.State.{dma_area, set_bar_word}
use pciedummy_driver.Kernel.{
  Ssize, size, error, efault, Host, Sys, ok, dev_mutex, store_word, copy_from_user, unlock_and_fail,
  unlock_and_return,
}
use pciedummy_driver.Kernel.Laws.{Ends, Ends-both, IsReady, ChangesBars, entered}
use pciedummy_driver.Firmware.{mtcadummy_perform_action_on_write}
use pciedummy_driver.NoStruct.{
  TransferInformation, add64, fail_at, write_word, write_words, mtca_dummy_write_no_struct,
}
use pciedummy_driver.NoStruct.Check.{is_addressable, transfer_at, position_bar}
use pciedummy_driver.NoStruct.Reads.{transfer_at_fits, with_transfer_enters}
use pciedummy_driver.NoStruct.ReadOutcome.{below_next}
use pciedummy_driver.NoStruct.WriteSafety.{mtca_dummy_write_no_struct-ChangesBars}
use mathlib.Core.Path.{subst}

module _ {M : Type 0} ⦃host : Host M⦄ where
  -- Word `j` of the data that the process sends.
  abbrev pub sent : M → ℕ → ℕ → ℕ
  sent m buf j = word_at (host.copy_from_user m (buf + j * 4) 4).0 0

  -- Word `q` of the DMA bar once `done` words from word `first` on are stored.
  abbrev pub dma_word_with : M → ℕ → ℕ → ℕ → (ℕ → ℕ) → ℕ → ℕ
  dma_word_with m buf first done old q =
      if leb first q && ltb q (first + done) then sent m buf (q - first) else old q

  -- Whether the copy of word `j` from the process is complete.
  abbrev pub is_readable : M → ℕ → ℕ → Bool
  is_readable m buf j = (host.copy_from_user m (buf + j * 4) 4).1 == 0

  -- How a write of `total` words from position `start` ends: the copies of the first `done` words
  -- were complete, and the position has moved by as many. If these are all words, the result is the
  -- size; else the copy of the next word was not complete, the result is the error of that, and
  -- what was copied of it is stored, too. All other words of both bars are as they were.
  pub record Stored (i buf total start : ℕ) (info : TransferInformation) (s : Sys M) (r : Ssize × ℕ)
      (t : Sys M) : Type 0 where
    pub done : ℕ
    pub bounded : done ≤ total
    pub position : r.1 ≡ start + done * 4
    pub readable : (j : ℕ) → j < done → is_readable s.user buf j ≡ true
    pub stopped : (done == total) ≡ false → is_readable s.user buf done ≡ false
    pub result : r.0 ≡ (if done == total then size info.n_bytes_to_transfer else error efault)
    pub words :
        (q : ℕ)
        → (t.devices i).dma_bar q
          ≡ dma_word_with s.user buf
              (info.offset / 4)
              (if done == total then done else done + 1)
              (s.devices i).dma_bar
              q
    pub registers : (t.devices i).system_bar ≡ (s.devices i).system_bar

  module _ (i buf start : ℕ) (info : TransferInformation) (hi : i < 7) (not_system : info.bar ≢ 0)
      (in_dma : info.bar_start ≡ dma_area) where
    abbrev store_at : ℕ → Sys M → Sys M
    store_at k s = record s {
      devices =
          update s.devices i
            (set_bar_word dma_area (info.offset / 4 + k) (sent s.user buf k) (s.devices i));
    }

    write_word-dma :
        (k : ℕ) (s : Sys M)
        → (info.offset / 4 + k) * 4 < 4096
        → write_word k info i buf s
          ≡ ok
              (if (host.copy_from_user s.user (buf + k * 4) 4).1 == 0 then none else some efault)
              (store_at k s)
    unfolding write_word copy_from_user store_word mtcadummy_perform_action_on_write
    write_word-dma k s inside = ground arith

    write_words_end :
        (k pos : ℕ) (s : Sys M)
        → s.held ≡ dev_mutex i ∷ []
        → write_words zero k info i buf pos s
          ≡ ok (size info.n_bytes_to_transfer, pos) (record s { held = [] })
    unfolding write_words unlock_and_return
    write_words_end k pos s held = ground arith

    write_words_next :
        (n k pos : ℕ) (s : Sys M)
        → (info.offset / 4 + k) * 4 < 4096
        → ((host.copy_from_user s.user (buf + k * 4) 4).1 == 0) ≡ true
        → write_words (suc n) k info i buf pos s
          ≡ write_words n (k + 1) info i buf (add64 pos 4) (store_at k s)
    unfolding write_words
    write_words_next n k pos s inside copied = ground (arith, write_word-dma k s inside)

    write_words_unreadable :
        (n k pos : ℕ) (s : Sys M)
        → s.held ≡ dev_mutex i ∷ []
        → (info.offset / 4 + k) * 4 < 4096
        → ((host.copy_from_user s.user (buf + k * 4) 4).1 == 0) ≡ false
        → write_words (suc n) k info i buf pos s
          ≡ ok (error efault, pos) (record (store_at k s) { held = [] })
    unfolding write_words fail_at unlock_and_fail
    write_words_unreadable n k pos s held inside stop = ground (arith, write_word-dma k s inside)

    module _ (s0 : Sys M) where
      -- In `s` the first `k` words have been stored.
      pub record SoFar (k : ℕ) (s : Sys M) : Type 0 where
        pub same : s.user ≡ s0.user
        pub readable : (j : ℕ) → j < k → is_readable s0.user buf j ≡ true
        pub words :
            (q : ℕ)
            → (s.devices i).dma_bar q
              ≡ dma_word_with s0.user buf (info.offset / 4) k (s0.devices i).dma_bar q
        pub registers : (s.devices i).system_bar ≡ (s0.devices i).system_bar

      next_word_stored :
          (k : ℕ) (s : Sys M) (q : ℕ)
          → SoFar k s
          → ((store_at k s).devices i).dma_bar q
            ≡ dma_word_with s0.user buf (info.offset / 4) (k + 1) (s0.devices i).dma_bar q
      next_word_stored k s q before = ground (arith, before.same, before.words q)

      registers_stay :
          (k : ℕ) (s : Sys M)
          → SoFar k s
          → ((store_at k s).devices i).system_bar ≡ (s0.devices i).system_bar
      registers_stay k s before = ground (arith, before.registers)

      SoFar-next :
          (k : ℕ) (s : Sys M)
          → is_readable s.user buf k ≡ true
          → SoFar k s
          → SoFar (k + 1) (store_at k s)
      SoFar-next k s copied before = record {
        same = before.same;
        readable =
            below_next (λ j. is_readable s0.user buf j ≡ true) k before.readable
              (subst (λ m. is_readable m buf k ≡ true) before.same copied);
        words = λ q. next_word_stored k s q before;
        registers = registers_stay k s before;
      }

      pub write_words-Stored :
          (n k total pos : ℕ) (s : Sys M)
          → s.held ≡ dev_mutex i ∷ []
          → k + n ≡ total
          → (info.offset / 4 + total) * 4 ≤ 4096
          → pos ≡ start + k * 4
          → start + total * 4 < 2 ^ 64
          → SoFar k s
          → Ends (Stored i buf total start info s0) (write_words n k info i buf pos s)
      write_words-Stored zero k total pos s held e fits p small before =
          rw (write_words_end k pos s held) (record {
            done = k;
            bounded = omega arith;
            position = p;
            readable = before.readable;
            stopped = λ more. ground arith;
            result = rw (eqb_of_eq k total (omega arith)) refl;
            words = λ q. rw (eqb_of_eq k total (omega arith)) (before.words q);
            registers = before.registers;
          })
      write_words-Stored (suc n) k total pos s held e fits p small before =
          elim (Bool-cases (is_readable s.user buf k)) [
            | inl copied ↦ rw (write_words_next n k pos s (omega arith) copied) (
                write_words-Stored n (k + 1) total (add64 pos 4) (store_at k s) held (omega arith)
                  fits (omega arith) small (SoFar-next k s copied before))
            | inr stop ↦ rw (write_words_unreadable n k pos s held (omega arith) stop) (record {
              done = k;
              bounded = omega arith;
              position = p;
              readable = before.readable;
              stopped = λ _. subst (λ m. is_readable m buf k ≡ false) before.same stop;
              result = rw (eqb_of_ne k total (omega arith)) refl;
              words = λ q. rw (eqb_of_ne k total (omega arith)) (next_word_stored k s q before);
              registers = registers_stay k s before;
            })
          ]

  -- On a device below 7, in a ready state (IsReady), with no signal and no injected write failure,
  -- a count below 2 ^ 63 that is a multiple of 4 and an addressable position in bar 2,
  -- mtcaDummy_write_no_struct ends as Stored says: a number of words that the process sent, the
  -- copy of each of which is complete, stand in the DMA bar from the offset on, and the position
  -- moved by as many; the result is the size if these are all words of the transfer, and else
  -- -EFAULT, where the copy of the next word is not complete and what was copied is stored as well;
  -- no other word of the bars and no other device has changed, nor has the process's memory, and no
  -- mutex is held.
  pub mtca_dummy_write_no_struct-Stored :
      (i buf count pos : ℕ) (s : Sys M)
      → i < 7
      → IsReady s
      → s.signals ≡ []
      → s.control.write_error ≡ false
      → count < 2 ^ 63
      → pos < 2 ^ 64
      → count % 4 ≡ 0
      → is_addressable pos ≡ true
      → position_bar pos ≡ 2
      → let info = transfer_at count pos in
        Ends
          (λ r t.
            Stored i buf (info.n_bytes_to_transfer / 4) pos info s r t
            × (ChangesBars i s t × (t.user ≡ s.user)))
          (mtca_dummy_write_no_struct i buf count pos s)
  unfolding mtca_dummy_write_no_struct
  mtca_dummy_write_no_struct-Stored i buf count pos s hi ready sig fine small range al ad dma =
      let info : TransferInformation = transfer_at count pos in
      let n : ℕ = info.n_bytes_to_transfer / 4 in
      let fits = transfer_at_fits count pos ad range in
      let in_dma : info.bar_start ≡ dma_area = ground arith in
      let handler = mtca_dummy_write_no_struct i buf count pos s in
      let stored : Ends (Stored i buf n pos info s) handler =
        rw
          (with_transfer_enters (λ c. c.write_error) i count pos _ s ready.free sig fine small al
            ad)
          (write_words-Stored i buf pos info hi (omega arith) in_dma s n 0 n pos (entered i s)
            (ap (λ ls. dev_mutex i ∷ ls) ready.free) (omega arith) (ground (arith, fits))
            (omega arith) fits.1
            (record {
              same = refl;
              readable = λ j h. ground (arith, h);
              words = λ q. ground arith;
              registers = refl;
            })) in
      Ends-both (Stored i buf n pos info s) (λ r t. ChangesBars i s t × (t.user ≡ s.user)) handler
        stored (mtca_dummy_write_no_struct-ChangesBars i buf count pos s hi ready small range)
