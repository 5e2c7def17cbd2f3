-- ===== src/NoStruct/ReadOutcome.antt =====
-- How the loop of `mtcaDummy_read_no_struct` ends.
use pciedummy_driver.Common.{
  sym, ℕ, zero, suc, ◌+◌, ◌*◌, ◌/◌, ◌^◌, ◌≤◌, ◌<◌, ◌≡◌, refl, Bool, false, inl, inr, some, none,
  Option, List, [], ◌∷◌, arith, ◌==◌, if◌then◌else◌, Bool-cases, Option-cases, eqb_of_eq, eqb_of_ne,
}
use mathlib.Core.Path.{subst}
use native.Mathlib.Decide.{ℕ_discrete}
use native.Mathlib.Numerals.{add-one}
use pciedummy_driver.Common.Bytes.{u32}
use pciedummy_driver.State.{bar_size, bar_words}
use pciedummy_driver.Kernel.{Ssize, size, error, eio, efault, Errno, Lock, Host, Sys, dev_mutex}
use pciedummy_driver.Kernel.Laws.{Ends, ReadsOnly}
use pciedummy_driver.Firmware.{mtcadummy_perform_pre_read_action}
use pciedummy_driver.NoStruct.{TransferInformation, add64, read_words}
use pciedummy_driver.NoStruct.ReadLoop.{
  read_cause, WordsAt, WordsAt-outside, memory_after, copy_of_word, read_words_end,
  read_words_broken, read_words_unwritable, read_words_next, next_word,
}

-- What holds below a number and at it holds below the next.
pub below_next :
    (P : ℕ → Type 0) (k : ℕ) → ((j : ℕ) → j < k → P j) → P k → (j : ℕ) → j < k + 1 → P j
below_next P k before here j h = elim (ℕ_discrete j k) [
  | yes p ↦ rw p here
  | no ne ↦ before j (omega arith)
]

-- The number of copies that are tried if the first `done` words are copied.
abbrev pub tried : ℕ → ℕ → Option Errno → ℕ
tried done total refused =
    if done == total then done else elim refused [ some e ↦ done | none ↦ done + 1 ]

module _ {M : Type 0} ⦃host : Host M⦄ where
  -- Word `j` of the transfer, and the firmware's answer to reading it.
  abbrev pub transfer_word : ℕ → TransferInformation → Sys M → ℕ → ℕ
  transfer_word i info s j = bar_words info.bar_start (s.devices i) (info.offset / 4 + j)

  abbrev pub refusal : ℕ → TransferInformation → Sys M → ℕ → Option Errno
  refusal i info s j =
      mtcadummy_perform_pre_read_action (u32 (info.offset + j * 4)) info.bar (s.devices i).slot_nr

  -- Word `j` can be read, and its copy to the process succeeds.
  abbrev pub IsCopied : ℕ → ℕ → TransferInformation → Sys M → ℕ → Type 0
  IsCopied i buf info s j =
      (refusal i info s j ≡ none) × ((copy_of_word s.user buf (transfer_word i info s) j).1 ≡ 0)

  -- How a read of `total` words from position `start` ends: the first `done` words have been
  -- copied, and the position has moved by as many. If these are all words, the result is the size;
  -- else the next word is one that the firmware refuses, or one whose copy fails, and the result is
  -- the error of that. The process's memory is as the copies leave it, and the driver's state is
  -- unchanged.
  pub record Transferred (i buf total start : ℕ) (info : TransferInformation) (s : Sys M)
      (r : Ssize × ℕ) (t : Sys M) : Type 0 where
    pub done : ℕ
    pub bounded : done ≤ total
    pub position : r.1 ≡ start + done * 4
    pub copied : (j : ℕ) → j < done → IsCopied i buf info s j
    pub stopped :
        (done == total) ≡ false
        → refusal i info s done ≡ none
        → ((copy_of_word s.user buf (transfer_word i info s) done).1 == 0) ≡ false
    pub result : r.0 ≡ (
        if done == total then size info.n_bytes_to_transfer else read_cause (refusal i info s done))
    pub words : WordsAt t.user buf (transfer_word i info s) done
    pub memory :
        t.user
        ≡ memory_after s.user buf
            (transfer_word i info s)
            (tried done total (refusal i info s done))
    pub unchanged : ReadsOnly s t

  module _ (i buf start : ℕ) (info : TransferInformation) (hi : i < 7) (s0 : Sys M)
      (held : List Lock) (signals : List Bool) (locked : held ≡ dev_mutex i ∷ []) where
    -- The state in which `k` words have been copied.
    abbrev at_word : ℕ → Sys M
    at_word k = record s0 {
      held = held;
      signals = signals;
      user = memory_after s0.user buf (transfer_word i info s0) k;
    }

    -- The state in which the loop leaves off there.
    abbrev left_at : ℕ → Sys M
    left_at k = record (at_word k) { held = [] }

    module _ (k total pos : ℕ) (p : pos ≡ start + k * 4)
        (before : (j : ℕ) → j < k → IsCopied i buf info s0 j)
        (there : WordsAt (at_word k).user buf (transfer_word i info s0) k) where
      at_end :
          k ≡ total
          → Transferred i buf total start info s0 (size info.n_bytes_to_transfer, pos) (left_at k)
      at_end e = record {
        done = k;
        bounded = omega arith;
        position = p;
        copied = before;
        stopped = λ more _. ground arith;
        result = rw (eqb_of_eq k total e) refl;
        words = there;
        memory = rw (eqb_of_eq k total e) refl;
        unchanged = record { free = refl; control = refl; devices = refl };
      }

      at_refusal :
          {err : Errno}
          → k < total
          → refusal i info s0 k ≡ some err
          → Transferred i buf total start info s0 (error eio, pos) (left_at k)
      at_refusal h q = record {
        done = k;
        bounded = omega arith;
        position = p;
        copied = before;
        stopped = λ _ readable. ground arith;
        result = rw (eqb_of_ne k total (omega arith), q) refl;
        words = there;
        memory = rw (eqb_of_ne k total (omega arith), q) refl;
        unchanged = record { free = refl; control = refl; devices = refl };
      }

      at_failed_copy :
          k < total
          → refusal i info s0 k ≡ none
          → ((copy_of_word s0.user buf (transfer_word i info s0) k).1 == 0) ≡ false
          → Transferred i buf total start info s0 (error efault, pos) (left_at (suc k))
      at_failed_copy h q stop = record {
        done = k;
        bounded = omega arith;
        position = p;
        copied = before;
        stopped = λ _ _. stop;
        result = rw (eqb_of_ne k total (omega arith), q) refl;
        words =
            WordsAt-outside (at_word k).user buf k (transfer_word i info s0 k)
              (transfer_word i info s0) k (omega arith) there;
        memory = rw (eqb_of_ne k total (omega arith), q, add-one) refl;
        unchanged = record { free = refl; control = refl; devices = refl };
      }

    -- The words are there when the next one has been copied.
    words_next :
        (k : ℕ)
        → WordsAt (at_word k).user buf (transfer_word i info s0) k
        → (copy_of_word s0.user buf (transfer_word i info s0) k).1 ≡ 0
        → WordsAt (at_word (k + 1)).user buf (transfer_word i info s0) (k + 1)
    words_next k there done =
        subst (λ x. WordsAt (at_word x).user buf (transfer_word i info s0) (k + 1))
          (sym (add-one k)) (next_word i buf start info hi (at_word k) k there done)

    -- The rest of the loop behind word `k`, when `j` words have been copied, ends so.
    abbrev From : (n total pos k j : ℕ) → Type 0
    From n total pos k j =
        Ends (Transferred i buf total start info s0)
          (read_words n (k + 1) info i buf (add64 pos 4) (at_word j))

    pub read_words-Transferred :
        (n k total pos : ℕ)
        → k + n ≡ total
        → (info.offset / 4 + total) * 4 ≤ bar_size info.bar_start
        → pos ≡ start + k * 4
        → start + total * 4 < 2 ^ 64
        → ((j : ℕ) → j < k → IsCopied i buf info s0 j)
        → WordsAt (at_word k).user buf (transfer_word i info s0) k
        → Ends (Transferred i buf total start info s0) (read_words n k info i buf pos (at_word k))
    read_words-Transferred zero k total pos e fits p small before there =
        rw (read_words_end i buf info 0 k pos (at_word k) hi locked)
          (at_end k total pos p before there (omega arith))
    read_words-Transferred (suc n) k total pos e fits p small before there =
        elim (Option-cases (refusal i info s0 k)) [
          | inr (err, q) ↦
              rw (read_words_broken i buf info n k pos (at_word k) hi locked q)
                (at_refusal k total pos p before there (omega arith) q)
          | inl q ↦
              elim (Bool-cases ((copy_of_word s0.user buf (transfer_word i info s0) k).1 == 0)) [
                | inl copied ↦
                    rw
                      (read_words_next i buf info n k pos (at_word k) hi locked q (omega arith)
                        copied)
                      (subst (From n total pos k) (add-one k) (
                        read_words-Transferred n (k + 1) total (add64 pos 4) (omega arith) fits
                          (omega arith) small
                          (below_next (IsCopied i buf info s0) k before (q, ground arith))
                          (words_next k there (ground arith))))
                | inr stop ↦
                    rw
                      (read_words_unwritable i buf info n k pos (at_word k) hi locked q
                        (omega arith) stop)
                      (at_failed_copy k total pos p before there (omega arith) q stop)
              ]
        ]
