-- ===== src/NoStruct/ReadWords.antt =====
-- The loop of `mtcaDummy_read_no_struct` against reads of words of the board, where the process's
-- memory can be written.
use pciedummy_driver.Common.{
  ℕ, zero, suc, ◌+◌, ◌*◌, ◌≤◌, ◌<◌, ◌≡◌, refl, ◌∙◌, true, false, inl, inr, ◌⊎◌, none, some, List,
  [], ◌∷◌, arith, if◌then◌else◌, length, Option-cases, eqb_of_eq,
}
use native.Mathlib.Nat.{add-zero}
use pciedummy_driver.Common.Bytes.{bytes_of_word}
use pciedummy_driver.State.{bar_size}
use pciedummy_driver.Kernel.{Ssize, error, eio, Host, Sys, dev_mutex}
use pciedummy_driver.Kernel.Laws.{Ends, Ends-mono, ReadsOnly, count_of, is_restart}
use pciedummy_driver.Firmware.{mtcadummy_perform_pre_read_action}
use pciedummy_driver.Board.{board_of, board_read, board_readable, is_some}
use pciedummy_driver.NoStruct.{TransferInformation, add64, read_words}
use pciedummy_driver.NoStruct.ReadLoop.{
  WordsAt, read_words_end, read_words_broken, read_words_next, next_word, source, pre_read,
}
use pciedummy_driver.NoStruct.WriteWord.{InBar}

-- Whatever is in the memory, `n` bytes from address `a` on can be written.
abbrev pub IsWritable : {M : Type 0} → Host M → ℕ → ℕ → Type 0
IsWritable {M} host a n =
    (m : M) (b : ℕ) (bs : List ℕ) → a ≤ b → b + length bs ≤ a + n → (host.copy_to_user m b bs).1 ≡ 0

module _ {M : Type 0} ⦃host : Host M⦄ where
  -- Between `m` and `m'` only the `n` bytes from address `a` on have changed.
  abbrev pub OnlyAt : ℕ → ℕ → M → M → Type 0
  OnlyAt a n m m' =
      (b k : ℕ) → (b + k ≤ a) ⊎ (a + n ≤ b) → host.copy_from_user m' b k ≡ host.copy_from_user m b k

  module _ (i buf start : ℕ) (info : TransferInformation) (hi : i < 7) (inside : InBar info) where
    -- How the loop ends in a state with `k` words copied and `n` to come, the next one at `offset`.
    pub record WordsRead (n k offset : ℕ) (s : Sys M) (r : Ssize × ℕ) (t : Sys M) : Type 0 where
      pub result : count_of r.0 ≡ (
          if board_readable (board_of (s.devices i)) info.bar n offset
          then some info.n_bytes_to_transfer
          else none)
      pub restart : is_restart r.0 ≡ false
      pub signals : t.signals ≡ []
      pub unchanged : ReadsOnly s t
      pub words :
          WordsAt t.user buf
            (source i buf start info hi s)
            (if board_readable (board_of (s.devices i)) info.bar n offset then k + n else 0)
      pub only : OnlyAt buf ((k + n) * 4) s.user t.user

    pre_read_readable :
        (n k offset pos : ℕ) (s : Sys M) (held : s.held ≡ dev_mutex i ∷ [])
        → (s.devices i).slot_nr ≡ i
        → offset ≡ info.offset + k * 4
        → offset < bar_size info.bar_start
        → is_some (board_read (board_of (s.devices i)) info.bar offset)
          ≡ (elim (pre_read i buf info n k pos s hi held) [ none ↦ true | some e ↦ false ])
    unfolding board_read mtcadummy_perform_pre_read_action
    pre_read_readable n k offset pos s held slot e fits =
        ground (arith, inside.exists, inside.starts, inside.aligned)

    -- What the rest of the loop does is what the loop does.
    later_words :
        (n k offset w : ℕ) (s : Sys M) (r : Ssize × ℕ) (t : Sys M)
        → is_some (board_read (board_of (s.devices i)) info.bar offset) ≡ true
        → WordsRead n
            (k + 1)
            (offset + 4)
            (record s { user = (host.copy_to_user s.user (buf + k * 4) (bytes_of_word w)).0 })
            r
            t
        → WordsRead (suc n) k offset s r t
    unfolding board_readable
    later_words n k offset w s r t here h = record {
      result = rw here h.result;
      restart = h.restart;
      signals = h.signals;
      unchanged = record {
        free = h.unchanged.free;
        control = h.unchanged.control;
        devices = h.unchanged.devices;
      };
      words = rw here (rw counts h.words);
      only = λ b l apart.
          h.only b l (beyond b l apart)
          ∙ host.outside s.user (buf + k * 4) b l (bytes_of_word w)
              (elim apart [ inl below ↦ inl (omega arith) | inr above ↦ inr (omega arith) ]);
    }
      where
        counts : k + suc n ≡ k + 1 + n
        counts = omega arith

        beyond :
            (b l : ℕ)
            → (b + l ≤ buf) ⊎ (buf + (k + suc n) * 4 ≤ b)
            → (b + l ≤ buf) ⊎ (buf + (k + 1 + n) * 4 ≤ b)
        beyond b l apart = elim apart [ inl below ↦ inl below | inr above ↦ inr (omega arith) ]

    pub read_words-board_readable :
        (n k offset pos : ℕ) (s : Sys M)
        → s.held ≡ dev_mutex i ∷ []
        → (s.devices i).slot_nr ≡ i
        → s.signals ≡ []
        → offset ≡ info.offset + k * 4
        → offset + n * 4 ≤ bar_size info.bar_start
        → IsWritable host buf ((k + n) * 4)
        → WordsAt s.user buf (source i buf start info hi s) k
        → Ends (WordsRead n k offset s) (read_words n k info i buf pos s)
    read_words-board_readable zero k offset pos s held slot sig at fits writable before =
        rw (read_words_end i buf info 0 k pos s hi held) (record {
          result = unfold board_readable in refl;
          restart = refl;
          signals = sig;
          unchanged = record { free = refl; control = refl; devices = refl };
          words = unfold board_readable in rw add-zero before;
          only = λ b l apart. refl;
        })
    read_words-board_readable (suc n) k offset pos s held slot sig at fits writable before =
        elim (Option-cases (pre_read i buf info n k pos s hi held)) [
          | inr (err, q) ↦ rw (read_words_broken i buf info n k pos s hi held q) (
              stops
                (pre_read_readable n k offset pos s held slot at (omega (arith, fits)) ∙ rw q refl))
          | inl q ↦
              rw
                (read_words_next i buf info n k pos s hi held q
                  (omega (arith, fits, at, inside.aligned)) (eqb_of_eq _ 0 (copied w)))
                (Ends-mono {Q = WordsRead (suc n) k offset s}
                  (read_words n (k + 1) info i buf (add64 pos 4) (record s { user = memory }))
                  (read_words-board_readable n (k + 1) (offset + 4) (add64 pos 4)
                    (record s { user = memory }) held slot sig (omega (arith, at))
                    (omega (arith, fits)) (λ m b bs p h. writable m b bs p (omega (arith, h)))
                    (next_word i buf start info hi s k before (copied w)))
                  (λ r t. later_words n k offset w s r t (
                    pre_read_readable n k offset pos s held slot at (omega (arith, fits))
                    ∙ rw q refl)))
        ]
      where
        w : ℕ
        w = source i buf start info hi s k

        memory : M
        memory = (host.copy_to_user s.user (buf + k * 4) (bytes_of_word w)).0

        copied : (x : ℕ) → (host.copy_to_user s.user (buf + k * 4) (bytes_of_word x)).1 ≡ 0
        copied x = writable s.user (buf + k * 4) (bytes_of_word x) (omega arith) (omega arith)

        stops :
            is_some (board_read (board_of (s.devices i)) info.bar offset) ≡ false
            → WordsRead (suc n) k offset s (error eio, pos) (record s { held = [] })
        stops h = record {
          result = unfold board_readable in rw h refl;
          restart = refl;
          signals = sig;
          unchanged = record { free = refl; control = refl; devices = refl };
          words = unfold board_readable in rw h tt;
          only = λ b l apart. refl;
        }
