-- ===== src/NoStruct/ReadLoop.antt =====
-- The loop of `mtcaDummy_read_no_struct`.
use pciedummy_driver.Common.{
  ℕ, zero, suc, ◌+◌, ◌*◌, ◌/◌, ◌≤◌, ◌<◌, ◌≡◌, true, false, inl, some, none, Option, [], ◌∷◌, arith,
  ◌==◌,
}
use native.Mathlib.Numerals.{add-one}
use pciedummy_driver.Common.Bytes.{u32, bytes_of_word}
use pciedummy_driver.State.{bar_size, bar_words}
use pciedummy_driver.Kernel.{
  Ssize, size, error, eio, efault, Errno, Host, Sys, ok, dev_mutex, load_word, get_device,
  copy_to_user, unlock_and_fail, unlock_and_return,
}
use pciedummy_driver.Firmware.{mtcadummy_perform_pre_read_action}
use pciedummy_driver.NoStruct.{TransferInformation, add64, fail_at, read_words}

-- The error of a word that was not copied: whether the firmware refused to read it.
abbrev pub read_cause : Option Errno → Ssize
read_cause (some e) = error eio
read_cause none = error efault

module _ {M : Type 0} ⦃host : Host M⦄ where
  -- The first `j` words from address `buf` on are `f 0`, `f 1`, and so on.
  abbrev pub WordsAt : M → ℕ → (ℕ → ℕ) → ℕ → Type 0
  WordsAt m buf f zero = Unit
  WordsAt m buf f (suc j) =
      WordsAt m buf f j × (host.copy_from_user m (buf + j * 4) 4 ≡ (bytes_of_word (f j), 0))

  -- A copy to the word behind them leaves the first words as they are.
  pub WordsAt-outside :
      (m : M) (buf k w : ℕ) (f : ℕ → ℕ) (j : ℕ)
      → j ≤ k
      → WordsAt m buf f j
      → WordsAt (host.copy_to_user m (buf + k * 4) (bytes_of_word w)).0 buf f j
  WordsAt-outside m buf k w f zero h a = tt
  WordsAt-outside m buf k w f (suc j) h a = (
    WordsAt-outside m buf k w f j (omega arith) a.0,
    rw (host.outside m (buf + k * 4) (buf + j * 4) 4 (bytes_of_word w) (inl (omega arith))) a.1,
  )

  -- The process's memory after the copies of the words `f 0`, `f 1` and so on, `j` in number.
  abbrev pub memory_after : M → ℕ → (ℕ → ℕ) → ℕ → M
  memory_after m buf f zero = m
  memory_after m buf f (suc j) =
      (host.copy_to_user (memory_after m buf f j) (buf + j * 4) (bytes_of_word (f j))).0

  -- What Linux answers to the copy of word `j`, which follows those of the words before it: the
  -- memory, and the number of bytes that it did not copy.
  abbrev pub copy_of_word : M → ℕ → (ℕ → ℕ) → ℕ → M × ℕ
  copy_of_word m buf f j =
      host.copy_to_user (memory_after m buf f j) (buf + j * 4) (bytes_of_word (f j))

  module _ (i buf : ℕ) (info : TransferInformation) (n k pos : ℕ) (s : Sys M) (hi : i < 7)
      (held : s.held ≡ dev_mutex i ∷ []) where
    abbrev pub pre_read : Option Errno
    pre_read =
        mtcadummy_perform_pre_read_action (u32 (info.offset + k * 4)) info.bar (s.devices i).slot_nr

    abbrev pub word : ℕ
    word = bar_words info.bar_start (s.devices i) (info.offset / 4 + k)

    pub read_words_end :
        read_words zero k info i buf pos s
        ≡ ok (size info.n_bytes_to_transfer, pos) (record s { held = [] })
    unfolding read_words unlock_and_return
    read_words_end = ground arith

    pub read_words_broken :
        {e : Errno}
        → pre_read ≡ some e
        → read_words (suc n) k info i buf pos s ≡ ok (error eio, pos) (record s { held = [] })
    unfolding read_words fail_at unlock_and_fail get_device
    read_words_broken e = ground arith

    pub read_words_unwritable :
        pre_read ≡ none
        → (info.offset / 4 + k) * 4 < bar_size info.bar_start
        → ((host.copy_to_user s.user (buf + k * 4) (bytes_of_word word)).1 == 0) ≡ false
        → read_words (suc n) k info i buf pos s
          ≡ ok
              (error efault, pos)
              (record s {
                held = [];
                user = (host.copy_to_user s.user (buf + k * 4) (bytes_of_word word)).0;
              })
    unfolding read_words fail_at unlock_and_fail get_device load_word copy_to_user
    read_words_unwritable e inside left = ground arith

    pub read_words_next :
        pre_read ≡ none
        → (info.offset / 4 + k) * 4 < bar_size info.bar_start
        → ((host.copy_to_user s.user (buf + k * 4) (bytes_of_word word)).1 == 0) ≡ true
        → read_words (suc n) k info i buf pos s
          ≡ read_words n
              (k + 1)
              info
              i
              buf
              (add64 pos 4)
              (record s { user = (host.copy_to_user s.user (buf + k * 4) (bytes_of_word word)).0 })
    unfolding read_words get_device load_word copy_to_user
    read_words_next e inside left = ground arith

  module _ (i buf start : ℕ) (info : TransferInformation) (hi : i < 7) where
    abbrev pub source : Sys M → ℕ → ℕ
    source s j = bar_words info.bar_start (s.devices i) (info.offset / 4 + j)

    pub next_word :
        (s : Sys M) (k : ℕ)
        → WordsAt s.user buf (source s) k
        → (host.copy_to_user s.user (buf + k * 4) (bytes_of_word (source s k))).1 ≡ 0
        → WordsAt
            (host.copy_to_user s.user (buf + k * 4) (bytes_of_word (source s k))).0
            buf
            (source s)
            (k + 1)
    next_word s k before done = rw add-one (
      WordsAt-outside s.user buf k (source s k) (source s) k (omega arith) before,
      host.copied s.user (buf + k * 4) (bytes_of_word (source s k)) (ground arith) done,
    )
