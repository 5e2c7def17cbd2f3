-- ===== src/AutomaticTest/StructReadArea.antt =====
-- `readArea` of StructReaderWriter.cc against the board.
use pciedummy_driver.Common.{
  ℕ, zero, suc, ◌+◌, ◌*◌, ◌^◌, ◌<◌, ◌≡◌, refl, ◌∙◌, ap, Bool, true, some, arith, inl, inr,
  Option-cases,
}
use native.Mathlib.Numerals.{add-one}
use pciedummy_driver.Common.Bytes.{u32, bytes_of_word}
use pciedummy_driver.Kernel.{Host, Sys}
use pciedummy_driver.Kernel.Laws.{Ends, Ends-mono, Ends-bind, IsCalm}
use pciedummy_driver.Files.{file_ops_of, with_struct}
use pciedummy_driver.Board.{Board, board_of, content, board_read, board_readable, is_some}
use pciedummy_driver.NoStruct.ReadLoop.{WordsAt, WordsAt-outside}
use pciedummy_driver.AutomaticTest.{SystemCalls, IsObject, Follows, ChangesAt, Apart, store}
use pciedummy_driver.AutomaticTest.Contract.{word_of, IsCalm-user}
use pciedummy_driver.AutomaticTest.StructReaderWriter.{read_single, read_rounds, read_area}
use pciedummy_driver.AutomaticTest.StructRefines.{read_single_ends}

pub board_read-content :
    (b : Board) (bar offset w : ℕ)
    → board_read b bar offset ≡ some w
    → (w ≡ content b bar offset) × (offset < 4096)
unfolding board_read
board_read-content b bar offset w e = ground arith

bytes_of_word-u32 : (w : ℕ) → bytes_of_word (u32 w) ≡ bytes_of_word w
bytes_of_word-u32 w = ground arith

module _ {M : Type 0} ⦃host : Host M⦄ where
  WordsAt-same :
      (m m' : M) (buf n : ℕ) (f : ℕ → ℕ)
      → ((j : ℕ)
          → j < n
          → host.copy_from_user m' (buf + j * 4) 4 ≡ host.copy_from_user m (buf + j * 4) 4)
      → WordsAt m buf f n
      → WordsAt m' buf f n
  WordsAt-same m m' buf zero f same h = tt
  WordsAt-same m m' buf (suc n) f same h =
      (WordsAt-same m m' buf n f (λ j l. same j (omega arith)) h.0, same n (omega arith) ∙ h.1)

module _ {M : Type 0} ⦃host : Host M⦄ ⦃calls : SystemCalls M⦄ (i a : ℕ) (hi : i < 7)
    (reads : (file_ops_of i).read ≡ some with_struct)
    (writes : (file_ops_of i).write ≡ some with_struct) (object : IsObject host a 24)
    (offset bar buf total : ℕ) (hb : bar < 2 ^ 32) (buffer : IsObject host buf (total * 4))
    (apart : Apart a 24 buf (total * 4)) where
  Apart-word : (k : ℕ) → k < total → Apart a 24 (buf + k * 4) 4
  Apart-word k h = elim apart [ inl below ↦ inl (omega arith) | inr above ↦ inr (omega arith) ]

  module _ (b : Board) where
    abbrev words : ℕ → ℕ
    words j = content b bar (offset + j * 4)

    -- In `s` the first `k` words stand in the buffer, and the board is `b`.
    record Received (k : ℕ) (s : Sys M) : Type 0 where
      calm : IsCalm s
      board : board_of (s.devices i) ≡ b
      words_there : WordsAt s.user buf words k

    abbrev Elsewhere : Sys M → Sys M → Type 0
    Elsewhere s t =
        (c l : ℕ)
        → Apart a 24 c l
        → Apart buf (total * 4) c l
        → host.copy_from_user t.user c l ≡ host.copy_from_user s.user c l

    abbrev Read : ℕ → ℕ → Sys M → Bool → Sys M → Type 0
    Read n o s good t =
        (good ≡ board_readable b bar n o)
        × Follows i b s t
        × (good ≡ true → WordsAt t.user buf words total)
        × Elsewhere s t

    word-Received :
        (k o : ℕ) (s : Sys M)
        → Received k s
        → o ≡ offset + k * 4
        → o < 2 ^ 32
        → Ends
            (λ w t. (w ≡ word_of (board_read b bar o)) × Follows i b s t × ChangesAt a 24 s t)
            (read_single i a (u32 (offset + k * 4)) bar s)
    word-Received k o s h at small =
        Ends-mono (read_single i a (u32 (offset + k * 4)) bar s)
          (read_single_ends i a hi reads writes object (u32 (offset + k * 4)) bar s h.calm
            (omega arith) hb)
          λ w t (e, f, ch). (
            e ∙ cc (h.board, the_offset),
            record { calm = f.calm; control = f.control; board = f.board ∙ h.board },
            ch,
          )
      where
        the_offset : u32 (offset + k * 4) ≡ o
        the_offset = omega (arith, at, small)

    -- The state after a word was stored in the buffer.
    abbrev with_word : ℕ → ℕ → Sys M → Sys M
    with_word k w t = record t {
      user = (host.copy_to_user t.user (buf + k * 4) (bytes_of_word w)).0;
    }

    Received-next :
        (k : ℕ) (s t : Sys M)
        → k < total
        → Received k s
        → Follows i b s t
        → ChangesAt a 24 s t
        → Received (k + 1) (with_word k (words k) t)
    Received-next k s t below h f ch =
        let fits : (host.copy_to_user t.user (buf + k * 4) (bytes_of_word (words k))).1 ≡ 0 =
          buffer.writable t.user (buf + k * 4) (bytes_of_word (words k)) (omega arith)
            (omega arith) in
        record {
          calm = IsCalm-user t (with_word k (words k) t).user f.calm;
          board = f.board;
          words_there = rw add-one (
            WordsAt-outside t.user buf k (words k) words k (omega arith) (
                WordsAt-same s.user t.user buf k words
                  (λ j l. ch (buf + j * 4) 4 (Apart-word j (omega arith))) h.words_there),
            host.copied t.user (buf + k * 4) (bytes_of_word (words k)) (ground arith) fits,
          );
        }

    Read-after :
        (n k o : ℕ) (s t : Sys M) (good : Bool) (u : Sys M)
        → k < total
        → is_some (board_read b bar o) ≡ true
        → Follows i b s t
        → ChangesAt a 24 s t
        → Read n (o + 4) (with_word k (words k) t) good u
        → Read (suc n) o s good u
    unfolding board_readable
    Read-after n k o s t good u below here f ch (e, f', ws, el) = (
      rw here e,
      record { calm = f'.calm; control = f'.control ∙ f.control; board = f'.board },
      ws,
      λ c l p q.
          el c l p q
          ∙ host.outside t.user (buf + k * 4) c l (bytes_of_word (words k))
              (elim q [ inl under ↦ inl (omega arith) | inr over ↦ inr (omega arith) ])
          ∙ ch c l p,
    )

    read_rounds_ends :
        (n k o : ℕ) (s : Sys M)
        → Received k s
        → k + n ≡ total
        → o ≡ offset + k * 4
        → o < 2 ^ 32
        → Ends (Read n o s) (read_rounds i a n k offset bar buf s)
    unfolding read_rounds board_readable store
    read_rounds_ends zero k o s h e at small = (
      refl,
      record { calm = h.calm; control = refl; board = h.board },
      λ good. let all : total ≡ k = omega (arith, e) in rw all h.words_there,
      λ c l p q. refl,
    )
    read_rounds_ends (suc n) k o s h e at small =
        Ends-bind (Read (suc n) o s) (read_single i a (u32 (offset + k * 4)) bar s) _
          (word-Received k o s h at small)
          λ w t (e', f, ch). elim (Option-cases (board_read b bar o)) [
            | inl q ↦ rw (e', q) (rw q refl, f, λ absurd. ground arith, λ c l p r. ch c l p)
            | inr (v, q) ↦
                let good : is_some (board_read b bar o) ≡ true = rw q refl in
                let value : v ≡ words k =
                  (board_read-content b bar o v q).0 ∙ ap (content b bar) at in
                rw (e', q, bytes_of_word-u32 v, value)
                  (Ends-mono (read_rounds i a n (k + 1) offset bar buf (with_word k (words k) t))
                    (read_rounds_ends n (k + 1) (o + 4) (with_word k (words k) t)
                      (Received-next k s t (omega arith) h f ch) (omega arith) (omega (arith, at))
                      (omega (arith, (board_read-content b bar o v q).1)))
                    λ g u r. Read-after n k o s t g u (omega arith) good f ch r)
          ]

  pub read_area_ends :
      (s : Sys M)
      → IsCalm s
      → offset < 2 ^ 32
      → Ends (Read (board_of (s.devices i)) total offset s) (read_area i a offset bar total buf s)
  unfolding read_area
  read_area_ends s calm ho =
      read_rounds_ends (board_of (s.devices i)) total 0 offset s
        (record { calm = calm; board = refl; words_there = tt }) (omega arith) (omega arith) ho
