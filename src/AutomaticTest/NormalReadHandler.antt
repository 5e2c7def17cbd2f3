-- ===== src/AutomaticTest/NormalReadHandler.antt =====
-- The handler of `pread` for the areas of NormalReaderWriter.cc, against the board.
use pciedummy_driver.Common.{
  ℕ, zero, suc, ◌+◌, ◌*◌, ◌/◌, ◌^◌, ◌≤◌, ◌<◌, ◌≡◌, refl, sym, ◌∙◌, ap, Bool, true, false, ◌&&◌, inl,
  inr, none, some, arith, ◌==◌, if◌then◌else◌, ltb, Bool-cases,
}
use mathlib.Core.Path.{subst}
use pciedummy_driver.Common.Bytes.{u32, word_at, bytes_of_word}
use pciedummy_driver.Kernel.{Ssize, error, efault, Host, Sys}
use pciedummy_driver.Kernel.Laws.{Ends, Ends-bind, IsCalm, count_of, is_restart}
use pciedummy_driver.Files.{no_struct}
use pciedummy_driver.Driver.{read_with}
use pciedummy_driver.Board.{Board, board_of, content, board_readable}
use pciedummy_driver.Board.Areas.{IsClip, board_readable_clip, board_readable_refused}
use pciedummy_driver.NoStruct.{read_words, mtca_dummy_read_no_struct}
use pciedummy_driver.NoStruct.Check.{is_addressable, transfer_at, position_bar, position_offset}
use pciedummy_driver.NoStruct.ReadLoop.{WordsAt, source}
use pciedummy_driver.NoStruct.ReadWords.{WordsRead}
use pciedummy_driver.NoStruct.Transfers.{
  words_at, with_transfer_rejects, transfer_at-InBar, mtca_dummy_read_no_struct-board_readable,
}
use pciedummy_driver.AutomaticTest.{IsObject, Follows, ChangesAt, is_count, max_rw_count}
use pciedummy_driver.AutomaticTest.Contract.{ReadsOnly-Follows}
use pciedummy_driver.AutomaticTest.NormalPositions.{
  pos, position_bar_lem, position_offset_lem, is_addressable_inside, is_addressable_outside,
  words_at-IsClip, same_count,
}

pub is_count_if :
    (good : Bool) (x y : ℕ) → is_count (if good then some x else none) y ≡ good && (x == y)
is_count_if true x y = refl
is_count_if false x y = refl

and_true : (a : Bool) (m n : ℕ) → (a && (m == n)) ≡ true → (a ≡ true) × (m ≡ n)
and_true a m n h = ground arith

pub word_of_bytes : (w : ℕ) → word_at (bytes_of_word w) 0 ≡ u32 w
word_of_bytes w = omega arith

pub no_such_bar :
    (n offset bar : ℕ) (b : Board)
    → 0 < n
    → ltb 5 bar ≡ true
    → board_readable b bar n offset ≡ false
no_such_bar n offset bar d some_word big =
    board_readable_refused d bar n offset some_word (ground arith)

pub false-true : false ≡ true → ⊥
false-true h = ground arith

module _ {M : Type 0} ⦃host : Host M⦄ where
  WordsAt-ext :
      (m : M) (buf n : ℕ) (f g : ℕ → ℕ)
      → ((j : ℕ) → f j ≡ g j)
      → WordsAt m buf f n
      → WordsAt m buf g n
  WordsAt-ext m buf zero f g same h = tt
  WordsAt-ext m buf (suc n) f g same h = (WordsAt-ext m buf n f g same h.0, rw (sym (same n)) h.1)

module _ {M : Type 0} ⦃host : Host M⦄ (i : ℕ) (hi : i < 7) (offset bar n buf : ℕ) (s : Sys M)
    (hb : bar < 6) (ho : offset < 2 ^ 32) (some_word : 0 < n) (few : n * 4 ≤ max_rw_count)
    (buffer : IsObject host buf (n * 4)) (calm : IsCalm s) where
  abbrev p : ℕ
  p = pos bar offset hb ho

  abbrev b : Board
  b = board_of (s.devices i)

  -- How the handler ends.
  abbrev pub AreaRead : Ssize → Sys M → Type 0
  AreaRead a t =
      (is_count (count_of a) (n * 4) ≡ board_readable b bar n offset)
      × Follows i b s t
      × (board_readable b bar n offset ≡ true
          → WordsAt t.user buf (λ j. content b bar (offset + j * 4)) n)
      × ChangesAt buf (n * 4) s t

  module _ (ad : is_addressable p ≡ true) where
    abbrev m : ℕ
    m = words_at (n * 4) p

    clip : IsClip bar m n offset
    clip = words_at-IsClip bar offset hb ho n ad

    readable_at :
        board_readable b (position_bar p) m (position_offset p) ≡ board_readable b bar m offset
    readable_at = cc (position_bar_lem bar offset hb ho, position_offset_lem bar offset hb ho)

    whole : board_readable b bar n offset ≡ board_readable b bar m offset && (m == n)
    whole = board_readable_clip b bar m n offset clip

    source-content :
        (j : ℕ) → source i buf p (transfer_at (n * 4) p) hi s j ≡ content b bar (offset + j * 4)
    source-content j = ground (
      arith,
      position_bar_lem bar offset hb ho,
      position_offset_lem bar offset hb ho,
      is_addressable_inside bar offset hb ho ad,
    )

    all :
        board_readable b bar m offset ≡ true
        → m ≡ n
        → (if board_readable b (position_bar p) m (position_offset p) then 0 + m else 0) ≡ n
    all good same = rw (readable_at, good) (omega (arith, same))

    accepted :
        (r : Ssize × ℕ) (t : Sys M)
        → WordsRead i buf p
            (transfer_at (n * 4) p)
            hi
            (transfer_at-InBar (n * 4) p ad)
            m
            0
            (position_offset p)
            s
            r
            t
        → AreaRead r.0 t
    accepted r t h = (
      rw (h.result, readable_at)
          (is_count_if (board_readable b bar m offset) (transfer_at (n * 4) p).n_bytes_to_transfer
              (n * 4)
            ∙ ap (λ (x : Bool). board_readable b bar m offset && x)
                (same_count bar offset hb ho n ad)
            ∙ sym whole),
      ReadsOnly-Follows i s t calm h.unchanged h.signals,
      λ good.
          let both = and_true (board_readable b bar m offset) m n (sym whole ∙ good) in
          WordsAt-ext t.user buf n (source i buf p (transfer_at (n * 4) p) hi s)
            (λ j. content b bar (offset + j * 4)) source-content
            (subst (WordsAt t.user buf (source i buf p (transfer_at (n * 4) p) hi s))
              (all both.0 both.1) h.words),
      λ c l apart.
          h.only c l (elim apart [ inl below ↦ inl below | inr above ↦ inr (omega (arith, clip)) ]),
    )

  pub handler_ends :
      Ends (λ a t. AreaRead a t × (is_restart a ≡ false)) (read_with no_struct i buf (n * 4) p s)
  unfolding read_with mtca_dummy_read_no_struct
  handler_ends = elim (Bool-cases (is_addressable p)) [
    | inl ad ↦
        Ends-bind (λ a t. AreaRead a t × (is_restart a ≡ false))
          (mtca_dummy_read_no_struct i buf (n * 4) p s) _
          (mtca_dummy_read_no_struct-board_readable i buf (n * 4) p s hi calm (omega (arith, few))
            (omega (arith, hb, ho)) (omega arith) ad
            λ m' c bs lo up.
              buffer.writable m' c bs lo (omega (arith, words_at-IsClip bar offset hb ho n ad)))
          λ r t h. (accepted ad r t h, h.restart)
    | inr bad ↦
        rw
          (with_transfer_rejects (λ c. c.read_error) i (n * 4) p
            (λ info. read_words (info.n_bytes_to_transfer / 4) 0 info i buf p) s calm.ready.free
            calm.no_signal calm.no_read_failure (omega (arith, few)) (ground arith))
          (refused bad)
  ]
    where
      refused :
          is_addressable p ≡ false → AreaRead (error efault) s × (is_restart (error efault) ≡ false)
      refused bad =
          let none_readable : board_readable b bar n offset ≡ false =
            board_readable_refused b bar n offset some_word
              (is_addressable_outside bar offset hb ho bad) in
          (
            (
              sym none_readable,
              record { calm = calm; control = refl; board = refl },
              (λ good. elim (false-true (sym none_readable ∙ good)) [ ]),
              λ c l apart. refl,
            ),
            refl,
          )
