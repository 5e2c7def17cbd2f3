-- ===== src/Board/Areas.antt =====
-- Areas of the board that reach over the end of a bar.
use pciedummy_driver.Common.{
  ℕ, zero, suc, ◌+◌, ◌*◌, ◌<◌, ◌≡◌, refl, Bool, false, ◌&&◌, arith, ◌==◌, inl, inr, Bool-cases, ◌⊎◌,
  eqb_of_ne,
}
use pciedummy_driver.Kernel.{Version}
use pciedummy_driver.Board.{
  Board, extent, is_word, is_some, board_read, board_write, board_readable, board_write_words,
}

-- Of `n` words, `m` are before the end of the bar.
abbrev pub IsClip : ℕ → ℕ → ℕ → ℕ → Type 0
IsClip bar m n offset = (m ≡ n) ⊎ ((m < n) × (offset + m * 4 ≡ extent bar))

is_some_inside :
    (b : Board) (bar offset : ℕ)
    → is_word bar offset ≡ false
    → is_some (board_read b bar offset) ≡ false
unfolding board_read
is_some_inside b bar offset e = ground arith

pub board_readable_clip :
    (b : Board) (bar m n offset : ℕ)
    → IsClip bar m n offset
    → board_readable b bar n offset ≡ board_readable b bar m offset && (m == n)
unfolding board_readable
board_readable_clip b bar zero zero offset h = refl
board_readable_clip b bar zero (suc n) offset h =
    let outside : is_word bar offset ≡ false = ground (arith, h) in
    rw (is_some_inside b bar offset outside, eqb_of_ne 0 (suc n) (omega arith)) refl
board_readable_clip b bar (suc m) zero offset h = ground (arith, h)
board_readable_clip b bar (suc m) (suc n) offset h =
    let next : IsClip bar m n (offset + 4) = elim h [
      | inl e ↦ inl (omega arith)
      | inr (l, e) ↦ inr (omega (arith, l), omega (arith, e))
    ] in
    let later = board_readable_clip b bar m n (offset + 4) next in ground (arith, later)

same_suc : (m n : ℕ) → (suc m == suc n) ≡ (m == n)
same_suc m n = ground arith

board_write_outside :
    (v : Version) (spi : Bool) (bar offset x : ℕ) (b : Board)
    → is_word bar offset ≡ false
    → board_write v spi bar offset x b ≡ (false, b)
unfolding board_write
board_write_outside v spi bar offset x b e = rw e refl

pub board_write_words_clip :
    (v : Version) (spi : Bool) (bar : ℕ) (f : ℕ → ℕ) (m n k offset : ℕ) (b : Board)
    → IsClip bar m n offset
    → let w = board_write_words v spi bar f m k offset b in
      board_write_words v spi bar f n k offset b ≡ (w.0 && (m == n), w.1)
unfolding board_write_words
board_write_words_clip v spi bar f zero zero k offset b h = refl
board_write_words_clip v spi bar f zero (suc n) k offset b h =
    let outside : is_word bar offset ≡ false = ground (arith, h) in
    rw (board_write_outside v spi bar offset (f k) b outside, eqb_of_ne 0 (suc n) (omega arith))
      refl
board_write_words_clip v spi bar f (suc m) zero k offset b h = ground (arith, h)
board_write_words_clip v spi bar f (suc m) (suc n) k offset b h =
    let next : IsClip bar m n (offset + 4) = elim h [
      | inl e ↦ inl (omega arith)
      | inr (l, e) ↦ inr (omega (arith, l), omega (arith, e))
    ] in
    let w : Bool × Board = board_write v spi bar offset (f k) b in
    let later = board_write_words_clip v spi bar f m n (k + 1) (offset + 4) w.1 next in
    elim (Bool-cases w.0) [ inl good ↦ rw (good, later, same_suc m n) refl | inr bad ↦ rw bad refl ]

pub board_readable_refused :
    (b : Board) (bar n offset : ℕ)
    → 0 < n
    → is_word bar offset ≡ false
    → board_readable b bar n offset ≡ false
unfolding board_readable
board_readable_refused b bar zero offset h e = ground arith
board_readable_refused b bar (suc n) offset h e = rw (is_some_inside b bar offset e) refl

pub board_write_words_refused :
    (v : Version) (spi : Bool) (bar : ℕ) (f : ℕ → ℕ) (n k offset : ℕ) (b : Board)
    → 0 < n
    → is_word bar offset ≡ false
    → board_write_words v spi bar f n k offset b ≡ (false, b)
unfolding board_write_words
board_write_words_refused v spi bar f zero k offset b h e = ground arith
board_write_words_refused v spi bar f (suc n) k offset b h e =
    rw (board_write_outside v spi bar offset (f k) b e) refl

pub one_word :
    (v : Version) (spi : Bool) (bar : ℕ) (f : ℕ → ℕ) (offset x : ℕ) (b : Board)
    → f 0 ≡ x
    → board_write_words v spi bar f 1 0 offset b ≡ board_write v spi bar offset x b
unfolding board_write_words
one_word v spi bar f offset x b e = elim (Bool-cases (board_write v spi bar offset x b).0) [
  | inl good ↦ rw (e, good) refl
  | inr bad ↦ rw (e, bad) refl
]

-- Only the words that are written count.
pub board_write_words_same :
    (v : Version) (spi : Bool) (bar : ℕ) (f g : ℕ → ℕ) (n k offset : ℕ) (b : Board)
    → ((j : ℕ) → j < k + n → f j ≡ g j)
    → board_write_words v spi bar f n k offset b ≡ board_write_words v spi bar g n k offset b
unfolding board_write_words
board_write_words_same v spi bar f g zero k offset b same = refl
board_write_words_same v spi bar f g (suc n) k offset b same =
    rw
      (
        same k (omega arith),
        board_write_words_same v spi bar f g n (k + 1) (offset + 4)
            (board_write v spi bar offset (g k) b).1 (λ j l. same j (omega arith)),
      )
      refl
