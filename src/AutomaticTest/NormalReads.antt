-- ===== src/AutomaticTest/NormalReads.antt =====
-- The reads of NormalReaderWriter.cc against the board.
use pciedummy_driver.Common.{
  ℕ, ◌+◌, ◌*◌, ◌^◌, ◌≤◌, ◌<◌, ◌≡◌, refl, sym, ◌∙◌, ap, Bool, true, false, inl, inr, Option, none,
  some, List, arith, if◌then◌else◌, ltb, Bool-cases, Option-cases,
}
use pciedummy_driver.Common.Bytes.{word_at, bytes_of_word}
use pciedummy_driver.Kernel.{Host, Sys}
use pciedummy_driver.Kernel.Laws.{Ends, Ends-bind, IsCalm}
use pciedummy_driver.Files.{ReadWrite, file_ops_of, no_struct}
use pciedummy_driver.Driver.{read_file, handler_of, read_with}
use pciedummy_driver.Board.{board_of, content, board_read, board_readable}
use pciedummy_driver.NoStruct.ReadLoop.{WordsAt}
use pciedummy_driver.AutomaticTest.{
  SystemCalls, IsObject, Follows, ChangesAt, Ends-if, load, is_count, max_rw_count, pread_ends,
}
use pciedummy_driver.AutomaticTest.Contract.{word_of}
use pciedummy_driver.AutomaticTest.StructReadArea.{board_read-content}
use pciedummy_driver.AutomaticTest.NormalPositions.{pos}
use pciedummy_driver.AutomaticTest.NormalReaderWriter.{read_area, read_single}
use pciedummy_driver.AutomaticTest.NormalReadHandler.{
  false-true, word_of_bytes, no_such_bar, AreaRead, handler_ends,
}

module _ {M : Type 0} ⦃host : Host M⦄ ⦃calls : SystemCalls M⦄ (i value_at : ℕ) (hi : i < 7)
    (reads : (file_ops_of i).read ≡ some no_struct) where
  -- Reading an area, the outcome as a flag.
  abbrev pub AreaServed : (offset bar n buf : ℕ) → Sys M → Bool → Sys M → Type 0
  AreaServed offset bar n buf s good t =
      let b = board_of (s.devices i) in
      (good ≡ board_readable b bar n offset)
      × Follows i b s t
      × (good ≡ true → WordsAt t.user buf (λ j. content b bar (offset + j * 4)) n)
      × ChangesAt buf (n * 4) s t

  read_handler :
      (buf count start : ℕ)
      → handler_of {M = M} (read_file i buf count start)
        ≡ some (read_with no_struct i buf count start)
  unfolding handler_of
  read_handler buf count start =
      ap
        (λ (o : Option ReadWrite). elim o [
          | none ↦ none
          | some k ↦ some (read_with {M = M} k i buf count start)
        ])
        reads

  pub read_area_ends :
      (offset bar n buf : ℕ) (s : Sys M)
      → IsCalm s
      → offset < 2 ^ 32
      → 0 < n
      → n * 4 ≤ max_rw_count
      → IsObject host buf (n * 4)
      → Ends (AreaServed offset bar n buf s) (read_area i value_at offset bar n buf s)
  unfolding read_area
  read_area_ends offset bar n buf s calm ho some_word few buffer = elim (Bool-cases (ltb 5 bar)) [
    | inl big ↦
        let outside = no_such_bar n offset bar (board_of (s.devices i)) some_word big in
        rw big (
          sym outside,
          record { calm = calm; control = refl; board = refl },
          (λ good. elim (false-true good) [ ]),
          λ c l apart. refl,
        )
    | inr small ↦
        let hb : bar < 6 = ground arith in
        rw small (
          Ends-bind (AreaServed offset bar n buf s)
            (calls.pread i buf (n * 4) (pos bar offset hb ho) s) _
            (pread_ends i buf (n * 4) (pos bar offset hb ho)
              (read_with no_struct i buf (n * 4) (pos bar offset hb ho)) s few
              (omega (arith, few, hb, ho))
              (buffer.accessible s.user buf (n * 4) (omega arith) (omega arith))
              (AreaRead i hi offset bar n buf s hb ho some_word few buffer calm)
              (read_handler buf (n * 4) (pos bar offset hb ho))
              (handler_ends i hi offset bar n buf s hb ho some_word few buffer calm))
            λ count t (a, h, q).
              let good : is_count count (n * 4)
                  ≡ board_readable (board_of (s.devices i)) bar n offset =
                ap (λ (k : Option ℕ). is_count k (n * 4)) q ∙ h.0 in
              (good, h.1, (λ yes. h.2 (sym good ∙ yes)), h.3))
  ]

  value_outcome :
      (offset bar : ℕ) (s t : Sys M) (good : Bool)
      → AreaServed offset bar 1 value_at s good t
      → (if good then some (word_at (host.copy_from_user t.user value_at 4).0 0) else none)
        ≡ word_of (board_read (board_of (s.devices i)) bar offset)
  unfolding board_readable
  value_outcome offset bar s t good (e, f, ws, ch) =
      elim (Option-cases (board_read (board_of (s.devices i)) bar offset)) [
        | inl q ↦ let bad : good ≡ false = e ∙ rw q refl in rw (bad, q) refl
        | inr (v, q) ↦
            let yes : good ≡ true = e ∙ rw q refl in
            let same : v ≡ content (board_of (s.devices i)) bar offset =
              (board_read-content (board_of (s.devices i)) bar offset v q).0 in
            let here : value_at + 0 * 4 ≡ value_at = omega arith in
            let start : offset + 0 * 4 ≡ offset = omega arith in
            rw (yes, q)
              (ap some (
                ap (λ (r : List ℕ × ℕ). word_at r.0 0)
                  (sym (ap (λ x. host.copy_from_user t.user x 4) here)
                    ∙ (ws yes).1
                    ∙ ap (λ x. (bytes_of_word x, 0))
                        (ap (content (board_of (s.devices i)) bar) start ∙ sym same))
                ∙ word_of_bytes v))
      ]

  pub read_single_ends :
      (offset bar : ℕ) (s : Sys M)
      → IsCalm s
      → offset < 2 ^ 32
      → IsObject host value_at 4
      → Ends
          (λ w t.
            (w ≡ word_of (board_read (board_of (s.devices i)) bar offset))
            × Follows i (board_of (s.devices i)) s t
            × ChangesAt value_at 4 s t)
          (read_single i value_at offset bar s)
  unfolding read_single load
  read_single_ends offset bar s calm ho object =
      let P : Option ℕ → Sys M → Type 0 = λ w t.
        (w ≡ word_of (board_read (board_of (s.devices i)) bar offset))
        × Follows i (board_of (s.devices i)) s t
        × ChangesAt value_at 4 s t in
      Ends-bind P (read_area i value_at offset bar 1 value_at s) _
        (read_area_ends offset bar 1 value_at s calm ho (omega arith) (omega arith) object)
        λ good t h.
          Ends-if P good (some (word_at (host.copy_from_user t.user value_at 4).0 0)) none t
            (value_outcome offset bar s t good h, h.1, h.3)
