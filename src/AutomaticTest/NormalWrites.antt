-- ===== src/AutomaticTest/NormalWrites.antt =====
-- The writes of NormalReaderWriter.cc against the board.
use pciedummy_driver.Common.{
  ℕ, ◌+◌, ◌*◌, ◌^◌, ◌≤◌, ◌<◌, ◌≡◌, refl, sym, ◌∙◌, ap, Bool, inl, inr, Option, none, some, List,
  arith, ltb, Bool-cases,
}
use pciedummy_driver.Common.Bytes.{word_at, bytes_of_word, word_at-bytes_of_word}
use pciedummy_driver.Kernel.{Host, Sys}
use pciedummy_driver.Kernel.Laws.{Ends, Ends-mono, Ends-bind, IsCalm}
use pciedummy_driver.Files.{ReadWrite, file_ops_of, no_struct}
use pciedummy_driver.Driver.{write_file, handler_of, write_with}
use pciedummy_driver.Board.{Board, board_of, board_write, board_write_words}
use pciedummy_driver.Board.Areas.{one_word, board_write_words_refused}
use pciedummy_driver.NoStruct.WriteDma.{sent}
use pciedummy_driver.AutomaticTest.{
  SystemCalls, IsObject, Follows, ChangesAt, store, is_count, max_rw_count, pwrite_ends,
}
use pciedummy_driver.AutomaticTest.Contract.{IsCalm-user}
use pciedummy_driver.AutomaticTest.NormalPositions.{pos}
use pciedummy_driver.AutomaticTest.NormalReaderWriter.{write_area, write_single}
use pciedummy_driver.AutomaticTest.NormalWriteHandler.{AreaWritten, handler_ends}

module _ {M : Type 0} ⦃host : Host M⦄ ⦃calls : SystemCalls M⦄ (i value_at : ℕ) (hi : i < 7)
    (writes : (file_ops_of i).write ≡ some no_struct) where
  write_handler :
      (buf count start : ℕ)
      → handler_of {M = M} (write_file i buf count start)
        ≡ some (write_with no_struct i buf count start)
  unfolding handler_of
  write_handler buf count start =
      ap
        (λ (o : Option ReadWrite). elim o [
          | none ↦ none
          | some k ↦ some (write_with {M = M} k i buf count start)
        ])
        writes

  abbrev AreaStored : (offset bar n buf : ℕ) → Sys M → Bool → Sys M → Type 0
  AreaStored offset bar n buf s good t =
      let w =
        board_write_words host.version s.control.spi_error bar (sent s.user buf) n 0 offset
          (board_of (s.devices i)) in
      (good ≡ w.0) × Follows i w.1 s t × (t.user ≡ s.user)

  pub write_area_ends :
      (offset bar n buf : ℕ) (s : Sys M)
      → IsCalm s
      → offset < 2 ^ 32
      → 0 < n
      → n * 4 ≤ max_rw_count
      → IsObject host buf (n * 4)
      → Ends (AreaStored offset bar n buf s) (write_area i value_at offset bar n buf s)
  unfolding write_area
  write_area_ends offset bar n buf s calm ho some_word few buffer = elim (Bool-cases (ltb 5 bar)) [
    | inl big ↦
        let nothing =
          board_write_words_refused host.version s.control.spi_error bar (sent s.user buf) n 0
            offset (board_of (s.devices i)) some_word (ground arith) in
        rw big (
          sym (ap (λ (x : Bool × Board). x.0) nothing),
          record {
            calm = calm;
            control = refl;
            board = sym (ap (λ (x : Bool × Board). x.1) nothing);
          },
          refl,
        )
    | inr small ↦
        let hb : bar < 6 = ground arith in
        rw small (
          Ends-bind (AreaStored offset bar n buf s)
            (calls.pwrite i buf (n * 4) (pos bar offset hb ho) s) _
            (pwrite_ends i buf (n * 4) (pos bar offset hb ho)
              (write_with no_struct i buf (n * 4) (pos bar offset hb ho)) s few
              (omega (arith, few, hb, ho))
              (buffer.accessible s.user buf (n * 4) (omega arith) (omega arith))
              (AreaWritten i hi offset bar n buf s hb ho some_word few buffer calm)
              (write_handler buf (n * 4) (pos bar offset hb ho))
              (handler_ends i hi offset bar n buf s hb ho some_word few buffer calm))
            λ count t (a, h, q). (ap (λ (k : Option ℕ). is_count k (n * 4)) q ∙ h.0, h.1, h.2))
  ]

  -- The state when the value stands in memory.
  abbrev holding : ℕ → Sys M → Sys M
  holding value s = record s { user = (host.copy_to_user s.user value_at (bytes_of_word value)).0 }

  sent_value :
      (value : ℕ) (s : Sys M)
      → value < 2 ^ 32
      → IsObject host value_at 4
      → sent (holding value s).user value_at 0 ≡ value
  sent_value value s small object =
      let here : value_at + 0 * 4 ≡ value_at = omega arith in
      let fits : (host.copy_to_user s.user value_at (bytes_of_word value)).1 ≡ 0 =
        object.writable s.user value_at (bytes_of_word value) (omega arith) (omega arith) in
      let back = host.copied s.user value_at (bytes_of_word value) (ground arith) fits in
      ap (λ x. word_at (host.copy_from_user (holding value s).user x 4).0 0) here
      ∙ ap (λ (r : List ℕ × ℕ). word_at r.0 0) back
      ∙ word_at-bytes_of_word value small

  pub write_single_ends :
      (offset bar value : ℕ) (s : Sys M)
      → IsCalm s
      → offset < 2 ^ 32
      → value < 2 ^ 32
      → IsObject host value_at 4
      → let w =
          board_write host.version s.control.spi_error bar offset value (board_of (s.devices i)) in
        Ends
          (λ good t. (good ≡ w.0) × Follows i w.1 s t × ChangesAt value_at 4 s t)
          (write_single i value_at offset bar value s)
  unfolding write_single store
  write_single_ends offset bar value s calm ho hv object =
      let same =
        one_word host.version s.control.spi_error bar (sent (holding value s).user value_at) offset
          value (board_of (s.devices i)) (sent_value value s hv object) in
      Ends-mono (write_area i value_at offset bar 1 value_at (holding value s))
        (write_area_ends offset bar 1 value_at (holding value s)
          (IsCalm-user s (holding value s).user calm) ho (omega arith) (omega arith) object)
        λ good t (e, f, user). (
          e ∙ ap (λ (x : Bool × Board). x.0) same,
          record {
            calm = f.calm;
            control = f.control;
            board = f.board ∙ ap (λ (x : Bool × Board). x.1) same;
          },
          λ c l apart. rw user (host.outside s.user value_at c l (bytes_of_word value) apart),
        )
