-- ===== src/AutomaticTest/Runs.antt =====
-- Sequences of operations on a `ReaderWriter`, and the same sequences on the board.
use pciedummy_driver.Common.{
  ℕ, ◌+◌, ◌*◌, ◌^◌, ◌≤◌, ◌<◌, ◌≡◌, refl, sym, ◌∙◌, ap, Bool, Option, List, [], ◌∷◌, arith, inl, inr,
}
use pciedummy_driver.Common.Bytes.{word_at}
use pciedummy_driver.State.{MtcaDummyControl}
use pciedummy_driver.Kernel.{Host, Sys, Cmd, pure, ◌>>=◌}
use pciedummy_driver.Kernel.Laws.{Ends, Ends-bind, IsCalm}
use pciedummy_driver.Board.{Board, board_of, board_read, board_write, board_write_words}
use pciedummy_driver.Board.Areas.{board_write_words_same}
use pciedummy_driver.NoStruct.WriteDma.{sent}
use pciedummy_driver.AutomaticTest.{ReaderWriter, IsObject, Follows, ChangesAt, Apart, max_rw_count}
use pciedummy_driver.AutomaticTest.Contract.{Serves, word_of}

pub data Op : Type 0 where
  read_word : (offset bar : ℕ) → Op
  write_word : (offset bar value : ℕ) → Op
  write_buffer : (offset bar n_words buf : ℕ) → Op

pub data Reply : Type 0 where
  word : Option ℕ → Reply
  done : Bool → Reply

module _ {M : Type 0} where
  unfoldable pub perform : ReaderWriter M → Op → Cmd M Reply
  perform client (read_word offset bar) = do w ← client.read_single offset bar; pure (word w)
  perform client (write_word offset bar value) = do
    good ← client.write_single offset bar value
    pure (done good)
  perform client (write_buffer offset bar n_words buf) = do
    good ← client.write_area offset bar n_words buf
    pure (done good)

  unfoldable pub perform_all : ReaderWriter M → List Op → Cmd M (List Reply)
  perform_all client [] = pure []
  perform_all client (op ∷ ops) = do
    r ← perform client op
    rs ← perform_all client ops
    pure (r ∷ rs)

-- The numbers fit their C types; a buffer is one of the process and has no byte in common with
-- the `n` bytes of local objects from `a` on.
abbrev pub IsOp : {M : Type 0} → Host M → ℕ → ℕ → Op → Type 0
IsOp host a n (read_word offset bar) = (offset < 2 ^ 32) × (bar < 2 ^ 32)
IsOp host a n (write_word offset bar value) = (offset < 2 ^ 32) × (bar < 2 ^ 32) × (value < 2 ^ 32)
IsOp host a n (write_buffer offset bar n_words buf) =
    (offset < 2 ^ 32)
    × (bar < 2 ^ 32)
    × (0 < n_words)
    × (n_words * 4 ≤ max_rw_count)
    × IsObject host buf (n_words * 4)
    × (Apart a n buf (n_words * 4))

abbrev pub AreOps : {M : Type 0} → Host M → ℕ → ℕ → List Op → Type 0
AreOps host a n [] = Unit
AreOps host a n (op ∷ ops) = IsOp host a n op × AreOps host a n ops

module _ {M : Type 0} ⦃host : Host M⦄ where
  -- One operation on the board, with the buffers of memory `m`.
  unfoldable pub board_perform : Bool → M → Op → Board → Reply × Board
  board_perform spi m (read_word offset bar) b = (word (word_of (board_read b bar offset)), b)
  board_perform spi m (write_word offset bar value) b =
      let w = board_write host.version spi bar offset value b in (done w.0, w.1)
  board_perform spi m (write_buffer offset bar n_words buf) b =
      let w = board_write_words host.version spi bar (sent m buf) n_words 0 offset b in
      (done w.0, w.1)

  unfoldable pub board_perform_all : Bool → M → List Op → Board → List Reply × Board
  board_perform_all spi m [] b = ([], b)
  board_perform_all spi m (op ∷ ops) b =
      let (r, b') = board_perform spi m op b in
      let (rs, b'') = board_perform_all spi m ops b' in (r ∷ rs, b'')

  module _ (i a n : ℕ) (client : ReaderWriter M) (serves : Serves i a n client) where
    -- In `s` the board is `b` and the buffers are those of `m`.
    pub record Running (c : MtcaDummyControl) (m : M) (b : Board) (s : Sys M) : Type 0 where
      pub calm : IsCalm s
      pub control : s.control ≡ c
      pub board : board_of (s.devices i) ≡ b
      pub buffers : ChangesAt a n (record s { user = m }) s

    module _ (c : MtcaDummyControl) (m : M) where
      abbrev Performed : Reply × Board → Sys M → Reply → Sys M → Type 0
      Performed q s r t = (r ≡ q.0) × Running c m q.1 t

      Running-next :
          (b b' : Board) (s t : Sys M)
          → Running c m b s
          → Follows i b' s t
          → ChangesAt a n s t
          → Running c m b' t
      Running-next b b' s t h f ch = record {
        calm = f.calm;
        control = f.control ∙ h.control;
        board = f.board;
        buffers = λ l k apart. ch l k apart ∙ h.buffers l k apart;
      }

      same_words :
          (s : Sys M) (b : Board) (n_words buf : ℕ)
          → Running c m b s
          → Apart a n buf (n_words * 4)
          → (j : ℕ) → j < 0 + n_words
          → sent s.user buf j ≡ sent m buf j
      same_words s b n_words buf h apart j l =
          ap (λ (r : List ℕ × ℕ). word_at r.0 0)
            (h.buffers (buf + j * 4) 4
              (elim apart [ inl below ↦ inl (omega arith) | inr above ↦ inr (omega arith) ]))

      moved : {b b' : Board} {s t : Sys M} → b ≡ b' → Follows i b s t → Follows i b' s t
      moved e f = record { calm = f.calm; control = f.control; board = f.board ∙ e }

      word_same :
          (offset bar value : ℕ) (b : Board) (s : Sys M)
          → Running c m b s
          → board_write host.version s.control.spi_error bar offset value (board_of (s.devices i))
            ≡ board_write host.version c.spi_error bar offset value b
      word_same offset bar value b s h = cc (h.control, h.board)

      area_same :
          (offset bar n_words buf : ℕ) (b : Board) (s : Sys M)
          → Running c m b s
          → Apart a n buf (n_words * 4)
          → board_write_words host.version s.control.spi_error bar
              (sent s.user buf)
              n_words
              0
              offset
              (board_of (s.devices i))
            ≡ board_write_words host.version c.spi_error bar (sent m buf) n_words 0 offset b
      area_same offset bar n_words buf b s h apart =
          board_write_words_same host.version s.control.spi_error bar (sent s.user buf) (sent m buf)
            n_words 0 offset (board_of (s.devices i)) (same_words s b n_words buf h apart)
          ∙ cc (h.control, h.board)

      perform_ends :
          (op : Op) (b : Board) (s : Sys M)
          → Running c m b s
          → IsOp host a n op
          → Ends (Performed (board_perform c.spi_error m op b) s) (perform client op s)
      unfolding perform board_perform
      perform_ends (read_word offset bar) b s h (ho, hb) =
          Ends-bind (Performed (board_perform c.spi_error m (read_word offset bar) b) s)
            (client.read_single offset bar s) _ (serves.reads_single offset bar s h.calm ho hb)
            λ w t (e, f, ch). (rw (e, h.board) refl, Running-next b b s t h (rw (sym h.board) f) ch)
      perform_ends (write_word offset bar value) b s h (ho, hb, hv) =
          Ends-bind (Performed (board_perform c.spi_error m (write_word offset bar value) b) s)
            (client.write_single offset bar value s) _
            (serves.writes_single offset bar value s h.calm ho hb hv)
            λ good t (e, f, ch).
              let same = word_same offset bar value b s h in
              (
                ap done (e ∙ ap (λ (w : Bool × Board). w.0) same),
                Running-next b (board_write host.version c.spi_error bar offset value b).1 s t h
                    (moved (ap (λ (w : Bool × Board). w.1) same) f) ch,
              )
      perform_ends (write_buffer offset bar n_words buf) b s h (ho, hb, hn, hm, object, apart) =
          Ends-bind
            (Performed (board_perform c.spi_error m (write_buffer offset bar n_words buf) b) s)
            (client.write_area offset bar n_words buf s) _
            (serves.writes_area offset bar n_words buf s h.calm ho hb hn hm object apart)
            λ good t (e, f, ch).
              let same = area_same offset bar n_words buf b s h apart in
              (
                ap done (e ∙ ap (λ (w : Bool × Board). w.0) same),
                Running-next b
                    (board_write_words host.version c.spi_error bar (sent m buf) n_words 0 offset
                      b).1
                    s t h (moved (ap (λ (w : Bool × Board). w.1) same) f) ch,
              )

      pub perform_all_ends :
          (ops : List Op) (b : Board) (s : Sys M)
          → Running c m b s
          → AreOps host a n ops
          → Ends
              (λ rs t.
                (rs ≡ (board_perform_all c.spi_error m ops b).0)
                × Running c m (board_perform_all c.spi_error m ops b).1 t)
              (perform_all client ops s)
      unfolding perform_all board_perform_all
      perform_all_ends [] b s h fit = (refl, h)
      perform_all_ends (op ∷ ops) b s h (fit, fits) =
          let b' : Board = (board_perform c.spi_error m op b).1 in
          Ends-bind _ (perform client op s) _ (perform_ends op b s h fit) λ r t (e, h').
            Ends-bind _ (perform_all client ops t) _ (perform_all_ends ops b' t h' fits)
              λ rs u (e', h''). (rw (e, e') refl, h'')
