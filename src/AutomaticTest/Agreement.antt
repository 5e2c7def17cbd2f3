-- ===== src/AutomaticTest/Agreement.antt =====
-- Sequences of operations on both classes.
use pciedummy_driver.Common.{ℕ, ◌<◌, ◌≡◌, refl, sym, ◌∙◌, ap, some, List}
use pciedummy_driver.Kernel.{Host, Sys}
use pciedummy_driver.Kernel.Laws.{Ends, Ends-mono, IsCalm}
use pciedummy_driver.Files.{file_ops_of, with_struct, no_struct}
use pciedummy_driver.Board.{Board, board_of}
use pciedummy_driver.AutomaticTest.{ReaderWriter, SystemCalls, IsObject}
use pciedummy_driver.AutomaticTest.Contract.{Serves}
use pciedummy_driver.AutomaticTest.StructReaderWriter.{struct_reader_writer}
use pciedummy_driver.AutomaticTest.StructServes.{struct_reader_writer-Serves}
use pciedummy_driver.AutomaticTest.NormalReaderWriter.{normal_reader_writer}
use pciedummy_driver.AutomaticTest.NormalServes.{normal_reader_writer-Serves}
use pciedummy_driver.AutomaticTest.Runs.{
  Op, Reply, AreOps, perform_all, board_perform_all, perform_all_ends,
}

module _ {M : Type 0} ⦃host : Host M⦄ ⦃calls : SystemCalls M⦄ where
  abbrev pub board_run : ℕ → List Op → Sys M → List Reply × Board
  board_run i ops s = board_perform_all s.control.spi_error s.user ops (board_of (s.devices i))

  client_runs :
      (i a n : ℕ) (client : ReaderWriter M) (ops : List Op) (s : Sys M)
      → Serves i a n client
      → IsCalm s
      → AreOps host a n ops
      → Ends
          (λ rs t. (rs ≡ (board_run i ops s).0) × (board_of (t.devices i) ≡ (board_run i ops s).1))
          (perform_all client ops s)
  client_runs i a n client ops s serves calm fit =
      Ends-mono (perform_all client ops s)
        (perform_all_ends i a n client serves s.control s.user ops (board_of (s.devices i)) s
          (record { calm = calm; control = refl; board = refl; buffers = λ l k apart. refl }) fit)
        λ rs t h. (h.0, h.1.board)

  -- On a device below 7 whose table has the handlers with structures, in a calm state (IsCalm) and
  -- with its structure an object of the process, a StructReaderWriter answers every fit sequence
  -- (AreOps) of reads and writes of words and writes of buffers as the board does, and the device's
  -- bars are afterwards those of the board.
  pub struct_reader_writer-board_perform_all :
      (i a : ℕ) (ops : List Op) (s : Sys M)
      → i < 7
      → (file_ops_of i).read ≡ some with_struct
      → (file_ops_of i).write ≡ some with_struct
      → IsObject host a 24
      → IsCalm s
      → AreOps host a 24 ops
      → Ends
          (λ rs t. (rs ≡ (board_run i ops s).0) × (board_of (t.devices i) ≡ (board_run i ops s).1))
          (perform_all (struct_reader_writer i a) ops s)
  struct_reader_writer-board_perform_all i a ops s hi reads writes object calm fit =
      client_runs i a 24 (struct_reader_writer i a) ops s
        (struct_reader_writer-Serves i a hi reads writes object) calm fit

  -- On a device below 7 whose table has the handlers without structures, in a calm state (IsCalm)
  -- and with its local word an object of the process, a NormalReaderWriter answers every fit
  -- sequence (AreOps) of reads and writes of words and writes of buffers as the board does, also
  -- where a buffer reaches over the end of a bar, and the device's bars are afterwards those of the
  -- board.
  pub normal_reader_writer-board_perform_all :
      (i a : ℕ) (ops : List Op) (s : Sys M)
      → i < 7
      → (file_ops_of i).read ≡ some no_struct
      → (file_ops_of i).write ≡ some no_struct
      → IsObject host a 4
      → IsCalm s
      → AreOps host a 4 ops
      → Ends
          (λ rs t. (rs ≡ (board_run i ops s).0) × (board_of (t.devices i) ≡ (board_run i ops s).1))
          (perform_all (normal_reader_writer i a) ops s)
  normal_reader_writer-board_perform_all i a ops s hi reads writes object calm fit =
      client_runs i a 4 (normal_reader_writer i a) ops s
        (normal_reader_writer-Serves i a hi reads writes object) calm fit

  -- A StructReaderWriter on a device with structures and a NormalReaderWriter on a device without,
  -- both below 7 and in calm states (IsCalm), with the same board, memory and injected SPI failure,
  -- with their local objects those of the process, give the same words and exceptions for every
  -- sequence of reads and writes of words and writes of buffers that is fit for both (AreOps), and
  -- leave the same board.
  pub struct_reader_writer-normal_reader_writer :
      (i j a a' : ℕ) (ops : List Op) (s s' : Sys M)
      → i < 7
      → j < 7
      → (file_ops_of i).read ≡ some with_struct
      → (file_ops_of i).write ≡ some with_struct
      → (file_ops_of j).read ≡ some no_struct
      → (file_ops_of j).write ≡ some no_struct
      → IsObject host a 24
      → IsObject host a' 4
      → IsCalm s
      → IsCalm s'
      → AreOps host a 24 ops
      → AreOps host a' 4 ops
      → s.control.spi_error ≡ s'.control.spi_error
      → s.user ≡ s'.user
      → board_of (s.devices i) ≡ board_of (s'.devices j)
      → Ends
          (λ rs t.
            Ends
              (λ rs' t'. (rs ≡ rs') × (board_of (t.devices i) ≡ board_of (t'.devices j)))
              (perform_all (normal_reader_writer j a') ops s'))
          (perform_all (struct_reader_writer i a) ops s)
  struct_reader_writer-normal_reader_writer i j a a' ops s s' hi hj ri wi rj wj oi oj calm calm' fit
        fit' spi user board =
      Ends-mono (perform_all (struct_reader_writer i a) ops s)
        (struct_reader_writer-board_perform_all i a ops s hi ri wi oi calm fit)
        λ rs t h.
          Ends-mono (perform_all (normal_reader_writer j a') ops s')
            (normal_reader_writer-board_perform_all j a' ops s' hj rj wj oj calm' fit')
            λ rs' t' h'. (
              h.0 ∙ ap (λ (q : List Reply × Board). q.0) same ∙ sym h'.0,
              h.1 ∙ ap (λ (q : List Reply × Board). q.1) same ∙ sym h'.1,
            )
    where
      same : board_run i ops s ≡ board_run j ops s'
      same = cc (spi, user, board)
